-- ===== src/Executor/Runs.antt =====
-- executor.py: what a run of execute() asks of the host, and when it reports success.
use mathlib.Core.Path.{subst}
use thearchivist.Prelude.{
  ℕ, zero, suc, ◌+◌, ◌*◌, ◌≡◌, refl, inl, inr, String, Bool, true, false, Option, none, some, ltb,
  Bool-cases, key_error, Error, Result, ok, raise,
}
use thearchivist.Registry.{HostConfig}
use thearchivist.Executor.{
  Machine, Line, is_zero, gate, healthy, rest_of, poll, timeout_of, verify, execute_at, execute_on,
  execute, verified, failed_text, map_option,
}

some-injective {ℓ} : {A : Type ℓ} {x y : A} → some x ≡ some y → x ≡ y
some-injective e = cc

-- The loop of verify() as it is written: the way from the head of the loop to what it returns.
pub data Polled {W : Type 0} (m : Machine W) (h : HostConfig) (ip : String) (deadline : ℕ)
    : Line W → Result Bool × Line W → Type 0 where
  late :
      {l : Line W} → ltb (m.clock l.world) deadline ≡ false → Polled m h ip deadline l (ok false, l)
  healthy_now :
      {l after : Line W}
      → ltb (m.clock l.world) deadline ≡ true
      → healthy m h ip l ≡ (ok true, after)
      → Polled m h ip deadline l (ok true, after)
  escaped :
      {l after : Line W} {e : Error}
      → ltb (m.clock l.world) deadline ≡ true
      → healthy m h ip l ≡ (raise e, after)
      → Polled m h ip deadline l (raise e, after)
  again :
      {l after : Line W} {r : Result Bool × Line W}
      → ltb (m.clock l.world) deadline ≡ true
      → healthy m h ip l ≡ (ok false, after)
      → Polled m h ip deadline (record after { world = m.sleep 3 after.world }) r
      → Polled m h ip deadline l r

module _ {W : Type 0} (m : Machine W) (h : HostConfig) (ip : String) (deadline : ℕ) where
  after_round :
      (n : ℕ) (l : Line W) (p r : Result Bool × Line W)
      → ltb (m.clock l.world) deadline ≡ true
      → ((next : Line W) → poll m h ip deadline n next ≡ some r → Polled m h ip deadline next r)
      → healthy m h ip l ≡ p
      → rest_of m (poll m h ip deadline n) p ≡ some r
      → Polled m h ip deadline l r
  after_round n l (raise e, after) r early rest round end =
      subst (Polled m h ip deadline l) (some-injective end) (escaped early round)
  after_round n l (ok true, after) r early rest round end =
      subst (Polled m h ip deadline l) (some-injective end) (healthy_now early round)
  after_round n l (ok false, after) r early rest round end = again early round (rest _ end)

  -- The loop on fuel goes the way of the loop that is written.
  poll-Polled :
      (n : ℕ) (l : Line W) (r : Result Bool × Line W)
      → poll m h ip deadline n l ≡ some r
      → Polled m h ip deadline l r
  unfolding poll
  poll-Polled zero l r end = cc
  poll-Polled (suc n) l r end = elim (Bool-cases (ltb (m.clock l.world) deadline)) [
    | inl early ↦
        after_round n l (healthy m h ip l) r early (λ next e. poll-Polled n next r e) refl
          (rw early at end)
    | inr over ↦ subst (Polled m h ip deadline l) (some-injective (rw over at end)) (late over)
  ]

map_option-some {κ ℓ} :
    {A : Type κ} {B : Type ℓ} (f : A → B) (o : Option A) {b : B}
    → map_option f o ≡ some b
    → (a : A) × (o ≡ some a) × (f a ≡ b)
map_option-some f none e = cc
map_option-some f (some a) e = (a, refl, some-injective e)

-- A run of execute() as it is written.
pub data Ran {W : Type 0} (m : Machine W) (h : HostConfig) (verb : String) (l : Line W)
    : Result (Bool × String) × Line W → Type 0 where
  nowhere : h.ip ≡ none → Ran m h verb l (raise key_error, l)
  refused :
      {ip : String}
      → h.ip ≡ some ip
      → is_zero (gate m ip verb 60 l).0.0 ≡ false
      → Ran m h verb l (
        ok (false, failed_text m verb (gate m ip verb 60 l).0.0 (gate m ip verb 60 l).0.1),
        (gate m ip verb 60 l).1,
      )
  carried :
      {ip : String} {v : Result Bool × Line W}
      → h.ip ≡ some ip
      → is_zero (gate m ip verb 60 l).0.0 ≡ true
      → Polled m h ip
          (m.clock (gate m ip verb 60 l).1.world + 1000 * timeout_of h)
          (gate m ip verb 60 l).1
          v
      → Ran m h verb l (verified m h verb (m.clock l.world) v)

module _ {W : Type 0} (m : Machine W) (h : HostConfig) (verb : String) (l : Line W)
    (r : Result (Bool × String) × Line W) where
  execute_at-Ran :
      (ip : String) → h.ip ≡ some ip → execute_at m h ip verb l ≡ some r → Ran m h verb l r
  unfolding execute_at verify
  execute_at-Ran ip given end = elim (Bool-cases (is_zero (gate m ip verb 60 l).0.0)) [
    | inl done ↦
        let (v, polled, e) =
          map_option-some (verified m h verb (m.clock l.world))
            (verify m h ip (gate m ip verb 60 l).1) (rw done at end) in
        subst (Ran m h verb l) e
          (carried given done (poll-Polled m h ip _ (suc (1000 * timeout_of h)) _ v polled))
    | inr failed ↦ subst (Ran m h verb l) (some-injective (rw failed at end)) (refused given failed)
  ]

  execute_on-Ran :
      (o : Option String) → h.ip ≡ o → execute_on m h o verb l ≡ some r → Ran m h verb l r
  unfolding execute_on
  execute_on-Ran none missing end = subst (Ran m h verb l) (some-injective end) (nowhere missing)
  execute_on-Ran (some ip) given end = execute_at-Ran ip given end

  -- execute() on the model's fuel goes the way of the program that is written, where it returns.
  pub execute-Ran : execute m h verb l ≡ some r → Ran m h verb l r
  unfolding execute
  execute-Ran end = execute_on-Ran h.ip refl end
