-- ===== src/Executor/Bounds.antt =====
-- executor.py: the loop of verify() ends, on a machine whose clock does not go back.
use thearchivist.Prelude.{
  ℕ, zero, suc, ◌+◌, ◌*◌, ◌≤◌, ◌≡◌, ◌⊎◌, refl, ap, inl, inr, String, Bool, true, false, Option,
  none, some, arith, ltb, str_eq, Bool-cases, key_error, Result, ok, raise,
}
use thearchivist.Registry.{HostConfig}
use thearchivist.Executor.{
  Machine, Line, is_zero, gate, unit_active, http_ok, page_ok, healthy, rest_of, poll, timeout_of,
  verify, execute_at, execute_on, execute, or_else, verified, failed_text,
}

-- time.sleep() sleeps as long as it is told at least, and time.monotonic() never goes back.
pub record Forward {W : Type 0} (m : Machine W) : Type 0 where
  pub sleep_forward : (s : ℕ) (w : W) → m.clock w + 1000 * s ≤ m.clock (m.sleep s w)
  pub ssh_forward :
      (ip verb : String) (timeout : ℕ) (w : W) → m.clock w ≤ m.clock (m.ssh ip verb timeout w).1
  pub fetch_forward : (url : String) (w : W) → m.clock w ≤ m.clock (m.fetch url w).1

late : (deadline now : ℕ) → deadline ≤ now + 0 → ltb now deadline ≡ false
late deadline now enough = ground (arith, enough)

module _ {W : Type 0} (m : Machine W) where
  -- A round either ends the loop, whatever would follow, or finds the service not ready.
  checked :
      (p : Result Bool × Line W)
      → ((r : Result Bool × Line W) × ((again : Line W → Option (Result Bool × Line W))
            → rest_of m again p ≡ some r))
        ⊎ ((after : Line W) × (p ≡ (ok false, after)))
  checked (raise e, l) = inl ((raise e, l), λ again. refl)
  checked (ok true, l) = inl ((ok true, l), λ again. refl)
  checked (ok false, l) = inr (l, refl)

module _ {W : Type 0} (m : Machine W) (forward : Forward m) where
  page_ok-forward :
      (url : Option String) (expect : String) (l : Line W)
      → m.clock l.world ≤ m.clock (page_ok m url expect l).1.world
  unfolding http_ok
  page_ok-forward none expect l = ground arith
  page_ok-forward (some url) expect l = elim (Bool-cases (str_eq url "")) [
    | inl empty ↦ rw empty (ground arith)
    | inr given ↦ rw given (forward.fetch_forward url l.world)
  ]

  healthy-forward :
      (h : HostConfig) (ip : String) (l : Line W)
      → m.clock l.world ≤ m.clock (healthy m h ip l).1.world
  unfolding healthy unit_active
  healthy-forward h ip l = elim (Bool-cases (unit_active m ip l).0) [
    | inl up ↦ rw up (
        ground (
          arith,
          forward.ssh_forward ip "status" 30 l.world,
          page_ok-forward h.verify_url (or_else "" h.verify_expect) (unit_active m ip l).1,
        ))
    | inr down ↦ rw down (forward.ssh_forward ip "status" 30 l.world)
  ]

  -- A round that goes on takes three seconds at least.
  pub round-forward :
      (h : HostConfig) (ip : String) (l after : Line W)
      → healthy m h ip l ≡ (ok false, after)
      → m.clock l.world + 3000 ≤ m.clock (m.sleep 3 after.world)
  round-forward h ip l after not_yet = ground (
    arith,
    healthy-forward h ip l,
    ap (λ (p : Result Bool × Line W). m.clock p.1.world) not_yet,
    forward.sleep_forward 3 after.world,
  )

  -- Rounds enough for the milliseconds up to the deadline are enough for the loop.
  poll-returns :
      (h : HostConfig) (ip : String) (deadline n : ℕ) (l : Line W)
      → deadline ≤ m.clock l.world + n
      → (r : Result Bool × Line W) × (poll m h ip deadline (suc n) l ≡ some r)
  unfolding poll
  poll-returns h ip deadline zero l enough =
      ((ok false, l), rw (late deadline (m.clock l.world) enough) refl)
  poll-returns h ip deadline (suc n) l enough = elim (Bool-cases (ltb (m.clock l.world) deadline)) [
    | inl early ↦ elim (checked m (healthy m h ip l)) [
      | inl (r, over) ↦ (r, rw (early, over (poll m h ip deadline (suc n))) refl)
      | inr (after, not_yet) ↦
          let next : Line W = record after { world = m.sleep 3 after.world } in
          let (r, end) =
            poll-returns h ip deadline n next
              (ground (arith, enough, round-forward h ip l after not_yet)) in
          (r, rw (early, not_yet) end)
    ]
    | inr over ↦ ((ok false, l), rw over refl)
  ]

  -- verify() returns, or raises what fetching the page raises, whatever the machine answers.
  verify-returns :
      (h : HostConfig) (ip : String) (l : Line W)
      → (r : Result Bool × Line W) × (verify m h ip l ≡ some r)
  unfolding verify
  verify-returns h ip l = poll-returns h ip _ (1000 * timeout_of h) l (ground arith)

  execute_at-returns :
      (h : HostConfig) (ip verb : String) (l : Line W)
      → (r : Result (Bool × String) × Line W) × (execute_at m h ip verb l ≡ some r)
  unfolding execute_at
  execute_at-returns h ip verb l = elim (Bool-cases (is_zero (gate m ip verb 60 l).0.0)) [
    | inl done ↦
        let (r, end) = verify-returns h ip (gate m ip verb 60 l).1 in
        (verified m h verb (m.clock l.world) r, rw (done, end) refl)
    | inr failed ↦
        let (answer, after) = gate m ip verb 60 l in
        ((ok (false, failed_text m verb answer.0 answer.1), after), rw failed refl)
  ]

  execute_on-returns :
      (h : HostConfig) (o : Option String) (verb : String) (l : Line W)
      → (r : Result (Bool × String) × Line W) × (execute_on m h o verb l ≡ some r)
  unfolding execute_on
  execute_on-returns h none verb l = ((raise key_error, l), refl)
  execute_on-returns h (some ip) verb l = execute_at-returns h ip verb l

  -- execute() ends, whatever the machine answers, if its clock does not go back and sleeps as long as
  -- it is told: the rounds of the model are enough for the loop of verify().
  pub execute-returns :
      (h : HostConfig) (verb : String) (l : Line W)
      → (r : Result (Bool × String) × Line W) × (execute m h verb l ≡ some r)
  unfolding execute
  execute-returns h verb l = execute_on-returns h h.ip verb l
