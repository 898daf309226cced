-- ===== src/Executor/Asks.antt =====
-- executor.py: what a run of execute() asks of the host.
use thearchivist.Prelude.{
  ℕ, zero, suc, ◌+◌, ◌*◌, ◌<◌, ◌≡◌, ◌⊎◌, refl, sym, ap, ◌∙◌, inl, inr, String, Bool, true, false,
  Option, none, some, List, [], ◌∷◌, ◌++◌, arith, str_eq, Bool-cases, Result, ok, raise,
}
use thearchivist.Registry.{HostConfig}
use thearchivist.Executor.{
  Machine, Line, gate, unit_active, http_ok, page_ok, healthy, timeout_of, execute, or_else,
  verified,
}
use thearchivist.Executor.Bounds.{Forward, round-forward, execute-returns}
use thearchivist.Executor.Runs.{
  Polled, late, healthy_now, escaped, again, Ran, nowhere, refused, carried, execute-Ran,
}

-- `k` questions after the state of the unit.
abbrev pub statuses : ℕ → List String
statuses zero = []
statuses (suc k) = "status" ∷ statuses k

append_one :
    (xs : List String) (k : ℕ) → (xs ++ "status" ∷ []) ++ statuses k ≡ xs ++ statuses (suc k)
append_one [] k = refl
append_one (x ∷ xs) k = ap (λ ys. x ∷ ys) (append_one xs k)

append_verb :
    (xs : List String) (v : String) (ys : List String) → (xs ++ v ∷ []) ++ ys ≡ xs ++ v ∷ ys
append_verb [] v ys = refl
append_verb (x ∷ xs) v ys = ap (λ zs. x ∷ zs) (append_verb xs v ys)

append_none : (xs : List String) → xs ≡ xs ++ []
append_none [] = refl
append_none (x ∷ xs) = ap (λ ys. x ∷ ys) (append_none xs)

module _ {W : Type 0} (m : Machine W) (h : HostConfig) (ip : String) where
  page_ok-asked :
      (url : Option String) (expect : String) (l : Line W)
      → (page_ok m url expect l).1.asked ≡ l.asked
  unfolding http_ok
  page_ok-asked none expect l = refl
  page_ok-asked (some url) expect l = elim (Bool-cases (str_eq url "")) [
    | inl empty ↦ rw empty refl
    | inr given ↦ rw given refl
  ]

  healthy-asked : (l : Line W) → (healthy m h ip l).1.asked ≡ l.asked ++ "status" ∷ []
  unfolding healthy unit_active gate
  healthy-asked l = elim (Bool-cases (unit_active m ip l).0) [
    | inl up ↦
        rw up (page_ok-asked h.verify_url (or_else "" h.verify_expect) (unit_active m ip l).1)
    | inr down ↦ rw down refl
  ]

  asked-after :
      (l : Line W) {after : Line W} {r : Result Bool}
      → healthy m h ip l ≡ (r, after)
      → after.asked ≡ l.asked ++ "status" ∷ []
  asked-after l round =
      rw (sym (healthy-asked l)) (sym (ap (λ (p : Result Bool × Line W). p.1.asked) round))

  module _ (forward : Forward m) (deadline : ℕ) where
    -- The questions of verify(): one in three seconds up to the deadline, and at most one more.
    Polled-asked :
        {l : Line W} {r : Result Bool × Line W}
        → Polled m h ip deadline l r
        → (k : ℕ) × (r.1.asked ≡ l.asked ++ statuses k)
          × ((k ≡ 0) ⊎ (3000 * k + m.clock l.world < deadline + 3000))
    Polled-asked {l} (late over) = (0, append_none l.asked, inl refl)
    Polled-asked (healthy_now early round) = (1, asked-after _ round, inr (ground (arith, early)))
    Polled-asked (escaped early round) = (1, asked-after _ round, inr (ground (arith, early)))
    Polled-asked {l} {r} (again {after} early round rest) =
        let (k, asked, few) = Polled-asked rest in
        (
          suc k,
          asked ∙ (rw (asked-after _ round) (append_one l.asked k)),
          inr (elim few [
            | inl no_more ↦ ground (arith, no_more, early)
            | inr more ↦ ground (arith, more, round-forward m forward h ip l after round)
          ]),
        )

module _ {W : Type 0} (m : Machine W) (h : HostConfig) (verb : String) where
  verified-asked :
      (started : ℕ) (v : Result Bool × Line W) → (verified m h verb started v).1.asked ≡ v.1.asked
  verified-asked started (raise e, l) = refl
  verified-asked started (ok false, l) = refl
  verified-asked started (ok true, l) = refl

  -- What a run asked: nothing, if the entry has no address, and else the verb, and the state of the
  -- unit some times.
  Asks : Line W → Line W → Type 0
  Asks l after =
      ((h.ip ≡ none) × (after.asked ≡ l.asked))
      ⊎ ((k : ℕ) × (after.asked ≡ l.asked ++ verb ∷ statuses k) × (3 * k < timeout_of h + 3))

  Ran-Asks :
      (forward : Forward m) {l : Line W} {r : Result (Bool × String) × Line W}
      → Ran m h verb l r
      → Asks l r.1
  unfolding Asks gate
  Ran-Asks forward (nowhere missing) = inl (missing, refl)
  Ran-Asks forward (refused given failed) = inr (0, refl, ground arith)
  Ran-Asks forward {l} (carried {ip} {v} given done polled) =
      let (k, asked, few) = Polled-asked m h ip forward _ polled in
      inr (
        k,
        verified-asked (m.clock l.world) v ∙ (asked ∙ append_verb l.asked verb (statuses k)),
        elim few [ inl no_more ↦ ground (arith, no_more) | inr more ↦ ground (arith, more) ],
      )

-- On a machine whose clock does not go back and that sleeps as long as it is told, execute() returns
-- or raises. It asks nothing of the host if the entry has no address, and else the verb, once and
-- first, and after it nothing but the state of the unit, less than timeout / 3 + 1 times.
pub execute-asks :
    {W : Type 0} (m : Machine W) (forward : Forward m) (h : HostConfig) (verb : String) (l : Line W)
    → (r : Result (Bool × String) × Line W) × (execute m h verb l ≡ some r)
      × (((h.ip ≡ none) × (r.1.asked ≡ l.asked))
          ⊎ ((k : ℕ) × (r.1.asked ≡ l.asked ++ verb ∷ statuses k) × (3 * k < timeout_of h + 3)))
unfolding Asks
execute-asks m forward h verb l =
    let (r, end) = execute-returns m forward h verb l in
    (r, end, Ran-Asks m h verb forward (execute-Ran m h verb l r end))
