-- ===== src/Journal/Pings.antt =====
-- journal.py: how often it pings the phone.
use mathlib.Core.Path.{subst}
use thearchivist.Prelude.{
  ℕ, ◌+◌, ◌<◌, ◌≤◌, ◌≡◌, ◌⊎◌, refl, sym, inl, inr, String, Option, none, some, List, [], ◌∷◌, arith,
  Bool-cases, Result, ok, raise,
}
use thearchivist.Journal.{
  Clone, Desk, auth_ping_every, Act, publish, has_sign, is_due, auth_problem, after_publish,
  safe_publish, Event, entry, elsewhere, publish_all,
}
use thearchivist.Journal.Pushes.{Within, publish-Within}

-- Two pings of a list are more than six hours apart; the last ping stands first.
pub data Spaced : List ℕ → Type 0 where
  nobody : Spaced []
  once : {t : ℕ} → Spaced (t ∷ [])
  apart : {t u : ℕ} {ts : List ℕ} → u + auth_ping_every < t → Spaced (u ∷ ts) → Spaced (t ∷ u ∷ ts)

-- The last ping is the one that _last_auth_ping tells, if there was one.
record Regular {W : Type 0} (d : Desk W) : Type 0 where
  spaced : Spaced d.pings
  known : (d.pings ≡ []) ⊎ ((ts : List ℕ) × (d.pings ≡ d.last_auth_ping ∷ ts))

-- The clock does not step back between two readings of it in a row.
abbrev pub Steady : {W : Type 0} → Clone W → Type 0
Steady {W} c = (w : W) → c.clock w ≤ c.clock (c.tick w)

module _ {W : Type 0} (c : Clone W) (steady : Steady c) where
  add-Spaced :
      (last t : ℕ) (pings : List ℕ)
      → Spaced pings
      → (pings ≡ []) ⊎ ((ts : List ℕ) × (pings ≡ last ∷ ts))
      → last + auth_ping_every < t
      → Spaced (t ∷ pings)
  add-Spaced last t [] h known later = once
  add-Spaced last t (u ∷ ts) h (inl none_yet) later = absurd (ground (arith, none_yet))
  add-Spaced last t (u ∷ ts) h (inr (us, e)) later = apart (ground (arith, e, later)) h

  auth_problem-Regular :
      (stderr : String) (d : Desk W) → Regular d → Regular (auth_problem c stderr d)
  unfolding auth_problem
  auth_problem-Regular stderr d r = elim (Bool-cases (has_sign c stderr)) [
    | inl sign ↦ elim (Bool-cases (is_due c d)) [
      | inl due ↦
          rw (sign, due)
            (record {
              spaced =
                  add-Spaced d.last_auth_ping (c.clock (c.tick d.world)) d.pings r.spaced r.known
                    (ground (arith, due, steady d.world));
              known = inr (d.pings, refl);
            })
      | inr quiet ↦ rw (sign, quiet) (record { spaced = r.spaced; known = r.known })
    ]
    | inr other ↦ rw other r
  ]

  after_publish-Regular :
      (o : Result (Option String) × Desk W) → Regular o.1 → Regular (after_publish c o)
  after_publish-Regular (ok (some stderr), d) r = auth_problem-Regular stderr d r
  after_publish-Regular (ok none, d) r = r
  after_publish-Regular (raise e, d) r = r

  kept : (n : ℕ) {A : Type 0} (m : Act W A) (d : Desk W) → Within n m → Regular d → Regular (m d).1
  kept n m d h r = record {
    spaced = subst Spaced (sym (h.same_pings d)) r.spaced;
    known = rw (h.same_pings d, h.same_last d) r.known;
  }

  publish_all-Regular :
      (es : List (Event W)) (d : Desk W) → Regular d → Regular (publish_all c es d)
  unfolding publish_all safe_publish
  publish_all-Regular [] d r = r
  publish_all-Regular (entry relpath text note ∷ es) d r = publish_all-Regular es _ (
      after_publish-Regular _
        (kept 3 (publish c relpath text note) d (publish-Within c relpath text note) r))
  publish_all-Regular (elsewhere w ∷ es) d r =
      publish_all-Regular es _ (record { spaced = r.spaced; known = r.known })

  -- In a process that has not pinged yet, where the clock does not step back between the two readings
  -- of it in _auth_problem(): whatever git answers, whatever is published and whatever the clock does
  -- else, the times that are stored of two pings about a rejected key are more than six hours apart.
  pub publish_all-Spaced :
      (es : List (Event W)) (d : Desk W) → d.pings ≡ [] → Spaced (publish_all c es d).pings
  publish_all-Spaced es d nobody_yet =
      (publish_all-Regular es d
        (record { spaced = subst Spaced (sym nobody_yet) nobody; known = inl nobody_yet })).spaced
