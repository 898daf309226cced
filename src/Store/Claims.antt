-- ===== src/Store/Claims.antt =====
-- claim() of configs/responder/store.py on every branch, and two taps in a race.
use thearchivist.Prelude.{
  ℕ, ◌≡◌, refl, inl, inr, String, true, false, ◌&&◌, Option, none, some, arith, str_eq, str_eq-eq,
  eq-str_eq, str_eq_refl, if◌then◌else◌, Bool-cases, ok, is_some,
}
use thearchivist.Table.Laws.{map_option}
use thearchivist.Store.Data.{
  State, pending, approved, denied, expired, Job, Store, in_state, expires_after, expires_by,
}
use thearchivist.Store.Statements.{
  Update, decide_approved, decide_denied, mark_expired, to_state, target, guard, change,
}
use thearchivist.Store.Operations.{
  Outcome, claimed, already_handled, invalid, late, get, decision_update, token_matches, claim_read,
  claim,
}
use thearchivist.Store.Effects.{get-run_update, rowcount, has_id-get, amended-other}
use thearchivist.Store.Invariant.{Inv, get-RowIsValid}

-- What the UPDATE of a decision has in common with its state.
record Decides (decision : State) (decide : String → ℕ → Update) : Type 0 where
  names : (i : String) (now : ℕ) → target (decide i now) ≡ i
  guards :
      (i : String) (now : ℕ) (r : Job)
      → guard (decide i now) r ≡ (in_state pending r && expires_after now r)
  sets : (i : String) (now : ℕ) (r : Job) → change (decide i now) r ≡ to_state decision now r

module _ (hash : String → String) (token : String) (decision : State) (now : ℕ) where
  -- The result that claim() documents, by the row of the job.
  abbrev pub verdict : Option Job → Outcome × Option State
  verdict none = (invalid, none)
  verdict (some r) =
      if token_matches hash token r
      then (if in_state pending r
          then (if expires_by now r then (late, some expired) else (claimed, some decision))
          else (already_handled, some r.state))
      else (invalid, none)

  -- The row after it.
  abbrev pub settled : Job → Job
  settled r =
      if token_matches hash token r && in_state pending r
      then to_state (if expires_by now r then expired else decision) now r
      else r

  module _ (decide : String → ℕ → Update) (d : Decides decision decide) (i : String) (s : Store)
      (v : Inv s) where
    claim_read-verdict :
        (o : Option Job)
        → get i s ≡ o
        → (claim_read hash decide o i token decision now s).1 ≡ ok (verdict o)
    unfolding claim_read guard
    claim_read-verdict none e = refl
    claim_read-verdict (some r) e = ground (
      arith,
      get-RowIsValid i s r v e,
      d.names i now,
      d.guards i now r,
      rowcount (decide i now) s v.unique,
      get-run_update (decide i now) i s,
      e,
    )

    claim_read-settled :
        (o : Option Job)
        → get i s ≡ o
        → get i (claim_read hash decide o i token decision now s).0 ≡ map_option settled o
    unfolding claim_read guard change
    claim_read-settled none e = e
    claim_read-settled (some r) e = ground (
      arith,
      get-RowIsValid i s r v e,
      eq-str_eq r.id i (has_id-get i s r e),
      str_eq_refl i,
      d.names i now,
      d.guards i now r,
      d.sets i now r,
      rowcount (decide i now) s v.unique,
      get-run_update (decide i now) i s,
      get-run_update (mark_expired i now) i s,
      e,
    )

    claim_read-elsewhere :
        (o : Option Job) (j : String)
        → str_eq i j ≡ false
        → get j (claim_read hash decide o i token decision now s).0 ≡ get j s
    unfolding claim_read
    claim_read-elsewhere none j ne = refl
    claim_read-elsewhere (some r) j ne = ground (
      arith,
      d.names i now,
      get-run_update (decide i now) j s,
      get-run_update (mark_expired i now) j s,
      amended-other j (decide i now) s (get j s) refl,
      amended-other j (mark_expired i now) s (get j s) refl,
    )

approved-Decides : Decides approved decide_approved
unfolding guard change
approved-Decides = record {
  names = λ i now. refl;
  guards = λ i now r. refl;
  sets = λ i now r. refl;
}

denied-Decides : Decides denied decide_denied
unfolding guard change
denied-Decides = record { names = λ i now. refl; guards = λ i now r. refl; sets = λ i now r. refl }

-- A decision that claim() accepts.
abbrev pub IsDecision : State → Type 0
IsDecision d = is_some (decision_update d) ≡ true

module _ (hash : String → String) (i token : String) (now : ℕ) (s : Store) where
  reads :
      (decision : State)
      → IsDecision decision
      → (decide : String → ℕ → Update) × Decides decision decide
        × (claim hash i token decision now s
            ≡ claim_read hash decide (get i s) i token decision now s)
  unfolding claim
  reads approved d = (decide_approved, approved-Decides, refl)
  reads denied d = (decide_denied, denied-Decides, refl)
  reads _ d = cc

  module _ (decision : State) (v : Inv s) (accepted : IsDecision decision) where
    -- With the store's invariant, claim() of a valid decision returns what its comment says, on
    -- every branch: INVALID for an unknown job or a wrong token; for a right one EXPIRED if the
    -- proposal is pending and too late, CLAIMED with the decision if it is pending and in time, and
    -- otherwise ALREADY_HANDLED with the state. It raises nothing.
    pub claim-verdict :
        (claim hash i token decision now s).1 ≡ ok (verdict hash token decision now (get i s))
    claim-verdict =
        let (decide, d, e) = reads decision accepted in
        rw e (claim_read-verdict hash token decision now decide d i s v (get i s) refl)

    -- With the store's invariant and a valid decision, a claim writes only to its own job, and
    -- there only what it reports: a right token on a pending job makes it expired, if its time is
    -- over, or sets it to the decision; any other claim changes no job at all.
    pub claim-settled :
        (j : String)
        → get j (claim hash i token decision now s).0
          ≡ (if str_eq i j then map_option (settled hash token decision now) (get j s) else get j s)
    claim-settled j =
        let (decide, d, e) = reads decision accepted in
        elim (Bool-cases (str_eq i j)) [
          | inl same ↦
              rw (same, e, ← str_eq-eq i j same)
                (claim_read-settled hash token decision now decide d i s v (get i s) refl)
          | inr other ↦
              rw (other, e)
                (claim_read-elsewhere hash token decision now decide d i s v (get i s) j other)
        ]
