-- ===== src/Store/Proposal.antt =====
-- propose(), auto_approve(), start_execution() and close() of configs/responder/store.py, and a
-- token from propose() to claim().
use thearchivist.Prelude.{
  ℕ, ◌+◌, ◌≡◌, refl, inl, inr, String, Bool, true, false, Option, none, some, arith, leb, ◌==◌,
  str_eq, str_eq_refl, str_eq-eq, eq-str_eq, if◌then◌else◌, Bool-cases, ok,
}
use thearchivist.Table.Laws.{hits, map_option}
use thearchivist.Store.Data.{State, opened, approved, executing, closed, Job, Store}
use thearchivist.Store.Statements.{
  Update, mark_pending, mark_approved, mark_executing, mark_closed, to_pending, to_approved,
  to_state, to_closed, target, guard, change, run_update, won, exec, updates,
}
use thearchivist.Store.Operations.{
  Outcome, claimed, invalid, late, get, propose, auto_approve, start_execution, close, claim,
}
use thearchivist.Store.Effects.{
  amended, get-run_update, UniqueIds, rowcount, has_id-get, amended-other,
}
use thearchivist.Store.Invariant.{Inv, exec-Inv}
use thearchivist.Store.Claims.{IsDecision, claim-verdict}

-- A guarded UPDATE on the row of its own id: it wins, and writes, exactly where the guard holds.
abbrev pub Guards : Update → Store → Type 0
Guards u s =
    (won u s ≡ (elim (get (target u) s) [ none ↦ false | some r ↦ guard u r ]))
    × ((j : String)
        → get j (run_update u s).0 ≡ (
            if str_eq (target u) j
            then map_option (λ r. if guard u r then change u r else r) (get j s)
            else get j s))

amended-own :
    (u : Update) (s : Store) (o : Option Job)
    → get (target u) s ≡ o
    → map_option (amended u) o ≡ map_option (λ r. if guard u r then change u r else r) o
amended-own u s none e = refl
amended-own u s (some r) e = ground (arith, eq-str_eq r.id (target u) (has_id-get (target u) s r e))

pub run_update-Guards : (u : Update) (s : Store) → UniqueIds s → Guards u s
run_update-Guards u s unique = (rw (rowcount u s unique) (hit (get (target u) s)), effect)
  where
    hit :
        (o : Option Job) → (hits (guard u) o == 1) ≡ (elim o [ none ↦ false | some r ↦ guard u r ])
    hit o = ground arith

    effect :
        (j : String)
        → get j (run_update u s).0 ≡ (
            if str_eq (target u) j
            then map_option (λ r. if guard u r then change u r else r) (get j s)
            else get j s)
    effect j = rw (get-run_update u j s) (elim (Bool-cases (str_eq (target u) j)) [
      | inl same ↦
          rw (same, ← str_eq-eq (target u) j same) (amended-own u s (get (target u) s) refl)
      | inr other ↦ rw (other, amended-other j u s (get j s) refl other) refl
    ])

-- The row of a job as it is where the job exists and its state allows.
abbrev pub allows : (State → Bool) → Option Job → Bool
allows p none = false
allows p (some r) = p r.state

abbrev pub is_opened : State → Bool
is_opened opened = true
is_opened _ = false

abbrev pub is_approved : State → Bool
is_approved approved = true
is_approved _ = false

abbrev pub is_not_closed : State → Bool
is_not_closed closed = false
is_not_closed _ = true

-- An operation that acts on job `i` by one guarded UPDATE: where the state of the job does not allow
-- it, no row changes; where it does, the job's row alone changes, as told.
abbrev pub Acts : (State → Bool) → (Job → Job) → String → Store → Store → Type 0
Acts p f i s s' =
    (j : String)
    → get j s'
      ≡ (if str_eq i j then map_option (λ r. if p r.state then f r else r) (get j s) else get j s)

module _ (i : String) (s : Store) (unique : UniqueIds s) where
  -- Where job ids differ, propose() returns the token and makes the job pending, with the action,
  -- the token's hash and the deadline, if the job is open; otherwise it returns None and changes
  -- no job.
  pub propose_lem :
      (hash : String → String) (verb unit token : String) (now ttl : ℕ)
      → ((propose hash i verb unit token now ttl s).1
          ≡ (if allows is_opened (get i s) then some token else none))
        × Acts is_opened
            (to_pending verb unit (hash token) (now + ttl) now)
            i
            s
            (propose hash i verb unit token now ttl s).0
  unfolding propose guard change
  propose_lem hash verb unit token now ttl =
      let (hit, effect) =
        run_update-Guards (mark_pending i verb unit (hash token) (now + ttl) now) s unique in
      (ground (arith, hit), λ j. ground (arith, effect j))

  -- Where job ids differ, auto_approve() moves the job from open to approved, with the action, and
  -- returns True, if the job is open; otherwise it returns False and changes no job.
  pub auto_approve_lem :
      (verb unit : String) (now : ℕ)
      → ((auto_approve i verb unit now s).1 ≡ allows is_opened (get i s))
        × Acts is_opened (to_approved verb unit now) i s (auto_approve i verb unit now s).0
  unfolding auto_approve guard change
  auto_approve_lem verb unit now =
      let (hit, effect) = run_update-Guards (mark_approved i verb unit now) s unique in
      (ground (arith, hit), λ j. ground (arith, effect j))

  -- Where job ids differ, start_execution() returns True and makes the job executing exactly if it
  -- is approved, and changes no other job.
  pub start_execution_lem :
      (now : ℕ)
      → ((start_execution i now s).1 ≡ allows is_approved (get i s))
        × Acts is_approved (to_state executing now) i s (start_execution i now s).0
  unfolding start_execution guard change
  start_execution_lem now =
      let (hit, effect) = run_update-Guards (mark_executing i now) s unique in
      (ground (arith, hit), λ j. ground (arith, effect j))

  -- Where job ids differ, close() returns True exactly if the job exists and is not closed yet,
  -- and then closes and stamps it; it changes no other job.
  pub close_lem :
      (reason : String) (now : ℕ)
      → ((close i reason now s).1 ≡ allows is_not_closed (get i s))
        × Acts is_not_closed (to_closed reason now) i s (close i reason now s).0
  unfolding close guard change
  close_lem reason now =
      let (hit, effect) = run_update-Guards (mark_closed i reason now) s unique in
      (ground (arith, hit), λ j. ground (arith, effect j))

module _ (i : String) (s : Store) (unique : UniqueIds s) where
  -- Where job ids differ, each of the four guarded updates of a job acts exactly if the job is in the
  -- state that it asks for, says whether it did, and changes no other job: propose() makes an open job
  -- pending and returns the token, start_execution() makes an approved job executing, auto_approve()
  -- makes an open job approved, and close() closes a job that is not closed yet.
  pub guarded_updates :
      (hash : String → String) (verb unit token reason : String) (now ttl : ℕ)
      → (((propose hash i verb unit token now ttl s).1
            ≡ (if allows is_opened (get i s) then some token else none))
          × Acts is_opened
              (to_pending verb unit (hash token) (now + ttl) now)
              i
              s
              (propose hash i verb unit token now ttl s).0)
        × (((start_execution i now s).1 ≡ allows is_approved (get i s))
            × Acts is_approved (to_state executing now) i s (start_execution i now s).0)
        × (((auto_approve i verb unit now s).1 ≡ allows is_opened (get i s))
            × Acts is_opened (to_approved verb unit now) i s (auto_approve i verb unit now s).0)
        × (((close i reason now s).1 ≡ allows is_not_closed (get i s))
            × Acts is_not_closed (to_closed reason now) i s (close i reason now s).0)
  guarded_updates hash verb unit token reason now ttl = (
    propose_lem i s unique hash verb unit token now ttl,
    start_execution_lem i s unique now,
    auto_approve_lem i s unique verb unit now,
    close_lem i s unique reason now,
  )

propose-exec :
    (hash : String → String) (i verb unit token : String) (now ttl : ℕ) (s : Store)
    → (propose hash i verb unit token now ttl s).0
      ≡ exec (updates (mark_pending i verb unit (hash token) (now + ttl) now)) s
unfolding propose exec
propose-exec hash i verb unit token now ttl s = refl

-- What claim() returns for a token, right after a proposal.
abbrev pub answer : Bool → Bool → State → Outcome × Option State
answer false late_now decision = (invalid, none)
answer true true decision = (late, some State.expired)
answer true false decision = (claimed, some decision)

-- With the store's invariant: after a proposal that went out, a claim of a valid decision with a
-- token of the same hash is granted until the deadline and refused as expired from then on, and a
-- claim with any other token is invalid.
pub propose-claim :
    (hash : String → String) (i verb unit token tried : String) (now ttl later : ℕ)
    (decision : State) (s : Store)
    → Inv s
    → IsDecision decision
    → (propose hash i verb unit token now ttl s).1 ≡ some token
    → (claim hash i tried decision later (propose hash i verb unit token now ttl s).0).1
      ≡ ok (answer (str_eq (hash tried) (hash token)) (leb (now + ttl) later) decision)
propose-claim hash i verb unit token tried now ttl later decision s v accepted sent =
    let s' = (propose hash i verb unit token now ttl s).0 in
    let v' : Inv s' = rw (propose-exec hash i verb unit token now ttl s) (exec-Inv _ s v) in
    let (result, effect) = propose_lem i s v.unique hash verb unit token now ttl in
    rw (claim-verdict hash i tried later s' decision v' accepted)
      (ground (arith, result, sent, effect i, str_eq_refl i))
