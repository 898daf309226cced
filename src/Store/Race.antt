-- ===== src/Store/Race.antt =====
-- Two taps in a race on claim() of configs/responder/store.py: each reads a row, perhaps an old
-- one, and then runs its guarded UPDATE.
use thearchivist.Prelude.{ℕ, ◌≡◌, ◌≢◌, refl, String, true, Option, List, arith, str_eq_refl, ok}
use thearchivist.Store.Data.{State, approved, denied, Job, Store}
use thearchivist.Store.Statements.{
  Update, decide_approved, decide_denied, target, run_update, won, Statement, exec, updates, run,
}
use thearchivist.Store.Operations.{claimed, get, state_of, claim_row}
use thearchivist.Store.Effects.{goal, UniqueIds, exec-UniqueIds}
use thearchivist.Store.Once.{left, left-update, wins-left, left-le-one}
use thearchivist.Store.Diagram.{run-UniqueIds}

-- The UPDATE by which a call of claim() was the one to decide job `i`.
record Decided (i : String) (s s' : Store) : Type 0 where
  by : Update
  names : target by ≡ i
  aims : goal by ≡ 2
  hit : won by s ≡ true
  result : s' ≡ (run_update by s).0

module _ (hash : String → String) (row : Option Job) (i token : String) (now : ℕ) (s : Store)
    (x : Option State) where
  claim_row-Decided :
      (decision : State)
      → (claim_row hash row i token decision now s).1 ≡ ok (claimed, x)
      → Decided i s (claim_row hash row i token decision now s).0
  unfolding claim_row state_of
  claim_row-Decided approved h = record {
    by = decide_approved i now;
    names = refl;
    aims = refl;
    hit = ground arith;
    result = ground arith;
  }
  claim_row-Decided denied h = record {
    by = decide_denied i now;
    names = refl;
    aims = refl;
    hit = ground arith;
    result = ground arith;
  }
  claim_row-Decided _ h = cc

Decided-left :
    (i : String) (s s' : Store)
    → UniqueIds s
    → Decided i s s'
    → (left 2 (get i s) ≡ 1) × (left 2 (get i s') ≡ 0)
Decided-left i s s' unique d = rw (d.result) (
    ground (
      arith,
      left-update 2 i d.by s unique,
      d.names,
      d.aims,
      d.hit,
      str_eq_refl i,
      left-le-one 2 (get i s),
    ))

run-left :
    (i : String) (qs : List Statement) (s : Store)
    → UniqueIds s
    → left 2 (get i s) ≡ 0
    → left 2 (get i (run qs s)) ≡ 0
run-left i qs s unique e = omega (arith, wins-left 2 i qs s unique)

-- From a store whose job ids differ: once a call of claim() has returned CLAIMED for a job, no
-- other call returns CLAIMED for it, with any token, decision and time, whatever statements ran
-- since, and however old the row that either call had read. So at most one of two racing taps
-- acts.
pub second_claim_loses :
    (hash : String → String) (i : String) (s : Store) (qs : List Statement) (row row' : Option Job)
    (token token' : String) (decision decision' : State) (now now' : ℕ) (x y : Option State)
    → UniqueIds s
    → (claim_row hash row i token decision now s).1 ≡ ok (claimed, x)
    → (claim_row hash row' i token' decision' now'
        (run qs (claim_row hash row i token decision now s).0)).1
      ≢ ok (claimed, y)
second_claim_loses hash i s qs row row' token token' decision decision' now now' x y unique first
      second =
    let s' = (claim_row hash row i token decision now s).0 in
    let won_first = claim_row-Decided hash row i token now s x decision first in
    let unique' : UniqueIds s' =
      rw won_first.result (unfold exec in exec-UniqueIds (updates won_first.by) s unique) in
    let spent : left 2 (get i (run qs s')) ≡ 0 =
      run-left i qs s' unique' (Decided-left i s s' unique won_first).1 in
    let won_second = claim_row-Decided hash row' i token' now' (run qs s') y decision' second in
    omega (arith, spent, (Decided-left i (run qs s') _ (run-UniqueIds qs s' unique') won_second).0)
