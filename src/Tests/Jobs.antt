-- ===== src/Tests/Jobs.antt =====
-- Examples for configs/responder/store.py.
use thearchivist.Prelude.{
  ℕ, ◌+◌, ◌≤◌, ◌≡◌, ◌≢◌, ◌⊎◌, refl, Option, some, [], ◌∷◌, str_eq, Result, ok, leb,
}
use thearchivist.Table.{find, select, update, count, latest, next_rowid}
use thearchivist.Store.Data.{
  State, approved, denied, expired, executing, Job, Store, dedupe_key, in_state,
}
use thearchivist.Store.Statements.{
  new_job, updates, mark_closed, exec, run, run_update, live_job, intake_alert, to_state, to_closed,
}
use thearchivist.Store.Operations.{
  Outcome, claimed, get, propose, start_execution, claim, claim_row, expire_due, recover,
  interrupted, due, recoverable,
}
use thearchivist.Store.Invariant.{Inv, exec-Inv}
use thearchivist.Store.Diagram.{Follows, exec-Follows}
use thearchivist.Store.Approval.{approvals, started_needs_approval}
use thearchivist.Store.Claims.{verdict, claim-verdict}
use thearchivist.Store.Race.{second_claim_loses}
use thearchivist.Store.Proposal.{answer, propose-claim}
use thearchivist.Store.Sweeps.{Sweeps, batch_updates}
use thearchivist.Store.Intake.{Attaches, OpensNew, intake_alert_lem}
use thearchivist.Tests.{
  digest, problem, proposing, approving, one_open, one_pending, one_open-Inv, one_pending-Inv,
}

abbrev tap : State → ℕ → Store → Store × Result (Outcome × Option State)
tap decision now s = claim_row digest (get "j1" one_pending) "j1" "t1" decision now s

second_claim_loses_example :
    (tap denied 130 (run (approving ∷ []) (tap approved 120 one_pending).0)).1
    ≢ ok (claimed, some denied)
unfolding claim_row get exec run_update intake_alert find select latest update count next_rowid
    live_job dedupe_key
second_claim_loses_example =
    second_claim_loses digest "j1" one_pending (approving ∷ []) (get "j1" one_pending)
      (get "j1" one_pending) "t1" "t1" approved denied 120 130 (some approved) (some denied)
      one_pending-Inv.unique refl

claim-verdict_example :
    (claim digest "j1" "t1" approved 120 one_pending).1
    ≡ ok (verdict digest "t1" approved 120 (get "j1" one_pending))
claim-verdict_example = claim-verdict digest "j1" "t1" 120 one_pending approved one_pending-Inv refl

exec-Inv_example : Inv (exec (updates (mark_closed "j1" "recovered" 300)) one_pending)
exec-Inv_example = exec-Inv (updates (mark_closed "j1" "recovered" 300)) one_pending one_pending-Inv

abbrev first_job : Job
first_job = new_job "j1" problem 100

first_job-here : get "j1" one_open ≡ some first_job
unfolding get exec intake_alert find select latest count next_rowid live_job dedupe_key
first_job-here = refl

exec-Follows_example :
    (r : Job) × (get "j1" (exec proposing one_open) ≡ some r) × Follows first_job r
exec-Follows_example = exec-Follows proposing one_open "j1" first_job first_job-here

abbrev stopped_job : Job
stopped_job = to_closed "recovered" 300 first_job

abbrev stopped : Store
stopped = exec (updates (mark_closed "j1" "recovered" 300)) one_open

stopped-here : get "j1" stopped ≡ some stopped_job
unfolding get exec run_update intake_alert find select latest update count next_rowid live_job
    dedupe_key
stopped-here = refl

started_needs_approval_example : 1 ≤ approvals "j1" (proposing ∷ approving ∷ []) one_open
unfolding get exec run run_update intake_alert find select latest update count next_rowid live_job
    dedupe_key start_execution
started_needs_approval_example =
    started_needs_approval (proposing ∷ approving ∷ []) one_open "j1" 130 one_open-Inv.unique refl
      refl

propose-claim_example :
    (claim digest "j1" "t2" approved 500
      (propose digest "j1" "restart" "u" "t1" 110 600 one_open).0).1
    ≡ ok (answer (str_eq "t2" "t1") (leb (110 + 600) 500) approved)
unfolding propose get exec run_update intake_alert find select latest update count next_rowid
    live_job dedupe_key
propose-claim_example =
    propose-claim digest "j1" "restart" "u" "t1" "t2" 110 600 500 approved one_open one_open-Inv
      refl refl

batch_updates_example :
    Sweeps (due 700) (to_state expired 700) one_pending (expire_due 700 one_pending)
    × Sweeps
        (recoverable (dedupe_key "lxc-grafana" "HTTP"))
        (to_closed "recovered" 700)
        one_pending
        (recover "lxc-grafana" "HTTP" 700 one_pending)
    × Sweeps
        (in_state executing)
        (to_closed "interrupted" 700)
        one_pending
        (interrupted 700 one_pending)
batch_updates_example = batch_updates one_pending one_pending-Inv.unique 700 "lxc-grafana" "HTTP"

intake_alert_lem_example :
    Attaches problem 200 600 "j2" one_open ⊎ OpensNew problem 200 600 "j2" one_open
intake_alert_lem_example = intake_alert_lem problem 200 600 "j2" one_open
