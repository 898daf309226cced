-- ===== src/App/Taps.antt =====
-- What a tap on one of the buttons of configs/responder/app.py is answered, and what it starts.
use thearchivist.Prelude.{
  ℕ, suc, ◌≡◌, refl, inl, inr, String, Option, none, some, List, [], ◌∷◌, ◌++◌, str_eq_refl,
  Bool-cases, Result, ok,
}
use thearchivist.Registry.{elem}
use thearchivist.Store.Data.{State, Job}
use thearchivist.Store.Statements.{mark_closed, run_update}
use thearchivist.Store.Operations.{Outcome, claimed, already_handled, invalid, late, get, close}
use thearchivist.Store.Effects.{amended, get-run_update}
use thearchivist.Store.Invariant.{Inv}
use thearchivist.Store.Claims.{verdict, settled, IsDecision, claim-verdict, claim-settled}
use thearchivist.App.Paths.{TapAction}
use thearchivist.App.World.{World, Env, Task, approved_job, get_job, pure, ◌>>=◌, ◌>>◌}
use thearchivist.Journal.Record.{skip_hosts}
use thearchivist.App.Jobs.{journal_record}
use thearchivist.App.Http.{Reply, decision_of, handled_text, answer_tap, tap}

-- The reply to a tap, by the result of claim() that its comment documents.
abbrev pub reply_to : TapAction → Outcome × Option State → Reply
reply_to TapAction.approve (claimed, state) = (200, "approved: running")
reply_to TapAction.deny (claimed, state) = (200, "denied")
reply_to action (invalid, state) = (403, "invalid")
reply_to action (already_handled, state) = (200, handled_text state)
reply_to action (late, state) = (200, handled_text state)

-- The threads that a tap starts.
abbrev pub started_by : TapAction → String → Outcome → List Task
started_by TapAction.approve i claimed = approved_job i ∷ []
started_by _ i _ = []

-- The answer and the started threads are as they should be.
abbrev Answered :
    Env → TapAction → String → Outcome × Option State → World → World × Result Reply → Type 0
Answered env action i v u (u', r) =
    (r ≡ ok (reply_to action v)) × (u'.tasks ≡ u.tasks ++ started_by action i v.0)

append_nil : (ts : List Task) → ts ≡ ts ++ []
append_nil [] = refl
append_nil (t ∷ ts) = rw (← append_nil ts)

deny_tail :
    (i : String) (u : World) (job : Job)
    → get i u.store ≡ some job
    → let (u', r) =
        (get_job i >>= λ x. journal_record x "denied" >> pure {A = Reply} (200, "denied")) u in
      (r ≡ ok (200, "denied")) × (u'.tasks ≡ u.tasks ++ [])
unfolding journal_record
deny_tail i u job e = rw e (elim (Bool-cases (elem job.host skip_hosts)) [
  | inl skipped ↦ rw skipped (refl, append_nil u.tasks)
  | inr open_host ↦ rw open_host (refl, append_nil u.tasks)
])

answered :
    (env : Env) (action : TapAction) (i : String) (v : Outcome × Option State) (u : World) (r : Job)
    → get i u.store ≡ some r
    → Answered env action i v u (answer_tap env action i v u)
unfolding answer_tap close
answered env TapAction.approve i (claimed, state) u r e = (refl, refl)
answered env TapAction.deny i (claimed, state) u r e =
    let t = env.clock u.reads in
    let s' = (run_update (mark_closed i "denied" t) u.store).0 in
    deny_tail i (record u { reads = suc u.reads; store = s' })
      (amended (mark_closed i "denied" t) r)
      (rw (get-run_update (mark_closed i "denied" t) i u.store, e))
answered env TapAction.approve i (invalid, state) u r e = (refl, append_nil u.tasks)
answered env TapAction.deny i (invalid, state) u r e = (refl, append_nil u.tasks)
answered env TapAction.approve i (already_handled, state) u r e = (refl, append_nil u.tasks)
answered env TapAction.deny i (already_handled, state) u r e = (refl, append_nil u.tasks)
answered env TapAction.approve i (late, state) u r e = (refl, append_nil u.tasks)
answered env TapAction.deny i (late, state) u r e = (refl, append_nil u.tasks)

refused :
    (env : Env) (action : TapAction) (i : String) (u : World)
    → Answered env action i (invalid, none) u (answer_tap env action i (invalid, none) u)
unfolding answer_tap
refused env TapAction.approve i u = (refl, append_nil u.tasks)
refused env TapAction.deny i u = (refl, append_nil u.tasks)

pub decides : (action : TapAction) → IsDecision (decision_of action)
decides TapAction.approve = refl
decides TapAction.deny = refl

module _ (env : Env) (action : TapAction) (i token : String) (w : World) (v : Inv w.store) where
  -- The time at which the tap is claimed, and what claim() is to say then.
  abbrev tapped_at : ℕ
  tapped_at = env.clock w.reads

  abbrev pub said : Option Job → Outcome × Option State
  said o = verdict env.hash token (decision_of action) tapped_at o

  tap_cases :
      (o : Option Job)
      → get i w.store ≡ o
      → Answered env action i (said o) w (tap env action i token w)
  unfolding tap
  tap_cases none e =
      rw
        (
          claim-verdict env.hash i token tapped_at w.store (decision_of action) v (decides action),
          e,
        )
        (refused env action i _)
  tap_cases (some r) e =
      rw
        (
          claim-verdict env.hash i token tapped_at w.store (decision_of action) v (decides action),
          e,
        )
        (answered env action i _ _ (settled env.hash token (decision_of action) tapped_at r) (
          rw (
            claim-settled env.hash i token tapped_at w.store (decision_of action) v (decides action)
                i,
            str_eq_refl i,
            e,
          )))

  -- Where the table of jobs keeps its invariant, a tap does not raise. It is answered 403 for an
  -- unknown job or a wrong token; with the job's state if the job is already decided or the tap
  -- comes too late; and otherwise by what was chosen. A thread is started for the job exactly if
  -- an approval was claimed.
  pub tap_lem :
      ((tap env action i token w).1 ≡ ok (reply_to action (said (get i w.store))))
      × ((tap env action i token w).0.tasks
          ≡ w.tasks ++ started_by action i (said (get i w.store)).0)
  tap_lem = tap_cases (get i w.store) refl
