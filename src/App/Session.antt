-- ===== src/App/Session.antt =====
-- configs/responder/app.py: handle_new_job() as a whole, where no other thread comes between, and what
-- becomes of a session whose output is of no use.
use thearchivist.Prelude.{
  ℕ, suc, ◌≡◌, refl, ap, inl, inr, String, Bool, true, false, none, some, List, [], ◌∷◌, ◌++◌,
  str_eq, leb, if◌then◌else◌, Bool-cases, sub_ℕ, attribute_error, value_error, Result, ok, raise,
}
use thearchivist.Json.{Json}
use thearchivist.Table.{select}
use thearchivist.Registry.{elem}
use thearchivist.Journal.Record.{skip_hosts}
use thearchivist.Store.Data.{opened, Job, Alert, Store, in_state}
use thearchivist.Store.Operations.{get, jobs_created_since}
use thearchivist.Diagnose.{Diagnosis, no_diagnosis, interpret, read_output}
use thearchivist.Diagnose.Prompt.{build_prompt}
use thearchivist.Diagnose.Laws.{is_object, interpret-not_object}
use thearchivist.Diagnose.Session.{
  SessionAnswer, stdout_of, Printed, Transcript, read_answer, diagnose,
}
use thearchivist.App.World.{
  World, Env, Exec, Event, published, journaled, diagnosis_failed, pure, lift, ◌>>=◌, get_job,
  reading_world,
}
use thearchivist.App.Jobs.{journal_record, admit_job, concluded}
use thearchivist.App.Steps.{Implements}
use thearchivist.App.Refines.{handler_rules}
use thearchivist.App.Handlers.{admit_job-Implements, concluded-Implements}

-- SELECT * FROM alerts WHERE job_id = ? ORDER BY id: the ids grow with the places of the rows.
abbrev pub alerts_of : String → Store → List Alert
alerts_of i s = select (λ (a : Alert). str_eq a.job_id i) s.alerts

module _ (env : Env) (printed : Printed) (session : String → SessionAnswer) (begun : ℕ) where
  abbrev diagnose_job : Job → List Alert → Result (Diagnosis × Transcript)
  diagnose_job = diagnose env.python printed env.registry begun session

  -- What follows the test of the rate.
  unfoldable pub work_on : String → Job → Bool → Exec (Unit {0})
  work_on i seen false = pure tt
  work_on i seen true =
      reading_world λ w. lift (diagnose_job seen (alerts_of i w.store)) >>= λ r. concluded env i r.0

  unfoldable pub handle_new_job : String → Exec (Unit {0})
  unfolding work_on
  handle_new_job i = do seen ← get_job i; admitted ← admit_job env i; work_on i seen admitted

  work_on-Implements : (i : String) (seen : Job) (b : Bool) → Implements env (work_on i seen b)
  unfolding work_on
  work_on-Implements i seen false = search handler_rules depth 40
  work_on-Implements i seen true = search (handler_rules, concluded-Implements) depth 40

  pub handle_new_job-Implements : (i : String) → Implements env (handle_new_job i)
  unfolding handle_new_job
  handle_new_job-Implements i =
      search (handler_rules, admit_job-Implements, work_on-Implements) depth 40

-- The message about a failed diagnosis, and the entry of the journal, if the host has one
abbrev pub failure_events : String → Job → List Event
failure_events i job =
    published diagnosis_failed i []
    ∷ (if elem job.host skip_hosts then [] else journaled "diagnosis" job.id ∷ [])

append_two : (es : List Event) (a b : Event) → (es ++ a ∷ []) ++ b ∷ [] ≡ es ++ a ∷ b ∷ []
append_two [] a b = refl
append_two (e ∷ es) a b = ap (λ r. e ∷ r) (append_two es a b)

module _ (env : Env) where
  journal_record-fails :
      (i : String) (job : Job) (w : World)
      → journal_record job "diagnosis"
          (record w { events = w.events ++ published diagnosis_failed i [] ∷ [] })
        ≡ (record w { events = w.events ++ failure_events i job }, ok tt)
  unfolding journal_record
  journal_record-fails i job w = elim (Bool-cases (elem job.host skip_hosts)) [
    | inl skipped ↦ rw (skipped) refl
    | inr open_host ↦
        rw
          (
            open_host,
            append_two w.events (published diagnosis_failed i []) (journaled "diagnosis" job.id),
          )
          refl
  ]

  concluded-failed :
      (i : String) (job : Job) (d : Diagnosis) (w : World)
      → get i w.store ≡ some job
      → in_state opened job ≡ true
      → d.is_ok ≡ false
      → concluded env i d w ≡ (record w { events = w.events ++ failure_events i job }, ok tt)
  unfolding concluded
  concluded-failed i job d w there waiting failed =
      rw (there, waiting, failed) (journal_record-fails i job w)

  failed_reading :
      (stdout host : String)
      → env.python.loads stdout ≡ none
      → (d : Diagnosis) × (interpret env.python env.registry host stdout ≡ ok d) × (d.is_ok ≡ false)
  unfolding interpret read_output
  failed_reading stdout host e = (
    record no_diagnosis { error = some (env.python.error_text value_error) },
    rw (interpret, e) refl,
    refl,
  )

-- handle_new_job() where no other thread comes between, of a job that is open and within the rate, and
-- whose prompt could be built
module _ (env : Env) (printed : Printed) (session : String → SessionAnswer) (begun : ℕ) (i : String)
    (w : World) (job : Job) (prompt : String) (there : get i w.store ≡ some job)
    (waiting : in_state opened job ≡ true)
    (within : leb (jobs_created_since (sub_ℕ (env.clock w.reads) 3600) w.store) env.jobs_per_hour
      ≡ true)
    (built : build_prompt printed.of_list printed.of_time job (alerts_of i w.store) env.registry
      ≡ ok prompt) where
  admitted : admit_job env i w ≡ (record w { reads = suc w.reads }, ok true)
  unfolding admit_job
  admitted = rw (admit_job, there, within) refl

  -- For a job that is open and within the rate, whose prompt can be built, where no other thread comes
  -- between: if json.loads() refuses what the session printed, such as the empty output of one that ran
  -- out of time, handle_new_job() reports a failed diagnosis, by a message and in the journal if it has
  -- entries of the host, and does nothing else: no table is changed, nothing runs, nobody is asked. If
  -- the output is JSON but no object, the body of the handler's try is left by an AttributeError, which
  -- its `except Exception` logs, and nothing at all is reported.
  pub unusable_session :
      (env.python.loads (stdout_of (session prompt)) ≡ none
        → handle_new_job env printed session begun i w
          ≡ (record w { reads = suc w.reads; events = w.events ++ failure_events i job }, ok tt))
      × ((out : Json)
          → env.python.loads (stdout_of (session prompt)) ≡ some out
          → is_object out ≡ false
          → handle_new_job env printed session begun i w
            ≡ (record w { reads = suc w.reads }, raise attribute_error))
  unfolding handle_new_job work_on diagnose read_answer
  unusable_session = (
    λ e.
        let (d, said, failed) = failed_reading env (stdout_of (session prompt)) job.host e in
        rw (there, admitted, work_on, built, said)
          (concluded-failed env i job d (record w { reads = suc w.reads }) there waiting failed),
    λ out e odd.
        rw
          (
            there,
            admitted,
            work_on,
            built,
            interpret-not_object env.python env.registry job.host (stdout_of (session prompt)) out e
                odd,
          )
          refl,
  )
