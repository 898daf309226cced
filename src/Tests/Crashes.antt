-- ===== src/Tests/Crashes.antt =====
-- An example for app.py: the page of a service is no HTTP while it starts, and urllib raises.
use thearchivist.Prelude.{ℕ, ◌≡◌, refl, String, some, List, [], ◌∷◌, ok, raise, value_error, false}
use thearchivist.Table.{find, select, update, count, latest, next_rowid}
use thearchivist.Registry.{by_checkmk_name, first_named, host, lookup}
use thearchivist.Store.Data.{dedupe_key, Job, approved}
use thearchivist.Store.Statements.{exec, run_update, live_job, intake_alert, Report}
use thearchivist.Store.Operations.{get}
use thearchivist.App.World.{World, Env, empty_world}
use thearchivist.App.Jobs.{run_approved}
use thearchivist.App.Safety.{Sound, empty_world-Sound}
use thearchivist.App.Crashed.{
  Relief, round, recovery, relieve_all, busy_job, crashed, crashed_run_stays,
}
use thearchivist.Tests.{grafana, one_approved, one_approved-Inv}
use thearchivist.Tests.Deadlines.{waiting_job}
use thearchivist.Tests.Requests.{env}

abbrev raising : Env
raising = record env { execute = λ h verb n. raise value_error }

abbrev granted : World
granted = record empty_world { store = one_approved }

granted-Sound : Sound raising granted
granted-Sound = record {
  jobs = one_approved-Inv;
  approvals = (empty_world-Sound raising).approvals;
}

abbrev granted_job : Job
granted_job = record waiting_job { state = approved; updated_at = 120 }

one_approved-get : get "j1" one_approved ≡ some granted_job
unfolding get exec run_update intake_alert live_job find select update count latest next_rowid
    dedupe_key
one_approved-get = refl

abbrev reliefs : List Relief
reliefs = recovery "lxc-grafana" "HTTP" ∷ round ∷ []

crashed_run_stays_example :
    (run_approved raising "j1" granted
      ≡ (crashed raising "j1" "grafana" "restart" granted, raise value_error))
    × (get "j1"
          (relieve_all raising reliefs (crashed raising "j1" "grafana" "restart" granted)).store
        ≡ some (busy_job raising granted granted_job))
    × ((a : Report) (now window : ℕ) (new_id : String)
        → a.host ≡ "lxc-grafana"
        → a.service ≡ "HTTP"
        → (j : String) × ((intake_alert a now window new_id
              (relieve_all raising reliefs
                (crashed raising "j1" "grafana" "restart" granted)).store).1
            ≡ ok (j, false)))
unfolding by_checkmk_name first_named host lookup
crashed_run_stays_example =
    crashed_run_stays raising "j1" granted granted_job "grafana" "restart" grafana value_error
      granted-Sound one_approved-get refl refl refl refl refl reliefs
