-- ===== src/Tests/Requests.antt =====
-- Examples for configs/responder/app.py: one alert from its arrival to the restart of the service.
use thearchivist.Text.{strip_prefix, chars, take_chars}
use thearchivist.Prelude.{
  ℕ, zero, suc, ◌+◌, ◌*◌, ◌≤◌, ◌≡◌, ◌⊎◌, ◌↔◌, refl, String, true, some, List, [], ◌∷◌, ◌++◌, pos,
  ok,
}
use thearchivist.Table.{find, select, update, count, latest, next_rowid}
use thearchivist.Json.{text, object, end, field, get_field}
use thearchivist.Registry.{
  lookup, elem, host, is_write, is_protected, by_checkmk_name, validate_proposal,
}
use thearchivist.Store.Data.{dedupe_key, Job}
use thearchivist.Store.Statements.{
  Statement, mark_executing, exec, run_update, live_job, intake_alert, new_job,
}
use thearchivist.Store.Operations.{get, jobs_created_since, start_execution, close, propose, claim}
use thearchivist.Grants.{check_auto, remember}
use thearchivist.Diagnose.{read_output, verdict_of, read_verdict, check_proposal, interpret}
use thearchivist.App.Paths.{
  TapAction, match_hostname, match_tap, id_and_token, host_chars, take_class,
}
use thearchivist.App.World.{World, Env, empty_world, executed}
use thearchivist.App.Jobs.{
  journal_record, execute, run_execution, admit_job, conclude_job, concluded, propose_or_tell,
  act_on, try_auto, ask, send, run_approved, remembering, remember_job,
}
use thearchivist.App.Http.{
  Request, post, alert, alert_sized, alert_read, read_alert, take_alert, tap, answer_tap, post_tap,
}
use thearchivist.App.Steps.{Steps, stay, step, statement, execution, executions}
use thearchivist.App.Safety.{Sound, executed_once}
use thearchivist.App.History.{
  Handler, posts, admits, concludes, runs_approved, handle, serve, handle-Steps, serve-Sound,
}
use thearchivist.App.Alerts.{Refused, Accepted, alert_lem}
use thearchivist.App.Taps.{reply_to, started_by, said, tap_lem}
use thearchivist.App.Names.{Named, match_hostname_iff}
use thearchivist.Tests.{
  two_hosts, python, digest, problem, opening, proposing, approving, one_pending, one_approved,
  one_pending-Inv,
}

abbrev pub job_id : String
job_id = "0123456789ab"

abbrev tap_token : String
tap_token = "abcdefghijklmnopqrstuvwxyz012345"

abbrev drawn : ℕ → String
drawn zero = job_id
drawn (suc zero) = tap_token
drawn _ = "cafecafecafe"

abbrev pub env : Env
env = record {
  registry = two_hosts;
  python = python;
  hash = digest;
  clock = λ n. 100 + 10 * n;
  token = drawn;
  execute = λ h verb n. ok (true, "restart ok");
  approval_ttl = 600;
  dedupe_window = 600;
  jobs_per_hour = 6;
  public_base = "http://10.0.0.2:8787";
  alert_sources = "10.0.0.9" ∷ [];
  alert_token = "secret";
}

abbrev pub digits : ℕ → String
digits n = "0"

abbrev alarm : Request
alarm = record {
  source = "10.0.0.9";
  authorization = "Bearer secret";
  length = some (pos 80);
  body = some (
      object (
        field "host" (text "lxc-grafana") (
          field "service" (text "HTTP")
            (field "type" (text "PROBLEM") (field "state" (text "CRIT") end)))));
  upper = λ s. s;
}

abbrev seen : Job
seen = new_job job_id problem 100

abbrev pub history : List Handler
history =
    posts "/alert" alarm
    ∷ admits job_id
    ∷ concludes job_id seen "verdict"
    ∷ posts "/approve/0123456789ab/abcdefghijklmnopqrstuvwxyz012345" alarm
    ∷ runs_approved job_id
    ∷ runs_approved job_id
    ∷ []

-- The history runs the action, and only once, though the approval is handled twice.
history-executions : executions job_id (serve env digits history empty_world) ≡ 1
unfolding serve handle post alert alert_sized alert_read read_alert take_alert chars tap answer_tap
    post_tap match_hostname host_chars match_tap id_and_token strip_prefix take_class journal_record
    execute run_execution admit_job conclude_job concluded propose_or_tell act_on try_auto ask send
    run_approved remembering remember_job read_output verdict_of read_verdict check_proposal
    interpret check_auto remember get start_execution close propose claim exec run_update live_job
    intake_alert take_chars dedupe_key lookup elem host is_write is_protected by_checkmk_name
    validate_proposal get_field find select update count latest next_rowid jobs_created_since
history-executions = refl

serve-Sound_example :
    (executions job_id (serve env digits history empty_world) ≤ 1)
    × Sound env (serve env digits history empty_world)
serve-Sound_example = serve-Sound env digits history job_id

handle-Steps_example : Steps env empty_world (handle env digits (posts "/alert" alarm) empty_world)
handle-Steps_example = handle-Steps env digits (posts "/alert" alarm) empty_world

abbrev after_tap : World
after_tap = record empty_world { store = one_approved }

started_job : Steps env empty_world (record after_tap {
  store = exec (Statement.updates (mark_executing "j1" 130)) one_approved;
  events = [] ++ executed "j1" "grafana" "restart" ∷ [];
})
unfolding exec run_update intake_alert live_job find select update count latest next_rowid
started_job =
    step (step (step (step stay (statement opening)) (statement proposing)) (statement approving))
      (execution "j1" "grafana" "restart" 130 refl)

executed_once_example :
    executions "j1" (record after_tap {
      store = exec (Statement.updates (mark_executing "j1" 130)) one_approved;
      events = [] ++ executed "j1" "grafana" "restart" ∷ [];
    })
    ≤ 1
executed_once_example = executed_once "j1" started_job

alert_lem_example : Refused env digits alarm empty_world ⊎ Accepted env digits alarm empty_world
alert_lem_example = alert_lem env digits alarm empty_world

abbrev waiting : World
waiting = record empty_world { store = one_pending }

tap_lem_example :
    ((tap env TapAction.approve "j1" "t1" waiting).1
      ≡ ok (
          reply_to TapAction.approve
            (said env TapAction.approve "j1" "t1" waiting one_pending-Inv (get "j1" one_pending))))
    × ((tap env TapAction.approve "j1" "t1" waiting).0.tasks
        ≡ []
          ++ started_by TapAction.approve "j1"
              (said env TapAction.approve "j1" "t1" waiting one_pending-Inv
                (get "j1" one_pending)).0)
tap_lem_example = tap_lem env TapAction.approve "j1" "t1" waiting one_pending-Inv

match_hostname_iff_example :
    (match_hostname "lxc-grafana" ≡ true) ↔ ((x : Named 64 "lxc-grafana") × (1 ≤ chars x.name))
match_hostname_iff_example = match_hostname_iff "lxc-grafana"
