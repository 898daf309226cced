-- ===== src/Tests/Sessions.antt =====
-- An example for app.py with diagnose.py: a session that runs out of time.
use thearchivist.Prelude.{◌≡◌, refl, String, none, some, attribute_error, ok, raise, false}
use thearchivist.Table.{find, select, count, latest, next_rowid}
use thearchivist.Json.{Json}
use thearchivist.Registry.{by_checkmk_name, first_named}
use thearchivist.Store.Data.{dedupe_key}
use thearchivist.Store.Statements.{exec, live_job, intake_alert}
use thearchivist.Store.Operations.{get, jobs_created_since}
use thearchivist.Diagnose.Laws.{is_object}
use thearchivist.Diagnose.Prompt.{build_prompt, host_line, host_lines, sorted_items, place_item}
use thearchivist.Diagnose.Session.{SessionAnswer, timed_out, Printed}
use thearchivist.App.World.{World, Env, empty_world}
use thearchivist.App.Session.{alerts_of, handle_new_job, failure_events, unusable_session}
use thearchivist.Tests.{python, one_open}
use thearchivist.Tests.Prompts.{one_host, show_list, stamp, job, prompt_of}
use thearchivist.Tests.Requests.{env}

abbrev small_env : Env
small_env = record env { registry = one_host }

abbrev alarmed : World
alarmed = record empty_world { store = one_open }

abbrev printed : Printed
printed = record { of_list = show_list; of_time = stamp; of_number = λ n. "100" }

abbrev too_slow : String → SessionAnswer
too_slow prompt = timed_out

abbrev prompt : String
prompt = prompt_of (build_prompt show_list stamp job (alerts_of "j1" one_open) one_host)

unusable_session_example :
    (python.loads "" ≡ none
      → handle_new_job small_env printed too_slow 100 "j1" alarmed
        ≡ (record alarmed { reads = 1; events = failure_events "j1" job }, ok tt))
    × ((out : Json)
        → python.loads "" ≡ some out
        → is_object out ≡ false
        → handle_new_job small_env printed too_slow 100 "j1" alarmed
          ≡ (record alarmed { reads = 1 }, raise attribute_error))
unfolding get exec intake_alert live_job find select count latest next_rowid dedupe_key
    jobs_created_since build_prompt host_lines host_line sorted_items place_item by_checkmk_name
    first_named
unusable_session_example =
    unusable_session small_env printed too_slow 100 "j1" alarmed job prompt refl refl refl refl
