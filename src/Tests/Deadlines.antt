-- ===== src/Tests/Deadlines.antt =====
-- Examples for app.py: a proposal that nobody decides, and one that is decided too late.
use thearchivist.Prelude.{ℕ, ◌≡◌, refl, String, none, some, List, [], ◌∷◌, ok, if◌then◌else◌}
use thearchivist.Table.{find, select, update, count, latest, next_rowid}
use thearchivist.Store.Data.{dedupe_key, Job, pending, expired}
use thearchivist.Store.Statements.{exec, run_update, live_job, intake_alert, to_state, to_closed}
use thearchivist.Store.Operations.{get, due}
use thearchivist.App.Paths.{TapAction}
use thearchivist.App.World.{World, empty_world}
use thearchivist.App.Jobs.{sweep}
use thearchivist.App.Http.{tap}
use thearchivist.App.History.{Handler, sweeps, starts_up, serve}
use thearchivist.App.Safety.{Sound, empty_world-Sound}
use thearchivist.App.Sweeps.{sweep_lem}
use thearchivist.App.Stranded.{Stranded, late_tap_strands}
use thearchivist.Tests.{one_pending, one_pending-Inv}
use thearchivist.Tests.Requests.{env, digits}

-- 800 s after the start, 100 s after the deadline
abbrev overdue : World
overdue = record empty_world { store = one_pending; reads = 70 }

overdue-Sound : Sound env overdue
overdue-Sound = record { jobs = one_pending-Inv; approvals = (empty_world-Sound env).approvals }

abbrev pub waiting_job : Job
waiting_job = record {
  id = "j1";
  dedupe_key = "lxc-grafana\u{1f}HTTP";
  host = "lxc-grafana";
  service = "HTTP";
  state = pending;
  created_at = 100;
  updated_at = 110;
  closed_at = none;
  close_reason = none;
  verb = some "restart";
  unit = some "grafana-server.service";
  token_hash = some "t1";
  expires_at = some 700;
}

one_pending-get : get "j1" one_pending ≡ some waiting_job
unfolding get exec run_update intake_alert live_job find select update count latest next_rowid
    dedupe_key
one_pending-get = refl

sweep_lem_example :
    ((sweep env overdue).1 ≡ ok tt)
    × ((j : String) (r : Job)
        → get j one_pending ≡ some r
        → (t : ℕ) × (get j (sweep env overdue).0.store
            ≡ some (if due 800 r then to_closed "expired" t (to_state expired 800 r) else r)))
sweep_lem_example = sweep_lem env overdue one_pending-Inv.unique

abbrev chores : List Handler
chores = sweeps ∷ starts_up ∷ sweeps ∷ []

late_tap_strands_example :
    Stranded env digits
      (to_state expired 800 waiting_job)
      (serve env digits chores (tap env TapAction.approve "j1" "t1" overdue).0)
late_tap_strands_example =
    late_tap_strands env digits TapAction.approve "j1" "t1" overdue waiting_job chores overdue-Sound
      one_pending-get refl refl refl (refl, (refl, (refl, tt)))
