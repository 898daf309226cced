-- ===== src/App/History.antt =====
-- Histories of configs/responder/app.py: its handlers, one after another, from empty tables.
use thearchivist.Prelude.{ℕ, ◌≤◌, String, List, [], ◌∷◌}
use thearchivist.Store.Data.{Job}
use thearchivist.App.World.{World, empty_world, Env}
use thearchivist.App.Jobs.{admit_job, conclude_job, run_approved, sweep}
use thearchivist.App.Http.{Request, post, start_up}
use thearchivist.App.Steps.{Steps, stay, Steps-trans, executions}
use thearchivist.App.Safety.{Sound, Steps-Sound, empty_world-Sound, executed_once}
use thearchivist.App.Handlers.{
  admit_job-Implements, conclude_job-Implements, run_approved-Implements, sweep-Implements,
}
use thearchivist.App.Requests.{post-Implements, start_up-Implements}

-- What the threads of the responder do. A new job is handled in two parts, around its session: the
-- job as it was read before it, and what the session printed, come with the second.
pub data Handler : Type 0 where
  posts : String → Request → Handler
  admits : String → Handler
  concludes : String → Job → String → Handler
  runs_approved : String → Handler
  sweeps : Handler
  starts_up : Handler

-- What a handler leaves behind, also where it raises. `digits` writes a number out.
unfoldable pub handle : Env → (ℕ → String) → Handler → World → World
handle env digits (posts path q) w = (post env digits path q w).0
handle env digits (admits i) w = (admit_job env i w).0
handle env digits (concludes i seen stdout) w = (conclude_job env i seen stdout w).0
handle env digits (runs_approved i) w = (run_approved env i w).0
handle env digits sweeps w = (sweep env w).0
handle env digits starts_up w = (start_up env w).0

unfoldable pub serve : Env → (ℕ → String) → List Handler → World → World
serve env digits [] w = w
serve env digits (h ∷ hs) w = serve env digits hs (handle env digits h w)

module _ (env : Env) (digits : ℕ → String) where
  -- Every handler does nothing but steps of the transition system, on every path through it, the
  -- ones that raise included: it writes to the tables only by the statements of store.py and the
  -- operations of grants.py, and it runs an action only behind a start_execution() that it won.
  pub handle-Steps : (h : Handler) (w : World) → Steps env w (handle env digits h w)
  unfolding handle
  handle-Steps (posts path q) w = (post-Implements env digits path q).steps w
  handle-Steps (admits i) w = (admit_job-Implements env i).steps w
  handle-Steps (concludes i seen stdout) w = (conclude_job-Implements env i seen stdout).steps w
  handle-Steps (runs_approved i) w = (run_approved-Implements env i).steps w
  handle-Steps sweeps w = (sweep-Implements env).steps w
  handle-Steps starts_up w = (start_up-Implements env).steps w

  serve-Steps : (hs : List Handler) (w : World) → Steps env w (serve env digits hs w)
  unfolding serve
  serve-Steps [] w = stay
  serve-Steps (h ∷ hs) w = Steps-trans (handle-Steps h w) (serve-Steps hs (handle env digits h w))

  -- Whatever requests, sessions and sweeps are served one after another from empty tables, the
  -- action of a job is run at most once, and both sets of tables keep their invariants.
  pub serve-Sound :
      (hs : List Handler) (i : String)
      → (executions i (serve env digits hs empty_world) ≤ 1)
        × Sound env (serve env digits hs empty_world)
  serve-Sound hs i = (
    executed_once i (serve-Steps hs empty_world),
    Steps-Sound (serve-Steps hs empty_world) (empty_world-Sound env),
  )
