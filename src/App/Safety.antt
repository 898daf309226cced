-- ===== src/App/Safety.antt =====
-- What holds of configs/responder/app.py in whatever order its threads take their steps.
use thearchivist.Prelude.{ℕ, ◌+◌, ◌≤◌, ◌≡◌, refl, String, arith}
use thearchivist.Table.{count}
use thearchivist.Table.Laws.{count-insert}
use thearchivist.Store.Statements.{updates, mark_executing}
use thearchivist.Store.Operations.{get}
use thearchivist.Store.Effects.{UniqueIds}
use thearchivist.Store.Invariant.{Inv, exec-Inv, empty_store-Inv}
use thearchivist.Store.Once.{left, left-exec, left-le-one}
use thearchivist.Grants.Invariant.{Inv as BookInv, empty_book-Inv}
use thearchivist.Grants.Operations.{operate-Inv}
use thearchivist.App.World.{World, empty_world, Env, executed}
use thearchivist.App.Steps.{
  Step, statement, learning, message, thread, reading, drawing, execution, Steps, stay, step,
  runs_job, executions,
}

-- Both sets of tables are as they should be.
pub record Sound (env : Env) (w : World) : Type 0 where
  pub jobs : Inv w.store
  pub approvals : BookInv env.registry w.book

step-Sound : {env : Env} {w v : World} → Step env w v → Sound env w → Sound env v
step-Sound {env} {w} (statement q) h = record {
  jobs = exec-Inv q w.store h.jobs;
  approvals = h.approvals;
}
step-Sound {env} {w} (learning o) h = record {
  jobs = h.jobs;
  approvals = operate-Inv env.registry env.hash o w.book h.approvals;
}
step-Sound (message e quiet) h = record { jobs = h.jobs; approvals = h.approvals }
step-Sound (thread t) h = record { jobs = h.jobs; approvals = h.approvals }
step-Sound reading h = record { jobs = h.jobs; approvals = h.approvals }
step-Sound drawing h = record { jobs = h.jobs; approvals = h.approvals }
step-Sound {env} {w} (execution i key verb t first) h = record {
  jobs = exec-Inv (updates (mark_executing i t)) w.store h.jobs;
  approvals = h.approvals;
}

-- From tables that keep their invariants, whatever steps the threads take, and in whatever order,
-- both sets of tables keep them.
pub Steps-Sound : {env : Env} {w v : World} → Steps env w v → Sound env w → Sound env v
Steps-Sound stay h = h
Steps-Sound (step p s) h = step-Sound s (Steps-Sound p h)

pub empty_world-Sound : (env : Env) → Sound env empty_world
empty_world-Sound env = record { jobs = empty_store-Inv; approvals = empty_book-Inv env.registry }

-- The runs of a job so far, and the one that it has left.
abbrev budget : String → World → ℕ
budget i w = executions i w + left 3 (get i w.store)

step-budget :
    {env : Env} {w v : World} (i : String)
    → Step env w v
    → UniqueIds w.store
    → budget i v ≤ budget i w
step-budget {env} {w} i (statement q) unique = ground (arith, left-exec 3 i q w.store unique)
step-budget i (learning o) unique = omega arith
step-budget {env} {w} i (message e quiet) unique =
    rw (count-insert (runs_job i) e w.events) (ground (arith, quiet))
step-budget i (thread t) unique = omega arith
step-budget i reading unique = omega arith
step-budget i drawing unique = omega arith
step-budget {env} {w} i (execution j key verb t first) unique =
    rw (count-insert (runs_job i) (executed j key verb) w.events)
      (ground (arith, left-exec 3 i (updates (mark_executing j t)) w.store unique, first))

Steps-budget :
    {env : Env} {w v : World} (i : String) → Steps env w v → Sound env w → budget i v ≤ budget i w
Steps-budget i stay h = omega arith
Steps-budget i (step p s) h =
    omega (arith, Steps-budget i p h, step-budget i s (Steps-Sound p h).jobs.unique)

no_executions : (i : String) → executions i empty_world ≡ 0
unfolding count
no_executions i = refl

-- From empty tables, whatever steps the threads take, and in whatever order, the action of a job
-- is run at most once.
pub executed_once :
    {env : Env} {w : World} (i : String) → Steps env empty_world w → executions i w ≤ 1
executed_once {env} {w} i p = omega (
  arith,
  Steps-budget i p (empty_world-Sound env),
  left-le-one 3 (get i empty_world.store),
  no_executions i,
)
