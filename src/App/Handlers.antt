-- ===== src/App/Handlers.antt =====
-- The handlers of configs/responder/app.py, each as a whole, in terms of the steps of App/Steps.
use thearchivist.Prelude.{ℕ, String, Option, none, some, List, [], ◌∷◌}
use thearchivist.Registry.{Action}
use thearchivist.Store.Data.{Job, Store}
use thearchivist.Store.Statements.{Reach, here}
use thearchivist.Store.Operations.{expire_due}
use thearchivist.Store.Sweeps.{Reach-expire_due}
use thearchivist.Diagnose.{Diagnosis}
use thearchivist.App.World.{Env}
use thearchivist.App.Jobs.{
  admit_job, auto_run, send, ask, try_auto, act_on, propose_or_tell, concluded, conclude_job,
  remembering, run_approved, shut_expired, close_expired, sweep,
}
use thearchivist.App.Steps.{Implements, Implements->>=}
use thearchivist.App.Refines.{handler_rules}

module _ (env : Env) where
  pub admit_job-Implements : (i : String) → Implements env (admit_job env i)
  unfolding admit_job
  admit_job-Implements i = search handler_rules depth 40

  auto_run-Implements :
      (i : String) (job : Job) (a : Action) (g : String) → Implements env (auto_run env i job a g)
  unfolding auto_run
  auto_run-Implements i job a g = search handler_rules depth 40

  send-Implements : (i : String) (job : Job) (o : Option String) → Implements env (send env i job o)
  unfolding send
  send-Implements i job none = search handler_rules depth 40
  send-Implements i job (some token) = search handler_rules depth 40

  ask-Implements : (i : String) (job : Job) (a : Action) → Implements env (ask env i job a)
  unfolding ask
  ask-Implements i job a = search (handler_rules, send-Implements) depth 40

  try_auto-Implements :
      (i : String) (job : Job) (a : Action) (o : Option String)
      → Implements env (try_auto env i job a o)
  unfolding try_auto
  try_auto-Implements i job a none = ask-Implements i job a
  try_auto-Implements i job a (some g) =
      search (handler_rules, auto_run-Implements, ask-Implements) depth 40

  act_on-Implements : (i : String) (job : Job) (a : Action) → Implements env (act_on env i job a)
  unfolding act_on
  act_on-Implements i job a = search (handler_rules, try_auto-Implements) depth 40

  propose_or_tell-Implements :
      (i : String) (job : Job) (o : Option Action) → Implements env (propose_or_tell env i job o)
  unfolding propose_or_tell
  propose_or_tell-Implements i job none = search handler_rules depth 40
  propose_or_tell-Implements i job (some a) = act_on-Implements i job a

  pub concluded-Implements : (i : String) (d : Diagnosis) → Implements env (concluded env i d)
  unfolding concluded
  concluded-Implements i d = search (handler_rules, propose_or_tell-Implements) depth 40

  pub conclude_job-Implements :
      (i : String) (seen : Job) (stdout : String) → Implements env (conclude_job env i seen stdout)
  unfolding conclude_job
  conclude_job-Implements i seen stdout = search (handler_rules, concluded-Implements) depth 40

  remembering-Implements : (job : Job) (o : Option String) → Implements env (remembering env job o)
  unfolding remembering
  remembering-Implements job none = search handler_rules depth 40
  remembering-Implements job (some key) = search handler_rules depth 40

  pub run_approved-Implements : (i : String) → Implements env (run_approved env i)
  unfolding run_approved
  run_approved-Implements i = search (handler_rules, remembering-Implements) depth 40

  shut_expired-Implements : (i : String) → Implements env (shut_expired env i)
  unfolding shut_expired
  shut_expired-Implements i = search handler_rules depth 40

  close_expired-Implements : (is : List String) → Implements env (close_expired env is)
  unfolding close_expired
  close_expired-Implements [] = search handler_rules depth 40
  close_expired-Implements (i ∷ is) =
      Implements->>= env (shut_expired env i) (λ _. close_expired env is)
        (shut_expired-Implements i) (λ _. close_expired-Implements is)

  Reach-expired : (t : ℕ) (s : Store) → Reach s (expire_due t s).0
  Reach-expired t s = Reach-expire_due s here t

  pub sweep-Implements : Implements env (sweep env)
  unfolding sweep
  sweep-Implements = search (handler_rules, close_expired-Implements, Reach-expired) depth 40
