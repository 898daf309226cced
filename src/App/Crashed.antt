-- ===== src/App/Crashed.antt =====
-- configs/responder/app.py: a run that the executor leaves by an exception. run_execution() does not
-- catch it, so the job stays executing, which neither the sweeper nor a recovery ends.
use thearchivist.Prelude.{
  ℕ, suc, ◌≡◌, refl, sym, ◌∙◌, String, true, false, some, List, [], ◌∷◌, ◌++◌, arith, str_eq_refl,
  Error, Result, ok, raise,
}
use mathlib.Core.Path.{subst}
use thearchivist.Registry.{HostConfig, host, by_checkmk_name}
use thearchivist.Store.Data.{approved, executing, Job, dedupe_key}
use thearchivist.Store.Statements.{Report, intake_alert, to_state}
use thearchivist.Store.Operations.{get, start_execution, recover, recoverable}
use thearchivist.Store.Effects.{has_id-get}
use thearchivist.Store.Proposal.{start_execution_lem}
use thearchivist.Store.Sweeps.{recover_lem, Reach-recover}
use thearchivist.Store.Statements.{here}
use thearchivist.App.World.{World, Env, executed}
use thearchivist.App.Jobs.{execute, run_execution, run_approved, sweep}
use thearchivist.App.Steps.{Reach-Steps}
use thearchivist.App.Safety.{Sound, Steps-Sound}
use thearchivist.App.Handlers.{run_approved-Implements, sweep-Implements}
use thearchivist.App.Sweeps.{sweep_lem}
use thearchivist.App.Stranded.{silent_for}

-- What may come to a job's help: a round of the sweeper, and store.recover() for a host and service
pub data Relief : Type 0 where
  round : Relief
  recovery : String → String → Relief

module _ (env : Env) where
  abbrev pub relieve : Relief → World → World
  relieve round w = (sweep env w).0
  relieve (recovery name service) w = record w {
    store = (recover name service (env.clock w.reads) w.store).0;
  }

  abbrev pub relieve_all : List Relief → World → World
  relieve_all [] w = w
  relieve_all (r ∷ rs) w = relieve_all rs (relieve r w)

  relieve-Sound : (a : Relief) (w : World) → Sound env w → Sound env (relieve a w)
  relieve-Sound round w sound = Steps-Sound ((sweep-Implements env).steps w) sound
  relieve-Sound (recovery name service) w sound =
      Steps-Sound (Reach-Steps w (Reach-recover w.store here name service (env.clock w.reads)))
        sound

  -- An executing job is not recoverable.
  not_recoverable : (key : String) (r : Job) → r.state ≡ executing → recoverable key r ≡ false
  not_recoverable key r busy = ground (arith, busy)

  relieve-keeps :
      (a : Relief) (w : World) (j : String) (r : Job)
      → Sound env w
      → get j w.store ≡ some r
      → r.state ≡ executing
      → get j (relieve a w).store ≡ some r
  relieve-keeps round w j r sound there busy =
      let (t, after) = (sweep_lem env w sound.jobs.unique).1 j r there in after ∙ rw busy refl
  relieve-keeps (recovery name service) w j r sound there busy =
      (recover_lem w.store sound.jobs.unique (env.clock w.reads) name service j).0
      ∙ rw (there, not_recoverable (dedupe_key name service) r busy) refl

  relieve_all-keeps :
      (rs : List Relief) (w : World) (j : String) (r : Job)
      → Sound env w
      → get j w.store ≡ some r
      → r.state ≡ executing
      → (get j (relieve_all rs w).store ≡ some r) × Sound env (relieve_all rs w)
  relieve_all-keeps [] w j r sound there busy = (there, sound)
  relieve_all-keeps (a ∷ rs) w j r sound there busy =
      relieve_all-keeps rs (relieve a w) j r (relieve-Sound a w sound)
        (relieve-keeps a w j r sound there busy) busy

abbrev pub busy_job : Env → World → Job → Job
busy_job env w job = to_state executing (env.clock w.reads) job

-- The world when the exception leaves the handler: no message and no entry of the journal
abbrev pub crashed : Env → String → String → String → World → World
crashed env i key verb w = record w {
  store = (start_execution i (env.clock w.reads) w.store).0;
  reads = suc w.reads;
  events = w.events ++ executed i key verb ∷ [];
}

-- A job that was approved, whose host has an entry, and whose run the executor leaves by an exception
module _ (env : Env) (i : String) (w : World) (job : Job) (key verb : String) (h : HostConfig)
    (e : Error) (sound : Sound env w) (there : get i w.store ≡ some job)
    (granted : job.state ≡ approved) (chosen : job.verb ≡ some verb)
    (named : by_checkmk_name env.registry job.host ≡ some key)
    (entry : host env.registry key ≡ some h)
    (crash : env.execute h verb (suc w.reads) ≡ raise e) where
  busy_row : get i (crashed env i key verb w).store ≡ some (busy_job env w job)
  busy_row =
      (start_execution_lem i w.store sound.jobs.unique (env.clock w.reads)).1 i
      ∙ rw (str_eq_refl i, there, granted) refl

  abbrev begun_world : World
  begun_world = record w {
    store = (start_execution i (env.clock w.reads) w.store).0;
    reads = suc w.reads;
  }

  execute-crashes :
      execute env (some key) (some verb) i begun_world ≡ (crashed env i key verb w, raise e)
  unfolding execute
  execute-crashes = rw (execute, entry, crash) refl

  run_execution-crashes : run_execution env i (some key) w ≡ (crashed env i key verb w, raise e)
  unfolding run_execution
  run_execution-crashes =
      let won : (start_execution i (env.clock w.reads) w.store).1 ≡ true =
        (start_execution_lem i w.store sound.jobs.unique (env.clock w.reads)).0
        ∙ rw (there, granted) refl in
      rw (won, busy_row, chosen, execute-crashes) refl

  run_approved-crashes : run_approved env i w ≡ (crashed env i key verb w, raise e)
  unfolding run_approved
  run_approved-crashes = rw (there, named, run_execution-crashes) refl

  -- For an approved job with an action, whose host has an entry, in tables that keep their invariants,
  -- where the executor leaves the run by an exception: the body of the try of handle_approved() is left by
  -- it too, up to the `except Exception` that logs it, and reports nothing of the run; and whatever rounds of the sweeper and recoveries of hosts and services come
  -- then, the job stays executing, and an alert for its host and service opens no job.
  pub crashed_run_stays :
      (rs : List Relief)
      → (run_approved env i w ≡ (crashed env i key verb w, raise e))
        × (get job.id (relieve_all env rs (crashed env i key verb w)).store
            ≡ some (busy_job env w job))
        × ((a : Report) (now window : ℕ) (new_id : String)
            → a.host ≡ job.host
            → a.service ≡ job.service
            → (j : String) × ((intake_alert a now window new_id
                  (relieve_all env rs (crashed env i key verb w)).store).1
                ≡ ok (j, false)))
  crashed_run_stays rs =
      let safe : Sound env (crashed env i key verb w) =
        subst (λ (r : World × Result Unit). Sound env r.0) run_approved-crashes
          (Steps-Sound ((run_approved-Implements env i).steps w) sound) in
      let (kept, later) =
        relieve_all-keeps env rs (crashed env i key verb w) i (busy_job env w job) safe busy_row
          refl in
      let own : get job.id (relieve_all env rs (crashed env i key verb w)).store
          ≡ some (busy_job env w job) =
        subst
          (λ j.
            get j (relieve_all env rs (crashed env i key verb w)).store ≡ some (busy_job env w job))
          (sym (has_id-get i w.store job there)) kept in
      (
        run_approved-crashes,
        own,
        silent_for (relieve_all env rs (crashed env i key verb w)) (busy_job env w job) later own
            refl,
      )
