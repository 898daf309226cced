-- ===== src/App/Jobs.antt =====
-- configs/responder/app.py: the work behind a job, from the alert to the end of the execution.
use Prim.Native.String
use thearchivist.Prelude.{
  ℕ, String, Bool, true, false, not, Option, none, some, List, [], ◌∷◌, leb, if◌then◌else◌, sub_ℕ,
  ok, raise, type_error, integrity_error,
}
use thearchivist.Registry.{Action, elem, host, by_checkmk_name, is_protected}
use thearchivist.Diagnose.{Diagnosis, interpret}
use thearchivist.Journal.Record.{skip_hosts}
use thearchivist.Store.Data.{Job, opened, in_state}
use thearchivist.Store.Operations.{
  jobs_created_since, auto_approve, start_execution, close, propose, expire_due,
}
use thearchivist.Grants.{
  Book, Outcome, check_auto, start_auto_run, finish_auto_run, revoke_link, remember,
}
use thearchivist.App.World.{
  Env, Exec, published, journaled, executed, rate_limited, cleared, diagnosis_failed, diagnosed,
  auto_fixed, auto_fix_failed, approve_request, fixed, failed, pure, lift, on_store, on_book, ◌>>=◌,
  ◌>>◌, emit, now, draw, get_job, reading_world,
}

-- journal.record(), of which an entry is kept in the background
unfoldable pub journal_record : Job → String → Exec (Unit {0})
journal_record job event =
    if elem job.host skip_hosts then pure tt else emit (journaled event job.id)

-- executor.execute(REGISTRY.host(host), verb): without an entry its first subscript raises.
unfoldable pub execute : Env → Option String → Option String → String → Exec (Bool × String)
execute env none verb i = lift (raise type_error)
execute env (some key) none i = lift (raise type_error)
execute env (some key) (some verb) i = elim (host env.registry key) [
  | none ↦ lift (raise type_error)
  | some h ↦ emit (executed i key verb) >> (λ w. (w, env.execute h verb w.reads))
]

-- run_execution()
unfoldable pub run_execution : Env → String → Option String → Exec (Bool × String)
run_execution env i key = do
  t ← now env
  started ← on_store (start_execution i t)
  if not started then pure (false, "not executed (job no longer approved)") else do
    job ← get_job i
    result ← execute env key job.verb i
    t' ← now env
    on_store (close i (if result.0 then "done" else "failed") t') >>= λ _. pure result

-- The first part of handle_new_job(): whether the job may be diagnosed.
unfoldable pub admit_job : Env → String → Exec Bool
admit_job env i = do
  job ← get_job i
  t ← now env
  reading_world λ w.
      if leb (jobs_created_since (sub_ℕ t 3600) w.store) env.jobs_per_hour
      then pure true
      else (emit (published rate_limited i []) >> pure false)

-- f"{PUBLIC_BASE}/{word}/{job_id}/{token}"
abbrev pub button : Env → String → String → String → String
button env word i token =
    String.◌++◌ env.public_base
      (String.◌++◌ "/" (String.◌++◌ word (String.◌++◌ "/" (String.◌++◌ i (String.◌++◌ "/" token)))))

-- An action with an active grant: run it without a tap.
unfoldable pub auto_run : Env → String → Job → Action → String → Exec (Unit {0})
auto_run env i job a grant_id = do
  journal_record job "diagnosis"
  t ← now env
  run_id ← on_book (start_auto_run grant_id i t)
  result ← run_execution env i (some a.host)
  t' ← now env
  on_book (λ b. (finish_auto_run run_id grant_id result.0 t' b, ok tt))
  drawn ← draw env
  token ← on_book (revoke_link env.hash grant_id drawn)
  (if result.0
      then emit (published auto_fixed i (("Revoke", button env "revoke" grant_id token) ∷ []))
      else emit (published auto_fix_failed i []))
  journal_record job "auto-run"

-- What follows store.propose().
unfoldable pub send : Env → String → Job → Option String → Exec (Unit {0})
send env i job none = pure tt
send env i job (some token) = do
  journal_record job "diagnosis"
  emit (
      published approve_request i
        (("Approve", button env "approve" i token) ∷ ("Deny", button env "deny" i token) ∷ []))

-- Any other action: ask on the phone.
unfoldable pub ask : Env → String → Job → Action → Exec (Unit {0})
ask env i job a = do
  t ← now env
  drawn ← draw env
  token ← on_store (propose env.hash i a.verb a.unit drawn t env.approval_ttl)
  send env i job token

-- if grant_id and store.auto_approve(...)
unfoldable pub try_auto : Env → String → Job → Action → Option String → Exec (Unit {0})
try_auto env i job a none = ask env i job a
try_auto env i job a (some grant_id) = do
  t ← now env
  approved ← on_store (auto_approve i a.verb a.unit t)
  if approved then auto_run env i job a grant_id else ask env i job a

-- From check_auto() on.
unfoldable pub act_on : Env → String → Job → Action → Exec (Unit {0})
act_on env i job a = do
  t ← now env
  reading_world λ w. try_auto env i job a (check_auto env.registry a.host a.verb a.unit t w.book).0

unfoldable pub propose_or_tell : Env → String → Job → Option Action → Exec (Unit {0})
propose_or_tell env i job none = do emit (published diagnosed i []); journal_record job "diagnosis"
propose_or_tell env i job (some a) = act_on env i job a

-- handle_new_job() behind diagnose.run()
unfoldable pub concluded : Env → String → Diagnosis → Exec (Unit {0})
concluded env i d = do
  job ← get_job i
  (if not (in_state opened job)
      then (emit (published cleared i []) >> journal_record job "diagnosis")
      else if not d.is_ok
      then (emit (published diagnosis_failed i []) >> journal_record job "diagnosis")
      else propose_or_tell env i job d.proposal)

-- The rest of handle_new_job(), after the session: `seen` is the job as it was read before it, and
-- `stdout` what the session printed.
unfoldable pub conclude_job : Env → String → Job → String → Exec (Unit {0})
unfolding concluded
conclude_job env i seen stdout = do
  d ← lift (interpret env.python env.registry seen.host stdout)
  concluded env i d

-- grants.record() with columns that may be NULL: a grant's columns are NOT NULL.
unfoldable pub remember_job : Env → String → Job → ℕ → String → Book → Outcome (Option String)
remember_job env key job t drawn b = elim job.verb [
  | none ↦ (b, if is_protected env.registry key then ok none else raise integrity_error)
  | some verb ↦ (elim job.unit [
    | none ↦ (b, if is_protected env.registry key then ok none else raise integrity_error)
    | some unit ↦ remember env.registry key verb unit job.id t drawn b
  ])
]

-- What follows a run that was verified. Without a key, grants.record() remembers nothing.
unfoldable pub remembering : Env → Job → Option String → Exec (Unit {0})
remembering env job none = pure tt
remembering env job (some key) = do
  t ← now env
  drawn ← draw env
  on_book (remember_job env key job t drawn) >>= λ _. pure tt

-- handle_approved(), without its `except Exception`
unfoldable pub run_approved : Env → String → Exec (Unit {0})
run_approved env i = do
  job ← get_job i
  let key = by_checkmk_name env.registry job.host
  result ← run_execution env i key
  (if result.0 then remembering env job key else pure tt)
  journal_record job "approved"
  emit (published (if result.0 then fixed else failed) i [])

-- What sweeper() does with an expired job, and its loop over them
unfoldable pub shut_expired : Env → String → Exec (Unit {0})
shut_expired env i = do
  t ← now env
  shut ← on_store (close i "expired" t)
  job ← get_job i
  journal_record job "expired"

unfoldable pub close_expired : Env → List String → Exec (Unit {0})
close_expired env [] = pure tt
close_expired env (i ∷ is) = shut_expired env i >> close_expired env is

-- One round of sweeper()
unfoldable pub sweep : Env → Exec (Unit {0})
sweep env = do t ← now env; swept ← on_store (expire_due t); close_expired env swept
