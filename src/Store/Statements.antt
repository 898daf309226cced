-- ===== src/Store/Statements.antt =====
-- configs/responder/store.py: each statement that writes to `jobs`, as SQLite runs it, atomically.
use thearchivist.Text.{take_chars}
use thearchivist.Prelude.{
  ℕ, String, Bool, true, false, ◌&&◌, Option, none, some, List, [], ◌∷◌, ◌==◌, sub_ℕ, Result, ok,
  raise, integrity_error, ◌>>=◌,
}
use thearchivist.Table.{find, select, count, update, insert, latest, next_rowid, both}
use thearchivist.Store.Data.{
  State, opened, pending, approved, denied, expired, executing, closed, Job, Alert, Store,
  output_max, dedupe_key, has_id, in_state, not_closed, expires_after, is_live,
}

-- UPDATE jobs SET change WHERE id = i AND guard. The number is the statement's rowcount.
unfoldable pub update_job : String → (Job → Bool) → (Job → Job) → Store → Store × ℕ
update_job i guard change s = (
  record s { jobs = update (both (has_id i) guard) change s.jobs },
  count (both (has_id i) guard) s.jobs,
)

abbrev pub to_pending : String → String → String → ℕ → ℕ → Job → Job
to_pending verb unit token_hash expires_at now r = record r {
  state = pending;
  verb = some verb;
  unit = some unit;
  token_hash = some token_hash;
  expires_at = some expires_at;
  updated_at = now;
}

abbrev pub to_state : State → ℕ → Job → Job
to_state state now r = record r { state = state; updated_at = now }

abbrev pub to_approved : String → String → ℕ → Job → Job
to_approved verb unit now r = record r {
  state = approved;
  verb = some verb;
  unit = some unit;
  updated_at = now;
}

abbrev pub to_closed : String → ℕ → Job → Job
to_closed reason now r = record r {
  state = closed;
  close_reason = some reason;
  closed_at = some now;
  updated_at = now;
}

-- INSERT INTO jobs: `id` is the primary key.
unfoldable pub insert_job : Job → Store → Result Store
insert_job r s = elim (find (has_id r.id) s.jobs) [
  | none ↦ ok (record s { jobs = insert r s.jobs })
  | some _ ↦ raise integrity_error
]

-- INSERT INTO alerts: `job_id` references `jobs (id)`.
unfoldable pub insert_alert : Alert → Store → Result Store
insert_alert a s = elim (find (has_id a.job_id) s.jobs) [
  | none ↦ raise integrity_error
  | some _ ↦ ok (record s { alerts = insert a s.alerts })
]

-- `with _immediate(conn)`: what the block wrote is rolled back if it raises.
unfoldable pub immediate {ℓ} : {A : Type ℓ} → Store → Result (Store × A) → Store × Result A
immediate s (ok (s', a)) = (s', ok a)
immediate s (raise e) = (s, raise e)

-- What Checkmk reports.
pub record Report : Type 0 where
  pub host : String
  pub service : String
  pub notification_type : String
  pub state : String
  pub output : String

abbrev pub new_job : String → Report → ℕ → Job
new_job i a now = record {
  id = i;
  dedupe_key = dedupe_key a.host a.service;
  host = a.host;
  service = a.service;
  state = opened;
  created_at = now;
  updated_at = now;
  closed_at = none;
  close_reason = none;
  verb = none;
  unit = none;
  token_hash = none;
  expires_at = none;
}

-- The row that an alert is attached to: of the live rows for its key, one opened last.
unfoldable pub live_job : Report → ℕ → ℕ → Store → Option Job
live_job a now window s =
    latest (λ r. r.created_at)
      (select (is_live (dedupe_key a.host a.service) (sub_ℕ now window)) s.jobs)

-- The id of the job, whether it is new, and the store with it.
unfoldable pub open_or_attach :
    Option Job → Report → ℕ → String → Store → Result (Store × String × Bool)
unfolding insert_job
open_or_attach (some row) a now new_id s = ok (s, row.id, false)
open_or_attach none a now new_id s = do
  s' ← insert_job (new_job new_id a now) s
  ok (s', new_id, true)

unfoldable pub attach_alert : Report → ℕ → Store × String × Bool → Result (Store × (String × Bool))
unfolding insert_alert
attach_alert a now (s, job_id, is_new) = do
  s' ←
      insert_alert
        (record {
          id = next_rowid (λ (x : Alert). x.id) s.alerts;
          job_id = job_id;
          received_at = now;
          notification_type = a.notification_type;
          state = a.state;
          output = take_chars output_max a.output;
        })
        s
  ok (s', (job_id, is_new))

-- `new_id` is what secrets.token_hex(6) returns.
unfoldable pub intake_alert : Report → ℕ → ℕ → String → Store → Store × Result (String × Bool)
unfolding immediate open_or_attach attach_alert
intake_alert a now window new_id s =
    immediate s
      (do row ← open_or_attach (live_job a now window s) a now new_id s; attach_alert a now row)

-- The guarded UPDATEs of the module.
pub data Update : Type 0 where
  mark_pending : String → String → String → String → ℕ → ℕ → Update
  decide_approved decide_denied mark_expired mark_executing : String → ℕ → Update
  mark_approved : String → String → String → ℕ → Update
  mark_closed : String → String → ℕ → Update

-- The row that an UPDATE names by its id.
abbrev pub target : Update → String
target (mark_pending i verb unit token_hash expires_at now) = i
target (decide_approved i now) = i
target (decide_denied i now) = i
target (mark_expired i now) = i
target (mark_executing i now) = i
target (mark_approved i verb unit now) = i
target (mark_closed i reason now) = i

-- The rest of its WHERE clause.
unfoldable pub guard : Update → Job → Bool
guard (mark_pending i verb unit token_hash expires_at now) r = in_state opened r
guard (decide_approved i now) r = in_state pending r && expires_after now r
guard (decide_denied i now) r = in_state pending r && expires_after now r
guard (mark_expired i now) r = in_state pending r
guard (mark_executing i now) r = in_state approved r
guard (mark_approved i verb unit now) r = in_state opened r
guard (mark_closed i reason now) r = not_closed r

-- Its SET clause.
unfoldable pub change : Update → Job → Job
change (mark_pending i verb unit token_hash expires_at now) r =
    to_pending verb unit token_hash expires_at now r
change (decide_approved i now) r = to_state approved now r
change (decide_denied i now) r = to_state denied now r
change (mark_expired i now) r = to_state expired now r
change (mark_executing i now) r = to_state executing now r
change (mark_approved i verb unit now) r = to_approved verb unit now r
change (mark_closed i reason now) r = to_closed reason now r

unfoldable pub run_update : Update → Store → Store × ℕ
unfolding update_job guard change
run_update u s = update_job (target u) (guard u) (change u) s

-- cur.rowcount == 1
abbrev pub won : Update → Store → Bool
won u s = (run_update u s).1 == 1

-- The statements, and the one transaction, of the module. Threads interleave between them.
pub data Statement : Type 0 where
  intake : Report → ℕ → ℕ → String → Statement
  updates : Update → Statement

unfoldable pub exec : Statement → Store → Store
exec (intake a now window new_id) s = (intake_alert a now window new_id s).0
exec (updates u) s = (run_update u s).0

unfoldable pub run : List Statement → Store → Store
run [] s = s
run (q ∷ qs) s = run qs (exec q s)

-- A store that some sequence of statements leads to.
pub data Reach (s : Store) : Store → Type 0 where
  here : Reach s s
  next : {t : Store} → Reach s t → (q : Statement) → Reach s (exec q t)
