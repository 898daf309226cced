-- ===== src/Store/Intake.antt =====
-- intake_alert() of configs/responder/store.py on every branch, and the deduplication of alerts.
use thearchivist.Text.{take_chars}
use thearchivist.Prelude.{
  ℕ, ◌≡◌, ◌⊎◌, inl, inr, String, Bool, true, false, none, some, List, arith, str_eq_refl,
  Option-cases, ok, raise, integrity_error, is_some, sub_ℕ,
}
use thearchivist.Table.{count, insert, next_rowid}
use thearchivist.Table.Laws.{latest-none, select-none, find-insert}
use thearchivist.Table.Latest.{IsLatest, latest-select, find-latest-select}
use thearchivist.Store.Data.{Job, Alert, Store, output_max, dedupe_key, has_id, is_live}
use thearchivist.Store.Statements.{Report, new_job, live_job, intake_alert}
use thearchivist.Store.Operations.{get}

-- The alert's row.
abbrev pub alert_row : Report → ℕ → String → List Alert → Alert
alert_row a now job_id alerts = record {
  id = next_rowid (λ (x : Alert). x.id) alerts;
  job_id = job_id;
  received_at = now;
  notification_type = a.notification_type;
  state = a.state;
  output = take_chars output_max a.output;
}

-- The rows that count as live for the alert.
abbrev pub live_for : Report → ℕ → ℕ → Job → Bool
live_for a now window = is_live (dedupe_key a.host a.service) (sub_ℕ now window)

abbrev pub opened_at : Job → ℕ
opened_at r = r.created_at

module _ (a : Report) (now window : ℕ) (new_id : String) (s : Store) where
  pub intake_attached :
      (row : Job)
      → live_job a now window s ≡ some row
      → is_some (get row.id s) ≡ true
      → intake_alert a now window new_id s ≡ (
        record s { alerts = insert (alert_row a now row.id s.alerts) s.alerts },
        ok (row.id, false),
      )
  unfolding intake_alert get
  intake_attached row e known = rw e (ground (arith, known))

  intake_opened :
      live_job a now window s ≡ none
      → get new_id s ≡ none
      → intake_alert a now window new_id s ≡ (
        record s {
          jobs = insert (new_job new_id a now) s.jobs;
          alerts = insert (alert_row a now new_id s.alerts) s.alerts;
        },
        ok (new_id, true),
      )
  unfolding intake_alert get
  intake_opened e absent = rw e (
      ground (
        arith,
        absent,
        find-insert (has_id new_id) (new_job new_id a now) s.jobs,
        str_eq_refl new_id,
      ))

  intake_collided :
      (row : Job)
      → live_job a now window s ≡ none
      → get new_id s ≡ some row
      → intake_alert a now window new_id s ≡ (s, raise integrity_error)
  unfolding intake_alert get
  intake_collided row e taken = rw e (ground (arith, taken))

  live_job-IsLatest :
      (row : Job)
      → live_job a now window s ≡ some row
      → IsLatest (live_for a now window) opened_at s.jobs row
  unfolding live_job
  live_job-IsLatest row e = latest-select (live_for a now window) opened_at s.jobs row e

  live_job-known : (row : Job) → live_job a now window s ≡ some row → is_some (get row.id s) ≡ true
  unfolding live_job get
  live_job-known row e =
      find-latest-select (has_id row.id) (live_for a now window) opened_at s.jobs row e
        (str_eq_refl row.id)

  live_job-none : live_job a now window s ≡ none → count (live_for a now window) s.jobs ≡ 0
  unfolding live_job
  live_job-none e = select-none (live_for a now window) s.jobs (latest-none opened_at _ e)

  -- The alert is added to a job that is in the table, and the jobs stay as they are.
  abbrev pub Attaches : Type 0
  Attaches =
      (row : Job) × IsLatest (live_for a now window) opened_at s.jobs row
      × (is_some (get row.id s) ≡ true)
      × (intake_alert a now window new_id s ≡ (
        record s { alerts = insert (alert_row a now row.id s.alerts) s.alerts },
        ok (row.id, false),
      ))

  -- A job is opened for it, unless its fresh id is taken.
  abbrev pub OpensNew : Type 0
  OpensNew =
      (count (live_for a now window) s.jobs ≡ 0)
      × (intake_alert a now window new_id s ≡ (elim (get new_id s) [
        | none ↦ (
          record s {
            jobs = insert (new_job new_id a now) s.jobs;
            alerts = insert (alert_row a now new_id s.alerts) s.alerts;
          },
          ok (new_id, true),
        )
        | some _ ↦ (s, raise integrity_error)
      ]))

  -- intake_alert() on every branch: if a job for the host and service is live, the alert is attached
  -- to one of the live jobs that was opened last, no job changes, and is_new is False; otherwise a
  -- job is opened with the fresh id, the alert is its first, and is_new is True; and if the fresh id
  -- is already taken, the insertion raises and the transaction leaves the tables as they were.
  pub intake_alert_lem : Attaches ⊎ OpensNew
  intake_alert_lem = elim (Option-cases (live_job a now window s)) [
    | inr (row, e) ↦
        let known = live_job-known row e in
        inl (row, live_job-IsLatest row e, known, intake_attached row e known)
    | inl e ↦ inr (
      live_job-none e,
      (elim (Option-cases (get new_id s)) [
        | inl absent ↦ rw absent (intake_opened e absent)
        | inr (row, taken) ↦ rw taken (intake_collided row e taken)
      ]),
    )
  ]
