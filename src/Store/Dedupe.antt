-- ===== src/Store/Dedupe.antt =====
-- The deduplication that intake_alert() of configs/responder/store.py gives: one session a problem.
use thearchivist.Prelude.{
  ℕ, ◌≤◌, ◌≡◌, ◌≢◌, ap, inl, inr, String, Bool, true, false, none, some, arith, str_eq_refl, Result,
  ok,
}
use thearchivist.Table.{count, insert, latest}
use thearchivist.Table.Laws.{count_mono, find-insert}
use thearchivist.Table.Latest.{select-insert, select_nil, count_pos_of_find}
use thearchivist.Store.Data.{Job, Store, dedupe_key, has_id}
use thearchivist.Store.Statements.{Report, new_job, live_job, intake_alert}
use thearchivist.Store.Operations.{get}
use thearchivist.Store.Intake.{live_for, alert_row, intake_alert_lem, intake_attached}

-- While a job for the host and service is live (not closed, or closed within the window for another
-- reason than recovery), no alert for them is reported as new.
pub no_second_session :
    (a : Report) (now window : ℕ) (new_id i x : String) (s : Store) (r : Job)
    → get i s ≡ some r
    → live_for a now window r ≡ true
    → (intake_alert a now window new_id s).1 ≢ ok (x, true)
unfolding get
no_second_session a now window new_id i x s r e live new =
    elim (intake_alert_lem a now window new_id s) [
      | inl (row, _, _, result) ↦ ground (arith, result, new)
      | inr (free, result) ↦
          omega (arith, free, count_pos_of_find (live_for a now window) (has_id i) s.jobs r e live)
    ]

live_later :
    (a : Report) (now later window : ℕ) (r : Job)
    → now ≤ later
    → live_for a later window r ≡ true
    → live_for a now window r ≡ true
live_later a now later window r h live = ground arith

-- The store right after an alert opened a job.
abbrev pub opened_by : Report → ℕ → String → Store → Store
opened_by a now i s = record s {
  jobs = insert (new_job i a now) s.jobs;
  alerts = insert (alert_row a now i s.alerts) s.alerts;
}

opening :
    (a : Report) (now window : ℕ) (new_id x : String) (s : Store)
    → (intake_alert a now window new_id s).1 ≡ ok (x, true)
    → (count (live_for a now window) s.jobs ≡ 0)
      × (x ≡ new_id)
      × (get new_id s ≡ none)
      × ((intake_alert a now window new_id s).0 ≡ opened_by a now new_id s)
opening a now window new_id x s new = elim (intake_alert_lem a now window new_id s) [
  | inl (row, _, _, result) ↦ absurd (ground (arith, result, new))
  | inr (free, result) ↦
      (free, ground (arith, result, new), ground (arith, result, new), ground (arith, result, new))
]

live_after_opening :
    (a b : Report) (now later window : ℕ) (i : String) (s : Store)
    → a.host ≡ b.host
    → a.service ≡ b.service
    → now ≤ later
    → count (live_for a now window) s.jobs ≡ 0
    → live_job b later window (opened_by a now i s) ≡ some (new_job i a now)
unfolding live_job latest
live_after_opening a b now later window i s host service h free =
    rw
      (
        select-insert (live_for b later window) (new_job i a now) s.jobs,
        select_nil (live_for b later window) s.jobs none_live,
      )
      (ground (arith, same, str_eq_refl (dedupe_key b.host b.service)))
  where
    same : dedupe_key a.host a.service ≡ dedupe_key b.host b.service
    same = cc

    none_live : count (live_for b later window) s.jobs ≡ 0
    none_live = omega (
      arith,
      free,
      count_mono (live_for b later window) (live_for a now window) s.jobs
          (λ r l. live_later a now later window r h (rw same l)),
    )

-- An alert that opened a job is followed, at the same time or later, by one for the same host and
-- service: that one is attached to the job, and is not new, whatever its type, state and output.
pub intake_again :
    (a b : Report) (now later window : ℕ) (new_id other_id x : String) (s : Store)
    → a.host ≡ b.host
    → a.service ≡ b.service
    → now ≤ later
    → (intake_alert a now window new_id s).1 ≡ ok (x, true)
    → (intake_alert b later window other_id (intake_alert a now window new_id s).0).1
      ≡ ok (x, false)
intake_again a b now later window new_id other_id x s host service h new =
    let (free, named, absent, result) = opening a now window new_id x s new in
    rw (result, named)
      (ap (λ (p : Store × Result (String × Bool)). p.1)
        (intake_attached b later window other_id (opened_by a now new_id s) (new_job new_id a now)
          (live_after_opening a b now later window new_id s host service h free)
          (unfold get in
            (rw (find-insert (has_id new_id) (new_job new_id a now) s.jobs)
              (ground (arith, absent, str_eq_refl new_id))))))
