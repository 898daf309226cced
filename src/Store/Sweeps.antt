-- ===== src/Store/Sweeps.antt =====
-- expire_due(), recover() and interrupted() of configs/responder/store.py.
use thearchivist.Prelude.{ℕ, ◌≡◌, refl, String, Bool, List, arith, if◌then◌else◌}
use thearchivist.Table.Laws.{map_option}
use thearchivist.Store.Data.{
  pending, expired, executing, Job, Store, dedupe_key, in_state, not_closed,
}
use thearchivist.Store.Statements.{
  mark_expired, mark_closed, to_state, to_closed, guard, change, Reach,
}
use thearchivist.Store.Operations.{get, expire_due, recover, interrupted, due, recoverable}
use thearchivist.Store.Effects.{UniqueIds}
use thearchivist.Store.Each.{Sweep, passes, contains, sweep-get, sweep-ids, Reach-update_each}

expiring : (now : ℕ) → Sweep (λ i. mark_expired i now) (in_state pending) (to_state expired now)
unfolding guard change
expiring now = record {
  names = λ i. refl;
  guards = λ i r. refl;
  sets = λ i r. refl;
  ends = λ r. refl;
}

closing :
    (reason : String) (now : ℕ)
    → Sweep (λ i. mark_closed i reason now) not_closed (to_closed reason now)
unfolding guard change
closing reason now = record {
  names = λ i. refl;
  guards = λ i r. refl;
  sets = λ i r. refl;
  ends = λ r. refl;
}

-- What a sweep does to every job, and what it returns: the rows that pass a test are changed, the
-- others stay, and the ids returned are those of the rows that passed.
abbrev pub Sweeps : (Job → Bool) → (Job → Job) → Store → Store × List String → Type 0
Sweeps p c s (s', swept) =
    (j : String)
    → (get j s' ≡ map_option (λ r. if p r then c r else r) (get j s))
      × (contains j swept ≡ passes p (get j s))

module _ (s : Store) (unique : UniqueIds s) (now : ℕ) where
  -- Where job ids differ, expire_due() makes exactly the pending jobs whose deadline has come
  -- expired, leaves every other job, and returns exactly their ids.
  pub expire_due_lem : Sweeps (due now) (to_state expired now) s (expire_due now s)
  unfolding expire_due
  expire_due_lem j = (
    sweep-get _ _ _ (expiring now) (due now) (λ r h. ground arith) s unique j,
    sweep-ids _ _ _ (expiring now) (due now) (λ r h. ground arith) s unique j,
  )

  -- Where job ids differ, recover() closes exactly the jobs for the host and service that are
  -- neither closed nor executing, as recovered, and returns exactly their ids: a job in execution
  -- is left alone.
  pub recover_lem :
      (host service : String)
      → Sweeps
          (recoverable (dedupe_key host service))
          (to_closed "recovered" now)
          s
          (recover host service now s)
  unfolding recover
  recover_lem host service j =
      let p = recoverable (dedupe_key host service) in
      (
        sweep-get _ _ _ (closing "recovered" now) p (λ r h. ground arith) s unique j,
        sweep-ids _ _ _ (closing "recovered" now) p (λ r h. ground arith) s unique j,
      )

  -- Where job ids differ, interrupted() closes exactly the jobs that were executing, and returns
  -- exactly their ids.
  pub interrupted_lem :
      Sweeps (in_state executing) (to_closed "interrupted" now) s (interrupted now s)
  unfolding interrupted
  interrupted_lem j = (
    sweep-get _ _ _ (closing "interrupted" now) (in_state executing) (λ r h. ground arith) s unique
        j,
    sweep-ids _ _ _ (closing "interrupted" now) (in_state executing) (λ r h. ground arith) s unique
        j,
  )

module _ (s : Store) (unique : UniqueIds s) (now : ℕ) where
  -- Where job ids differ, each of the three sweeps changes exactly the jobs that it is about, as it
  -- says, leaves every other job, and returns exactly their ids: expire_due() makes the pending jobs
  -- whose deadline has come expired, recover() closes the jobs for the host and service that are
  -- neither closed nor executing, and interrupted() closes the jobs that were executing.
  pub batch_updates :
      (host service : String)
      → Sweeps (due now) (to_state expired now) s (expire_due now s)
        × Sweeps
            (recoverable (dedupe_key host service))
            (to_closed "recovered" now)
            s
            (recover host service now s)
        × Sweeps (in_state executing) (to_closed "interrupted" now) s (interrupted now s)
  batch_updates host service = (
    expire_due_lem s unique now,
    recover_lem s unique now host service,
    interrupted_lem s unique now,
  )

module _ (s : Store) {t : Store} (r : Reach t s) where
  pub Reach-expire_due : (now : ℕ) → Reach t (expire_due now s).0
  unfolding expire_due
  Reach-expire_due now = Reach-update_each _ _ _ (expiring now) _ s r

  pub Reach-recover : (host service : String) (now : ℕ) → Reach t (recover host service now s).0
  unfolding recover
  Reach-recover host service now = Reach-update_each _ _ _ (closing "recovered" now) _ s r

  pub Reach-interrupted : (now : ℕ) → Reach t (interrupted now s).0
  unfolding interrupted
  Reach-interrupted now = Reach-update_each _ _ _ (closing "interrupted" now) _ s r
