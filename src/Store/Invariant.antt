-- ===== src/Store/Invariant.antt =====
-- The invariant of the tables of configs/responder/store.py, kept by every statement.
use thearchivist.Prelude.{
  ℕ, ◌≤◌, ◌≡◌, inl, inr, String, Bool, true, false, not, ◌&&◌, ◌||◌, none, some, arith, str_eq-eq,
  Bool-cases, is_some, sub_ℕ,
}
use thearchivist.Table.{count, both, All}
use thearchivist.Table.Laws.{
  All-update, All-insert, All-find, count-insert, count-update-le, count_mono, select-none,
  latest-none,
}
use thearchivist.Store.Data.{
  State, pending, approved, executing, closed, Job, Store, empty_store, dedupe_key, has_id, has_key,
  in_state, not_closed, is_live,
}
use thearchivist.Store.Statements.{
  Report, new_job, live_job, Update, target, guard, change, run_update, Statement, exec, intake,
  updates, mark_closed, Reach, here, next,
}
use thearchivist.Store.Operations.{get}
use thearchivist.Store.Effects.{UniqueIds, amended, intake_cases, exec-UniqueIds}

-- A state in which the job has an action to run.
abbrev has_action : State → Bool
has_action pending = true
has_action approved = true
has_action executing = true
has_action _ = false

-- What holds of every row.
pub record RowIsValid (r : Job) : Type 0 where
  pub keyed : r.dedupe_key ≡ dedupe_key r.host r.service
  pub decidable :
      (not (in_state pending r) || (is_some r.token_hash && is_some r.expires_at)) ≡ true
  pub chosen : (not (has_action r.state) || (is_some r.verb && is_some r.unit)) ≡ true
  pub closing_time : is_some r.closed_at ≡ in_state closed r
  pub closing_reason : is_some r.close_reason ≡ in_state closed r

-- A job for the key that is not closed.
abbrev pub is_current : String → Job → Bool
is_current key = both (has_key key) not_closed

pub record Inv (s : Store) : Type 0 where
  pub unique : UniqueIds s
  pub rows : All RowIsValid s.jobs
  pub one_current : (key : String) → count (is_current key) s.jobs ≤ 1

RowIsValid-change :
    (u : Update) (r : Job) → guard u r ≡ true → RowIsValid r → RowIsValid (change u r)
unfolding guard change
RowIsValid-change (mark_closed i reason now) r g v = ground arith
RowIsValid-change _ r g v = ground arith

RowIsValid-amended : (u : Update) (r : Job) → RowIsValid r → RowIsValid (amended u r)
RowIsValid-amended u r v = elim (Bool-cases (both (has_id (target u)) (guard u) r)) [
  | inl hit ↦ rw hit (RowIsValid-change u r (ground arith) v)
  | inr miss ↦ rw miss v
]

is_current-change :
    (key : String) (u : Update) (r : Job)
    → guard u r ≡ true
    → is_current key (change u r) ≡ true
    → is_current key r ≡ true
unfolding guard change
is_current-change key (mark_closed i reason now) r g h = ground arith
is_current-change key _ r g h = ground arith

is_current-amended :
    (key : String) (u : Update) (r : Job)
    → is_current key (amended u r) ≡ true
    → is_current key r ≡ true
is_current-amended key u r h = elim (Bool-cases (both (has_id (target u)) (guard u) r)) [
  | inl hit ↦ is_current-change key u r (ground arith) (rw hit at h)
  | inr miss ↦ rw miss at h
]

-- Where no live job was found, no job of the key is current.
none_current :
    (a : Report) (now window : ℕ) (s : Store)
    → live_job a now window s ≡ none
    → count (is_current (dedupe_key a.host a.service)) s.jobs ≡ 0
unfolding live_job
none_current a now window s e =
    let key = dedupe_key a.host a.service in
    omega (
      arith,
      select-none (is_live key (sub_ℕ now window)) s.jobs
          (latest-none (λ (r : Job). r.created_at) _ e),
      count_mono (is_current key) (is_live key (sub_ℕ now window)) s.jobs (λ r h. ground arith),
    )

new_job-IsValid : (i : String) (a : Report) (now : ℕ) → RowIsValid (new_job i a now)
new_job-IsValid i a now = ground arith

exec-rows : (q : Statement) (s : Store) → All RowIsValid s.jobs → All RowIsValid (exec q s).jobs
exec-rows (updates u) s v =
    unfold exec run_update in
    (All-update RowIsValid (both (has_id (target u)) (guard u)) (change u) s.jobs
      (RowIsValid-amended u) v)
exec-rows (intake a now window new_id) s v = elim (intake_cases a now window new_id s) [
  | inl same ↦ unfold exec in rw same v
  | inr (_, _, grown) ↦
      unfold exec in
      (rw grown
        (All-insert RowIsValid (new_job new_id a now) s.jobs v (new_job-IsValid new_id a now)))
]

exec-one_current :
    (q : Statement) (s : Store) (key : String)
    → count (is_current key) s.jobs ≤ 1
    → count (is_current key) (exec q s).jobs ≤ 1
exec-one_current (updates u) s key h =
    unfold exec run_update in
    omega (
      arith,
      count-update-le (is_current key) (both (has_id (target u)) (guard u)) (change u) s.jobs
          (is_current-amended key u),
    )
exec-one_current (intake a now window new_id) s key h = elim (intake_cases a now window new_id s) [
  | inl same ↦ unfold exec in rw same h
  | inr (_, free, grown) ↦
      unfold exec in
      (rw (grown, count-insert (is_current key) (new_job new_id a now) s.jobs)
        (ground
          (arith, none_current a now window s free, str_eq-eq (dedupe_key a.host a.service) key)))
]

-- Every statement keeps the invariant: job ids differ; each row's key is that of its host and
-- service, a pending row has a token's hash and a deadline, a pending, approved or executing row
-- has a verb and a unit, and exactly the closed rows have a closing time and a reason; and at most
-- one job for a host and service is not closed.
pub exec-Inv : (q : Statement) (s : Store) → Inv s → Inv (exec q s)
exec-Inv q s v = record {
  unique = exec-UniqueIds q s v.unique;
  rows = exec-rows q s v.rows;
  one_current = λ key. exec-one_current q s key (v.one_current key);
}

pub Reach-Inv : {s t : Store} → Reach s t → Inv s → Inv t
Reach-Inv here v = v
Reach-Inv (next r q) v = exec-Inv q _ (Reach-Inv r v)

pub empty_store-Inv : Inv empty_store
unfolding count
empty_store-Inv = record { unique = λ i. omega arith; rows = tt; one_current = λ key. omega arith }

pub get-RowIsValid : (i : String) (s : Store) (r : Job) → Inv s → get i s ≡ some r → RowIsValid r
unfolding get
get-RowIsValid i s r v e = All-find RowIsValid (has_id i) s.jobs r v.rows e
