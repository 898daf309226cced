-- ===== src/Store/Effects.antt =====
-- What one statement of configs/responder/store.py does to the row of an id.
use thearchivist.Prelude.{
  ℕ, ◌≤◌, ◌<◌, ◌≡◌, refl, ◌⊎◌, inl, inr, String, Bool, true, false, Option, none, some, arith,
  str_eq, str_eq-eq, eq-str_eq, Option-cases, ok, raise, integrity_error,
}
use thearchivist.Table.{find, count, amend, insert, both}
use thearchivist.Table.Laws.{
  hits, map_option, find-update, count-update, count-insert, count-both, find-insert, find_sound,
  count-zero_of_find,
}
use thearchivist.Store.Data.{
  State, opened, pending, approved, denied, expired, executing, closed, Job, Store, has_id,
}
use thearchivist.Store.Statements.{
  Report, new_job, live_job, Update, target, guard, change, run_update, intake_alert, immediate,
  insert_job, open_or_attach, attach_alert, mark_pending, decide_approved, decide_denied,
  mark_expired, mark_approved, mark_executing, mark_closed, Statement, exec, intake, updates,
}
use thearchivist.Store.Operations.{get}

-- The diagram of states only goes down.
abbrev pub rank : State → ℕ
rank opened = 0
rank pending = 1
rank approved = 2
rank denied = 2
rank expired = 2
rank executing = 3
rank closed = 4

-- The rank of the state that an UPDATE leads to.
abbrev pub goal : Update → ℕ
goal (mark_pending i verb unit token_hash expires_at now) = 1
goal (decide_approved i now) = 2
goal (decide_denied i now) = 2
goal (mark_expired i now) = 2
goal (mark_executing i now) = 3
goal (mark_approved i verb unit now) = 2
goal (mark_closed i reason now) = 4

pub rank-change :
    (u : Update) (r : Job)
    → guard u r ≡ true
    → (rank r.state < goal u) × (rank (change u r).state ≡ goal u)
unfolding guard change
rank-change (mark_pending i verb unit token_hash expires_at now) r h = ground arith
rank-change (mark_closed i reason now) r h = ground arith
rank-change _ r h = ground arith

pub id-change : (u : Update) (r : Job) → (change u r).id ≡ r.id
unfolding change
id-change (mark_closed i reason now) r = refl
id-change _ r = refl

-- The row of the updated id, where the guard lets it through.
abbrev pub amended : Update → Job → Job
amended u = amend (both (has_id (target u)) (guard u)) (change u)

pub has_id-amended : (u : Update) (j : String) (r : Job) → has_id j (amended u r) ≡ has_id j r
has_id-amended u j r = ground (arith, id-change u r)

pub get-run_update :
    (u : Update) (j : String) (s : Store)
    → get j (run_update u s).0 ≡ map_option (amended u) (get j s)
unfolding get run_update
get-run_update u j s = find-update (has_id j) _ _ s.jobs (has_id-amended u j)

abbrev pub UniqueIds : Store → Type 0
UniqueIds s = (i : String) → count (has_id i) s.jobs ≤ 1

pub rowcount :
    (u : Update) (s : Store) → UniqueIds s → (run_update u s).1 ≡ hits (guard u) (get (target u) s)
unfolding get run_update
rowcount u s unique = count-both (has_id (target u)) (guard u) s.jobs (unique (target u))

pub has_id-get : (i : String) (s : Store) (r : Job) → get i s ≡ some r → r.id ≡ i
unfolding get
has_id-get i s r e = str_eq-eq r.id i (find_sound (has_id i) s.jobs r e)

-- An alert opens a job, or leaves the jobs alone.
abbrev pub Opens : Report → ℕ → ℕ → String → Store → Type 0
Opens a now window new_id s =
    (get new_id s ≡ none)
    × (live_job a now window s ≡ none)
    × ((intake_alert a now window new_id s).0.jobs ≡ insert (new_job new_id a now) s.jobs)

insert_job-absent :
    (r : Job) (s : Store)
    → find (has_id r.id) s.jobs ≡ none
    → insert_job r s ≡ ok (record s { jobs = insert r s.jobs })
unfolding insert_job
insert_job-absent r s e = ground arith

insert_job-present :
    (r : Job) (s : Store) {x : Job}
    → find (has_id r.id) s.jobs ≡ some x
    → insert_job r s ≡ raise integrity_error
unfolding insert_job
insert_job-present r s e = ground arith

attach_cases :
    (a : Report) (now : ℕ) (s t : Store) (i : String) (is_new : Bool)
    → let s' = (immediate s (attach_alert a now (t, i, is_new))).0 in
      (s'.jobs ≡ s.jobs) ⊎ (s'.jobs ≡ t.jobs)
unfolding immediate attach_alert
attach_cases a now s t i is_new = ground arith

pub intake_cases :
    (a : Report) (now window : ℕ) (new_id : String) (s : Store)
    → ((intake_alert a now window new_id s).0.jobs ≡ s.jobs) ⊎ Opens a now window new_id s
unfolding get intake_alert
intake_cases a now window new_id s = elim (Option-cases (live_job a now window s)) [
  | inr (row, e) ↦ rw e (ground (arith, attach_cases a now s s row.id false))
  | inl e ↦ (elim (Option-cases (find (has_id new_id) s.jobs)) [
    | inr (row, e') ↦
        rw (e, open_or_attach, insert_job-present (new_job new_id a now) s e') (inl refl)
    | inl e' ↦
        rw (e, open_or_attach, insert_job-absent (new_job new_id a now) s e')
          (ground (
            arith,
            attach_cases a now s (record s { jobs = insert (new_job new_id a now) s.jobs }) new_id
                true,
          ))
  ])
]

pub exec-UniqueIds : (q : Statement) (s : Store) → UniqueIds s → UniqueIds (exec q s)
exec-UniqueIds (updates u) s unique i =
    unfold exec run_update in
    (rw
      (count-update (has_id i) (both (has_id (target u)) (guard u)) (change u) s.jobs
        (has_id-amended u i))
      (unique i))
exec-UniqueIds (intake a now window new_id) s unique i = elim (intake_cases a now window new_id s) [
  | inl same ↦ unfold exec in rw same (unique i)
  | inr (absent, _, grown) ↦
      unfold exec get in
      (rw grown (
        ground (
          arith,
          unique i,
          count-insert (has_id i) (new_job new_id a now) s.jobs,
          count-zero_of_find (has_id new_id) s.jobs absent,
          str_eq-eq new_id i,
        )))
]

pub get-exec-updates :
    (u : Update) (j : String) (s : Store)
    → get j (exec (updates u) s) ≡ map_option (amended u) (get j s)
unfolding exec
get-exec-updates u j s = get-run_update u j s

-- An alert adds a row at most: the row of each id stays.
pub get-exec-intake :
    (a : Report) (now window : ℕ) (new_id : String) (s : Store) (i : String)
    → (get i (exec (intake a now window new_id) s) ≡ get i s)
      ⊎ ((get i s ≡ none)
          × (get i (exec (intake a now window new_id) s) ≡ some (new_job new_id a now)))
unfolding exec get
get-exec-intake a now window new_id s i = elim (intake_cases a now window new_id s) [
  | inl same ↦ inl (rw same)
  | inr (_, _, grown) ↦
      rw (grown, find-insert (has_id i) (new_job new_id a now) s.jobs) (ground arith)
]

-- An UPDATE of another id leaves a row as it was.
pub amended-other :
    (i : String) (u : Update) (s : Store) (o : Option Job)
    → get i s ≡ o
    → str_eq (target u) i ≡ false
    → map_option (amended u) o ≡ o
amended-other i u s none e ne = refl
amended-other i u s (some r) e ne =
    ground (arith, has_id-get i s r e, str_eq-eq r.id (target u), eq-str_eq (target u) i)
