-- ===== src/Store/Once.antt =====
-- Exactly one caller wins a transition of configs/responder/store.py, in any order of statements.
use thearchivist.Prelude.{
  ℕ, suc, ◌+◌, ◌≤◌, ◌≡◌, refl, inl, inr, String, Bool, false, ◌&&◌, Option, none, some, List, [],
  ◌∷◌, arith, ltb, ◌==◌, str_eq, str_eq-eq, eq-str_eq, if◌then◌else◌, Bool-cases,
}
use thearchivist.Table.Laws.{hits, map_option, find-insert}
use thearchivist.Store.Data.{Job, Store, has_id}
use thearchivist.Store.Statements.{
  new_job, Update, target, guard, change, run_update, won, Statement, exec, intake, updates, run,
}
use thearchivist.Store.Operations.{get}
use thearchivist.Store.Effects.{
  rank, goal, rank-change, amended, get-run_update, UniqueIds, rowcount, has_id-get, intake_cases,
  exec-UniqueIds, amended-other,
}

-- A statement that moves job `i` to a state of rank `k`, and finds it.
abbrev pub scores : ℕ → String → Statement → Store → Bool
scores k i (intake a now window new_id) s = false
scores k i (updates u) s = str_eq (target u) i && (goal u == k && won u s)

-- How many statements of a history move job `i` to a state of rank `k`.
unfoldable pub wins : ℕ → String → List Statement → Store → ℕ
wins k i [] s = 0
wins k i (q ∷ qs) s = let rest = wins k i qs (exec q s) in if scores k i q s then suc rest else rest

-- One win is left while the job is absent, or of lower rank.
abbrev pub left : ℕ → Option Job → ℕ
left k none = 1
left k (some r) = if ltb (rank r.state) k then 1 else 0

left-amended :
    (k : ℕ) (u : Update) (r : Job)
    → (if goal u == k && guard u r then 1 else 0)
        + left k (some (if guard u r then change u r else r))
      ≤ left k (some r)
left-amended k u r = ground (arith, rank-change u r)

left-target :
    (k : ℕ) (u : Update) (s : Store) (o : Option Job)
    → get (target u) s ≡ o
    → (if goal u == k && hits (guard u) o == 1 then 1 else 0) + left k (map_option (amended u) o)
      ≤ left k o
left-target k u s none e = ground arith
left-target k u s (some r) e =
    ground (arith, left-amended k u r, eq-str_eq r.id (target u) (has_id-get (target u) s r e))

pub left-update :
    (k : ℕ) (i : String) (u : Update) (s : Store)
    → UniqueIds s
    → (if scores k i (updates u) s then 1 else 0) + left k (get i (run_update u s).0)
      ≤ left k (get i s)
left-update k i u s unique =
    rw (get-run_update u i s, rowcount u s unique)
      (elim (Bool-cases (str_eq (target u) i)) [
        | inl same ↦
            rw same (rw (← str_eq-eq (target u) i same) (left-target k u s (get (target u) s) refl))
        | inr other ↦ rw (other, amended-other i u s (get i s) refl other) (omega arith)
      ])

pub left-exec :
    (k : ℕ) (i : String) (q : Statement) (s : Store)
    → UniqueIds s
    → (if scores k i q s then 1 else 0) + left k (get i (exec q s)) ≤ left k (get i s)
left-exec k i (updates u) s unique = unfold exec in (left-update k i u s unique)
left-exec k i (intake a now window new_id) s unique = elim (intake_cases a now window new_id s) [
  | inl same ↦ unfold exec get in rw same (omega arith)
  | inr (absent, _, grown) ↦
      unfold exec get in
      (rw (grown, find-insert (has_id i) (new_job new_id a now) s.jobs) (ground arith))
]

pub wins-left :
    (k : ℕ) (i : String) (qs : List Statement) (s : Store)
    → UniqueIds s
    → wins k i qs s + left k (get i (run qs s)) ≤ left k (get i s)
unfolding wins run
wins-left k i [] s unique = omega arith
wins-left k i (q ∷ qs) s unique =
    ground
      (arith, left-exec k i q s unique, wins-left k i qs (exec q s) (exec-UniqueIds q s unique))

pub left-le-one : (k : ℕ) (o : Option Job) → left k o ≤ 1
left-le-one k o = ground arith

-- From a store whose job ids differ, whatever statements run in whatever order, for each job at
-- most one statement succeeds in moving it to a state of a given rank: at most one proposal goes
-- out, one decision (approve, deny, expiry or automatic approval) counts, one execution starts, and
-- one close takes effect.
pub wins-le-one :
    (k : ℕ) (i : String) (qs : List Statement) (s : Store) → UniqueIds s → wins k i qs s ≤ 1
wins-le-one k i qs s unique = omega (arith, wins-left k i qs s unique, left-le-one k (get i s))
