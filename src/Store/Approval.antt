-- ===== src/Store/Approval.antt =====
-- Nothing of configs/responder/store.py runs unless it was approved first.
use thearchivist.Prelude.{
  ℕ, suc, ◌+◌, ◌≤◌, ◌≡◌, refl, inl, inr, String, Bool, true, false, ◌&&◌, Option, none, some, List,
  [], ◌∷◌, arith, ◌==◌, str_eq, str_eq-eq, eq-str_eq, if◌then◌else◌, Bool-cases,
}
use thearchivist.Table.Laws.{hits, map_option}
use thearchivist.Store.Data.{approved, Job, Store}
use thearchivist.Store.Statements.{
  Update, decide_approved, mark_executing, mark_approved, mark_closed, target, guard, change, won,
  Statement, exec, intake, updates, run,
}
use thearchivist.Store.Operations.{get, start_execution}
use thearchivist.Store.Effects.{
  amended, get-exec-updates, get-exec-intake, UniqueIds, rowcount, has_id-get, exec-UniqueIds,
  amended-other,
}
use thearchivist.Store.Diagram.{run-UniqueIds}

-- A statement that approves job `i`, by a tap or by a remembered action, and finds it.
abbrev pub approves : String → Statement → Store → Bool
approves i (updates (decide_approved j now)) s = str_eq j i && won (decide_approved j now) s
approves i (updates (mark_approved j verb unit now)) s =
    str_eq j i && won (mark_approved j verb unit now) s
approves i _ s = false

-- How many statements of a history approve job `i`.
unfoldable pub approvals : String → List Statement → Store → ℕ
approvals i [] s = 0
approvals i (q ∷ qs) s =
    let rest = approvals i qs (exec q s) in if approves i q s then suc rest else rest

-- 1 for an approved job.
abbrev pub standing : Option Job → ℕ
standing none = 0
standing (some r) = elim r.state [ approved ↦ 1 | _ ↦ 0 ]

-- What an UPDATE that approves adds.
abbrev approving : Update → ℕ → ℕ
approving (decide_approved j now) n = n
approving (mark_approved j verb unit now) n = n
approving _ n = 0

standing-change :
    (u : Update) (r : Job) → guard u r ≡ true → standing (some (change u r)) ≤ approving u 1
unfolding guard change
standing-change (mark_closed i reason now) r g = ground arith
standing-change _ r g = ground arith

standing-target :
    (u : Update) (s : Store) (o : Option Job)
    → get (target u) s ≡ o
    → standing (map_option (amended u) o)
      ≤ standing o + approving u (if hits (guard u) o == 1 then 1 else 0)
standing-target u s none e = omega arith
standing-target u s (some r) e = elim (Bool-cases (guard u r)) [
  | inl hit ↦
      rw (hit, eq-str_eq r.id (target u) (has_id-get (target u) s r e))
        (omega (arith, standing-change u r hit))
  | inr miss ↦ ground arith
]

approves-updates :
    (u : Update) (i : String) (s : Store)
    → (if approves i (updates u) s then 1 else 0)
      ≡ (if str_eq (target u) i then approving u (if won u s then 1 else 0) else 0)
approves-updates (decide_approved j now) i s = ground arith
approves-updates _ i s = ground arith

standing-exec :
    (q : Statement) (i : String) (s : Store)
    → UniqueIds s
    → standing (get i (exec q s)) ≤ standing (get i s) + (if approves i q s then 1 else 0)
standing-exec (intake a now window new_id) i s unique =
    ground (arith, get-exec-intake a now window new_id s i)
standing-exec (updates u) i s unique =
    rw (get-exec-updates u i s, approves-updates u i s)
      (elim (Bool-cases (str_eq (target u) i)) [
        | inl same ↦
            rw (same, rowcount u s unique)
              (rw (← str_eq-eq (target u) i same) (standing-target u s (get (target u) s) refl))
        | inr other ↦ rw (other, amended-other i u s (get i s) refl other) (omega arith)
      ])

run-standing :
    (qs : List Statement) (i : String) (s : Store)
    → UniqueIds s
    → standing (get i (run qs s)) ≤ standing (get i s) + approvals i qs s
unfolding run approvals
run-standing [] i s unique = omega arith
run-standing (q ∷ qs) i s unique =
    ground
      (arith, standing-exec q i s unique, run-standing qs i (exec q s) (exec-UniqueIds q s unique))

start_execution-standing :
    (i : String) (now : ℕ) (s : Store)
    → UniqueIds s
    → (start_execution i now s).1 ≡ true
    → standing (get i s) ≡ 1
unfolding start_execution guard
start_execution-standing i now s unique h =
    ground (arith, rowcount (mark_executing i now) s unique, h)

-- From a store whose job ids differ and in which job `i` is not approved (or does not exist),
-- start_execution() returns True only if a statement that ran in between approved the job: a tap
-- that won, or a remembered action.
pub started_needs_approval :
    (qs : List Statement) (s : Store) (i : String) (now : ℕ)
    → UniqueIds s
    → standing (get i s) ≡ 0
    → (start_execution i now (run qs s)).1 ≡ true
    → 1 ≤ approvals i qs s
started_needs_approval qs s i now unique e h = omega (
  arith,
  run-standing qs i s unique,
  start_execution-standing i now (run qs s) (run-UniqueIds qs s unique) h,
)
