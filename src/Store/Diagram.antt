-- ===== src/Store/Diagram.antt =====
-- The diagram of states in the module comment of configs/responder/store.py, and what cannot run.
use thearchivist.Prelude.{
  ℕ, ◌≡◌, refl, ◌⊎◌, inl, inr, ◌≢◌, String, Bool, true, false, some, List, [], ◌∷◌, arith,
  Bool-cases,
}
use thearchivist.Table.{both}
use thearchivist.Store.Data.{
  State, opened, pending, approved, denied, expired, executing, closed, Job, Store, has_id,
}
use thearchivist.Store.Statements.{
  Update, mark_executing, mark_closed, target, guard, change, Statement, exec, intake, updates, run,
}
use thearchivist.Store.Operations.{get, start_execution}
use thearchivist.Store.Effects.{
  amended, get-exec-updates, get-exec-intake, UniqueIds, rowcount, exec-UniqueIds,
}

infix 40 ◌⟶◌
-- The arrows of the diagram. `auto` is the approval that a remembered action gets.
pub data ◌⟶◌ : State → State → Type 0 where
  proposal : opened ⟶ pending
  auto : opened ⟶ approved
  approval : pending ⟶ approved
  denial : pending ⟶ denied
  expiry : pending ⟶ expired
  start : approved ⟶ executing
  close : {s : State} → s ≢ closed → s ⟶ closed

ruleset arrows = (proposal, auto, approval, denial, expiry, start, close)

-- How a row may differ after one statement.
pub record Follows (r r' : Job) : Type 0 where
  pub moved : (r' ≡ r) ⊎ (r.state ⟶ r'.state)
  pub id : r'.id ≡ r.id
  pub host : r'.host ≡ r.host
  pub service : r'.service ≡ r.service
  pub dedupe_key : r'.dedupe_key ≡ r.dedupe_key
  pub created_at : r'.created_at ≡ r.created_at

change-⟶ : (u : Update) (r : Job) → guard u r ≡ true → r.state ⟶ (change u r).state
unfolding guard change
change-⟶ (mark_closed i reason now) r g = close (λ e. ground arith)
change-⟶ _ r g = grind (arith, arrows)

change-Follows : (u : Update) (r : Job) → guard u r ≡ true → Follows r (change u r)
unfolding change
change-Follows (mark_closed i reason now) r g = record {
  moved = inr (change-⟶ (mark_closed i reason now) r g);
  id = refl;
  host = refl;
  service = refl;
  dedupe_key = refl;
  created_at = refl;
}
change-Follows u r g = record {
  moved = inr (change-⟶ u r g);
  id = refl;
  host = refl;
  service = refl;
  dedupe_key = refl;
  created_at = refl;
}

Follows-refl : (r : Job) → Follows r r
Follows-refl r = record {
  moved = inl refl;
  id = refl;
  host = refl;
  service = refl;
  dedupe_key = refl;
  created_at = refl;
}

amended-Follows : (u : Update) (r : Job) → Follows r (amended u r)
amended-Follows u r = elim (Bool-cases (both (has_id (target u)) (guard u) r)) [
  | inl hit ↦ rw hit (change-Follows u r (ground arith))
  | inr miss ↦ rw miss (Follows-refl r)
]

-- No statement removes a job or changes what it is about, and each either leaves its row as it was
-- or moves its state along an arrow of the diagram.
pub exec-Follows :
    (q : Statement) (s : Store) (i : String) (r : Job)
    → get i s ≡ some r
    → (r' : Job) × (get i (exec q s) ≡ some r') × Follows r r'
exec-Follows (updates u) s i r e =
    (amended u r, rw (get-exec-updates u i s, e), amended-Follows u r)
exec-Follows (intake a now window new_id) s i r e =
    (r, ground (arith, get-exec-intake a now window new_id s i), Follows-refl r)

-- The states from which a job may still be executed.
abbrev pub may_run : State → Bool
may_run opened = true
may_run pending = true
may_run approved = true
may_run _ = false

may_run-arrow : {a b : State} → a ⟶ b → may_run a ≡ false → may_run b ≡ false
may_run-arrow proposal h = cc
may_run-arrow auto h = cc
may_run-arrow approval h = cc
may_run-arrow denial h = refl
may_run-arrow expiry h = refl
may_run-arrow start h = refl
may_run-arrow (close ne) h = refl

may_run-Follows : (r r' : Job) → Follows r r' → may_run r.state ≡ false → may_run r'.state ≡ false
may_run-Follows r r' f h = elim f.moved [ inl same ↦ rw same h | inr arrow ↦ may_run-arrow arrow h ]

stays_stopped :
    (qs : List Statement) (s : Store) (i : String) (r : Job)
    → get i s ≡ some r
    → may_run r.state ≡ false
    → (r' : Job) × (get i (run qs s) ≡ some r') × (may_run r'.state ≡ false)
unfolding run
stays_stopped [] s i r e h = (r, e, h)
stays_stopped (q ∷ qs) s i r e h =
    let (r', e', f) = exec-Follows q s i r e in
    stays_stopped qs (exec q s) i r' e' (may_run-Follows r r' f h)

start_execution-hits :
    (i : String) (now : ℕ) (s : Store) (r : Job)
    → UniqueIds s
    → get i s ≡ some r
    → may_run r.state ≡ false
    → (start_execution i now s).1 ≡ false
unfolding start_execution guard
start_execution-hits i now s r unique e h =
    rw (rowcount (mark_executing i now) s unique, e) (ground arith)

pub run-UniqueIds : (qs : List Statement) (s : Store) → UniqueIds s → UniqueIds (run qs s)
unfolding run
run-UniqueIds [] s unique = unique
run-UniqueIds (q ∷ qs) s unique = run-UniqueIds qs (exec q s) (exec-UniqueIds q s unique)

-- From a store whose job ids differ: a job that is denied, expired, executing or closed is never
-- executed afterwards. Whatever statements run in between, start_execution() refuses it.
pub never_started :
    (qs : List Statement) (s : Store) (i : String) (now : ℕ) (r : Job)
    → UniqueIds s
    → get i s ≡ some r
    → may_run r.state ≡ false
    → (start_execution i now (run qs s)).1 ≡ false
never_started qs s i now r unique e h =
    let (r', e', h') = stays_stopped qs s i r e h in
    start_execution-hits i now (run qs s) r' (run-UniqueIds qs s unique) e' h'
