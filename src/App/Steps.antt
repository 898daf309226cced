-- ===== src/App/Steps.antt =====
-- The threads of configs/responder/app.py as one transition system: what any of them may do to the
-- world at once. Threads interleave between these steps.
use thearchivist.Prelude.{
  ℕ, suc, ◌≡◌, refl, String, Bool, true, false, [], ◌∷◌, ◌++◌, str_eq, Result, ok, raise,
}
use thearchivist.Table.{count}
use thearchivist.Store.Data.{Store}
use thearchivist.Store.Statements.{Statement, updates, mark_executing, exec, won, Reach, here, next}
use thearchivist.Grants.{Book}
use thearchivist.Grants.Operations.{Operation, operate}
use thearchivist.App.World.{
  World, Env, Exec, Event, executed, Task, pure, lift, on_store, on_store_raising, on_book, ◌>>=◌,
}

abbrev pub is_execution : Event → Bool
is_execution (executed i key verb) = true
is_execution _ = false

-- Only the thread whose UPDATE moved the job on to executing runs its action.
pub data Step (env : Env) (w : World) : World → Type 0 where
  statement : (q : Statement) → Step env w (record w { store = exec q w.store })
  learning :
      (o : Operation) → Step env w (record w { book = operate env.registry env.hash o w.book })
  message :
      (e : Event) → is_execution e ≡ false → Step env w (record w { events = w.events ++ e ∷ [] })
  thread : (t : Task) → Step env w (record w { tasks = w.tasks ++ t ∷ [] })
  reading : Step env w (record w { reads = suc w.reads })
  drawing : Step env w (record w { draws = suc w.draws })
  execution :
      (i key verb : String) (t : ℕ)
      → won (mark_executing i t) w.store ≡ true
      → Step env w (record w {
        store = exec (updates (mark_executing i t)) w.store;
        events = w.events ++ executed i key verb ∷ [];
      })

-- The worlds that steps lead to, in any interleaving of the threads.
pub data Steps (env : Env) (w : World) : World → Type 0 where
  stay : Steps env w w
  step : {u v : World} → Steps env w u → Step env u v → Steps env w v

module _ {env : Env} where
  pub Steps-trans : {u v w : World} → Steps env u v → Steps env v w → Steps env u w
  Steps-trans p stay = p
  Steps-trans p (step q s) = step (Steps-trans p q) s

  pub Step-Steps : {u v : World} → Step env u v → Steps env u v
  Step-Steps s = step stay s

  pub Reach-Steps :
      {s t : Store} (w : World)
      → Reach s t
      → Steps env (record w { store = s }) (record w { store = t })
  Reach-Steps w here = stay
  Reach-Steps w (next r q) = step (Reach-Steps w r) (statement q)

-- A handler that does nothing but steps, also where it raises.
pub record Implements {ℓ} {A : Type ℓ} (env : Env) (m : Exec A) : Type 0 where
  pub steps : (w : World) → Steps env w (m w).0

module _ {ℓ} {A : Type ℓ} (env : Env) where
  pub Implements-pure : (a : A) → Implements env (pure a)
  Implements-pure a = record { steps = λ w. stay }

  pub Implements-lift : (r : Result A) → Implements env (lift r)
  Implements-lift r = record { steps = λ w. stay }

  pub Implements-on_store :
      (f : Store → Store × A) → ((s : Store) → Reach s (f s).0) → Implements env (on_store f)
  Implements-on_store f r = record { steps = λ w. Reach-Steps w (r w.store) }

  pub Implements-on_store_raising :
      (f : Store → Store × Result A)
      → ((s : Store) → Reach s (f s).0)
      → Implements env (on_store_raising f)
  Implements-on_store_raising f r = record { steps = λ w. Reach-Steps w (r w.store) }

  pub Implements-on_book :
      (f : Book → Book × Result A)
      → ((b : Book) → (o : Operation) × ((f b).0 ≡ operate env.registry env.hash o b))
      → Implements env (on_book f)
  Implements-on_book f r = record {
    steps = λ w. let (o, e) = r w.book in rw e (Step-Steps (learning o));
  }

module _ {ℓ κ} {A : Type ℓ} {B : Type κ} (env : Env) where
  pub Steps->>= :
      (m : Exec A) (f : A → Exec B) (v w : World)
      → Steps env v (m w).0
      → ((a : A) → Implements env (f a))
      → Steps env v ((m >>= f) w).0
  Steps->>= m f v w p q = go (m w) refl p
    where
      go : (r : World × Result A) → m w ≡ r → Steps env v r.0 → Steps env v ((m >>= f) w).0
      go (u, ok a) e s = rw e (Steps-trans s ((q a).steps u))
      go (u, raise x) e s = rw e s

  pub Implements->>= :
      (m : Exec A) (f : A → Exec B)
      → Implements env m
      → ((a : A) → Implements env (f a))
      → Implements env (m >>= f)
  Implements->>= m f p q = record { steps = λ w. Steps->>= m f w w (p.steps w) q }

-- The number of times that the action of a job was run.
abbrev pub runs_job : String → Event → Bool
runs_job i (executed j key verb) = str_eq j i
runs_job i _ = false

abbrev pub executions : String → World → ℕ
executions i w = count (runs_job i) w.events
