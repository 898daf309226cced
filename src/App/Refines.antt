-- ===== src/App/Refines.antt =====
-- Each part of a handler of configs/responder/app.py does nothing but the steps of App/Steps.
use thearchivist.Prelude.{
  ℕ, suc, ◌+◌, ◌≡◌, refl, inl, inr, String, Bool, true, false, Option, none, some, List,
  if◌then◌else◌, Bool-cases, Option-cases, ok,
}
use thearchivist.Registry.{host, elem}
use thearchivist.Store.Data.{Job, Store}
use thearchivist.Store.Statements.{
  Report, intake_alert, intake, mark_pending, mark_approved, mark_closed, mark_executing, updates,
  Reach, here, next, exec, won,
}
use thearchivist.Store.Operations.{get, auto_approve, start_execution, close, propose}
use thearchivist.Grants.{start_auto_run, finish_auto_run, revoke_link, revoke}
use thearchivist.Grants.Operations.{operate, remembers, starts, finishes, links, revokes}
use thearchivist.App.World.{
  World, Env, Exec, Event, published, journaled, Task, Notice, pure, on_store, on_book, ◌>>=◌, emit,
  spawn, now, draw, get_job, reading_world,
}
use thearchivist.Journal.Record.{skip_hosts}
use thearchivist.App.Jobs.{journal_record, execute, run_execution, remember_job}
use thearchivist.App.Steps.{
  Step, statement, learning, message, thread, reading, drawing, execution, Steps, stay, step,
  is_execution, Step-Steps, Steps-trans, Reach-Steps, Implements, Implements-pure, Implements-lift,
  Implements-on_store, Implements-on_store_raising, Implements->>=, Steps->>=,
}

module _ (s : Store) (i : String) (now_is : ℕ) where
  pub Reach-close : (reason : String) → Reach s (close i reason now_is s).0
  unfolding close exec
  Reach-close reason = next here (updates (mark_closed i reason now_is))

  pub Reach-start_execution : Reach s (start_execution i now_is s).0
  unfolding start_execution exec
  Reach-start_execution = next here (updates (mark_executing i now_is))

  pub Reach-auto_approve : (verb unit : String) → Reach s (auto_approve i verb unit now_is s).0
  unfolding auto_approve exec
  Reach-auto_approve verb unit = next here (updates (mark_approved i verb unit now_is))

  pub Reach-propose :
      (hash : String → String) (verb unit token : String) (ttl : ℕ)
      → Reach s (propose hash i verb unit token now_is ttl s).0
  unfolding propose exec
  Reach-propose hash verb unit token ttl =
      next here (updates (mark_pending i verb unit (hash token) (now_is + ttl) now_is))

pub Reach-intake_alert :
    (a : Report) (now_is window : ℕ) (new_id : String) (s : Store)
    → Reach s (intake_alert a now_is window new_id s).0
unfolding exec
Reach-intake_alert a now_is window new_id s = next here (intake a now_is window new_id)

module _ (env : Env) where
  pub Implements-now : Implements env (now env)
  Implements-now = record { steps = λ w. Step-Steps reading }

  pub Implements-draw : Implements env (draw env)
  Implements-draw = record { steps = λ w. Step-Steps drawing }

  pub Implements-spawn : (t : Task) → Implements env (spawn t)
  Implements-spawn t = record { steps = λ w. Step-Steps (thread t) }

  pub Implements-emit : (e : Event) → is_execution e ≡ false → Implements env (emit e)
  Implements-emit e quiet = record { steps = λ w. Step-Steps (message e quiet) }

  pub Implements-get_job : (i : String) → Implements env (get_job i)
  Implements-get_job i = record { steps = λ w. stay }

  pub Implements-journal_record :
      (job : Job) (event : String) → Implements env (journal_record job event)
  unfolding journal_record
  Implements-journal_record job event = record {
    steps = λ w. elim (Bool-cases (elem job.host skip_hosts)) [
      | inl skipped ↦ rw skipped stay
      | inr open_host ↦ rw open_host (Step-Steps (message (journaled event job.id) refl))
    ];
  }

  -- The grants.
  pub Implements-start_auto_run :
      (i job_id : String) (t : ℕ) → Implements env (on_book (start_auto_run i job_id t))
  unfolding operate
  Implements-start_auto_run i job_id t = record {
    steps = λ w. Step-Steps (learning (starts i job_id t));
  }

  pub Implements-finish_auto_run :
      (run_id : ℕ) (i : String) (verified : Bool) (t : ℕ)
      → Implements {0} env (on_book (λ b. (finish_auto_run run_id i verified t b, ok tt)))
  unfolding operate
  Implements-finish_auto_run run_id i verified t = record {
    steps = λ w. Step-Steps (learning (finishes run_id i verified t));
  }

  pub Implements-revoke_link :
      (i token : String) → Implements env (on_book (revoke_link env.hash i token))
  unfolding operate
  Implements-revoke_link i token = record { steps = λ w. Step-Steps (learning (links i token)) }

  pub Implements-revoke :
      (i token : String) (t : ℕ)
      → Implements env (on_book (λ b. let (b', r) = revoke env.hash i token t b in (b', ok r)))
  unfolding operate
  Implements-revoke i token t = record { steps = λ w. Step-Steps (learning (revokes i token t)) }

  pub Implements-remember_job :
      (key : String) (job : Job) (t : ℕ) (drawn : String)
      → Implements env (on_book (remember_job env key job t drawn))
  unfolding operate remember_job
  Implements-remember_job key job t drawn = record {
    steps = λ w. elim (Option-cases job.verb) [
      | inl no_verb ↦ rw (no_verb, remember_job) stay
      | inr (verb, has_verb) ↦ elim (Option-cases job.unit) [
        | inl no_unit ↦ rw (has_verb, remember_job, no_unit) stay
        | inr (unit, has_unit) ↦
            rw (has_verb, remember_job, has_unit)
              (Step-Steps (learning (remembers key verb unit job.id t drawn)))
      ]
    ];
  }

  -- What comes behind a won start_execution().
  let_through :
      (i : String) (key verb : Option String) (t : ℕ) (w : World)
      → won (mark_executing i t) w.store ≡ true
      → Steps env w
          (execute env key verb i
            (record w { store = exec (updates (mark_executing i t)) w.store })).0
  unfolding execute
  let_through i none verb t w first = Step-Steps (statement (updates (mark_executing i t)))
  let_through i (some key) none t w first = Step-Steps (statement (updates (mark_executing i t)))
  let_through i (some key) (some verb) t w first = elim (Option-cases (host env.registry key)) [
    | inl unknown ↦ rw (unknown, execute) (Step-Steps (statement (updates (mark_executing i t))))
    | inr (h, known) ↦ rw (known, execute) (Step-Steps (execution i key verb t first))
  ]

  pub Implements-close : (i reason : String) (t : ℕ) → Implements env (on_store (close i reason t))
  Implements-close i reason t = record {
    steps = λ w. Reach-Steps w (Reach-close w.store i t reason);
  }

  module _ (i : String) (key : Option String) (w : World) where
    -- run_execution() behind a start_execution() that returned True.
    started :
        (t : ℕ)
        → won (mark_executing i t) w.store ≡ true
        → (f : Bool × String → Exec (Bool × String)) → ((r : Bool × String) → Implements env (f r))
        → Steps env w
            ((get_job i >>= λ job. execute env key job.verb i >>= f)
              (record w { store = exec (updates (mark_executing i t)) w.store })).0
    started t first f q = go (get i (exec (updates (mark_executing i t)) w.store)) refl
      where
        go :
            (o : Option Job)
            → get i (exec (updates (mark_executing i t)) w.store) ≡ o
            → Steps env w
                ((get_job i >>= λ job. execute env key job.verb i >>= f)
                  (record w { store = exec (updates (mark_executing i t)) w.store })).0
        go none e = rw e (Step-Steps (statement (updates (mark_executing i t))))
        go (some job) e = rw e (
            Steps->>= env (execute env key job.verb i) f w _ (let_through i key job.verb t w first)
              q)

  -- What run_execution() does after the run.
  abbrev after_run : String → Bool × String → Exec (Bool × String)
  after_run i r = do
    t ← now env
    on_store (close i (if r.0 then "done" else "failed") t) >>= λ _. pure r

  after_run-Implements : (i : String) (r : Bool × String) → Implements env (after_run i r)
  after_run-Implements i r = Implements->>= env (now env) _ Implements-now (λ t.
      Implements->>= env _ (λ _. pure r) (Implements-close i (if r.0 then "done" else "failed") t)
        (λ b. Implements-pure env r))

  run_execution-Steps :
      (i : String) (key : Option String) (w : World) → Steps env w (run_execution env i key w).0
  unfolding run_execution start_execution exec
  run_execution-Steps i key w =
      let u = record w { reads = suc w.reads } in
      let t = env.clock w.reads in
      elim (Bool-cases (won (mark_executing i t) w.store)) [
        | inr lost ↦ rw lost (
            Steps-trans (Step-Steps reading)
              (Step-Steps (statement (updates (mark_executing i t)))))
        | inl first ↦ rw first (
            Steps-trans (Step-Steps reading)
              (started i key u t first (after_run i) (after_run-Implements i)))
      ]

  pub Implements-run_execution :
      (i : String) (key : Option String) → Implements env (run_execution env i key)
  Implements-run_execution i key = record { steps = run_execution-Steps i key }

  pub Implements-if {ℓ} :
      {A : Type ℓ} (b : Bool) (m n : Exec A)
      → Implements env m
      → Implements env n
      → Implements env (if b then m else n)
  Implements-if true m n p q = p
  Implements-if false m n p q = q

  pub Implements-reading_world {ℓ} :
      {A : Type ℓ} (f : World → Exec A)
      → ((w : World) → Implements env (f w))
      → Implements env (reading_world f)
  Implements-reading_world f q = record { steps = λ w. (q w).steps w }

  pub Implements-published :
      (what : Notice) (i : String) (buttons : List (String × String))
      → Implements env (emit (published what i buttons))
  Implements-published what i buttons = Implements-emit (published what i buttons) refl

pub ruleset handler_rules = (
  Implements->>=, Implements-pure, Implements-lift, Implements-if, Implements-reading_world,
  Implements-on_store, Implements-on_store_raising, Implements-now, Implements-draw,
  Implements-spawn, Implements-published, Implements-get_job, Implements-journal_record,
  Implements-start_auto_run, Implements-finish_auto_run, Implements-revoke_link, Implements-revoke,
  Implements-remember_job, Implements-close, Implements-run_execution, Reach-close,
  Reach-auto_approve, Reach-propose, Reach-intake_alert,
)
