-- ===== src/App/Wire.antt =====
-- configs/responder/app.py with configs/responder/executor.py: what reaches a host of the runs of a
-- job. The executions of a history are run again, one after another, on a machine.
use thearchivist.Prelude.{
  ℕ, ◌≤◌, ◌≡◌, ◌⊎◌, refl, inl, inr, String, Option, none, some, List, [], ◌∷◌, ◌++◌, arith, str_eq,
  Bool-cases,
}
use thearchivist.Table.{select, count}
use thearchivist.Registry.{Registry, HostConfig, host}
use thearchivist.Executor.{Machine, Line, execute}
use thearchivist.Executor.Bounds.{Forward}
use thearchivist.Executor.Asks.{statuses, execute-asks}
use thearchivist.App.World.{empty_world, Env, Event, executed}
use thearchivist.App.Steps.{runs_job}
use thearchivist.App.History.{Handler, serve, serve-Sound}

module _ {W : Type 0} (m : Machine W) (reg : Registry) where
  -- executor.execute(REGISTRY.host(key), verb): without an entry, or a verb, nothing is asked.
  abbrev pub run_on : Option HostConfig → String → Line W → Option (Line W)
  run_on none verb l = some l
  run_on (some h) verb l = elim (execute m h verb l) [ none ↦ none | some (r, after) ↦ some after ]

  unfoldable pub rerun : List Event → Line W → Option (Line W)
  rerun [] l = some l
  rerun (executed i key verb ∷ es) l = elim (run_on (host reg key) verb l) [
    | none ↦ none
    | some after ↦ rerun es after
  ]
  rerun (_ ∷ es) l = rerun es l

-- What a host was asked between two states of a machine: nothing, or a verb, and then only the state
-- of the unit.
abbrev pub Reached : {W : Type 0} → Line W → Line W → Type 0
Reached l l' =
    (l'.asked ≡ l.asked) ⊎ ((verb : String) × (k : ℕ) × (l'.asked ≡ l.asked ++ verb ∷ statuses k))

module _ {W : Type 0} (m : Machine W) (forward : Forward m) (reg : Registry) where
  run_on-Reached :
      (o : Option HostConfig) (verb : String) (l : Line W)
      → (l' : Line W) × (run_on m reg o verb l ≡ some l') × Reached l l'
  run_on-Reached none verb l = (l, refl, inl refl)
  run_on-Reached (some h) verb l =
      let (r, ran, asked) = execute-asks m forward h verb l in
      (
        r.1,
        rw (run_on, ran) refl,
        elim asked [ inl (nowhere, same) ↦ inl same | inr (k, after, few) ↦ inr (verb, k, after) ],
      )

  rerun-none :
      (i : String) (es : List Event) (l : Line W)
      → count (runs_job i) es ≡ 0
      → rerun m reg (select (runs_job i) es) l ≡ some l
  unfolding rerun select count
  rerun-none i [] l h = refl
  rerun-none i (e ∷ es) l h = elim (Bool-cases (runs_job i e)) [
    | inl mine ↦ absurd (ground (arith, h, mine))
    | inr other ↦ rw other (rerun-none i es l (ground (arith, h, other)))
  ]

  rerun-Reached :
      (i : String) (es : List Event) (l : Line W)
      → count (runs_job i) es ≤ 1
      → (l' : Line W) × (rerun m reg (select (runs_job i) es) l ≡ some l') × Reached l l'
  unfolding rerun select count
  rerun-Reached i [] l h = (l, refl, inl refl)
  rerun-Reached i (executed j key verb ∷ es) l h = elim (Bool-cases (str_eq j i)) [
    | inl mine ↦
        let (l', ran, reached) = run_on-Reached (host reg key) verb l in
        (l', rw (mine, rerun, ran) (rerun-none i es l' (ground (arith, h, mine))), reached)
    | inr other ↦
        let (l', ran, reached) = rerun-Reached i es l (ground (arith, h, other)) in
        (l', rw other ran, reached)
  ]
  rerun-Reached i (_ ∷ es) l h = rerun-Reached i es l h

  -- Whatever handlers are served one after another from empty tables, and whatever machine the
  -- executions of a job are then run on, whose clock does not go back and that sleeps as long as it is
  -- told: the runs end, and all of them together ask nothing of a host, or one verb, once, and after
  -- it only the state of the unit.
  pub one_verb_per_job :
      (env : Env) (digits : ℕ → String) (hs : List Handler) (i : String) (l : Line W)
      → (l' : Line W) × (rerun m reg
            (select (runs_job i) (serve env digits hs empty_world).events)
            l
          ≡ some l')
        × Reached l l'
  one_verb_per_job env digits hs i l =
      rerun-Reached i (serve env digits hs empty_world).events l (serve-Sound env digits hs i).0
