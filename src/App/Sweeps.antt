-- ===== src/App/Sweeps.antt =====
-- configs/responder/app.py: a round of sweeper(), which closes the proposals that nobody decided.
use thearchivist.Prelude.{
  ℕ, suc, ◌≡◌, refl, ap, ◌∙◌, inl, inr, String, Bool, true, false, ◌&&◌, ◌||◌, some, List, [], ◌∷◌,
  ◌++◌, arith, str_eq, str_eq-eq, eq-str_eq, str_eq_refl, if◌then◌else◌, Bool-cases, Option-cases,
  is_some, ok,
}
use thearchivist.Registry.{elem}
use thearchivist.Journal.Record.{skip_hosts}
use thearchivist.Store.Data.{expired, Job, Store, not_closed}
use thearchivist.Store.Statements.{mark_closed, to_state, to_closed, run_update, guard, change}
use thearchivist.Store.Operations.{get, close, expire_due, due}
use thearchivist.Store.Effects.{UniqueIds, get-run_update, has_id-get}
use thearchivist.Store.Each.{contains}
use thearchivist.Store.Sweeps.{expire_due_lem}
use thearchivist.App.World.{World, journaled, Env}
use thearchivist.App.Jobs.{journal_record, shut_expired, close_expired, sweep}

-- The row after a close that may be made.
abbrev pub shut_at : Bool → ℕ → Job → Job
shut_at wanted t r = if wanted && not_closed r then to_closed "expired" t r else r

abbrev pub shut_row : String → ℕ → String → Job → Job
shut_row i t j r = shut_at (str_eq i j) t r

module _ (env : Env) where
  journal_record-store :
      (job : Job) (event : String) (w : World)
      → (w' : World) × (journal_record job event w ≡ (w', ok tt)) × (w'.store ≡ w.store)
  unfolding journal_record
  journal_record-store job event w = elim (Bool-cases (elem job.host skip_hosts)) [
    | inl skipped ↦ (w, rw skipped refl, refl)
    | inr open_host ↦
        (record w { events = w.events ++ journaled event job.id ∷ [] }, rw open_host refl, refl)
  ]

  get-closed :
      (i j : String) (t : ℕ) (s : Store) (r : Job)
      → get j s ≡ some r
      → get j (run_update (mark_closed i "expired" t) s).0 ≡ some (shut_row i t j r)
  unfolding guard change
  get-closed i j t s r e = ground (
    arith,
    get-run_update (mark_closed i "expired" t) j s,
    e,
    has_id-get j s r e,
    eq-str_eq r.id j,
    str_eq-eq r.id j,
    str_eq-eq i j,
    str_eq-eq r.id i,
    eq-str_eq r.id i,
  )

  shut_expired-run :
      (i : String) (w : World) (r : Job)
      → get i w.store ≡ some r
      → (w' : World) × (shut_expired env i w ≡ (w', ok tt))
        × (w'.store ≡ (run_update (mark_closed i "expired" (env.clock w.reads)) w.store).0)
  unfolding shut_expired close
  shut_expired-run i w r e =
      let t = env.clock w.reads in
      let s' = (run_update (mark_closed i "expired" t) w.store).0 in
      let there = get-closed i i t w.store r e in
      let (w', ran, kept) =
        journal_record-store (shut_row i t i r) "expired"
          (record w { reads = suc w.reads; store = s' }) in
      (w', rw (there, ran) refl, kept)

  -- Every listed job is in the table.
  abbrev Present : List String → Store → Type 0
  Present is s = (j : String) → contains j is ≡ true → is_some (get j s) ≡ true

  -- What a round leaves of every job, of which those that `wanted` names are shut
  abbrev pub Shuts : (String → Bool) → Store → Store → Type 0
  Shuts wanted s s' =
      (j : String) (r : Job)
      → get j s ≡ some r
      → (t : ℕ) × (get j s' ≡ some (shut_at (wanted j) t r))

  shut_twice :
      (mine listed : Bool) (t t' : ℕ) (r : Job)
      → (t'' : ℕ) × (shut_at listed t' (shut_at mine t r) ≡ shut_at (mine || listed) t'' r)
  shut_twice true listed t t' r = elim (Bool-cases (not_closed r)) [
    | inl live ↦ (t, ground (arith, live))
    | inr shut ↦ (t, ground (arith, shut))
  ]
  shut_twice false listed t t' r = (t', refl)

  Present-after :
      (i : String) (is : List String) (w w' : World)
      → Present (i ∷ is) w.store
      → ((j : String) (x : Job) → get j w.store ≡ some x → (y : Job) × (get j w'.store ≡ some y))
      → Present is w'.store
  unfolding contains
  Present-after i is w w' known after j h = elim (Option-cases (get j w.store)) [
    | inl missing ↦
        absurd (let found = known j (ground (arith, h)) in ground (arith, found, missing))
    | inr (x, there) ↦ let (y, still) = after j x there in rw still refl
  ]

  close_expired-run :
      (is : List String) (w : World)
      → Present is w.store
      → (w' : World) × (close_expired env is w ≡ (w', ok tt))
        × Shuts (λ j. contains j is) w.store w'.store
  unfolding close_expired contains
  close_expired-run [] w known = (w, refl, λ j r e. (0, e))
  close_expired-run (i ∷ is) w known = elim (Option-cases (get i w.store)) [
    | inl missing ↦
        absurd (let found = known i (rw (str_eq_refl i) refl) in ground (arith, found, missing))
    | inr (r, there) ↦
        let t = env.clock w.reads in
        let (w', ran, kept) = shut_expired-run i w r there in
        let after : (j : String) (x : Job)
            → get j w.store ≡ some x
            → get j w'.store ≡ some (shut_row i t j x) =
          λ j x e. rw kept (get-closed i j t w.store x e) in
        let (w'', rest, shuts) =
          close_expired-run is w'
            (λ j h. Present-after i is w w' known (λ j x e. (shut_row i t j x, after j x e)) j h) in
        (
          w'',
          rw ran rest,
          λ j x e.
              let (t', last) = shuts j (shut_row i t j x) (after j x e) in
              let (t'', same) = shut_twice (str_eq i j) (contains j is) t t' x in
              (t'', last ∙ ap some same),
        )
  ]

  swept-Present :
      (s : Store) (unique : UniqueIds s) (now : ℕ)
      → Present (expire_due now s).1 (expire_due now s).0
  swept-Present s unique now j h =
      let (row, listed) = expire_due_lem s unique now j in
      elim (Option-cases (get j s)) [
        | inl missing ↦ absurd (
            let skipped : contains j (expire_due now s).1 ≡ false = rw (listed, missing) refl in
            ground (arith, h, skipped))
        | inr (r, there) ↦ rw (row, there) refl
      ]

  shut_due :
      (b : Bool) (now t : ℕ) (r : Job)
      → shut_at b t (if b then to_state expired now r else r)
        ≡ (if b then to_closed "expired" t (to_state expired now r) else r)
  shut_due true now t r = refl
  shut_due false now t r = refl

  -- A round of the sweeper goes through, where job ids differ: every pending job whose deadline has
  -- come when the round starts is closed at its end, as expired, whatever the other jobs are, and no
  -- other job is changed.
  pub sweep_lem :
      (w : World)
      → UniqueIds w.store
      → ((sweep env w).1 ≡ ok tt)
        × ((j : String) (r : Job)
            → get j w.store ≡ some r
            → (t : ℕ) × (get j (sweep env w).0.store
                ≡ some (
                    if due (env.clock w.reads) r
                    then to_closed "expired" t (to_state expired (env.clock w.reads) r)
                    else r)))
  unfolding sweep
  sweep_lem w unique =
      let now = env.clock w.reads in
      let swept = expire_due now w.store in
      let effect = expire_due_lem w.store unique now in
      let (w', ran, shuts) =
        close_expired-run swept.1 (record w { reads = suc w.reads; store = swept.0 })
          (swept-Present w.store unique now) in
      (
        rw ran refl,
        λ j r e.
            let found : get j swept.0 ≡ some (if due now r then to_state expired now r else r) =
              rw (effect j).0 (rw e refl) in
            let listed : contains j swept.1 ≡ due now r = rw (effect j).1 (rw e refl) in
            let (t, last) = shuts j (if due now r then to_state expired now r else r) found in
            (t, rw ran (last ∙ ap some (rw listed (shut_due (due now r) now t r)))),
      )
