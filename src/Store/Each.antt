-- ===== src/Store/Each.antt =====
-- update_each: the loop that runs one guarded UPDATE for each selected id.
use thearchivist.Prelude.{
  ◌≤◌, ◌≡◌, refl, inl, inr, String, Bool, true, false, ◌&&◌, ◌||◌, Option, none, some, List, [],
  ◌∷◌, arith, str_eq, str_eq-eq, if◌then◌else◌, Bool-cases,
}
use thearchivist.Table.{find, select, count}
use thearchivist.Table.Laws.{map_option, find-none_of_count}
use thearchivist.Store.Data.{Job, Store, has_id}
use thearchivist.Store.Statements.{
  Update, target, guard, change, run_update, won, exec, updates, Reach, next,
}
use thearchivist.Store.Operations.{get, update_each, ids}
use thearchivist.Store.Effects.{UniqueIds, exec-UniqueIds}
use thearchivist.Store.Proposal.{run_update-Guards}

-- i in ids
unfoldable pub contains : String → List String → Bool
contains j [] = false
contains j (i ∷ is) = str_eq i j || contains j is

-- Whether an optional row passes a test.
abbrev pub passes : (Job → Bool) → Option Job → Bool
passes p none = false
passes p (some r) = p r

-- A row is in the selection exactly if the row of its id passes.
pub contains-select :
    (j : String) (p : Job → Bool) (xs : List Job)
    → count (has_id j) xs ≤ 1
    → contains j (ids (select p xs)) ≡ passes p (find (has_id j) xs)
unfolding contains select count find
contains-select j p [] h = refl
contains-select j p (x ∷ xs) h =
    ground (arith, contains-select j p xs, find-none_of_count (has_id j) xs)

-- One UPDATE for each id, with the same guard and the same effect; the effect ends the guard.
pub record Sweep (u : String → Update) (g : Job → Bool) (c : Job → Job) : Type 0 where
  pub names : (i : String) → target (u i) ≡ i
  pub guards : (i : String) (r : Job) → guard (u i) r ≡ g r
  pub sets : (i : String) (r : Job) → change (u i) r ≡ c r
  pub ends : (r : Job) → g (c r) ≡ false

module _ (u : String → Update) (g : Job → Bool) (c : Job → Job) (w : Sweep u g c) where
  swept_row :
      (i : String) (o : Option Job)
      → map_option (λ r. if guard (u i) r then change (u i) r else r) o
        ≡ map_option (λ r. if g r then c r else r) o
  swept_row i none = refl
  swept_row i (some r) = ground (arith, w.guards i r, w.sets i r)

  swept_once :
      (i : String) (s : Store) (j : String)
      → UniqueIds s
      → get j (run_update (u i) s).0
        ≡ (if str_eq i j then map_option (λ r. if g r then c r else r) (get j s) else get j s)
  swept_once i s j unique =
      let (hit, effect) = run_update-Guards (u i) s unique in
      rw (effect j, w.names i, swept_row i (get j s)) refl

  won_row :
      (i : String) (o : Option Job)
      → (elim o [ none ↦ false | some r ↦ guard (u i) r ]) ≡ passes g o
  won_row i none = refl
  won_row i (some r) = w.guards i r

  won_once : (i : String) (s : Store) → UniqueIds s → won (u i) s ≡ passes g (get i s)
  won_once i s unique =
      let (hit, effect) = run_update-Guards (u i) s unique in
      rw (hit, w.names i) (won_row i (get i s))

  unique_after : (i : String) (s : Store) → UniqueIds s → UniqueIds (run_update (u i) s).0
  unique_after i s unique = unfold exec in (exec-UniqueIds (updates (u i)) s unique)

  swept_twice :
      (o : Option Job)
      → map_option (λ r. if g r then c r else r) (map_option (λ r. if g r then c r else r) o)
        ≡ map_option (λ r. if g r then c r else r) o
  swept_twice none = refl
  swept_twice (some r) = ground (arith, w.ends r)

  -- After the loop, the listed rows that passed are changed, and no other row is.
  pub get-update_each :
      (is : List String) (s : Store) (j : String)
      → UniqueIds s
      → get j (update_each u is s).0
        ≡ (if contains j is then map_option (λ r. if g r then c r else r) (get j s) else get j s)
  unfolding update_each contains
  get-update_each [] s j unique = refl
  get-update_each (i ∷ is) s j unique = ground (
    arith,
    get-update_each is (run_update (u i) s).0 j (unique_after i s unique),
    swept_once i s j unique,
    swept_twice (get j s),
  )

  passes_after : (o : Option Job) → passes g (map_option (λ r. if g r then c r else r) o) ≡ false
  passes_after none = refl
  passes_after (some r) = ground (arith, w.ends r)

  -- The loop returns the listed ids whose rows passed.
  pub contains-update_each :
      (is : List String) (s : Store) (j : String)
      → UniqueIds s
      → contains j (update_each u is s).1 ≡ (contains j is && passes g (get j s))
  unfolding update_each contains
  contains-update_each [] s j unique = refl
  contains-update_each (i ∷ is) s j unique =
      let rest = contains-update_each is (run_update (u i) s).0 j (unique_after i s unique) in
      elim (Bool-cases (str_eq i j)) [
        | inl same ↦
            let same' = str_eq-eq i j same in
            ground (
              arith,
              same,
              same',
              rest,
              swept_once i s j unique,
              won_once i s unique,
              passes_after (get j s),
            )
        | inr other ↦ ground (arith, other, rest, swept_once i s j unique, won_once i s unique)
      ]

  module _ (p : Job → Bool) (sub : (r : Job) → p r ≡ true → g r ≡ true) (s : Store)
      (unique : UniqueIds s) where
    selected : (j : String) → contains j (ids (select p s.jobs)) ≡ passes p (get j s)
    unfolding get
    selected j = contains-select j p s.jobs (unique j)

    swept_selected :
        (o : Option Job)
        → (if passes p o then map_option (λ r. if g r then c r else r) o else o)
          ≡ map_option (λ r. if p r then c r else r) o
    swept_selected none = refl
    swept_selected (some r) = ground (arith, sub r)

    passes_selected : (o : Option Job) → (passes p o && passes g o) ≡ passes p o
    passes_selected none = refl
    passes_selected (some r) = ground (arith, sub r)

    -- A loop over the ids of a SELECT whose rows all pass the guard changes exactly the selected rows,
    -- and returns exactly their ids.
    pub sweep-get :
        (j : String)
        → get j (update_each u (ids (select p s.jobs)) s).0
          ≡ map_option (λ r. if p r then c r else r) (get j s)
    sweep-get j =
        rw (get-update_each (ids (select p s.jobs)) s j unique, selected j)
          (swept_selected (get j s))

    pub sweep-ids :
        (j : String) → contains j (update_each u (ids (select p s.jobs)) s).1 ≡ passes p (get j s)
    sweep-ids j =
        rw (contains-update_each (ids (select p s.jobs)) s j unique, selected j)
          (passes_selected (get j s))

  pub Reach-update_each :
      (is : List String) (s : Store) {t : Store} → Reach t s → Reach t (update_each u is s).0
  unfolding update_each exec
  Reach-update_each [] s r = r
  Reach-update_each (i ∷ is) s r =
      Reach-update_each is (run_update (u i) s).0 (next r (updates (u i)))
