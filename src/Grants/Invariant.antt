-- ===== src/Grants/Invariant.antt =====
-- The invariant of the tables of configs/responder/grants.py, kept by every operation.
use thearchivist.Prelude.{
  ℕ, ◌≤◌, ◌≡◌, refl, inl, inr, String, Bool, true, false, not, none, some, List, [], ◌∷◌, arith,
  str_eq-eq, Bool-cases, is_some,
}
use thearchivist.Table.{find, count, amend, update, insert, All}
use thearchivist.Table.Laws.{
  All-update, All-insert, find-update, find-insert, count-update, count-insert, count_mono,
  count-zero_of_find,
}
use thearchivist.Registry.{Registry, is_protected}
use thearchivist.Grants.{
  Grant, AutoRun, RevokeLink, Book, empty_book, has_id, is_for, clashes, renewed,
}

-- What holds of every grant: it is for an unprotected host, and has an end exactly if it is not
-- active.
pub record GrantIsValid (reg : Registry) (g : Grant) : Type 0 where
  pub learned : is_protected reg g.host ≡ false
  pub ended : is_some g.ended_at ≡ not g.active
  pub explained : is_some g.end_reason ≡ not g.active

abbrev pub known : Book → String → Bool
known b i = is_some (find (has_id i) b.grants)

pub record Inv (reg : Registry) (b : Book) : Type 0 where
  pub ids : (i : String) → count (has_id i) b.grants ≤ 1
  pub actions : (host verb unit : String) → count (is_for host verb unit) b.grants ≤ 1
  pub valid : All (GrantIsValid reg) b.grants
  pub runs : All (λ (r : AutoRun). known b r.grant_id ≡ true) b.auto_runs
  pub links : All (λ (l : RevokeLink). known b l.grant_id ≡ true) b.revoke_links

pub empty_book-Inv : (reg : Registry) → Inv reg empty_book
unfolding count
empty_book-Inv reg = record {
  ids = λ i. omega arith;
  actions = λ host verb unit. omega arith;
  valid = tt;
  runs = tt;
  links = tt;
}

-- A change of a grant that keeps what it is about.
pub record Keeps (reg : Registry) (f : Grant → Grant) : Type 0 where
  pub id : (g : Grant) → (f g).id ≡ g.id
  pub host : (g : Grant) → (f g).host ≡ g.host
  pub verb : (g : Grant) → (f g).verb ≡ g.verb
  pub unit : (g : Grant) → (f g).unit ≡ g.unit
  pub valid : (g : Grant) → GrantIsValid reg g → GrantIsValid reg (f g)

All-imp {ℓ} :
    {A : Type ℓ} (P Q : A → Type 0) (xs : List A) → ((x : A) → P x → Q x) → All P xs → All Q xs
All-imp P Q [] f h = tt
All-imp P Q (x ∷ xs) f h = (f x h.0, All-imp P Q xs f h.1)

module _ (reg : Registry) (b : Book) (v : Inv reg b) where
  module _ (q : Grant → Bool) (f : Grant → Grant) (k : Keeps reg f) where
    has_id-amend : (i : String) (g : Grant) → has_id i (amend q f g) ≡ has_id i g
    has_id-amend i g = ground (arith, k.id g)

    is_for-amend :
        (host verb unit : String) (g : Grant)
        → is_for host verb unit (amend q f g) ≡ is_for host verb unit g
    is_for-amend host verb unit g = ground (arith, k.host g, k.verb g, k.unit g)

    valid-amend : (g : Grant) → GrantIsValid reg g → GrantIsValid reg (amend q f g)
    valid-amend g h = elim (Bool-cases (q g)) [
      | inl hit ↦ rw hit (k.valid g h)
      | inr miss ↦ rw miss h
    ]

    known-update :
        (i : String) → known b i ≡ true → known (record b { grants = update q f b.grants }) i ≡ true
    known-update i h = rw (find-update (has_id i) q f b.grants (has_id-amend i)) (ground (arith, h))

    -- An UPDATE of grants that keeps what they are about keeps the invariant.
    pub update-Inv : Inv reg (record b { grants = update q f b.grants })
    update-Inv = record {
      ids = λ i. rw (count-update (has_id i) q f b.grants (has_id-amend i)) (v.ids i);
      actions = λ host verb unit.
          rw (count-update (is_for host verb unit) q f b.grants (is_for-amend host verb unit))
            (v.actions host verb unit);
      valid = All-update (GrantIsValid reg) q f b.grants valid-amend v.valid;
      runs = All-imp _ _ b.auto_runs (λ r h. known-update r.grant_id h) v.runs;
      links = All-imp _ _ b.revoke_links (λ l h. known-update l.grant_id h) v.links;
    }

  module _ (g : Grant) (free : find (clashes g) b.grants ≡ none) where
    insert-ids : (i : String) → count (has_id i) (insert g b.grants) ≤ 1
    insert-ids i = rw (count-insert (has_id i) g b.grants) (
        ground (
          arith,
          v.ids i,
          str_eq-eq g.id i,
          count-zero_of_find (clashes g) b.grants free,
          count_mono (has_id g.id) (clashes g) b.grants (λ x p. ground arith),
        ))

    insert-actions :
        (host verb unit : String) → count (is_for host verb unit) (insert g b.grants) ≤ 1
    insert-actions host verb unit = rw (count-insert (is_for host verb unit) g b.grants) (
        ground (
          arith,
          v.actions host verb unit,
          str_eq-eq g.host host,
          str_eq-eq g.verb verb,
          str_eq-eq g.unit unit,
          count-zero_of_find (clashes g) b.grants free,
          count_mono (is_for g.host g.verb g.unit) (clashes g) b.grants (λ x p. ground arith),
        ))

    known-insert :
        (i : String) → known b i ≡ true → known (record b { grants = insert g b.grants }) i ≡ true
    known-insert i h = rw (find-insert (has_id i) g b.grants) (ground (arith, h))

    pub insert-Inv : GrantIsValid reg g → Inv reg (record b { grants = insert g b.grants })
    insert-Inv h = record {
      ids = insert-ids;
      actions = insert-actions;
      valid = All-insert (GrantIsValid reg) g b.grants v.valid h;
      runs = All-imp _ _ b.auto_runs (λ r o. known-insert r.grant_id o) v.runs;
      links = All-imp _ _ b.revoke_links (λ l o. known-insert l.grant_id o) v.links;
    }

  pub renewed-Keeps : (job_id : String) (now : ℕ) → Keeps reg (renewed job_id now)
  renewed-Keeps job_id now = record {
    id = λ g. refl;
    host = λ g. refl;
    verb = λ g. refl;
    unit = λ g. refl;
    valid = λ g h. record { learned = h.learned; ended = refl; explained = refl };
  }

  pub ended-Keeps :
      (reason : String) (now : ℕ)
      → Keeps reg (λ g. record g { active = false; ended_at = some now; end_reason = some reason })
  ended-Keeps reason now = record {
    id = λ g. refl;
    host = λ g. refl;
    verb = λ g. refl;
    unit = λ g. refl;
    valid = λ g h. record { learned = h.learned; ended = refl; explained = refl };
  }
