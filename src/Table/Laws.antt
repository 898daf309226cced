-- ===== src/Table/Laws.antt =====
-- Laws of the table operations.
use thearchivist.Prelude.{
  ℕ, ◌+◌, ◌≤◌, ◌≡◌, refl, inl, inr, Bool, true, ◌&&◌, Option, none, some, List, [], ◌∷◌, arith,
  if◌then◌else◌, Bool-cases,
}
use thearchivist.Table.{find, select, count, amend, update, insert, latest, both, All}

-- The rows of an optional row that pass a test, counted.
abbrev pub hits {ℓ} : {A : Type ℓ} → (A → Bool) → Option A → ℕ
hits p none = 0
hits p (some x) = if p x then 1 else 0

-- An optional row, if it passes a test.
abbrev pub narrow {ℓ} : {A : Type ℓ} → (A → Bool) → Option A → Option A
narrow p none = none
narrow p (some x) = if p x then some x else none

abbrev pub or_else {ℓ} : {A : Type ℓ} → Option A → Option A → Option A
or_else none o = o
or_else (some x) o = some x

abbrev pub map_option {ℓ κ} : {A : Type ℓ} {B : Type κ} → (A → B) → Option A → Option B
map_option f none = none
map_option f (some x) = some (f x)

module _ {ℓ} {A : Type ℓ} where
  pub find-update :
      (p q : A → Bool) (f : A → A) (xs : List A)
      → ((x : A) → p (amend q f x) ≡ p x)
      → find p (update q f xs) ≡ map_option (amend q f) (find p xs)
  unfolding find update
  find-update p q f [] keeps = refl
  find-update p q f (x ∷ xs) keeps = elim (Bool-cases (p x)) [
    | inl hit ↦ rw (keeps x, hit)
    | inr miss ↦ rw (keeps x, miss) (find-update p q f xs keeps)
  ]

  pub count-update :
      (p q : A → Bool) (f : A → A) (xs : List A)
      → ((x : A) → p (amend q f x) ≡ p x)
      → count p (update q f xs) ≡ count p xs
  unfolding count update
  count-update p q f [] keeps = refl
  count-update p q f (x ∷ xs) keeps = rw (keeps x, count-update p q f xs keeps)

  pub count-update-le :
      (p q : A → Bool) (f : A → A) (xs : List A)
      → ((x : A) → p (amend q f x) ≡ true → p x ≡ true)
      → count p (update q f xs) ≤ count p xs
  unfolding count update
  count-update-le p q f [] keeps = omega arith
  count-update-le p q f (x ∷ xs) keeps = ground (arith, keeps x, count-update-le p q f xs keeps)

  pub count_mono :
      (p q : A → Bool) (xs : List A) → ((x : A) → p x ≡ true → q x ≡ true) → count p xs ≤ count q xs
  unfolding count
  count_mono p q [] sub = omega arith
  count_mono p q (x ∷ xs) sub = ground (arith, sub x, count_mono p q xs sub)

  pub count-insert :
      (p : A → Bool) (r : A) (xs : List A)
      → count p (insert r xs) ≡ count p xs + (if p r then 1 else 0)
  unfolding count
  count-insert p r [] = ground arith
  count-insert p r (x ∷ xs) = ground (arith, count-insert p r xs)

  pub find-insert :
      (p : A → Bool) (r : A) (xs : List A)
      → find p (insert r xs) ≡ or_else (find p xs) (if p r then some r else none)
  unfolding find
  find-insert p r [] = ground arith
  find-insert p r (x ∷ xs) = elim (Bool-cases (p x)) [
    | inl hit ↦ rw hit
    | inr miss ↦ rw miss (find-insert p r xs)
  ]

  pub find_sound : (p : A → Bool) (xs : List A) (r : A) → find p xs ≡ some r → p r ≡ true
  unfolding find
  find_sound p [] r e = ground arith
  find_sound p (x ∷ xs) r e = ground (arith, find_sound p xs r)

  pub find-none_of_count : (p : A → Bool) (xs : List A) → count p xs ≡ 0 → find p xs ≡ none
  unfolding find count
  find-none_of_count p [] e = refl
  find-none_of_count p (x ∷ xs) e = ground (arith, find-none_of_count p xs)

  pub count-zero_of_find : (p : A → Bool) (xs : List A) → find p xs ≡ none → count p xs ≡ 0
  unfolding find count
  count-zero_of_find p [] e = refl
  count-zero_of_find p (x ∷ xs) e = ground (arith, count-zero_of_find p xs)

  -- Where `p` is a key, a statement guarded by `p` and `q` hits the row of that key or none.
  pub count-both :
      (p q : A → Bool) (xs : List A) → count p xs ≤ 1 → count (both p q) xs ≡ hits q (find p xs)
  unfolding find count
  count-both p q [] h = refl
  count-both p q (x ∷ xs) h = ground (
    arith,
    count-both p q xs,
    count_mono (both p q) p xs (λ (y : A) (e : (p y && q y) ≡ true). ground arith),
  )

  -- With `p` a key, a search by `p` and `q` finds the row of the key if it passes `q`.
  pub find-both :
      (p q : A → Bool) (xs : List A) → count p xs ≤ 1 → find (both p q) xs ≡ narrow q (find p xs)
  unfolding find count
  find-both p q [] h = refl
  find-both p q (x ∷ xs) h = ground (
    arith,
    find-both p q xs,
    find-none_of_count (both p q) xs,
    count_mono (both p q) p xs (λ (y : A) (e : (p y && q y) ≡ true). ground arith),
  )

  pub select-none : (p : A → Bool) (xs : List A) → select p xs ≡ [] → count p xs ≡ 0
  unfolding select count
  select-none p [] e = refl
  select-none p (x ∷ xs) e = ground (arith, select-none p xs)

  pub latest-none : (key : A → ℕ) (xs : List A) → latest key xs ≡ none → xs ≡ []
  unfolding latest
  latest-none key [] e = refl
  latest-none key (x ∷ xs) e = ground arith

module _ {ℓ κ} {A : Type ℓ} (P : A → Type κ) where
  pub All-update :
      (q : A → Bool) (f : A → A) (xs : List A)
      → ((x : A) → P x → P (amend q f x))
      → All P xs
      → All P (update q f xs)
  unfolding update
  All-update q f [] keeps h = tt
  All-update q f (x ∷ xs) keeps h = (keeps x h.0, All-update q f xs keeps h.1)

  pub All-insert : (r : A) (xs : List A) → All P xs → P r → All P (insert r xs)
  All-insert r [] h k = (k, tt)
  All-insert r (x ∷ xs) h k = (h.0, All-insert r xs h.1 k)

  pub All-find : (p : A → Bool) (xs : List A) (r : A) → All P xs → find p xs ≡ some r → P r
  unfolding find
  All-find p [] r h e = ground arith
  All-find p (x ∷ xs) r h e = elim (Bool-cases (p x)) [
    | inl hit ↦ ground (arith, h.0)
    | inr miss ↦ All-find p xs r h.1 (rw miss at e)
  ]

pub count_empty {ℓ} : {A : Type ℓ} (p : A → Bool) → count p [] ≡ 0
unfolding count
count_empty p = refl
