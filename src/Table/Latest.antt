-- ===== src/Table/Latest.antt =====
-- Laws of ORDER BY ... LIMIT 1, and of rows that a test finds in a table.
use thearchivist.Prelude.{
  ℕ, ◌≤◌, ◌≡◌, refl, inl, inr, Bool, true, some, List, [], ◌∷◌, ◌++◌, arith, leb, if◌then◌else◌,
  Bool-cases, Option-cases, is_some,
}
use mathlib.Core.Path.{subst}
use thearchivist.Table.{find, select, count, insert, latest, All}
use thearchivist.Table.Laws.{latest-none}

-- The chosen row passes, its like is in the table, and no row that passes is above it.
abbrev pub IsLatest {ℓ} : {A : Type ℓ} → (A → Bool) → (A → ℕ) → List A → A → Type 0
IsLatest p key xs y = (p y ≡ true) × All (λ x. p x ≡ true → key x ≤ key y) xs

module _ {ℓ} {A : Type ℓ} where
  All-weaken :
      (p : A → Bool) (key : A → ℕ) (m n : ℕ) (xs : List A)
      → m ≤ n
      → All (λ x. p x ≡ true → key x ≤ m) xs
      → All (λ x. p x ≡ true → key x ≤ n) xs
  All-weaken p key m n [] h k = tt
  All-weaken p key m n (x ∷ xs) h k = ((λ e. omega (arith, k.0 e)), All-weaken p key m n xs h k.1)

  none_pass :
      (p : A → Bool) (key : A → ℕ) (n : ℕ) (xs : List A)
      → select p xs ≡ []
      → All (λ x. p x ≡ true → key x ≤ n) xs
  unfolding select
  none_pass p key n [] e = tt
  none_pass p key n (x ∷ xs) e = ground (arith, none_pass p key n xs)

  IsLatest-cons :
      (p : A → Bool) (key : A → ℕ) (x y z : A) (xs : List A)
      → p x ≡ true
      → (if leb (key z) (key x) then some x else some z) ≡ some y
      → IsLatest p key xs z
      → IsLatest p key (x ∷ xs) y
  IsLatest-cons p key x y z xs hit e (at, above) = elim (Bool-cases (leb (key z) (key x))) [
    | inl below ↦
        let e' : x ≡ y = ground (arith, rw below at e) in
        subst (IsLatest p key (x ∷ xs)) e'
          (hit, ((λ h. omega arith), All-weaken p key (key z) (key x) xs (ground arith) above))
    | inr over ↦
        let e' : z ≡ y = ground (arith, rw over at e) in
        subst (IsLatest p key (x ∷ xs)) e' (at, ((λ h. ground arith), above))
  ]

  pub latest-select :
      (p : A → Bool) (key : A → ℕ) (xs : List A) (y : A)
      → latest key (select p xs) ≡ some y
      → IsLatest p key xs y
  unfolding select latest
  latest-select p key [] y e = cc
  latest-select p key (x ∷ xs) y e = elim (Bool-cases (p x)) [
    | inr miss ↦
        let (hit, above) = latest-select p key xs y (rw miss at e) in
        (hit, ((λ h. ground (arith, miss, h)), above))
    | inl hit ↦
        let e' = rw (hit, latest) at e in
        elim (Option-cases (latest key (select p xs))) [
          | inl bare ↦
              let e'' : x ≡ y = ground (arith, rw bare at e') in
              subst (IsLatest p key (x ∷ xs)) e'' (
                hit,
                (
                  (λ h. omega arith),
                  none_pass p key (key x) xs (latest-none key (select p xs) bare),
                ),
              )
          | inr (z, found) ↦
              IsLatest-cons p key x y z xs hit (rw found at e') (latest-select p key xs z found)
        ]
  ]

  pub select-insert :
      (p : A → Bool) (r : A) (xs : List A)
      → select p (insert r xs) ≡ select p xs ++ (if p r then r ∷ [] else [])
  unfolding select
  select-insert p r [] = refl
  select-insert p r (x ∷ xs) = ground (arith, select-insert p r xs)

  pub select_nil : (p : A → Bool) (xs : List A) → count p xs ≡ 0 → select p xs ≡ []
  unfolding select count
  select_nil p [] e = refl
  select_nil p (x ∷ xs) e = ground (arith, select_nil p xs)

module _ {ℓ} {A : Type ℓ} (q : A → Bool) where
  find-select :
      (p : A → Bool) (xs : List A)
      → is_some (find q (select p xs)) ≡ true
      → is_some (find q xs) ≡ true
  unfolding find select
  find-select p [] h = h
  find-select p (x ∷ xs) h = ground (arith, find-select p xs)

  find-latest :
      (key : A → ℕ) (xs : List A) (y : A)
      → latest key xs ≡ some y
      → q y ≡ true
      → is_some (find q xs) ≡ true
  unfolding find latest
  find-latest key [] y e h = cc
  find-latest key (x ∷ xs) y e h = elim (Option-cases (latest key xs)) [
    | inl bare ↦ ground (arith, bare, e, h)
    | inr (z, found) ↦ ground (arith, found, e, h, find-latest key xs z found)
  ]

  -- The row that ORDER BY ... LIMIT 1 returns is a row of the table.
  pub find-latest-select :
      (p : A → Bool) (key : A → ℕ) (xs : List A) (y : A)
      → latest key (select p xs) ≡ some y
      → q y ≡ true
      → is_some (find q xs) ≡ true
  find-latest-select p key xs y e h = find-select p xs (find-latest key (select p xs) y e h)

  pub find-some_of_find :
      (p : A → Bool) (xs : List A) (r : A)
      → find p xs ≡ some r
      → q r ≡ true
      → is_some (find q xs) ≡ true
  unfolding find
  find-some_of_find p [] r e h = cc
  find-some_of_find p (x ∷ xs) r e h = ground (arith, e, h, find-some_of_find p xs r)

  pub count_pos_of_find :
      (p : A → Bool) (xs : List A) (r : A) → find p xs ≡ some r → q r ≡ true → 1 ≤ count q xs
  unfolding find count
  count_pos_of_find p [] r e h = cc
  count_pos_of_find p (x ∷ xs) r e h = elim (Bool-cases (p x)) [
    | inl hit ↦ ground (arith, hit, e, h)
    | inr miss ↦ ground (arith, miss, e, h, count_pos_of_find p xs r)
  ]
