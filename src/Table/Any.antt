-- ===== src/Table/Any.antt =====
-- Lemmas on tests of the rows, on what a loop collects, and on texts in lists of texts.
use thearchivist.Prelude.{
  ◌≡◌, refl, inl, inr, String, Bool, true, false, not, ◌&&◌, ◌||◌, List, [], ◌∷◌, ◌++◌, arith,
  str_eq, str_eq-eq, str_eq_refl, is_some, Bool-cases,
}
use thearchivist.Table.{select, any, collect, assoc, keys}
use thearchivist.Registry.{elem}

module _ {ℓ} {A : Type ℓ} where
  pub any-append : (p : A → Bool) (xs ys : List A) → any p (xs ++ ys) ≡ (any p xs || any p ys)
  unfolding any
  any-append p [] ys = refl
  any-append p (x ∷ xs) ys = ground (arith, any-append p xs ys)

  pub any-cong : (p q : A → Bool) (xs : List A) → ((x : A) → p x ≡ q x) → any p xs ≡ any q xs
  unfolding any
  any-cong p q [] h = refl
  any-cong p q (x ∷ xs) h = ground (arith, h x, any-cong p q xs h)

pub any-collect {ℓ κ} :
    {A : Type ℓ} {B : Type κ} (p : B → Bool) (f : A → List B) (xs : List A)
    → any p (collect f xs) ≡ any (λ x. any p (f x)) xs
unfolding any collect
any-collect p f [] = refl
any-collect p f (x ∷ xs) = ground (arith, any-append p (f x) (collect f xs), any-collect p f xs)

-- At one text, a test on texts is asked only there.
pub any_at :
    (f : String) (v : String → Bool) (xs : List String)
    → any (λ x. str_eq x f && v x) xs ≡ (elem f xs && v f)
unfolding any elem
any_at f v [] = refl
any_at f v (x ∷ xs) = elim (Bool-cases (str_eq x f)) [
  | inl same ↦ rw (same, any_at f v xs, str_eq-eq x f same) (ground arith)
  | inr other ↦ rw (other, any_at f v xs)
]

-- A selection has a row exactly if some row passes.
abbrev pub is_empty {ℓ} : {A : Type ℓ} → List A → Bool
is_empty [] = true
is_empty (x ∷ xs) = false

module _ {ℓ} {A : Type ℓ} where
  pub is_empty-select : (p : A → Bool) (xs : List A) → is_empty (select p xs) ≡ not (any p xs)
  unfolding any select
  is_empty-select p [] = refl
  is_empty-select p (x ∷ xs) = ground (arith, is_empty-select p xs)

  pub any-select : (p q : A → Bool) (xs : List A) → any p (select q xs) ≡ any (λ x. q x && p x) xs
  unfolding any select
  any-select p q [] = refl
  any-select p q (x ∷ xs) = ground (arith, any-select p q xs)

pub elem-select :
    (k : String) (p : String → Bool) (xs : List String) → elem k (select p xs) ≡ (elem k xs && p k)
unfolding elem select
elem-select k p [] = refl
elem-select k p (x ∷ xs) = elim (Bool-cases (str_eq x k)) [
  | inl same ↦ rw (str_eq-eq x k same) (ground (arith, elem-select k p xs))
  | inr other ↦ ground (arith, other, elem-select k p xs)
]

pub elem-any : (k : String) (xs : List String) → elem k xs ≡ any (λ x. str_eq x k) xs
unfolding elem any
elem-any k [] = refl
elem-any k (x ∷ xs) = ground (arith, elem-any k xs)

pub elem-keys {ℓ} :
    {A : Type ℓ} (k : String) (d : List (String × A)) → elem k (keys d) ≡ is_some (assoc k d)
unfolding elem assoc
elem-keys k [] = refl
elem-keys k ((j, v) ∷ d) = ground (arith, elem-keys k d)

pub elem-append : (k : String) (xs ys : List String) → elem k (xs ++ ys) ≡ (elem k xs || elem k ys)
unfolding elem
elem-append k [] ys = refl
elem-append k (x ∷ xs) ys = ground (arith, elem-append k xs ys)

-- A test that fails at every text of a list.
pub any-false :
    (p : String → Bool) (xs : List String)
    → ((k : String) → elem k xs ≡ true → p k ≡ false)
    → any p xs ≡ false
unfolding any elem
any-false p [] h = refl
any-false p (x ∷ xs) h =
    let here = h x (ground (arith, str_eq_refl x)) in
    let there = any-false p xs (λ k m. h k (ground (arith, m))) in ground (arith, here, there)
