-- ===== src/Table.antt =====
-- What the program uses of SQLite: a table is the list of its rows, in the order of their rowids.
-- A condition that meets NULL is not true, so a row is selected where its test is `true`.
pub mod Laws
pub mod Latest
pub mod Any
use thearchivist.Prelude.{
  ℕ, suc, String, Bool, false, ◌&&◌, ◌||◌, Option, none, some, List, [], ◌∷◌, ◌++◌, map, leb,
  str_eq, if◌then◌else◌,
}

module _ {ℓ} {A : Type ℓ} where
  -- SELECT ... fetchone()
  unfoldable pub find : (A → Bool) → List A → Option A
  find p [] = none
  find p (x ∷ xs) = if p x then some x else find p xs

  -- SELECT ... fetchall()
  unfoldable pub select : (A → Bool) → List A → List A
  select p [] = []
  select p (x ∷ xs) = let rest = select p xs in if p x then x ∷ rest else rest

  -- SELECT COUNT(*), and the rowcount of an UPDATE
  unfoldable pub count : (A → Bool) → List A → ℕ
  count p [] = 0
  count p (x ∷ xs) = let rest = count p xs in if p x then suc rest else rest

  abbrev pub amend : (A → Bool) → (A → A) → A → A
  amend p f x = if p x then f x else x

  -- UPDATE ... SET f WHERE p
  unfoldable pub update : (A → Bool) → (A → A) → List A → List A
  update p f [] = []
  update p f (x ∷ xs) = amend p f x ∷ update p f xs

  -- INSERT
  abbrev pub insert : A → List A → List A
  insert r xs = xs ++ r ∷ []

  -- ORDER BY key DESC LIMIT 1
  unfoldable pub latest : (A → ℕ) → List A → Option A
  latest key [] = none
  latest key (x ∷ xs) = elim (latest key xs) [
    | none ↦ some x
    | some y ↦ if leb (key y) (key x) then some x else some y
  ]

  -- The id that SQLite gives the next row of an INTEGER PRIMARY KEY: one above the largest.
  unfoldable pub next_rowid : (A → ℕ) → List A → ℕ
  next_rowid key [] = 1
  next_rowid key (x ∷ xs) =
      let rest = next_rowid key xs in if leb rest (key x) then suc (key x) else rest

  abbrev pub both : (A → Bool) → (A → Bool) → A → Bool
  both p q x = p x && q x

  -- A property of every row.
  abbrev pub All {κ} : (A → Type κ) → List A → Type κ
  All P [] = Unit
  All P (x ∷ xs) = P x × All P xs

  -- any(p(x) for x in xs)
  unfoldable pub any : (A → Bool) → List A → Bool
  any p [] = false
  any p (x ∷ xs) = p x || any p xs

-- What a loop appends, round by round.
unfoldable pub collect {ℓ κ} : {A : Type ℓ} {B : Type κ} → (A → List B) → List A → List B
collect f [] = []
collect f (x ∷ xs) = f x ++ collect f xs

-- d.get(k), for a dict of texts
unfoldable pub assoc {ℓ} : {A : Type ℓ} → String → List (String × A) → Option A
assoc k [] = none
assoc k ((j, v) ∷ rest) = if str_eq j k then some v else assoc k rest

-- The keys of a dict
abbrev pub keys {ℓ} : {A : Type ℓ} → List (String × A) → List String
keys = map (λ e. e.0)
