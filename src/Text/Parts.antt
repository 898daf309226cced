-- ===== src/Text/Parts.antt =====
-- Texts that are split at a character and joined with it, and the newline at the end of a line.
use Prim.Native.Char.{Char, code}
use Prim.Native.String
use Prim.Native.String.append.{nil, cons}
use thearchivist.Prelude.{
  ℕ, ◌+◌, ◌≡◌, ◌≢◌, refl, ap, inl, inr, String, false, List, [], ◌∷◌, arith, ◌==◌, Bool-cases,
}
use thearchivist.Table.{All}
use thearchivist.Text.{split, join, count_char, rstrip}

-- The text does not have a character.
abbrev pub Lacks : ℕ → String → Type 0
Lacks sep s = count_char sep s ≡ 0

pub Lacks-cons :
    (sep : ℕ) (d : Char) (s : String)
    → Lacks sep (String.◌∷◌ d s)
    → (Lacks sep s) × ((code d == sep) ≡ false)
unfolding count_char
Lacks-cons sep d s h = elim (Bool-cases (code d == sep)) [
  | inl here ↦ absurd (ground (arith, h, here))
  | inr other ↦ (ground (arith, h, other), other)
]

pub count_char-append :
    (sep : ℕ) (s t : String)
    → count_char sep (String.◌++◌ s t) ≡ count_char sep s + count_char sep t
unfolding count_char
count_char-append sep String.[] t = rw nil (ground arith)
count_char-append sep (String.◌∷◌ c s) t = rw cons (ground (arith, count_char-append sep s t))

split-append :
    (c : Char) (s t : String)
    → Lacks (code c) s
    → split (code c) (String.◌++◌ s (String.◌∷◌ c t)) ≡ s ∷ split (code c) t
unfolding split
split-append c String.[] t h = rw nil (ground arith)
split-append c (String.◌∷◌ d s) t h =
    let (rest, other) = Lacks-cons (code c) d s h in rw (cons, other, split-append c s t rest) refl

split-Lacks : (sep : ℕ) (s : String) → Lacks sep s → split sep s ≡ s ∷ []
unfolding split
split-Lacks sep String.[] h = refl
split-Lacks sep (String.◌∷◌ d s) h =
    let (rest, other) = Lacks-cons sep d s h in rw (other, split-Lacks sep s rest) refl

-- What is joined with a character that no part has is split into the parts again.
pub split-join :
    (c : Char) (parts : List String)
    → parts ≢ []
    → All (Lacks (code c)) parts
    → split (code c) (join (String.◌∷◌ c String.[]) parts) ≡ parts
unfolding join
split-join c [] given lack = absurd (given refl)
split-join c (s ∷ []) given (h, lack) = split-Lacks (code c) s h
split-join c (s ∷ t ∷ ts) given (h, lack) =
    rw (cons, nil, split-append c s (join (String.◌∷◌ c String.[]) (t ∷ ts)) h)
      (ap (λ ps. s ∷ ps) (split-join c (t ∷ ts) (λ e. ground (arith, e)) lack))

pub Lacks-join :
    (n : ℕ) (sep : String) (parts : List String)
    → Lacks n sep
    → All (Lacks n) parts
    → Lacks n (join sep parts)
unfolding join count_char
Lacks-join n sep [] h lack = refl
Lacks-join n sep (s ∷ []) h (hs, lack) = hs
Lacks-join n sep (s ∷ t ∷ ts) h (hs, lack) =
    rw
      (
        count_char-append n s (String.◌++◌ sep (join sep (t ∷ ts))),
        count_char-append n sep (join sep (t ∷ ts)),
        hs,
        h,
        Lacks-join n sep (t ∷ ts) h lack,
      )
      refl

-- A character of a class at the end of a text that has none of the class
module _ (c : Char) where
  pub rstrip-append :
      (s : String)
      → Lacks (code c) s
      → rstrip (λ d. code d == code c) (String.◌++◌ s (String.◌∷◌ c String.[])) ≡ s
  unfolding rstrip
  rstrip-append String.[] h = rw nil (ground arith)
  rstrip-append (String.◌∷◌ d s) h =
      let (rest, other) = Lacks-cons (code c) d s h in rw (cons, rstrip-append s rest, other) refl
