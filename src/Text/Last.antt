-- ===== src/Text/Last.antt =====
-- The last separator of a text, and the first characters of a text.
use Prim.Native.Char.{Char, code}
use Prim.Native.String
use Prim.Native.String.append.{nil, cons}
use text.Mathlib.TextEquality.{Char-path}
use thearchivist.Prelude.{
  ℕ, zero, suc, ◌≤◌, ◌≡◌, refl, ap, ◌∙◌, inl, inr, String, none, some, arith, ◌==◌, Bool-cases,
  Option-cases,
}
use thearchivist.Text.{after_last, before_last, take_chars, chars}

no_separator : (sep : ℕ) (s : String) → after_last sep s ≡ none → before_last sep s ≡ none
unfolding after_last before_last
no_separator sep String.[] h = refl
no_separator sep (String.◌∷◌ d s) h = elim (Option-cases (after_last sep s)) [
  | inl missing ↦ elim (Bool-cases (code d == sep)) [
    | inl here ↦ absurd (let e = (rw (missing, here) at h) in ground (arith, e))
    | inr other ↦ rw (no_separator sep s missing, other) refl
  ]
  | inr (t, later) ↦ absurd (let e = (rw later at h) in ground (arith, e))
]

-- What stands before the last separator, and behind it.
pub after_last-before_last :
    (c : Char) (s t : String)
    → after_last (code c) s ≡ some t
    → (b : String) × (before_last (code c) s ≡ some b) × (String.◌++◌ b (String.◌∷◌ c t) ≡ s)
unfolding after_last before_last
after_last-before_last c String.[] t h = absurd (ground (arith, h))
after_last-before_last c (String.◌∷◌ d s) t h = elim (Option-cases (after_last (code c) s)) [
  | inl missing ↦ elim (Bool-cases (code d == code c)) [
    | inl here ↦
        let found : s ≡ t = (let e = (rw (missing, here) at h) in ground (arith, e)) in
        (
          "",
          rw (no_separator (code c) s missing, here) refl,
          rw (nil, found, Char-path d c (ground (arith, here))) refl,
        )
    | inr other ↦ absurd (let e = (rw (missing, other) at h) in ground (arith, e))
  ]
  | inr (u, later) ↦
      let found : u ≡ t = (let e = (rw later at h) in ground (arith, e)) in
      let (b, before, whole) = after_last-before_last c s t (later ∙ ap (λ v. some v) found) in
      (String.◌∷◌ d b, rw before refl, rw (cons, whole) refl)
]

pub chars-take_chars : (n : ℕ) (s : String) → chars (take_chars n s) ≤ n
unfolding chars take_chars
chars-take_chars zero s = ground arith
chars-take_chars (suc n) String.[] = ground arith
chars-take_chars (suc n) (String.◌∷◌ c s) = ground (arith, chars-take_chars n s)
