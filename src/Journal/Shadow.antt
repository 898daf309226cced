-- ===== src/Journal/Shadow.antt =====
-- What a text that re.sub of scrub() of journal.py made shares with the text it was made from.
use Prim.Native.Char.{Char, code}
use Prim.Native.String.append.{cons}
use mathlib.Core.Path.{subst}
use thearchivist.Prelude.{
  ℕ, zero, suc, ◌-◌, ◌≤◌, ◌≡◌, refl, inl, inr, String, Bool, true, false, Option, none, some, arith,
  leb, ◌==◌, Bool-cases, Option-cases,
}
use thearchivist.Text.{drop_chars, strip_prefix}
use thearchivist.Text.Parts.{Lacks, Lacks-cons}
use thearchivist.Journal.Scrub.{Pattern, redacted, sub, span, word_run}

-- A text that was copied from another one, with parts of that put away.
pub data Shadow : String → String → Type 0 where
  done : {s : String} → Shadow "" s
  same : {c : Char} {o s : String} → Shadow o s → Shadow (String.◌∷◌ c o) (String.◌∷◌ c s)
  mask : {o s t : String} → Shadow o s → Shadow (redacted o) t

module _ (pat : Pattern) where
  pub Shadow-sub :
      (before : Option Char) (skip : ℕ) (s : String)
      → Shadow (sub pat before skip s) (drop_chars skip s)
  unfolding sub drop_chars
  Shadow-sub before zero String.[] = done
  Shadow-sub before (suc skip) String.[] = done
  Shadow-sub before (suc skip) (String.◌∷◌ c s) = Shadow-sub (some c) skip s
  Shadow-sub before zero (String.◌∷◌ c s) = elim (Option-cases (pat before (String.◌∷◌ c s))) [
    | inl missed ↦ rw (sub, missed) (same (Shadow-sub (some c) zero s))
    | inr (n, hit) ↦ rw (sub, hit) (mask (Shadow-sub (some c) (n - 1) s))
  ]

module _ (p : Char → Bool) (bracket : p "[" ≡ false) where
  span-Shadow : {o s : String} → Shadow o s → span p o ≤ span p s
  unfolding span
  span-Shadow done = ground arith
  span-Shadow (same {c} h) = elim (Bool-cases (p c)) [
    | inl inside ↦ rw inside (ground (arith, span-Shadow h))
    | inr outside ↦ rw outside (ground arith)
  ]
  span-Shadow (mask h) = rw (cons, bracket) (ground arith)

-- What follows a word in the copy follows it in the original.
strip_prefix-Shadow :
    (w : String) {o s : String} (r : String)
    → Lacks b'[' w
    → Shadow o s
    → strip_prefix w o ≡ some r
    → (t : String) × (strip_prefix w s ≡ some t) × Shadow r t
unfolding strip_prefix
strip_prefix-Shadow String.[] {o} {s} r plain h e =
    let found : o ≡ r = cc in (s, refl, subst (λ x. Shadow x s) found h)
strip_prefix-Shadow (String.◌∷◌ d w) r plain done e = absurd (ground (arith, e))
strip_prefix-Shadow (String.◌∷◌ d w) {s = String.◌∷◌ x s} r plain (same {c} {o} h) e =
    elim (Bool-cases (code d == code c)) [
      | inl equal ↦
          let (t, found, shadow) =
            strip_prefix-Shadow w r (Lacks-cons b'[' d w plain).0 h
              (rw (strip_prefix, equal) at e) in
          (t, rw equal found, shadow)
      | inr other ↦
          absurd (let none_left = (rw (strip_prefix, other) at e) in ground (arith, none_left))
    ]
strip_prefix-Shadow (String.◌∷◌ d w) r plain (mask {o} h) e = absurd (
    let none_left = (rw (cons, strip_prefix, (Lacks-cons b'[' d w plain).1) at e) in
    ground (arith, none_left))

-- The patterns that are a word and a run of a class, neither of which has the bracket in front of
-- "redacted".
pub record Plain (w : String) (p : Char → Bool) : Type 0 where
  pub word_plain : Lacks b'[' w
  pub class_plain : p "[" ≡ false

long_too : (least m n : ℕ) → leb least m ≡ true → m ≤ n → leb least n ≡ true
long_too least m n h le = ground (arith, h, le)

pub word_run-Shadow :
    {w : String} {p : Char → Bool} (least : ℕ) {o s : String}
    → Plain w p
    → Shadow o s
    → word_run w p least s ≡ none
    → word_run w p least o ≡ none
unfolding word_run
word_run-Shadow {w} {p} least {o} {s} plain h missed = elim (Option-cases (strip_prefix w o)) [
  | inl away ↦ rw (word_run, away) refl
  | inr (r, found) ↦
      let (t, there, shadow) = strip_prefix-Shadow w r plain.word_plain h found in
      let shorter = span-Shadow p plain.class_plain shadow in
      elim (Bool-cases (leb least (span p r))) [
        | inl long ↦ absurd (
            let hit =
              (rw (word_run, there, long_too least (span p r) (span p t) long shorter) at missed) in
            ground (arith, hit))
        | inr short ↦ rw (word_run, found, short) refl
      ]
]
