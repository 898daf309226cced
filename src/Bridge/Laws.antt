-- ===== src/Bridge/Laws.antt =====
-- unbound-dnsbl-wazuh.py: which lines are blocks.
use Prim.Native.Char.{Char, code}
use Prim.Native.String
use thearchivist.Prelude.{
  length, ℕ, suc, ◌≡◌, ◌≢◌, refl, sym, ap, ◌∙◌, inl, inr, String, Bool, true, false, not, ◌&&◌,
  ◌||◌, Option, none, some, List, [], ◌∷◌, ◌++◌, arith, ◌==◌, str_eq, str_eq-eq, if◌then◌else◌,
  is_some, Bool-cases, Error, Result, ok, raise,
}
use thearchivist.Table.{count, All}
use thearchivist.Text.{rstrip, split, attach, count_char, join}
use thearchivist.Text.Parts.{Lacks, Lacks-join, rstrip-append, split-join}
use thearchivist.Bridge.{Host, Block, is_newline, read_fields, parse, written, drain}

-- The text starts with a character of a code.
abbrev pub starts_char : ℕ → String → Bool
starts_char sep String.[] = false
starts_char sep (String.◌∷◌ c s) = code c == sep

first_empty : List String → Bool
first_empty [] = true
first_empty (p ∷ ps) = str_eq p ""

length-attach :
    (c : Char) (ps : List String) (n : ℕ) → length ps ≡ suc n → length (attach c ps) ≡ suc n
length-attach c [] n h = absurd (ground (arith, h))
length-attach c (p ∷ ps) n h = h

pub length-split : (sep : ℕ) (s : String) → length (split sep s) ≡ suc (count_char sep s)
unfolding split count_char
length-split sep String.[] = refl
length-split sep (String.◌∷◌ c s) = elim (Bool-cases (code c == sep)) [
  | inl here ↦ rw here (ap (λ n. suc n) (length-split sep s))
  | inr other ↦ rw other (length-attach c (split sep s) (count_char sep s) (length-split sep s))
]

abbrev is_nonempty : String → Bool
is_nonempty String.[] = false
is_nonempty (String.◌∷◌ c s) = true

cons_nonempty : (c : Char) (s : String) → str_eq (String.◌∷◌ c s) "" ≡ false
cons_nonempty c s = elim (Bool-cases (str_eq (String.◌∷◌ c s) "")) [
  | inl same ↦ absurd (let e = ap is_nonempty (str_eq-eq _ _ same) in ground (arith, e))
  | inr other ↦ other
]

first_empty-attach : (c : Char) (ps : List String) → first_empty (attach c ps) ≡ false
unfolding first_empty
first_empty-attach c [] = cons_nonempty c ""
first_empty-attach c (p ∷ ps) = cons_nonempty c p

first_empty-split :
    (sep : ℕ) (s : String) → first_empty (split sep s) ≡ (str_eq s "" || starts_char sep s)
unfolding split first_empty
first_empty-split sep String.[] = refl
first_empty-split sep (String.◌∷◌ c s) = elim (Bool-cases (code c == sep)) [
  | inl here ↦ rw here (ground (arith, cons_nonempty c s))
  | inr other ↦ rw (other, cons_nonempty c s) (first_empty-attach c (split sep s))
]

-- The newline at the end is no separator.
module _ (sep : ℕ) (apart : sep ≢ 10) where
  count_char-rstrip : (s : String) → count_char sep (rstrip is_newline s) ≡ count_char sep s
  unfolding rstrip count_char
  count_char-rstrip String.[] = refl
  count_char-rstrip (String.◌∷◌ c s) = elim (Bool-cases (str_eq (rstrip is_newline s) "")) [
    | inl gone ↦
        let none_left : 0 ≡ count_char sep s =
          ap (count_char sep) (sym (str_eq-eq _ _ gone)) ∙ count_char-rstrip s in
        elim (Bool-cases (code c == 10)) [
          | inl newline ↦ rw (newline, gone) (ground (arith, none_left, newline, apart))
          | inr other ↦ rw other (ground (arith, count_char-rstrip s))
        ]
    | inr kept ↦ rw kept (ground (arith, count_char-rstrip s))
  ]

  starts_char-rstrip : (s : String) → starts_char sep (rstrip is_newline s) ≡ starts_char sep s
  unfolding rstrip
  starts_char-rstrip String.[] = refl
  starts_char-rstrip (String.◌∷◌ c s) = elim (Bool-cases (code c == 10)) [
    | inl newline ↦ elim (Bool-cases (str_eq (rstrip is_newline s) "")) [
      | inl gone ↦ rw (newline, gone) (ground (arith, newline, apart))
      | inr kept ↦ rw kept (ground arith)
    ]
    | inr other ↦ rw other refl
  ]

-- A line is a block if it has twelve bars and does not start with one.
abbrev pub is_block : String → Bool
is_block line = (count_char b'|' line == 12) && not (starts_char b'|' line)

length_past :
    {A : Type 0} (a b c d e f g h i j k l m n : A) (ps : List A)
    → (length (a ∷ b ∷ c ∷ d ∷ e ∷ f ∷ g ∷ h ∷ i ∷ j ∷ k ∷ l ∷ m ∷ n ∷ ps) == 13) ≡ false
length_past a b c d e f g h i j k l m n ps = ground arith

module _ (host : Host) where
  guarded : (b : Bool) (r : Result Block) → is_some (if b then none else some r) ≡ not b
  guarded true r = refl
  guarded false r = refl

  read_fields-some :
      (ps : List String)
      → is_some (read_fields host ps) ≡ ((length ps == 13) && not (first_empty ps))
  unfolding read_fields first_empty
  read_fields-some [] = refl
  read_fields-some (a ∷ []) = refl
  read_fields-some (a ∷ b ∷ []) = refl
  read_fields-some (a ∷ b ∷ c ∷ []) = refl
  read_fields-some (a ∷ b ∷ c ∷ d ∷ []) = refl
  read_fields-some (a ∷ b ∷ c ∷ d ∷ e ∷ []) = refl
  read_fields-some (a ∷ b ∷ c ∷ d ∷ e ∷ f ∷ []) = refl
  read_fields-some (a ∷ b ∷ c ∷ d ∷ e ∷ f ∷ g ∷ []) = refl
  read_fields-some (a ∷ b ∷ c ∷ d ∷ e ∷ f ∷ g ∷ h ∷ []) = refl
  read_fields-some (a ∷ b ∷ c ∷ d ∷ e ∷ f ∷ g ∷ h ∷ i ∷ []) = refl
  read_fields-some (a ∷ b ∷ c ∷ d ∷ e ∷ f ∷ g ∷ h ∷ i ∷ j ∷ []) = refl
  read_fields-some (a ∷ b ∷ c ∷ d ∷ e ∷ f ∷ g ∷ h ∷ i ∷ j ∷ k ∷ []) = refl
  read_fields-some (a ∷ b ∷ c ∷ d ∷ e ∷ f ∷ g ∷ h ∷ i ∷ j ∷ k ∷ l ∷ []) = refl
  read_fields-some (a ∷ b ∷ c ∷ d ∷ e ∷ f ∷ g ∷ h ∷ i ∷ j ∷ k ∷ l ∷ m ∷ []) = guarded _ _
  read_fields-some (a ∷ b ∷ c ∷ d ∷ e ∷ f ∷ g ∷ h ∷ i ∷ j ∷ k ∷ l ∷ m ∷ n ∷ ps) =
      rw (length_past a b c d e f g h i j k l m n ps) refl

  split-is_block : (t : String) → is_some (read_fields host (split b'|' t)) ≡ is_block t
  unfolding count_char
  split-is_block t =
      read_fields-some (split b'|' t)
      ∙ rw (length-split b'|' t, first_empty-split b'|' t)
          (elim (Bool-cases (str_eq t "")) [
            | inl empty ↦ rw (str_eq-eq t "" empty) refl
            | inr given ↦ rw given (ground arith)
          ])

  -- parse() has a record, or raises, exactly for the lines of thirteen fields whose first is not
  -- empty: those with twelve bars that do not start with one. It returns None for all others.
  pub parse-is_block : (line : String) → is_some (parse host line) ≡ is_block line
  unfolding parse count_char
  parse-is_block line =
      split-is_block (rstrip is_newline line)
      ∙ rw (count_char-rstrip b'|' (ground arith) line, starts_char-rstrip b'|' (ground arith) line)
          refl

  written-length :
      (p : Option (Result Block)) (rest : List String × Option Error)
      → (written host p rest).1 ≡ none
      → (rest.1 ≡ none)
        × (length (written host p rest).0
            ≡ (if is_some p then suc (length rest.0) else length rest.0))
  unfolding written
  written-length none rest fine = (fine, refl)
  written-length (some (raise e)) rest fine = cc
  written-length (some (ok rec)) (out, end) fine = (fine, refl)

  written-raises :
      (p : Option (Result Block)) (rest : List String × Option Error) (e : Error)
      → (written host p rest).1 ≡ none
      → written host p (rest.0, some e) ≡ ((written host p rest).0, some e)
  unfolding written
  written-raises none rest e fine = refl
  written-raises (some (raise f)) rest e fine = cc
  written-raises (some (ok rec)) (out, end) e fine = refl

  -- While no time is out of range, the loop writes as many lines as there are blocks.
  pub drain-counts :
      (lines : List String)
      → (drain host lines).1 ≡ none
      → length (drain host lines).0 ≡ count is_block lines
  unfolding drain count
  drain-counts [] fine = refl
  drain-counts (line ∷ lines) fine =
      let (earlier, one) = written-length (parse host line) (drain host lines) fine in
      one ∙ rw (drain-counts lines earlier, parse-is_block line) refl

  pub drain-raises :
      (before behind : List String) (bad : String) (e : Error)
      → (drain host before).1 ≡ none
      → parse host bad ≡ some (raise e)
      → drain host (before ++ bad ∷ behind) ≡ ((drain host before).0, some e)
  unfolding drain
  drain-raises [] behind bad e fine raises = rw (drain, raises, written) refl
  drain-raises (line ∷ before) behind bad e fine raises =
      let (earlier, one) = written-length (parse host line) (drain host before) fine in
      rw (drain, drain-raises before behind bad e earlier raises)
        (written-raises (parse host line) (drain host before) e fine)

  -- Thirteen texts without bars and newlines, written as a line with bars between them, are read as
  -- those thirteen fields; other numbers of texts are read as no record.
  pub parse-join :
      (fields : List String)
      → fields ≢ []
      → All (Lacks b'|') fields
      → All (Lacks 10) fields
      → parse host (String.◌++◌ (join "|" fields) "\n") ≡ read_fields host fields
  unfolding parse count_char
  parse-join fields given bars newlines =
      rw
        (
          rstrip-append "\n" (join "|" fields) (Lacks-join 10 "|" fields (ground arith) newlines),
          split-join "|" fields given bars,
        )
        refl
