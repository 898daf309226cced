-- ===== src/Text.antt =====
-- What the program uses of Python's str: a text is read from its first character on.
pub mod Laws
pub mod Parts
pub mod Last
use Prim.Native.Char.{Char, code}
use Prim.Native.String.{compare}
use Prim.Native.String
use Prim.Native.Nat.{Ordering}
use thearchivist.Prelude.{
  ℕ, zero, suc, String, Bool, true, false, ◌&&◌, ◌||◌, Option, none, some, List, [], ◌∷◌, leb, ◌==◌,
  str_eq, is_some, if◌then◌else◌,
}

-- c.isspace()
abbrev pub is_space : Char → Bool
is_space c =
    let n = code c in
    (leb 9 n && leb n 13)
    || ((leb 28 n && leb n 32)
        || (n == 0x85
            || (n == 0xa0
                || (n == 0x1680
                    || ((leb 0x2000 n && leb n 0x200a)
                        || (n == 0x2028
                            || (n == 0x2029 || (n == 0x202f || (n == 0x205f || n == 0x3000)))))))))

-- s.lstrip() and s.rstrip(), for the characters of a class
unfoldable pub lstrip : (Char → Bool) → String → String
lstrip p String.[] = String.[]
lstrip p (String.◌∷◌ c s) = let rest = lstrip p s in if p c then rest else String.◌∷◌ c s

unfoldable pub rstrip : (Char → Bool) → String → String
rstrip p String.[] = String.[]
rstrip p (String.◌∷◌ c s) =
    let rest = rstrip p s in if p c && str_eq rest "" then String.[] else String.◌∷◌ c rest

-- s.strip()
abbrev pub strip : String → String
strip s = lstrip is_space (rstrip is_space s)

-- A character in front of the first part.
abbrev pub attach : Char → List String → List String
attach c [] = String.◌∷◌ c String.[] ∷ []
attach c (p ∷ ps) = String.◌∷◌ c p ∷ ps

-- s.split(sep), for a separator of one character
unfoldable pub split : ℕ → String → List String
split sep String.[] = String.[] ∷ []
split sep (String.◌∷◌ c s) =
    let rest = split sep s in if code c == sep then String.[] ∷ rest else attach c rest

-- sep.join(parts)
unfoldable pub join : String → List String → String
join sep [] = ""
join sep (s ∷ []) = s
join sep (s ∷ t ∷ ts) = String.◌++◌ s (String.◌++◌ sep (join sep (t ∷ ts)))

-- s.rsplit(sep, 1)[1], if there is a separator
unfoldable pub after_last : ℕ → String → Option String
after_last sep String.[] = none
after_last sep (String.◌∷◌ c s) = elim (after_last sep s) [
  | some t ↦ some t
  | none ↦ if code c == sep then some s else none
]

-- s.rsplit(sep, 1)[0], if there is a separator
unfoldable pub before_last : ℕ → String → Option String
before_last sep String.[] = none
before_last sep (String.◌∷◌ c s) = elim (before_last sep s) [
  | some t ↦ some (String.◌∷◌ c t)
  | none ↦ if code c == sep then some String.[] else none
]

-- s.count(sep)
unfoldable pub count_char : ℕ → String → ℕ
count_char sep String.[] = 0
count_char sep (String.◌∷◌ c s) =
    let rest = count_char sep s in if code c == sep then suc rest else rest

-- The rest of a text behind a word, if it starts with the word.
unfoldable pub strip_prefix : String → String → Option String
strip_prefix String.[] s = some s
strip_prefix (String.◌∷◌ c p) String.[] = none
strip_prefix (String.◌∷◌ c p) (String.◌∷◌ d s) =
    let rest = strip_prefix p s in if code c == code d then rest else none

-- s.startswith(p)
abbrev pub starts_with : String → String → Bool
starts_with p s = is_some (strip_prefix p s)

-- The length of a text, in characters.
unfoldable pub chars : String → ℕ
chars String.[] = 0
chars (String.◌∷◌ c s) = suc (chars s)

-- s[:n]: the first n characters
unfoldable pub take_chars : ℕ → String → String
take_chars zero s = String.[]
take_chars (suc n) String.[] = String.[]
take_chars (suc n) (String.◌∷◌ c s) = String.◌∷◌ c (take_chars n s)

-- s[n:]
unfoldable pub drop_chars : ℕ → String → String
drop_chars zero s = s
drop_chars (suc n) String.[] = String.[]
drop_chars (suc n) (String.◌∷◌ c s) = drop_chars n s

-- s < t
abbrev pub before : String → String → Bool
before s t = elim (compare s t) [ Ordering.lt ↦ true | _ ↦ false ]

-- sorted(xs), for a set
unfoldable pub place : String → List String → List String
place x [] = x ∷ []
place x (y ∷ ys) =
    let rest = place x ys in
    if str_eq x y then y ∷ ys else if before x y then x ∷ y ∷ ys else y ∷ rest

unfoldable pub sorted_set : List String → List String
sorted_set [] = []
sorted_set (x ∷ xs) = place x (sorted_set xs)

-- What ends a line in s.splitlines(), besides "\r\n"
abbrev pub is_line_end : Char → Bool
is_line_end c =
    let n = code c in
    (leb 10 n && leb n 13)
    || ((leb 28 n && leb n 30) || (n == 0x85 || (n == 0x2028 || n == 0x2029)))

-- s.splitlines(): "\r\n" is one line end.
unfoldable pub splitlines : String → List String
splitlines String.[] = []
splitlines (String.◌∷◌ c s) =
    let rest = splitlines s in
    if is_line_end c
    then (if code c == 13 && starts_with "\n" s then rest else String.[] ∷ rest)
    else attach c rest

-- p in s
unfoldable pub has_part : String → String → Bool
has_part p String.[] = str_eq p ""
has_part p (String.◌∷◌ c s) = starts_with p (String.◌∷◌ c s) || has_part p s
