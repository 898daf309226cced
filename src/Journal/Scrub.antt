-- ===== src/Journal/Scrub.antt =====
-- configs/responder/journal.py: the secret filter scrub(). A regular expression is a function that
-- says how many characters it matches at a place of a text, in the order in which Python's re tries.
use Prim.Native.Char.{Char, code}
use Prim.Native.String
use thearchivist.Prelude.{
  ℕ, zero, suc, ◌+◌, ◌-◌, String, Bool, false, not, ◌&&◌, ◌||◌, Option, none, some, List, [], ◌∷◌,
  leb, ◌==◌, if◌then◌else◌,
}
use thearchivist.Text.{is_space, strip_prefix, chars, drop_chars}

-- The character before the place, if any, and the text from the place on; the length of the match.
abbrev pub Pattern : Type 0
Pattern = Option Char → String → Option ℕ

abbrev pub redacted : String → String
redacted s = String.◌++◌ "[redacted]" s

-- pat.sub("[redacted]", text), for a pattern that matches one character at least; `skip` characters
-- are what is left of a match.
unfoldable pub sub : Pattern → Option Char → ℕ → String → String
sub pat before skip String.[] = String.[]
sub pat before (suc skip) (String.◌∷◌ c s) = sub pat (some c) skip s
sub pat before zero (String.◌∷◌ c s) = elim (pat before (String.◌∷◌ c s)) [
  | none ↦ String.◌∷◌ c (sub pat (some c) zero s)
  | some n ↦ redacted (sub pat (some c) (n - 1) s)
]

-- How many characters of a class a text starts with: [...]*
unfoldable pub span : (Char → Bool) → String → ℕ
span p String.[] = 0
span p (String.◌∷◌ c s) = let rest = span p s in if p c then suc rest else 0

abbrev pub in_range : ℕ → ℕ → Char → Bool
in_range a b c = leb a (code c) && leb (code c) b

-- [0-9], [a-z], [A-Za-z0-9], [a-z0-9]
abbrev pub is_digit : Char → Bool
is_digit = in_range b'0' b'9'

abbrev pub is_lower : Char → Bool
is_lower = in_range b'a' b'z'

abbrev pub is_token_char : Char → Bool
is_token_char c = is_digit c || (is_lower c || in_range b'A' b'Z' c)

abbrev pub is_topic_char : Char → Bool
is_topic_char c = is_lower c || is_digit c

-- A word, and then at least so many characters of a class
unfoldable pub word_run : String → (Char → Bool) → ℕ → String → Option ℕ
word_run w p least s = elim (strip_prefix w s) [
  | none ↦ none
  | some rest ↦ if leb least (span p rest) then some (chars w + span p rest) else none
]

-- tk_[A-Za-z0-9]{8,}
abbrev pub ntfy_token : String → Option ℕ
ntfy_token = word_run "tk_" is_token_char 8

-- homelab-(alerts|updates)-[a-z0-9]{6,}
abbrev pub alerts_topic : String → Option ℕ
alerts_topic = word_run "homelab-alerts-" is_topic_char 6

abbrev pub updates_topic : String → Option ℕ
updates_topic = word_run "homelab-updates-" is_topic_char 6

abbrev pub first_of : Option ℕ → Option ℕ → Option ℕ
first_of none m = m
first_of (some n) m = some n

-- How (?i) reads a character against a small letter: capitals, and the four letters beyond ASCII that
-- re takes for `i`, `s` and `k`
abbrev pub fold : ℕ → ℕ
fold n =
    if leb b'A' n && leb n b'Z'
    then n + 32
    else if n == 0x130 || n == 0x131
    then b'i'
    else if n == 0x17f
    then b's'
    else if n == 0x212a
    then b'k'
    else n

unfoldable pub strip_folded : String → String → Option String
strip_folded String.[] s = some s
strip_folded (String.◌∷◌ c w) String.[] = none
strip_folded (String.◌∷◌ c w) (String.◌∷◌ d s) =
    let rest = strip_folded w s in if code c == fold (code d) then rest else none

abbrev pub not_space : Char → Bool
not_space c = not (is_space c)

-- \s*[:=]\s* and \S+, behind the spaces
unfoldable pub assigned : ℕ → String → Option ℕ
assigned spaces String.[] = none
assigned spaces (String.◌∷◌ c s) =
    let more = span is_space s in
    let value = span not_space (drop_chars more s) in
    if (code c == b':' || code c == b'=') && leb 1 value
    then some (spaces + (1 + (more + value)))
    else none

-- (\s*[:=]\s*|\s+)\S+
unfoldable pub value_behind : String → Option ℕ
unfolding assigned
value_behind s =
    let spaces = span is_space s in
    let rest = drop_chars spaces s in
    let value = span not_space rest in
    first_of (assigned spaces rest)
      (if leb 1 spaces && leb 1 value then some (spaces + value) else none)

unfoldable pub keyword : String → String → Option ℕ
unfolding strip_folded value_behind
keyword w s = elim (strip_folded w s) [
  | none ↦ none
  | some rest ↦ (elim (value_behind rest) [ none ↦ none | some n ↦ some (chars w + n) ])
]

unfoldable pub keywords : List String → String → Option ℕ
unfolding keyword
keywords [] s = none
keywords (w ∷ ws) s = first_of (keyword w s) (keywords ws s)

-- bearer|token|secret|password|passwd|api[_-]?key
abbrev pub secret_words : List String
secret_words =
    "bearer" ∷ "token" ∷ "secret" ∷ "password" ∷ "passwd" ∷ "api_key" ∷ "api-key" ∷ "apikey" ∷ []

-- [A-Za-z0-9+/_-]
abbrev pub is_opaque : Char → Bool
is_opaque c =
    is_token_char c || (code c == b'+' || (code c == b'/' || (code c == b'_' || code c == b'-')))

-- `is_letter` is str.isalnum() beyond ASCII.
module _ (is_letter : Char → Bool) where
  -- \w
  abbrev pub is_word : Char → Bool
  is_word c = is_token_char c || (code c == b'_' || (leb 128 (code c) && is_letter c))

  abbrev pub word_before : Option Char → Bool
  word_before none = false
  word_before (some c) = is_word c

  abbrev pub word_ahead : String → Bool
  word_ahead String.[] = false
  word_ahead (String.◌∷◌ c s) = is_word c

  -- \b
  abbrev pub at_boundary : Option Char → String → Bool
  at_boundary before s = if word_before before then not (word_ahead s) else word_ahead s

  -- ={0,2}\b behind `n` characters, of which `before` is the last
  unfoldable pub no_equals : ℕ → Option Char → String → Option ℕ
  no_equals n before s = if at_boundary before s then some n else none

  unfoldable pub one_equals : ℕ → String → Option ℕ
  one_equals n s = if word_ahead s then some (n + 1) else none

  unfoldable pub two_equals : ℕ → String → Option ℕ
  two_equals n String.[] = none
  two_equals n (String.◌∷◌ c s) = if code c == b'=' && word_ahead s then some (n + 2) else none

  unfoldable pub equals_behind : ℕ → Option Char → String → Option ℕ
  unfolding no_equals one_equals two_equals
  equals_behind n before String.[] = no_equals n before String.[]
  equals_behind n before (String.◌∷◌ c s) =
      if code c == b'='
      then first_of (two_equals n s)
          (first_of (one_equals n s) (no_equals n before (String.◌∷◌ c s)))
      else no_equals n before (String.◌∷◌ c s)

  abbrev pub if_long : ℕ → Option ℕ → Option ℕ
  if_long n m = if leb 32 n then m else none

  -- The rest of the pattern behind `n` characters of the class: the longest run is tried first.
  unfoldable pub longest : ℕ → Option Char → String → Option ℕ
  unfolding equals_behind
  longest n before String.[] = if_long n (equals_behind n before String.[])
  longest n before (String.◌∷◌ c s) =
      let longer = longest (suc n) (some c) s in
      let here = if_long n (equals_behind n before (String.◌∷◌ c s)) in
      if is_opaque c then first_of longer here else here

  -- \b[A-Za-z0-9+/_-]{32,}={0,2}\b
  unfoldable pub opaque : Pattern
  unfolding longest
  opaque before s = if at_boundary before s then longest 0 before s else none

  -- scrub()
  unfoldable pub scrub : String → String
  unfolding opaque
  scrub text =
      let no_tokens = sub (λ before. ntfy_token) none 0 text in
      let no_words = sub (λ before. keywords secret_words) none 0 no_tokens in
      let no_topics =
        sub (λ before s. first_of (alerts_topic s) (updates_topic s)) none 0 no_words in
      sub opaque none 0 no_topics
