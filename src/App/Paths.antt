-- ===== src/App/Paths.antt =====
-- configs/responder/app.py: the regular expressions TAP, REVOKE and HOSTNAME, as the functions that
-- match() computes on a text.
use Prim.Native.Char.{Char, code}
use thearchivist.Text.{strip_prefix}
use thearchivist.Prelude.{
  ℕ, zero, suc, String, Bool, true, false, ◌&&◌, ◌||◌, Option, none, some, leb, ◌==◌, str_eq,
  if◌then◌else◌,
}

-- [0-9a-f]
abbrev pub is_hex : Char → Bool
is_hex c = (leb b'0' (code c) && leb (code c) b'9') || (leb b'a' (code c) && leb (code c) b'f')

-- [A-Za-z0-9]
abbrev pub is_alnum : Char → Bool
is_alnum c =
    (leb b'0' (code c) && leb (code c) b'9')
    || ((leb b'A' (code c) && leb (code c) b'Z') || (leb b'a' (code c) && leb (code c) b'z'))

-- [A-Za-z0-9_-]
abbrev pub is_url_safe : Char → Bool
is_url_safe c = is_alnum c || (code c == b'_' || code c == b'-')

-- [A-Za-z0-9._-]
abbrev pub is_host_char : Char → Bool
is_host_char c = is_alnum c || (code c == b'.' || (code c == b'_' || code c == b'-'))

-- ([class]{n}): the n characters, if all are of the class, and the rest
unfoldable pub take_class : (Char → Bool) → ℕ → String → Option (String × String)
take_class p zero s = some (String.[], s)
take_class p (suc n) String.[] = none
take_class p (suc n) (String.◌∷◌ c s) =
    let rest = take_class p n s in
    if p c then (elim rest [ none ↦ none | some (t, r) ↦ some (String.◌∷◌ c t, r) ]) else none

-- `$` also matches before a newline that ends the text.
abbrev pub at_end : String → Bool
at_end s = str_eq s "" || str_eq s "\n"

-- ([0-9a-f]{12})/([A-Za-z0-9_-]{32})$
unfoldable pub id_and_token : String → Option (String × String)
unfolding take_class strip_prefix
id_and_token s = elim (take_class is_hex 12 s) [
  | none ↦ none
  | some (i, rest) ↦ (elim (strip_prefix "/" rest) [
    | none ↦ none
    | some rest' ↦ (elim (take_class is_url_safe 32 rest') [
      | none ↦ none
      | some (token, end) ↦ if at_end end then some (i, token) else none
    ])
  ])
]

-- The two actions of a tap.
pub data TapAction : Type 0 where
  approve deny : TapAction

abbrev pub with_action : TapAction → Option (String × String) → Option (TapAction × String × String)
with_action action none = none
with_action action (some (i, token)) = some (action, i, token)

-- TAP.match(path)
unfoldable pub match_tap : String → Option (TapAction × String × String)
unfolding id_and_token strip_prefix
match_tap path = elim (strip_prefix "/approve/" path) [
  | some rest ↦ with_action approve (id_and_token rest)
  | none ↦ (elim (strip_prefix "/deny/" path) [
    | some rest ↦ with_action deny (id_and_token rest)
    | none ↦ none
  ])
]

-- REVOKE.match(path)
unfoldable pub match_revoke : String → Option (String × String)
unfolding id_and_token strip_prefix
match_revoke path = elim (strip_prefix "/revoke/" path) [
  | none ↦ none
  | some rest ↦ id_and_token rest
]

-- [A-Za-z0-9._-]{0,n}$
unfoldable pub host_chars : ℕ → String → Bool
host_chars n String.[] = true
host_chars zero (String.◌∷◌ c s) = at_end (String.◌∷◌ c s)
host_chars (suc n) (String.◌∷◌ c s) =
    let rest = host_chars n s in if is_host_char c then rest else at_end (String.◌∷◌ c s)

-- HOSTNAME.match(host)
unfoldable pub match_hostname : String → Bool
unfolding host_chars
match_hostname String.[] = false
match_hostname (String.◌∷◌ c s) = is_host_char c && host_chars 63 s
