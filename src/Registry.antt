-- ===== src/Registry.antt =====
-- configs/responder/registry.py: the allowlist of hosts and verbs.
pub mod Laws
use thearchivist.Prelude.{
  ℕ, String, Bool, true, false, not, ◌&&◌, ◌||◌, Option, none, some, List, [], ◌∷◌, str_eq,
  if◌then◌else◌, is_some, Result, ok, raise, key_error, ◌>>=◌,
}
use thearchivist.Json.{Json, text, object, get_field}

-- An entry of registry.toml. A missing key is `none`.
pub record HostConfig : Type 0 where
  pub checkmk_name : Option String
  pub ip : Option String
  pub unit : Option String
  pub read_verbs : Option (List String)
  pub write_verbs : Option (List String)
  pub is_marked_protected : Option Bool
  pub verify_url : Option String
  pub verify_expect : Option String
  pub verify_timeout : Option ℕ

-- `hosts` keeps the order of the file; its keys differ, as those of a dict.
pub record Registry : Type 0 where
  pub hosts : List (String × HostConfig)
  pub protected_names : List String
  pub protected_units : List String

-- s in xs
unfoldable pub elem : String → List String → Bool
elem s [] = false
elem s (x ∷ xs) = str_eq x s || elem s xs

-- x in xs, where x may be None, which no list of names holds
abbrev pub elem_option : Option String → List String → Bool
elem_option none xs = false
elem_option (some s) xs = elem s xs

-- verb in h.get(..., [])
abbrev pub elem_or_empty : String → Option (List String) → Bool
elem_or_empty s none = false
elem_or_empty s (some xs) = elem s xs

unfoldable pub lookup : String → List (String × HostConfig) → Option HostConfig
lookup k [] = none
lookup k ((j, h) ∷ rest) = if str_eq j k then some h else lookup k rest

abbrev pub equals_option : Option String → String → Bool
equals_option none s = false
equals_option (some x) s = str_eq x s

unfoldable pub first_named : String → List (String × HostConfig) → Option String
first_named name [] = none
first_named name ((key, h) ∷ rest) =
    if equals_option h.checkmk_name name then some key else first_named name rest

unfoldable pub by_checkmk_name : Registry → String → Option String
unfolding first_named
by_checkmk_name reg name = first_named name reg.hosts

unfoldable pub host : Registry → String → Option HostConfig
host reg key = lookup key reg.hosts

-- bool(h): an entry without any key is an empty dict
abbrev pub truthy_host : HostConfig → Bool
truthy_host h =
    is_some h.checkmk_name
    || (is_some h.ip
        || (is_some h.unit
            || (is_some h.read_verbs
                || (is_some h.write_verbs
                    || (is_some h.is_marked_protected
                        || (is_some h.verify_url
                            || (is_some h.verify_expect || is_some h.verify_timeout)))))))

-- bool(h.get("protected"))
abbrev pub marked : HostConfig → Bool
marked h = elim h.is_marked_protected [ none ↦ false | some b ↦ b ]

unfoldable pub is_read : Registry → String → String → Bool
is_read reg key verb = elim (lookup key reg.hosts) [
  | none ↦ false
  | some h ↦ truthy_host h && elem_or_empty verb h.read_verbs
]

unfoldable pub is_write : Registry → String → String → Bool
is_write reg key verb = elim (lookup key reg.hosts) [
  | none ↦ false
  | some h ↦ truthy_host h && elem_or_empty verb h.write_verbs
]

unfoldable pub is_protected : Registry → String → Bool
is_protected reg key = elim (lookup key reg.hosts) [
  | none ↦ true
  | some h ↦
      if truthy_host h
      then (marked h
          || (elem_option h.checkmk_name reg.protected_names
              || elem_option h.unit reg.protected_units))
      else true
]

-- A validated action: host key, verb and unit.
pub record Action : Type 0 where
  pub host : String
  pub verb : String
  pub unit : String

-- self.hosts[key]["unit"]
abbrev pub unit_of : Registry → String → Result String
unit_of reg key = elim (lookup key reg.hosts) [
  | none ↦ raise key_error
  | some h ↦ (elim h.unit [ none ↦ raise key_error | some u ↦ ok u ])
]

unfoldable pub validate_names : Registry → Option Json → Option Json → Result (Option Action)
validate_names reg (some (text key)) (some (text verb)) =
    if is_write reg key verb
    then (do u ← unit_of reg key; ok (some (record { host = key; verb = verb; unit = u })))
    else ok none
validate_names reg _ _ = ok none

unfoldable pub validate_proposal : Registry → Json → Result (Option Action)
unfolding validate_names
validate_proposal reg (object fs) = validate_names reg (get_field "host" fs) (get_field "verb" fs)
validate_proposal reg _ = ok none
