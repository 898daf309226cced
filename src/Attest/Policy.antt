-- ===== src/Attest/Policy.antt =====
-- attest.py: the rules for the fields of the configuration.
use thearchivist.Prelude.{
  String, Bool, ◌&&◌, Option, none, some, List, [], ◌∷◌, leb, is_some, if◌then◌else◌,
}
use thearchivist.Table.{assoc}
use thearchivist.Text.{strip_prefix, count_char, after_last}

pub data Rule : Type 0 where
  must_be_one must_not_change list_removal_bad list_addition_bad : Rule

-- POLICY
abbrev pub policies : List (String × Rule)
policies =
    ("advanced/logqueries", must_be_one)
    ∷ ("advanced/logverbosity", must_not_change)
    ∷ ("general/enabled", must_be_one)
    ∷ ("general/port", must_not_change)
    ∷ ("acls/default_action", must_not_change)
    ∷ ("forwarding/enabled", must_not_change)
    ∷ ("dnsbl/policy_uuids", list_removal_bad)
    ∷ []

-- SUFFIX_POLICY
abbrev pub suffix_policies : List (String × Rule)
suffix_policies =
    ("enabled", must_be_one)
    ∷ ("type", list_removal_bad)
    ∷ ("lists", list_removal_bad)
    ∷ ("blocklists", list_removal_bad)
    ∷ ("wildcards", list_removal_bad)
    ∷ ("allowlists", list_addition_bad)
    ∷ ("source_nets", list_removal_bad)
    ∷ ("nxdomain", must_not_change)
    ∷ ("address", must_not_change)
    ∷ ("cache_ttl", must_not_change)
    ∷ []

-- EXEMPT_REMOVALS
abbrev pub exempt_removals : List (String × List String)
exempt_removals =
    ("wildcards", "youtube.com" ∷ []) ∷ ("blocklists", "ytimg.com" ∷ "youtu.be" ∷ []) ∷ []

-- field.startswith("dnsbl/")
abbrev pub is_dnsbl : String → Bool
is_dnsbl field = is_some (strip_prefix "dnsbl/" field)

-- table.get(field.rsplit("/", 1)[1]): the subscript is only reached for a field with a slash.
unfoldable pub by_suffix {ℓ} : {A : Type ℓ} → List (String × A) → String → Option A
by_suffix table field = elim (after_last b'/' field) [ none ↦ none | some last ↦ assoc last table ]

unfoldable pub policy_for : String → Option Rule
unfolding by_suffix
policy_for field = elim (assoc field policies) [
  | some rule ↦ some rule
  | none ↦
      if is_dnsbl field && leb 2 (count_char b'/' field)
      then by_suffix suffix_policies field
      else none
]

abbrev or_no_items : Option (List String) → List String
or_no_items none = []
or_no_items (some xs) = xs

-- The entries whose removal from a field is excused
unfoldable pub exempt_set : String → List String
unfolding by_suffix
exempt_set field = if is_dnsbl field then or_no_items (by_suffix exempt_removals field) else []
