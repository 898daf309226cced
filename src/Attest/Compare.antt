-- ===== src/Attest/Compare.antt =====
-- attest.py: compare(), which holds a live configuration against the baseline. `repr` stands for
-- Python's repr() of a text.
use Prim.Native.String
use thearchivist.Prelude.{
  String, not, Option, none, some, List, [], ◌∷◌, ◌++◌, map, str_eq, if◌then◌else◌,
}
use thearchivist.Table.{select, collect, assoc, keys}
use thearchivist.Registry.{elem}
use thearchivist.Text.{strip, split, join, sorted_set}
use thearchivist.Attest.{Severity, alert, note, Finding}
use thearchivist.Attest.Policy.{
  Rule, must_be_one, must_not_change, list_removal_bad, list_addition_bad, policy_for, exempt_set,
}

-- A dict from fields to values: its keys differ.
abbrev pub Config : Type 0
Config = List (String × String)

-- _as_set(), sorted
unfoldable pub as_set : String → List String
as_set v = sorted_set (select (λ p. not (str_eq p "")) (map strip (split b',' v)))

-- sorted(xs - ys), for sorted xs
abbrev pub minus : List String → List String → List String
minus xs ys = select (λ x. not (elem x ys)) xs

abbrev pub plain : Severity → String → String → Finding
plain severity field detail = record {
  field = field;
  severity = severity;
  label = "";
  detail = detail;
  items = none;
}

abbrev pub listing : String → String → List String → Finding
listing field label items = record {
  field = field;
  severity = alert;
  label = label;
  detail = String.◌++◌ label (String.◌++◌ ": " (join ", " items));
  items = some items;
}

-- if items: findings.append(f)
abbrev pub unless_empty : List String → Finding → List Finding
unless_empty [] f = []
unless_empty (i ∷ is) f = f ∷ []

module _ (repr : String → String) where
  abbrev repr_option : Option String → String
  repr_option none = "None"
  repr_option (some v) = repr v

  abbrev was_now : String → String → String → String
  was_now what old new =
      String.◌++◌ what
        (String.◌++◌ ": was " (String.◌++◌ (repr old) (String.◌++◌ ", now " (repr new))))

  -- A governed field whose value differs
  unfoldable pub changed : Rule → String → String → String → List Finding
  unfolding join
  changed must_be_one field old new = plain alert field (was_now "turned off" old new) ∷ []
  changed must_not_change field old new = plain alert field (was_now "changed" old new) ∷ []
  changed list_removal_bad field old new =
      let gone = minus (as_set old) (as_set new) in
      let added = minus (as_set new) (as_set old) in
      let exempt = select (λ g. elem g (exempt_set field)) gone in
      let lost = minus gone (exempt_set field) in
      unless_empty lost (listing field "REMOVED from blocklist" lost)
      ++ (unless_empty exempt (
            plain note field (
              String.◌++◌ "removed under the standing YouTube exception (2026-09-12): "
                (join ", " exempt)))
          ++ unless_empty added
              (plain note field (String.◌++◌ "added (permitted): " (join ", " added))))
  changed list_addition_bad field old new =
      let gone = minus (as_set old) (as_set new) in
      let added = minus (as_set new) (as_set old) in
      unless_empty added (listing field "ADDED to allowlist" added)
      ++ unless_empty gone
          (plain note field (String.◌++◌ "removed from allowlist (permitted): " (join ", " gone)))

  -- One round of the first loop: the field's rule, its old and its new value
  unfoldable pub judge : String → Option Rule → Option String → Option String → List Finding
  unfolding changed
  judge field none old new = []
  judge field (some rule) none new =
      plain note field (String.◌++◌ "new governed field appeared: " (repr_option new)) ∷ []
  judge field (some rule) (some old) none =
      plain alert field "governed field has disappeared from the configuration" ∷ []
  judge field (some rule) (some old) (some new) =
      if str_eq old new then [] else changed rule field old new

  -- One round of the second loop, and of the third
  unfoldable pub appeared : Config → String → List Finding
  appeared live field = elim (policy_for field) [
    | none ↦
        plain note field (String.◌++◌ "new field appeared: " (repr_option (assoc field live))) ∷ []
    | some rule ↦ []
  ]

  unfoldable pub vanished : String → List Finding
  vanished field = elim (policy_for field) [
    | none ↦ plain alert field "field removed from configuration" ∷ []
    | some rule ↦ []
  ]

  unfoldable pub judged : Config → Config → String → List Finding
  judged base live field = judge field (policy_for field) (assoc field base) (assoc field live)

  unfoldable pub compare : Config → Config → List Finding
  compare base live =
      collect (judged base live) (sorted_set (keys base ++ keys live))
      ++ (collect (appeared live) (sorted_set (minus (keys live) (keys base)))
          ++ collect vanished (sorted_set (minus (keys base) (keys live))))
