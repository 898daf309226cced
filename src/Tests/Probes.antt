-- ===== src/Tests/Probes.antt =====
-- Examples for attest.py: the program that reads the configuration of Sentry, and ssh that fails.
use thearchivist.Prelude.{
  ◌≡◌, refl, ◌⊎◌, String, true, Option, none, some, [], ◌∷◌, str_eq, index_error, ok, raise,
  if◌then◌else◌,
}
use thearchivist.Table.{assoc}
use thearchivist.Text.{strip, lstrip, rstrip, take_chars, join, sorted_set, place}
use thearchivist.Attest.Compare.{Config}
use thearchivist.Attest.Run.{Tables, Outcome, unverified, gap, run}
use thearchivist.Attest.Probe.{
  Element, element, no_more, child, put, walk, walk_kids, find_child, kids_of, descendant,
  walk_sections, uuid_field, scan, SshAnswer, answered, probe,
}
use thearchivist.Attest.Leaves.{last_of, plus_leaves, plus_uuids}
use thearchivist.Attest.Scanned.{scan-assoc}
use thearchivist.Attest.Audit.{audit, Unread, Read, audit_lem}

abbrev leaf : String → String → Element
leaf tag value = element tag none (some value) no_more

-- A policy with two entries of one name
abbrev policy : Element
policy =
    element "policy" (some "u1") none
      (child (leaf "domain" " a.example ") (child (leaf "domain" "b.example") no_more))

abbrev config_file : Element
config_file = element "opnsense" none none (
    child
      (element "OPNsense" none none (
        child
          (element "unboundplus" none none (
            child (element "general" none none (child (leaf "enabled" "1") no_more))
              (child (element "dnsbl" none none (child policy no_more)) no_more)))
          no_more))
      no_more)

config_file-scan :
    scan config_file
    ≡ ("general/enabled", "1") ∷ ("dnsbl/u1/domain", "b.example") ∷ (uuid_field, "u1") ∷ []
unfolding scan descendant walk_sections walk walk_kids find_child put lstrip rstrip join sorted_set
    place
config_file-scan = refl

scan-assoc_example : assoc "dnsbl/u1/domain" (scan config_file) ≡ (
    if str_eq uuid_field "dnsbl/u1/domain"
    then some (join "," (sorted_set (plus_uuids (descendant "unboundplus" (kids_of config_file)))))
    else last_of "dnsbl/u1/domain" (plus_leaves (descendant "unboundplus" (kids_of config_file))))
scan-assoc_example = scan-assoc "dnsbl/u1/domain" config_file

abbrev loads : String → Option Config
loads s = if str_eq s "{}" then some [] else none

abbrev same : String → String
same s = s

abbrev nothing_stored : Tables
nothing_stored = record { references = []; standing = []; log = [] }

abbrev refused : SshAnswer
refused = answered 255 "" "Permission denied\n"

audit_lem_example :
    ((o : Outcome)
      → audit same loads true 10 refused nothing_stored ≡ ok o
      → Unread refused nothing_stored o ⊎ Read same loads true 10 refused nothing_stored o)
    × ((stdout stderr : String)
        → refused ≡ answered 0 stdout stderr
        → strip stdout ≡ ""
        → audit same loads true 10 refused nothing_stored ≡ raise index_error)
audit_lem_example = audit_lem same loads true 10 refused nothing_stored

refused-audit :
    audit same loads true 10 refused nothing_stored
    ≡ ok (record {
      summary = unverified "Permission denied";
      tables = nothing_stored;
      effects = gap "could not verify Sentry configuration: Permission denied" ∷ [];
    })
unfolding audit probe run lstrip rstrip take_chars
refused-audit = refl
