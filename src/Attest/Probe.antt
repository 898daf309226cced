-- ===== src/Attest/Probe.antt =====
-- attest.py: the program of REMOTE_PROBE, which reads the configuration file of Sentry, and probe(),
-- which runs it over ssh. An XML element is what xml.etree.ElementTree gives of it.
use Prim.Native.String
use thearchivist.Prelude.{
  ℕ, String, Option, none, some, List, [], ◌∷◌, ◌++◌, str_eq, index_error, value_error, Result, ok,
  raise, if◌then◌else◌, ◌==◌,
}
use thearchivist.Text.{strip, join, sorted_set, splitlines, take_chars}
use thearchivist.Attest.Compare.{Config}
use thearchivist.Attest.Run.{Probed, found, unreachable}

-- A node with its tag, its attribute `uuid`, its text and its children
mutual
  pub data Element : Type 0 where
    element : String → Option String → Option String → Elements → Element

  pub data Elements : Type 0 where
    no_more : Elements
    child : Element → Elements → Elements

-- `x or ""`
abbrev pub or_blank : Option String → String
or_blank none = ""
or_blank (some s) = s

-- out and uuids
pub record Scan : Type 0 where
  pub out : Config
  pub uuids : List String

-- d[k] = v: a key that there is keeps its place.
unfoldable pub put : String → String → Config → Config
put k v [] = (k, v) ∷ []
put k v ((j, w) ∷ rest) =
    let later = put k v rest in if str_eq j k then (j, v) ∷ rest else (j, w) ∷ later

-- `u if u else k.tag`
abbrev pub segment : String → Option String → String
segment tag none = tag
segment tag (some u) = if str_eq u "" then tag else u

abbrev pub note_uuid : Option String → Scan → Scan
note_uuid none s = s
note_uuid (some u) s = if str_eq u "" then s else record s { uuids = s.uuids ++ u ∷ [] }

abbrev pub below : String → String → String
below path seg = String.◌++◌ path (String.◌++◌ "/" seg)

unfoldable mutual
  pub walk : Element → String → Scan → Scan
  walk (element tag u t no_more) path s = record s { out = put path (strip (or_blank t)) s.out }
  walk (element tag u t (child k ks)) path s = walk_kids (child k ks) path s

  -- `for k in kids`
  pub walk_kids : Elements → String → Scan → Scan
  walk_kids no_more path s = s
  walk_kids (child (element tag u t es) ks) path s =
      walk_kids ks path (walk (element tag u t es) (below path (segment tag u)) (note_uuid u s))

-- up.find(tag): the first child with the tag
unfoldable pub find_child : String → Elements → Option Element
find_child w no_more = none
find_child w (child (element tag u t es) ks) =
    if str_eq tag w then some (element tag u t es) else find_child w ks

abbrev pub first_found : Option Element → Option Element → Option Element
first_found none e = e
first_found (some e) e' = some e

abbrev pub kids_of : Element → Elements
kids_of (element tag u t es) = es

-- r.find(".//tag"): the first element with the tag below the root, in the order of the document
unfoldable pub descendant : String → Elements → Option Element
descendant w no_more = none
descendant w (child (element tag u t es) ks) =
    if str_eq tag w
    then some (element tag u t es)
    else first_found (descendant w es) (descendant w ks)

abbrev pub sections : List String
sections = "general" ∷ "advanced" ∷ "dnsbl" ∷ "acls" ∷ "forwarding" ∷ []

-- `if sec is not None: walk(sec, section)`
abbrev pub walk_found : String → Option Element → Scan → Scan
walk_found name none s = s
walk_found name (some e) s = walk e name s

unfoldable pub walk_sections : List String → Elements → Scan → Scan
unfolding walk find_child
walk_sections [] up s = s
walk_sections (name ∷ names) up s = walk_sections names up (walk_found name (find_child name up) s)

abbrev pub empty_scan : Scan
empty_scan = record { out = []; uuids = [] }

abbrev pub walk_plus : Option Element → Scan
walk_plus none = empty_scan
walk_plus (some up) = walk_sections sections (kids_of up) empty_scan

abbrev pub uuid_field : String
uuid_field = "dnsbl/policy_uuids"

-- The dict that the program prints, for the root of the file
unfoldable pub scan : Element → Config
unfolding descendant walk_sections put join sorted_set
scan root =
    let s = walk_plus (descendant "unboundplus" (kids_of root)) in
    put uuid_field (join "," (sorted_set s.uuids)) s.out

-- What subprocess.run() came to: TimeoutExpired, or the exit status, stdout and stderr.
pub data SshAnswer : Type 0 where
  timed_out : SshAnswer
  answered : ℕ → String → String → SshAnswer

-- `x or y`, of a text
abbrev pub or_say : String → String → String
or_say s t = if str_eq s "" then t else s

-- xs[-1]
unfoldable pub last_line : List String → Result String
last_line [] = raise index_error
last_line (s ∷ []) = ok s
last_line (s ∷ t ∷ ts) = last_line (t ∷ ts)

-- `loads` is json.loads(), where the text is a dict of texts.
module _ (loads : String → Option Config) where
  abbrev pub read_dict : Option Config → Result Probed
  read_dict none = raise value_error
  read_dict (some live) = ok (found live)

  abbrev pub loaded : Result String → Result Probed
  loaded (raise e) = raise e
  loaded (ok line) = read_dict (loads line)

  -- probe(), where Unreachable is an outcome
  unfoldable pub probe : SshAnswer → Result Probed
  unfolding splitlines take_chars last_line
  probe timed_out = ok (unreachable "ssh timed out probing Sentry")
  probe (answered status stdout stderr) =
      if status == 0
      then loaded (last_line (splitlines (strip stdout)))
      else ok (unreachable (or_say (take_chars 300 (strip stderr)) "probe failed"))
