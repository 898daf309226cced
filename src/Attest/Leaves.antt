-- ===== src/Attest/Leaves.antt =====
-- The leaves of the file that REMOTE_PROBE of attest.py reads, apart from how it walks over them.
use thearchivist.Prelude.{String, Option, none, some, List, [], ◌∷◌, ◌++◌, str_eq, if◌then◌else◌}
use thearchivist.Table.Laws.{or_else}
use thearchivist.Text.{strip}
use thearchivist.Attest.Compare.{Config}
use thearchivist.Attest.Probe.{
  Element, element, Elements, no_more, child, or_blank, segment, below, find_child, kids_of,
  sections,
}

-- The leaves of an element with their paths, and the names of what is below it, in the order of the
-- document
unfoldable mutual
  pub leaves : Element → String → Config
  leaves (element tag u t no_more) path = (path, strip (or_blank t)) ∷ []
  leaves (element tag u t (child k ks)) path = leaves_kids (child k ks) path

  pub leaves_kids : Elements → String → Config
  leaves_kids no_more path = []
  leaves_kids (child (element tag u t es) ks) path =
      leaves (element tag u t es) (below path (segment tag u)) ++ leaves_kids ks path

abbrev pub uuid_list : Option String → List String
uuid_list none = []
uuid_list (some u) = if str_eq u "" then [] else u ∷ []

unfoldable pub uuids_below : Elements → List String
uuids_below no_more = []
uuids_below (child (element tag u t es) ks) = uuid_list u ++ (uuids_below es ++ uuids_below ks)

-- The value of the last entry with a key
unfoldable pub last_of : String → Config → Option String
last_of p [] = none
last_of p ((j, v) ∷ rest) = or_else (last_of p rest) (if str_eq j p then some v else none)

abbrev pub section_leaves : Option Element → String → Config
section_leaves none name = []
section_leaves (some e) name = leaves e name

abbrev pub section_uuids : Option Element → List String
section_uuids none = []
section_uuids (some e) = uuids_below (kids_of e)

-- The first child of each name
unfoldable pub leaves_of : List String → Elements → Config
leaves_of [] up = []
leaves_of (name ∷ names) up = section_leaves (find_child name up) name ++ leaves_of names up

unfoldable pub uuids_of : List String → Elements → List String
uuids_of [] up = []
uuids_of (name ∷ names) up = section_uuids (find_child name up) ++ uuids_of names up

abbrev pub plus_leaves : Option Element → Config
plus_leaves none = []
plus_leaves (some e) = leaves_of sections (kids_of e)

abbrev pub plus_uuids : Option Element → List String
plus_uuids none = []
plus_uuids (some e) = uuids_of sections (kids_of e)
