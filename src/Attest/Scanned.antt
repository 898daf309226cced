-- ===== src/Attest/Scanned.antt =====
-- What the program of REMOTE_PROBE of attest.py prints, against the leaves of the file.
use thearchivist.Prelude.{
  ◌≡◌, refl, sym, ap, ◌∙◌, inl, inr, String, true, false, Option, none, some, List, [], ◌∷◌, ◌++◌,
  str_eq, str_eq-eq, eq-str_eq, if◌then◌else◌, arith, Bool-cases, Option-cases,
}
use thearchivist.Table.{assoc}
use thearchivist.Table.Laws.{or_else}
use thearchivist.Text.{strip, join, sorted_set}
use thearchivist.Attest.Compare.{Config}
use thearchivist.Attest.Probe.{
  Element, element, Elements, no_more, child, or_blank, Scan, put, segment, note_uuid, below, walk,
  walk_kids, find_child, kids_of, descendant, sections, walk_sections, empty_scan, walk_plus,
  uuid_field, scan,
}
use thearchivist.Attest.Leaves.{
  leaves, leaves_kids, uuid_list, uuids_below, last_of, leaves_of, uuids_of, plus_leaves,
  plus_uuids,
}

or_else_assoc : (a b c : Option String) → or_else a (or_else b c) ≡ or_else (or_else a b) c
or_else_assoc none b c = refl
or_else_assoc (some x) b c = refl

or_else-none : (a : Option String) → or_else a none ≡ a
or_else-none none = refl
or_else-none (some x) = refl

append_assoc : (xs ys zs : List String) → (xs ++ ys) ++ zs ≡ xs ++ (ys ++ zs)
append_assoc [] ys zs = refl
append_assoc (x ∷ xs) ys zs = ap (λ r. x ∷ r) (append_assoc xs ys zs)

append-nil : (xs : List String) → xs ++ [] ≡ xs
append-nil [] = refl
append-nil (x ∷ xs) = ap (λ r. x ∷ r) (append-nil xs)

last_of-append :
    (p : String) (xs ys : Config) → last_of p (xs ++ ys) ≡ or_else (last_of p ys) (last_of p xs)
unfolding last_of
last_of-append p [] ys = sym (or_else-none (last_of p ys))
last_of-append p ((j, v) ∷ xs) ys =
    rw (last_of-append p xs ys)
      (sym (or_else_assoc (last_of p ys) (last_of p xs) (if str_eq j p then some v else none)))

keys_apart : (j k p : String) → str_eq j p ≡ true → str_eq j k ≡ false → str_eq k p ≡ false
keys_apart j k p mine miss = elim (Bool-cases (str_eq k p)) [
  | inl also ↦ absurd (
      let same : str_eq j k ≡ true =
        eq-str_eq j k (str_eq-eq j p mine ∙ sym (str_eq-eq k p also)) in
      ground (arith, same, miss))
  | inr other ↦ other
]

note_uuid-out : (u : Option String) (s : Scan) → (note_uuid u s).out ≡ s.out
note_uuid-out none s = refl
note_uuid-out (some u) s = elim (Bool-cases (str_eq u "")) [
  | inl blank ↦ rw blank refl
  | inr named ↦ rw named refl
]

assoc-put :
    (p k v : String) (c : Config) → assoc p (put k v c) ≡ (if str_eq k p then some v else assoc p c)
unfolding assoc put
assoc-put p k v [] = refl
assoc-put p k v ((j, w) ∷ rest) = elim (Bool-cases (str_eq j k)) [
  | inl hit ↦
      let same_key = str_eq-eq j k hit in
      elim (Bool-cases (str_eq k p)) [
        | inl mine ↦ rw (hit, same_key, mine) refl
        | inr other ↦ rw (hit, same_key, other) refl
      ]
  | inr miss ↦ elim (Bool-cases (str_eq j p)) [
    | inl mine ↦
        let other : str_eq k p ≡ false = keys_apart j k p mine miss in rw (miss, mine, other) refl
    | inr other ↦ rw (miss, other) (assoc-put p k v rest)
  ]
]

mutual
  unfolding walk leaves last_of

  walk-assoc :
      (p : String) (e : Element) (path : String) (s : Scan)
      → assoc p (walk e path s).out ≡ or_else (last_of p (leaves e path)) (assoc p s.out)
  walk-assoc p (element tag u t no_more) path s = elim (Bool-cases (str_eq path p)) [
    | inl mine ↦ rw (assoc-put p path (strip (or_blank t)) s.out, mine) refl
    | inr other ↦ rw (assoc-put p path (strip (or_blank t)) s.out, other) refl
  ]
  walk-assoc p (element tag u t (child k ks)) path s = walk_kids-assoc p (child k ks) path s

  walk_kids-assoc :
      (p : String) (ks : Elements) (path : String) (s : Scan)
      → assoc p (walk_kids ks path s).out
        ≡ or_else (last_of p (leaves_kids ks path)) (assoc p s.out)
  walk_kids-assoc p no_more path s = refl
  walk_kids-assoc p (child (element tag u t es) ks) path s =
      let here = below path (segment tag u) in
      let noted = note_uuid u s in
      rw
        (
          walk_kids-assoc p ks path (walk (element tag u t es) here noted),
          walk-assoc p (element tag u t es) here noted,
          note_uuid-out u s,
          last_of-append p (leaves (element tag u t es) here) (leaves_kids ks path),
        )
        (or_else_assoc (last_of p (leaves_kids ks path))
          (last_of p (leaves (element tag u t es) here)) (assoc p s.out))

note_uuid-uuids : (u : Option String) (s : Scan) → (note_uuid u s).uuids ≡ s.uuids ++ uuid_list u
note_uuid-uuids none s = sym (append-nil s.uuids)
note_uuid-uuids (some u) s = elim (Bool-cases (str_eq u "")) [
  | inl blank ↦ rw blank (sym (append-nil s.uuids))
  | inr named ↦ rw named refl
]

mutual
  unfolding walk uuids_below

  walk-uuids :
      (e : Element) (path : String) (s : Scan)
      → (walk e path s).uuids ≡ s.uuids ++ uuids_below (kids_of e)
  walk-uuids (element tag u t no_more) path s = sym (append-nil s.uuids)
  walk-uuids (element tag u t (child k ks)) path s = walk_kids-uuids (child k ks) path s

  walk_kids-uuids :
      (ks : Elements) (path : String) (s : Scan)
      → (walk_kids ks path s).uuids ≡ s.uuids ++ uuids_below ks
  walk_kids-uuids no_more path s = sym (append-nil s.uuids)
  walk_kids-uuids (child (element tag u t es) ks) path s =
      let here = below path (segment tag u) in
      let noted = note_uuid u s in
      rw
        (
          walk_kids-uuids ks path (walk (element tag u t es) here noted),
          walk-uuids (element tag u t es) here noted,
          note_uuid-uuids u s,
          append_assoc (s.uuids ++ uuid_list u) (uuids_below es) (uuids_below ks),
          append_assoc s.uuids (uuid_list u) (uuids_below es ++ uuids_below ks),
        )
        refl

walk_sections-assoc :
    (p : String) (names : List String) (up : Elements) (s : Scan)
    → assoc p (walk_sections names up s).out
      ≡ or_else (last_of p (leaves_of names up)) (assoc p s.out)
unfolding walk_sections leaves_of last_of
walk_sections-assoc p [] up s = refl
walk_sections-assoc p (name ∷ names) up s = elim (Option-cases (find_child name up)) [
  | inl missing ↦ rw (walk_sections, missing) (walk_sections-assoc p names up s)
  | inr (e, there) ↦
      rw
        (
          walk_sections,
          there,
          walk_sections-assoc p names up (walk e name s),
          walk-assoc p e name s,
          last_of-append p (leaves e name) (leaves_of names up),
        )
        (or_else_assoc (last_of p (leaves_of names up)) (last_of p (leaves e name)) (assoc p s.out))
]

walk_sections-uuids :
    (names : List String) (up : Elements) (s : Scan)
    → (walk_sections names up s).uuids ≡ s.uuids ++ uuids_of names up
unfolding walk_sections uuids_of
walk_sections-uuids [] up s = sym (append-nil s.uuids)
walk_sections-uuids (name ∷ names) up s = elim (Option-cases (find_child name up)) [
  | inl missing ↦ rw (walk_sections, missing) (walk_sections-uuids names up s)
  | inr (e, there) ↦
      rw
        (
          walk_sections,
          there,
          walk_sections-uuids names up (walk e name s),
          walk-uuids e name s,
          append_assoc s.uuids (uuids_below (kids_of e)) (uuids_of names up),
        )
        refl
]

plus-assoc :
    (p : String) (up : Option Element) → assoc p (walk_plus up).out ≡ last_of p (plus_leaves up)
unfolding assoc last_of
plus-assoc p none = refl
plus-assoc p (some e) =
    walk_sections-assoc p sections (kids_of e) empty_scan
    ∙ or_else-none (last_of p (plus_leaves (some e)))

plus-uuids : (up : Option Element) → (walk_plus up).uuids ≡ plus_uuids up
plus-uuids none = refl
plus-uuids (some e) = walk_sections-uuids sections (kids_of e) empty_scan

-- What the dict that the program on Sentry prints has under a path is the value of the last leaf with
-- that path, among the leaves of the first sections with their names below the first element
-- "unboundplus", in the order of the sections and of the document. Only "dnsbl/policy_uuids" is not a
-- leaf's: it has the sorted names of everything below those sections, each once, parted by commas.
pub scan-assoc :
    (p : String) (root : Element)
    → assoc p (scan root) ≡ (
        if str_eq uuid_field p
        then some (join "," (sorted_set (plus_uuids (descendant "unboundplus" (kids_of root)))))
        else last_of p (plus_leaves (descendant "unboundplus" (kids_of root))))
unfolding scan
scan-assoc p root =
    let up = descendant "unboundplus" (kids_of root) in
    assoc-put p uuid_field (join "," (sorted_set (walk_plus up).uuids)) (walk_plus up).out
    ∙ rw (plus-uuids up, plus-assoc p up) refl
