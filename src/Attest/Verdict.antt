-- ===== src/Attest/Verdict.antt =====
-- What compare() of attest.py alerts of, rule by rule and field by field.
use thearchivist.Prelude.{
  ◌≡◌, refl, ◌∙◌, inl, inr, String, Bool, true, false, not, ◌&&◌, ◌||◌, Option, none, some, List,
  [], ◌∷◌, ◌++◌, arith, str_eq, Bool-cases, Option-cases,
}
use thearchivist.Table.{any, collect, keys}
use thearchivist.Table.Any.{any-append, any-cong, any-collect, any_at}
use thearchivist.Registry.{elem}
use thearchivist.Text.{sorted_set}
use thearchivist.Text.Laws.{elem-sorted_set}
use thearchivist.Attest.{Finding}
use thearchivist.Attest.Policy.{
  Rule, must_be_one, must_not_change, list_removal_bad, list_addition_bad, policy_for, exempt_set,
}
use thearchivist.Attest.Run.{is_alert}
use thearchivist.Attest.Compare.{
  Config, as_set, minus, unless_empty, changed, judge, appeared, vanished, judged, compare,
}

-- Whether the loss of an entry from a list is not excused, and whether an entry is new on a list.
abbrev pub is_lost : String → String → String → Bool
is_lost field new i = not (elem i (as_set new)) && not (elem i (exempt_set field))

abbrev pub is_added : String → String → Bool
is_added old i = not (elem i (as_set old))

-- Whether a change of a field from one value to another is an alert of a rule.
unfoldable pub breaks : Rule → String → String → String → Bool
breaks must_be_one field old new = not (str_eq old new)
breaks must_not_change field old new = not (str_eq old new)
breaks list_removal_bad field old new = any (is_lost field new) (as_set old)
breaks list_addition_bad field old new = any (is_added old) (as_set new)

-- Whether it is what became of an entry of a list.
unfoldable pub breaks_at : Rule → String → String → String → String → Bool
breaks_at list_removal_bad field old new i = elem i (as_set old) && is_lost field new i
breaks_at list_addition_bad field old new i = elem i (as_set new) && is_added old i
breaks_at _ field old new i = false

unfoldable pub lost_or_added : String → Option String → Option String → String → Bool
lost_or_added field (some old) (some new) i = elim (policy_for field) [
  | none ↦ false
  | some rule ↦ breaks_at rule field old new i
]
lost_or_added field _ _ i = false

-- Whether what became of a field is alerted of; what the header of attest.py forbids is another matter.
unfoldable pub reportable : String → Option String → Option String → Bool
reportable field none new = false
reportable field (some old) none = true
reportable field (some old) (some new) = elim (policy_for field) [
  | none ↦ false
  | some rule ↦ breaks rule field old new
]

abbrev pub items_of : Finding → List String
items_of g = elim g.items [ none ↦ [] | some is ↦ is ]

-- The finding is an alert that lists an entry.
abbrev pub names : String → Finding → Bool
names i g = is_alert g && elem i (items_of g)

-- A finding about a field, for which something else holds as well.
abbrev pub about : String → (Finding → Bool) → Finding → Bool
about f p g = str_eq g.field f && p g

-- The findings are all about one field.
data Its (x : String) : List Finding → Type 0 where
  empty : Its x []
  more : {g : Finding} {gs : List Finding} → g.field ≡ x → Its x gs → Its x (g ∷ gs)

module _ (f : String) (p : Finding → Bool) where
  any-about :
      (x : String) (gs : List Finding) → Its x gs → any (about f p) gs ≡ (str_eq x f && any p gs)
  unfolding any
  any-about x [] empty = ground arith
  any-about x (g ∷ gs) (more e h) = ground (arith, e, any-about x gs h)

  collected :
      (rounds : String → List Finding) (xs : List String)
      → ((x : String) → Its x (rounds x))
      → any (about f p) (collect rounds xs) ≡ (elem f xs && any p (rounds f))
  collected rounds xs h =
      any-collect (about f p) rounds xs
      ∙ (any-cong _ (λ x. str_eq x f && any p (rounds x)) xs (λ x. any-about x (rounds x) (h x))
          ∙ any_at f (λ x. any p (rounds x)) xs)

Its-append : (x : String) (gs hs : List Finding) → Its x gs → Its x hs → Its x (gs ++ hs)
Its-append x [] hs p q = q
Its-append x (g ∷ gs) hs (more e p) q = more e (Its-append x gs hs p q)

Its-unless_empty :
    (x : String) (is : List String) (g : Finding) → g.field ≡ x → Its x (unless_empty is g)
Its-unless_empty x [] g e = empty
Its-unless_empty x (i ∷ is) g e = more e empty

module _ (repr : String → String) (x : String) where
  Its-changed : (rule : Rule) (old new : String) → Its x (changed repr rule x old new)
  unfolding changed
  Its-changed must_be_one old new = more refl empty
  Its-changed must_not_change old new = more refl empty
  Its-changed list_removal_bad old new = search (Its-append, Its-unless_empty)
  Its-changed list_addition_bad old new = search (Its-append, Its-unless_empty)

  Its-judge : (rule : Option Rule) (old new : Option String) → Its x (judge repr x rule old new)
  unfolding judge
  Its-judge none old new = empty
  Its-judge (some rule) none new = more refl empty
  Its-judge (some rule) (some old) none = more refl empty
  Its-judge (some rule) (some old) (some new) = elim (Bool-cases (str_eq old new)) [
    | inl same ↦ rw same empty
    | inr other ↦ rw other (Its-changed rule old new)
  ]

  Its-appeared : (live : Config) → Its x (appeared repr live x)
  unfolding appeared
  Its-appeared live = elim (Option-cases (policy_for x)) [
    | inl ungoverned ↦ rw (ungoverned, appeared) (more refl empty)
    | inr (rule, governed) ↦ rw (governed, appeared) empty
  ]

  Its-vanished : Its x (vanished repr x)
  unfolding vanished
  Its-vanished = elim (Option-cases (policy_for x)) [
    | inl ungoverned ↦ rw (ungoverned, vanished) (more refl empty)
    | inr (rule, governed) ↦ rw (governed, vanished) empty
  ]

module _ (repr : String → String) (base live : Config) (f : String) (p : Finding → Bool) where
  -- What compare() says about a field is what its rounds for the field say.
  pub reported : any (about f p) (compare repr base live) ≡ (
      (elem f (keys base ++ keys live) && any p (judged repr base live f))
      || ((elem f (minus (keys live) (keys base)) && any p (appeared repr live f))
          || (elem f (minus (keys base) (keys live)) && any p (vanished repr f))))
  unfolding compare judged
  reported =
      any-append (about f p) (collect (judged repr base live) (sorted_set (keys base ++ keys live)))
        _
      ∙ rw (
        any-append (about f p)
            (collect (appeared repr live) (sorted_set (minus (keys live) (keys base))))
            (collect (vanished repr) (sorted_set (minus (keys base) (keys live)))),
        collected f p (judged repr base live) (sorted_set (keys base ++ keys live))
            (λ x. Its-judge repr x _ _ _),
        collected f p (appeared repr live) (sorted_set (minus (keys live) (keys base)))
            (λ x. Its-appeared repr x live),
        collected f p (vanished repr) (sorted_set (minus (keys base) (keys live)))
            (λ x. Its-vanished repr x),
        elem-sorted_set,
        elem-sorted_set,
        elem-sorted_set,
      )
