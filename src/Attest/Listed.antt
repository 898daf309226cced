-- ===== src/Attest/Listed.antt =====
-- Which entries of lists the alerts of compare() of attest.py name.
use thearchivist.Prelude.{
  ◌≡◌, refl, sym, ◌∙◌, inl, inr, String, Bool, false, not, ◌&&◌, ◌||◌, Option, none, some, List, [],
  ◌∷◌, arith, str_eq, str_eq-eq, is_some, Bool-cases, Option-cases,
}
use thearchivist.Table.{any, assoc}
use thearchivist.Table.Any.{any-append, elem-append, is_empty, elem-select, elem-keys}
use thearchivist.Registry.{elem}
use thearchivist.Attest.Policy.{
  Rule, must_be_one, must_not_change, list_removal_bad, list_addition_bad, policy_for,
}
use thearchivist.Attest.Compare.{Config, changed, judge, appeared, vanished, judged, compare}
use thearchivist.Attest.Verdict.{breaks_at, lost_or_added, about, names, reported}
use thearchivist.Attest.Judged.{any-unless_empty}

elem-nonempty : (i : String) (is : List String) → (not (is_empty is) && elem i is) ≡ elem i is
unfolding elem
elem-nonempty i [] = refl
elem-nonempty i (j ∷ is) = ground arith

module _ (repr : String → String) (field i : String) where
  any-changed_at :
      (rule : Rule) (old new : String)
      → any (names i) (changed repr rule field old new) ≡ breaks_at rule field old new i
  unfolding changed breaks_at any elem
  any-changed_at must_be_one old new = ground arith
  any-changed_at must_not_change old new = ground arith
  any-changed_at list_removal_bad old new =
      rw
        (
          any-append, any-append, any-unless_empty, any-unless_empty, any-unless_empty,
          elem-nonempty, elem-select, elem-select,
        )
        (ground arith)
  any-changed_at list_addition_bad old new =
      rw (any-append, any-unless_empty, any-unless_empty, elem-nonempty, elem-select) (ground arith)

  breaks_at_refl : (rule : Rule) (v : String) → breaks_at rule field v v i ≡ false
  unfolding breaks_at
  breaks_at_refl must_be_one v = refl
  breaks_at_refl must_not_change v = refl
  breaks_at_refl list_removal_bad v = ground arith
  breaks_at_refl list_addition_bad v = ground arith

  none_appeared : (live : Config) → any (names i) (appeared repr live field) ≡ false
  unfolding appeared any
  none_appeared live = elim (Option-cases (policy_for field)) [
    | inl ungoverned ↦ rw (ungoverned, appeared, any) refl
    | inr (rule, governed) ↦ rw (governed, appeared, any) refl
  ]

  none_vanished : any (names i) (vanished repr field) ≡ false
  unfolding vanished any elem
  none_vanished = elim (Option-cases (policy_for field)) [
    | inl ungoverned ↦ rw (ungoverned, vanished, any) refl
    | inr (rule, governed) ↦ rw (governed, vanished, any) refl
  ]

  any-judge_at :
      (rule : Rule) (old new : String)
      → any (names i) (judge repr field (some rule) (some old) (some new))
        ≡ breaks_at rule field old new i
  unfolding judge any
  any-judge_at rule old new = elim (Bool-cases (str_eq old new)) [
    | inl same ↦ rw (judge, same, any, sym (str_eq-eq old new same), breaks_at_refl rule old) refl
    | inr other ↦ rw (judge, other) (any-changed_at rule old new)
  ]

  judged-lost_or_added :
      (old new : Option String)
      → ((is_some old || is_some new)
          && any (names i) (judge repr field (policy_for field) old new))
        ≡ lost_or_added field old new i
  unfolding judge lost_or_added any elem
  judged-lost_or_added none none = refl
  judged-lost_or_added none (some new) = elim (Option-cases (policy_for field)) [
    | inl ungoverned ↦ rw (ungoverned, judge, any) refl
    | inr (rule, governed) ↦ rw (governed, judge, any) refl
  ]
  judged-lost_or_added (some old) none = elim (Option-cases (policy_for field)) [
    | inl ungoverned ↦ rw (ungoverned, judge, any) refl
    | inr (rule, governed) ↦ rw (governed, judge, any, elem) refl
  ]
  judged-lost_or_added (some old) (some new) = elim (Option-cases (policy_for field)) [
    | inl ungoverned ↦ rw (ungoverned, judge, any, lost_or_added) refl
    | inr (rule, governed) ↦ rw (governed, any-judge_at rule old new, lost_or_added) refl
  ]

only_first : (a b c : Bool) → (a || ((b && false) || (c && false))) ≡ a
only_first a b c = ground arith

module _ (repr : String → String) (base live : Config) (f i : String) where
  -- An entry is named in an alert about a list exactly if it was lost, or added, against the rule.
  pub compare-lost_or_added :
      any (about f (names i)) (compare repr base live)
      ≡ lost_or_added f (assoc f base) (assoc f live) i
  unfolding judged
  compare-lost_or_added =
      reported repr base live f (names i)
      ∙ (rw
            (
              elem-append,
              elem-select,
              elem-select,
              elem-keys f base,
              elem-keys f live,
              none_appeared repr f i live,
              none_vanished repr f i,
            )
            (only_first _ _ _)
          ∙ judged-lost_or_added repr f i (assoc f base) (assoc f live))
