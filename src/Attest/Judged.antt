-- ===== src/Attest/Judged.antt =====
-- What compare() of attest.py alerts of, field by field, and what it has no finding about.
use thearchivist.Prelude.{
  ◌≡◌, refl, sym, ◌∙◌, inl, inr, String, Bool, true, false, not, ◌&&◌, ◌||◌, Option, none, some,
  List, [], ◌∷◌, arith, str_eq, str_eq-eq, str_eq_refl, is_some, Bool-cases, Option-cases,
}
use thearchivist.Table.{any, assoc}
use thearchivist.Table.Any.{
  any-append, any-false, elem-append, is_empty, is_empty-select, any-select, elem-select, elem-keys,
}
use thearchivist.Registry.{elem}
use thearchivist.Attest.{Finding}
use thearchivist.Attest.Policy.{
  Rule, must_be_one, must_not_change, list_removal_bad, list_addition_bad, policy_for, exempt_set,
}
use thearchivist.Attest.Compare.{
  Config, as_set, minus, unless_empty, changed, judge, appeared, vanished, judged, compare,
}
use thearchivist.Attest.Run.{is_alert}
use thearchivist.Attest.Verdict.{is_added, breaks, reportable, about, reported}

pub any-unless_empty :
    (p : Finding → Bool) (is : List String) (g : Finding)
    → any p (unless_empty is g) ≡ (not (is_empty is) && p g)
unfolding any
any-unless_empty p [] g = refl
any-unless_empty p (i ∷ is) g = ground arith

nonempty-minus :
    (xs ys : List String) → not (is_empty (minus xs ys)) ≡ any (λ x. not (elem x ys)) xs
nonempty-minus xs ys = rw (is_empty-select (λ x. not (elem x ys)) xs) (ground arith)

nonempty-minus-minus :
    (xs ys zs : List String)
    → not (is_empty (minus (minus xs ys) zs)) ≡ any (λ x. not (elem x ys) && not (elem x zs)) xs
nonempty-minus-minus xs ys zs =
    nonempty-minus (minus xs ys) zs ∙ any-select (λ x. not (elem x zs)) (λ x. not (elem x ys)) xs

none_lost : (p : String → Bool) (xs : List String) → any (λ x. not (elem x xs) && p x) xs ≡ false
none_lost p xs = any-false (λ x. not (elem x xs) && p x) xs (λ k m. ground (arith, m))

module _ (repr : String → String) (field : String) where
  -- An alert about a changed value says that the rule is broken.
  any-changed :
      (rule : Rule) (old new : String)
      → str_eq old new ≡ false
      → any is_alert (changed repr rule field old new) ≡ breaks rule field old new
  unfolding changed breaks any
  any-changed must_be_one old new d = ground (arith, d)
  any-changed must_not_change old new d = ground (arith, d)
  any-changed list_removal_bad old new d =
      rw
        (
          any-append,
          any-append,
          any-unless_empty,
          any-unless_empty,
          any-unless_empty,
          nonempty-minus-minus (as_set old) (as_set new) (exempt_set field),
        )
        (ground arith)
  any-changed list_addition_bad old new d =
      rw (any-append, any-unless_empty, any-unless_empty, nonempty-minus (as_set new) (as_set old))
        (ground arith)

  breaks_refl : (rule : Rule) (v : String) → breaks rule field v v ≡ false
  unfolding breaks
  breaks_refl must_be_one v = ground (arith, str_eq_refl v)
  breaks_refl must_not_change v = ground (arith, str_eq_refl v)
  breaks_refl list_removal_bad v = none_lost (λ i. not (elem i (exempt_set field))) (as_set v)
  breaks_refl list_addition_bad v = any-false (is_added v) (as_set v) (λ k m. ground (arith, m))

  quiet_appeared : (live : Config) → any is_alert (appeared repr live field) ≡ false
  unfolding appeared any
  quiet_appeared live = elim (Option-cases (policy_for field)) [
    | inl ungoverned ↦ rw (ungoverned, appeared, any) refl
    | inr (rule, governed) ↦ rw (governed, appeared, any) refl
  ]

  any-vanished : any is_alert (vanished repr field) ≡ not (is_some (policy_for field))
  unfolding vanished any
  any-vanished = elim (Option-cases (policy_for field)) [
    | inl ungoverned ↦ rw (ungoverned, vanished, any) refl
    | inr (rule, governed) ↦ rw (governed, vanished, any) refl
  ]

  any-judge :
      (rule : Rule) (old new : String)
      → any is_alert (judge repr field (some rule) (some old) (some new))
        ≡ breaks rule field old new
  unfolding judge any
  any-judge rule old new = elim (Bool-cases (str_eq old new)) [
    | inl same ↦ rw (judge, same, any, sym (str_eq-eq old new same), breaks_refl rule old) refl
    | inr other ↦ rw (judge, other) (any-changed rule old new other)
  ]

  said : Option Rule → Option String → Option String → Bool
  said rule old new =
      ((is_some old || is_some new) && any is_alert (judge repr field rule old new))
      || ((is_some old && not (is_some new)) && not (is_some rule))

  said-reportable :
      (old new : Option String) → said (policy_for field) old new ≡ reportable field old new
  unfolding judge reportable any said
  said-reportable none none = refl
  said-reportable none (some new) = elim (Option-cases (policy_for field)) [
    | inl ungoverned ↦ rw (ungoverned, said, judge, any) refl
    | inr (rule, governed) ↦ rw (governed, said, judge, any) refl
  ]
  said-reportable (some old) none = elim (Option-cases (policy_for field)) [
    | inl ungoverned ↦ rw (ungoverned, said, judge, any) refl
    | inr (rule, governed) ↦ rw (governed, said, judge, any) refl
  ]
  said-reportable (some old) (some new) = elim (Option-cases (policy_for field)) [
    | inl ungoverned ↦ rw (ungoverned, said, judge, any, reportable) refl
    | inr (rule, governed) ↦ rw (governed, said, any-judge rule old new, reportable) (ground arith)
  ]

ignore : (a b c : Bool) → (a || ((b && false) || c)) ≡ (a || c)
ignore a b c = ground arith

module _ (repr : String → String) (base live : Config) (f : String) where
  -- A field is reported in an alert exactly by its rule.
  pub compare-reportable :
      any (about f is_alert) (compare repr base live) ≡ reportable f (assoc f base) (assoc f live)
  unfolding said judged
  compare-reportable =
      reported repr base live f is_alert
      ∙ (rw
            (
              elem-append,
              elem-select,
              elem-select,
              elem-keys f base,
              elem-keys f live,
              quiet_appeared repr f live,
              any-vanished repr f,
            )
            (ignore
              ((is_some (assoc f base) || is_some (assoc f live))
                && any is_alert (judged repr base live f))
              (is_some (assoc f live) && not (is_some (assoc f base)))
              ((is_some (assoc f base) && not (is_some (assoc f live)))
                && not (is_some (policy_for f))))
          ∙ said-reportable repr f (assoc f base) (assoc f live))

module _ (repr : String → String) (base live : Config) (f old new : String) where
  -- If no rule governs a field, compare() has no finding about a change of its value, not even a note.
  pub ungoverned_change :
      policy_for f ≡ none
      → assoc f base ≡ some old
      → assoc f live ≡ some new
      → any (about f (λ g. true)) (compare repr base live) ≡ false
  unfolding judged judge any
  ungoverned_change free was is =
      reported repr base live f (λ g. true)
      ∙ rw
          (elem-append, elem-select, elem-select, elem-keys f base, elem-keys f live, free, was, is)
          refl
