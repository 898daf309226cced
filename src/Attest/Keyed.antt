-- ===== src/Attest/Keyed.antt =====
-- The keys of the findings of compare() of attest.py, by which they are pushed and stand.
use mathlib.Core.List.{Memᴰ}
use mathlib.Core.List.Memᴰ.{head, tail}
use thearchivist.Prelude.{
  ◌≡◌, refl, ◌∙◌, inl, inr, String, Bool, true, false, Option, none, some, List, [], ◌∷◌, ◌++◌,
  arith, str_eq, str_eq_refl, if◌then◌else◌, Bool-cases, Option-cases,
}
use thearchivist.Table.{select, any, collect, keys}
use thearchivist.Table.Any.{any-append, any-collect, any-false, elem-append, is_empty}
use thearchivist.Registry.{elem}
use thearchivist.Text.{sorted_set}
use thearchivist.Attest.{Finding, note, alert_keys, all_keys}
use thearchivist.Attest.Policy.{
  Rule, must_be_one, must_not_change, list_removal_bad, list_addition_bad, policy_for,
}
use thearchivist.Attest.Compare.{
  Config, minus, plain, listing, unless_empty, changed, judge, appeared, vanished, judged, compare,
}
use thearchivist.Attest.Run.{is_alert}

abbrev is_keyless : Finding → Bool
is_keyless g = is_empty (alert_keys g)

keyed_listing :
    (field label : String) (is : List String)
    → any is_keyless (unless_empty is (listing field label is)) ≡ false
unfolding any alert_keys
keyed_listing field label [] = refl
keyed_listing field label (i ∷ is) = refl

keyed_plain :
    (field detail : String) (is : List String)
    → any is_keyless (unless_empty is (plain note field detail)) ≡ false
unfolding any alert_keys
keyed_plain field detail [] = refl
keyed_plain field detail (i ∷ is) = refl

module _ (repr : String → String) (field : String) where
  keyed_changed :
      (rule : Rule) (old new : String) → any is_keyless (changed repr rule field old new) ≡ false
  unfolding changed any alert_keys
  keyed_changed must_be_one old new = refl
  keyed_changed must_not_change old new = refl
  keyed_changed list_removal_bad old new =
      rw (any-append, any-append, keyed_listing, keyed_plain, keyed_plain) refl
  keyed_changed list_addition_bad old new = rw (any-append, keyed_listing, keyed_plain) refl

  keyed_judge :
      (rule : Option Rule) (old new : Option String)
      → any is_keyless (judge repr field rule old new) ≡ false
  unfolding judge any alert_keys
  keyed_judge none old new = refl
  keyed_judge (some rule) none new = refl
  keyed_judge (some rule) (some old) none = refl
  keyed_judge (some rule) (some old) (some new) = elim (Bool-cases (str_eq old new)) [
    | inl same ↦ rw (same, judge, any) refl
    | inr other ↦ rw (other, judge) (keyed_changed rule old new)
  ]

  keyed_appeared : (live : Config) → any is_keyless (appeared repr live field) ≡ false
  unfolding appeared any alert_keys
  keyed_appeared live = elim (Option-cases (policy_for field)) [
    | inl free ↦ rw (free, appeared, any, alert_keys) refl
    | inr (rule, governed) ↦ rw (governed, appeared, any) refl
  ]

  keyed_vanished : any is_keyless (vanished repr field) ≡ false
  unfolding vanished any alert_keys
  keyed_vanished = elim (Option-cases (policy_for field)) [
    | inl free ↦ rw (free, vanished, any, alert_keys) refl
    | inr (rule, governed) ↦ rw (governed, vanished, any) refl
  ]

absent :
    (gs : List Finding) (g : Finding) → Memᴰ g gs → any is_keyless gs ≡ false → is_keyless g ≡ false
unfolding any
absent [] g m none_such = elim m [ ]
absent (h ∷ gs) g (head e) none_such = rw e (ground (arith, none_such))
absent (h ∷ gs) g (tail m) none_such = absent gs g m (ground (arith, none_such))

one_of : (ks : List String) → is_empty ks ≡ false → (k : String) × (elem k ks ≡ true)
unfolding elem
one_of [] none_such = absurd (ground (arith, none_such))
one_of (k ∷ ks) given = (k, ground (arith, str_eq_refl k))

module _ (repr : String → String) (base live : Config) where
  keyed_rounds :
      (rounds : String → List Finding) (xs : List String)
      → ((x : String) → any is_keyless (rounds x) ≡ false)
      → any is_keyless (collect rounds xs) ≡ false
  keyed_rounds rounds xs h =
      rw (any-collect is_keyless rounds xs)
        (any-false (λ x. any is_keyless (rounds x)) xs (λ x m. h x))

  keyed_compare : any is_keyless (compare repr base live) ≡ false
  unfolding compare judged
  keyed_compare =
      rw
        (
          any-append,
          any-append,
          keyed_rounds (judged repr base live) (sorted_set (keys base ++ keys live))
              (λ x. keyed_judge repr x _ _ _),
          keyed_rounds (appeared repr live) (sorted_set (minus (keys live) (keys base)))
              (λ x. keyed_appeared repr x live),
          keyed_rounds (vanished repr) (sorted_set (minus (keys base) (keys live)))
              (λ x. keyed_vanished repr x),
        )
        refl

  pub compare-key :
      (g : Finding)
      → Memᴰ g (compare repr base live)
      → (k : String) × (elem k (alert_keys g) ≡ true)
  compare-key g m = one_of (alert_keys g) (absent (compare repr base live) g m keyed_compare)

kept :
    (b : Bool) (f : Finding) (fs : List Finding) (k : String)
    → elem k (all_keys fs) ≡ true
    → elem k (all_keys (if b then f ∷ fs else fs)) ≡ true
unfolding all_keys
kept true f fs k h = elem-append k (alert_keys f) (all_keys fs) ∙ ground (arith, h)
kept false f fs k h = h

-- A finding that passes a test which only alerts pass has its keys among those of the alerts.
pub alerted :
    (p : Finding → Bool) (fs : List Finding)
    → ((g : Finding) → p g ≡ true → is_alert g ≡ true)
    → any p fs ≡ true
    → (g : Finding) × Memᴰ g fs
      × (p g ≡ true)
      × ((k : String)
          → elem k (alert_keys g) ≡ true
          → elem k (all_keys (select is_alert fs)) ≡ true)
unfolding any select all_keys elem
alerted p [] only h = cc
alerted p (f ∷ fs) only h = elim (Bool-cases (p f)) [
  | inl hit ↦ (
    f,
    head refl,
    hit,
    λ k m.
        rw (only f hit, all_keys, elem-append k (alert_keys f) (all_keys (select is_alert fs)))
          (ground (arith, m)),
  )
  | inr away ↦
      let (g, m, passes, told) = alerted p fs only (ground (arith, h, away)) in
      (g, tail m, passes, λ k at. kept (is_alert f) f (select is_alert fs) k (told k at))
]
