-- ===== src/Attest/Told.antt =====
-- What run() of attest.py pushes, and when.
use mathlib.Core.List.{Memᴰ}
use mathlib.Core.Path.{subst}
use thearchivist.Prelude.{
  ℕ, ◌≡◌, ◌≢◌, refl, ◌∙◌, inl, inr, String, Bool, true, false, not, ◌&&◌, ◌||◌, List, [], ◌∷◌, ◌++◌,
  map, arith, str_eq, str_eq-eq, str_eq_refl, Bool-cases, Option-cases,
}
use thearchivist.Table.{select, any, assoc}
use thearchivist.Registry.{elem}
use thearchivist.Attest.{Finding, keys_of, item_key, alert_keys, fresh_alerts, all_keys}
use thearchivist.Attest.Compare.{Config, compare}
use thearchivist.Attest.Standing.{fresh_alerts-mark_standing}
use thearchivist.Attest.Run.{
  Reference, Tables, found, Outcome, Round, serve, baseline, is_alert, examine, observe, run,
}
use thearchivist.Attest.Verdict.{about, names, items_of, lost_or_added}
use thearchivist.Attest.Stated.{policy_forbids, overlooked, compare-policy_forbids}
use thearchivist.Attest.Keyed.{compare-key, alerted}
use thearchivist.Attest.Listed.{compare-lost_or_added}
use thearchivist.Attest.Fresh.{
  fresh_alerts_lem, pushed, pushed-append, pushed-announce, serve-accounts,
}

observe-examine :
    (repr : String → String) (loud : Bool) (now : ℕ) (live : Config) (t : Tables)
    (rs : List Reference)
    → rs ≢ []
    → observe repr loud now live t rs ≡ examine repr loud now live t
unfolding observe
observe-examine repr loud now live t [] n = absurd (n refl)
observe-examine repr loud now live t (r ∷ rs) n = refl

-- A call that finds a configuration, when there is a baseline.
run-examine :
    (repr : String → String) (loud : Bool) (now : ℕ) (live : Config) (t : Tables)
    → t.references ≢ []
    → run repr loud now (found live) t ≡ examine repr loud now live t
unfolding run
run-examine repr loud now live t some_baseline =
    observe-examine repr loud now live t t.references some_baseline

-- What a call with a notify_fn pushes: the keys of its alerts that did not stand.
pushed-examine :
    (repr : String → String) (now : ℕ) (live : Config) (t : Tables) (k : String)
    → elem k (pushed (examine repr true now live t).effects) ≡ (
        elem k (all_keys (select is_alert (compare repr (baseline t.references) live)))
        && not (elem k (keys_of t.standing)))
unfolding examine
pushed-examine repr now live t k =
    let alerts = select is_alert (compare repr (baseline t.references) live) in
    pushed-announce k (fresh_alerts t.standing alerts) ∙ fresh_alerts_lem t.standing alerts k

settled :
    (before alerts standing : Bool)
    → alerts ≡ true
    → (standing ≡ true → before ≡ true)
    → (before || (alerts && not standing)) ≡ true
settled before alerts true a s = ground (arith, s refl)
settled before alerts false a s = ground (arith, a)

elem-item_key :
    (g : Finding) (i : String) (is : List String)
    → elem i is ≡ true
    → elem (item_key g i) (map (item_key g) is) ≡ true
unfolding elem
elem-item_key g i [] h = cc
elem-item_key g i (j ∷ is) h = elim (Bool-cases (str_eq j i)) [
  | inl same ↦ rw (str_eq-eq j i same) (ground (arith, str_eq_refl (item_key g i)))
  | inr other ↦ ground (arith, elem-item_key g i is (ground (arith, h, other)))
]

keyed :
    (g : Finding) (i : String)
    → elem i (items_of g) ≡ true
    → elem (item_key g i) (alert_keys g) ≡ true
unfolding alert_keys elem
keyed g i h = elim (Option-cases g.items) [
  | inl whole ↦ absurd (ground (arith, h, whole))
  | inr (is, listed) ↦ rw (alert_keys, listed) (elem-item_key g i is (ground (arith, h, listed)))
]

module _ (repr : String → String) (rounds : List Round) (t : Tables) (now : ℕ) (live : Config) where
  abbrev final : Tables
  final = (serve repr rounds t).0

  abbrev last : Outcome
  last = run repr true now (found live) final

  history :
      t.standing ≡ []
      → (k : String) → elem k (keys_of final.standing) ≡ true
      → elem k (pushed (serve repr rounds t).1) ≡ true
  unfolding elem
  history fresh_start k stands =
      let known = serve-accounts repr k rounds t stands in
      subst (λ rows. (elem k (keys_of rows) || elem k (pushed (serve repr rounds t).1)) ≡ true)
        fresh_start known

  -- Whatever alert a call with a notify_fn finds has been pushed, by the call or by one before it.
  alert_pushed :
      (p : Finding → Bool)
      → t.standing ≡ []
      → final.references ≢ []
      → ((g : Finding) → p g ≡ true → is_alert g ≡ true)
      → any p (compare repr (baseline final.references) live) ≡ true
      → (g : Finding) × Memᴰ g (compare repr (baseline final.references) live)
        × (p g ≡ true)
        × ((k : String)
            → elem k (alert_keys g) ≡ true
            → elem k (pushed ((serve repr rounds t).1 ++ last.effects)) ≡ true)
  alert_pushed p fresh_start some_baseline only h =
      let (g, member, passes, told) =
        alerted p (compare repr (baseline final.references) live) only h in
      (
        g,
        member,
        passes,
        λ k m.
            rw
              (
                pushed-append k (serve repr rounds t).1 last.effects,
                run-examine repr true now live final some_baseline,
                pushed-examine repr now live final k,
              )
              (settled _ _ _ (told k m) (λ stands. history fresh_start k stands)),
      )

  -- Start with no key standing, and let any calls of run() follow each other, with and without a
  -- notify_fn, at any times and whatever the probes find. If there is then a baseline and a call with
  -- a notify_fn finds a configuration in which what became of a field is forbidden by the policy as
  -- the header of attest.py states it and is not one of the things that compare() overlooks (a field
  -- that appears, another value of a field without a rule, a value of a field that must be 1 which is
  -- the value of the baseline), then compare() finds an alert about the field that has a key, and every
  -- key that it has was pushed, by that call or by an earlier one.
  pub forbidden-pushed :
      (f : String)
      → t.standing ≡ []
      → final.references ≢ []
      → policy_forbids f (assoc f (baseline final.references)) (assoc f live) ≡ true
      → overlooked f (assoc f (baseline final.references)) (assoc f live) ≡ false
      → (g : Finding) × Memᴰ g (compare repr (baseline final.references) live)
        × (g.field ≡ f)
        × (is_alert g ≡ true)
        × ((k : String) × (elem k (alert_keys g) ≡ true))
        × ((k : String)
            → elem k (alert_keys g) ≡ true
            → elem k (pushed ((serve repr rounds t).1 ++ last.effects)) ≡ true)
  forbidden-pushed f fresh_start some_baseline bad seen =
      let base = baseline final.references in
      let (g, member, passes, told) =
        alert_pushed (about f is_alert) fresh_start some_baseline (λ g h. ground (arith, h))
          (compare-policy_forbids repr base live f ∙ ground (arith, bad, seen)) in
      (
        g,
        member,
        str_eq-eq g.field f (ground (arith, passes)),
        ground (arith, passes),
        compare-key repr base live g member,
        told,
      )

  -- Under the same conditions, if an entry of a field's list is lost or added against the field's rule,
  -- the key of the entry was pushed, by that call or by an earlier one.
  pub entry_pushed :
      (f i : String)
      → t.standing ≡ []
      → final.references ≢ []
      → lost_or_added f (assoc f (baseline final.references)) (assoc f live) i ≡ true
      → (g : Finding) × (g.field ≡ f)
        × (elem (item_key g i) (pushed ((serve repr rounds t).1 ++ last.effects)) ≡ true)
  entry_pushed f i fresh_start some_baseline bad =
      let (g, member, passes, told) =
        alert_pushed (about f (names i)) fresh_start some_baseline (λ g h. ground (arith, h))
          (compare-lost_or_added repr (baseline final.references) live f i ∙ bad) in
      (
        g,
        str_eq-eq g.field f (ground (arith, passes)),
        told (item_key g i) (keyed g i (ground (arith, passes))),
      )

examine-again :
    (repr : String → String) (earlier later : ℕ) (live : Config) (t : Tables)
    → (examine repr true later live (examine repr true earlier live t).tables).effects ≡ []
unfolding examine
examine-again repr earlier later live t =
    rw
      (fresh_alerts-mark_standing (select is_alert (compare repr (baseline t.references) live))
        earlier t.standing)
      refl

-- A call with a notify_fn that finds what the call before it found, also with a notify_fn, pushes
-- nothing, whatever stood before the two, if there is a baseline.
pub run-again :
    (repr : String → String) (earlier later : ℕ) (live : Config) (t : Tables)
    → t.references ≢ []
    → (run repr true later (found live) (run repr true earlier (found live) t).tables).effects ≡ []
unfolding examine
run-again repr earlier later live t some_baseline =
    rw
      (
        run-examine repr true earlier live t some_baseline,
        run-examine repr true later live (examine repr true earlier live t).tables some_baseline,
      )
      (examine-again repr earlier later live t)
