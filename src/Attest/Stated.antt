-- ===== src/Attest/Stated.antt =====
-- The policy of attest.py as its header and the comment on POLICY state it, against what compare()
-- alerts of.
use thearchivist.Prelude.{
  ◌≡◌, refl, ◌∙◌, inl, inr, String, Bool, true, false, not, ◌&&◌, ◌||◌, Option, none, some, arith,
  str_eq, Option-cases, Bool-cases,
}
use thearchivist.Table.{any, assoc}
use thearchivist.Table.Any.{is_empty}
use thearchivist.Attest.Policy.{
  Rule, must_be_one, must_not_change, list_removal_bad, list_addition_bad, policy_for,
}
use thearchivist.Attest.Compare.{Config, as_set, compare}
use thearchivist.Attest.Run.{is_alert}
use thearchivist.Attest.Verdict.{is_lost, is_added, about, breaks, reportable}
use thearchivist.Attest.Judged.{compare-reportable}

-- A rule about a value that a field has now and had not before: what must be 1 has to be 1, what must
-- not change may not appear, additions to a blocklist are fine and entries of an allowlist are not.
unfoldable pub forbids_new : Rule → String → Bool
forbids_new must_be_one new = not (str_eq new "1")
forbids_new must_not_change new = true
forbids_new list_removal_bad new = false
forbids_new list_addition_bad new = not (is_empty (as_set new))

-- A rule about a change: what must be 1 "must stay 1", whatever it was.
unfoldable pub forbids_change : Rule → String → String → String → Bool
forbids_change must_be_one field old new = not (str_eq new "1")
forbids_change must_not_change field old new = not (str_eq old new)
forbids_change list_removal_bad field old new = any (is_lost field new) (as_set old)
forbids_change list_addition_bad field old new = any (is_added old) (as_set new)

-- What the policy wants to be told about a field; without a rule, "anything else changing".
unfoldable pub policy_forbids : String → Option String → Option String → Bool
policy_forbids field none none = false
policy_forbids field none (some new) = elim (policy_for field) [
  | none ↦ true
  | some rule ↦ forbids_new rule new
]
policy_forbids field (some old) none = true
policy_forbids field (some old) (some new) = elim (policy_for field) [
  | none ↦ not (str_eq old new)
  | some rule ↦ forbids_change rule field old new
]

-- Where compare() is silent or only notes: a field that appears, another value of a field without a
-- rule, and a value that must be 1 and is what the baseline has.
unfoldable pub overlooked : String → Option String → Option String → Bool
overlooked field old none = false
overlooked field none (some new) = true
overlooked field (some old) (some new) = elim (policy_for field) [
  | none ↦ true
  | some must_be_one ↦ str_eq old new
  | some must_not_change ↦ false
  | some list_removal_bad ↦ false
  | some list_addition_bad ↦ false
]

-- Where compare() alerts of what is right: a value that must be 1 and has become 1.
unfoldable pub overstated : String → Option String → Option String → Bool
overstated field (some old) (some new) = elim (policy_for field) [
  | none ↦ false
  | some must_be_one ↦ not (str_eq old new) && str_eq new "1"
  | some must_not_change ↦ false
  | some list_removal_bad ↦ false
  | some list_addition_bad ↦ false
]
overstated field _ _ = false

module _ (field : String) where
  abbrev alerted_of : Option String → Option String → Bool
  alerted_of old new =
      (policy_forbids field old new && not (overlooked field old new)) || overstated field old new

  reportable-changed :
      (rule : Rule) (old new : String)
      → policy_for field ≡ some rule
      → reportable field (some old) (some new) ≡ alerted_of (some old) (some new)
  unfolding reportable breaks policy_forbids forbids_change overlooked overstated
  reportable-changed must_be_one old new e =
      rw (e, reportable, breaks, policy_forbids, forbids_change, overlooked, overstated)
        (elim (Bool-cases (str_eq old new)) [
          | inl same ↦ rw same (ground arith)
          | inr other ↦ rw other (ground arith)
        ])
  reportable-changed must_not_change old new e =
      rw (e, reportable, breaks, policy_forbids, forbids_change, overlooked, overstated)
        (ground arith)
  reportable-changed list_removal_bad old new e =
      rw (e, reportable, breaks, policy_forbids, forbids_change, overlooked, overstated)
        (ground arith)
  reportable-changed list_addition_bad old new e =
      rw (e, reportable, breaks, policy_forbids, forbids_change, overlooked, overstated)
        (ground arith)

  reportable-alerted_of : (old new : Option String) → reportable field old new ≡ alerted_of old new
  unfolding reportable policy_forbids overlooked overstated
  reportable-alerted_of none none = refl
  reportable-alerted_of none (some new) = ground arith
  reportable-alerted_of (some old) none = refl
  reportable-alerted_of (some old) (some new) = elim (Option-cases (policy_for field)) [
    | inl free ↦ rw (free, reportable, policy_forbids, overlooked, overstated) (ground arith)
    | inr (rule, governed) ↦ reportable-changed rule old new governed
  ]

module _ (repr : String → String) (base live : Config) (f : String) where
  -- compare() has an alert about a field exactly if what became of it is forbidden by the policy as
  -- the header and the comment on POLICY state it and is none of three things that it overlooks: a
  -- field that appears, another value of a field that no rule governs, and a value of a field that
  -- must be 1 which is the value of the baseline; or if a field that must be 1 has become 1.
  pub compare-policy_forbids : any (about f is_alert) (compare repr base live) ≡ (
      (policy_forbids f (assoc f base) (assoc f live)
        && not (overlooked f (assoc f base) (assoc f live)))
      || overstated f (assoc f base) (assoc f live))
  compare-policy_forbids =
      compare-reportable repr base live f ∙ reportable-alerted_of f (assoc f base) (assoc f live)
