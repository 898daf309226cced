-- ===== src/Tests/Attestations.antt =====
-- Examples for attest.py: blocking is switched off and a list of allowed names grows.
use mathlib.Core.List.{Memᴰ}
use thearchivist.Prelude.{
  not, ◌&&◌, ◌||◌, ◌≡◌, ◌≢◌, refl, String, true, false, some, List, [], ◌∷◌, ◌++◌, arith,
}
use thearchivist.Table.{any, assoc, update}
use thearchivist.Text.{strip_prefix}
use thearchivist.Registry.{elem}
use thearchivist.Attest.{Finding, alert_keys}
use thearchivist.Attest.Policy.{policy_for}
use thearchivist.Attest.Compare.{Config, compare}
use thearchivist.Attest.Run.{
  Tables, found, Round, is_alert, capture, upsert, baseline, observe, run, serve,
}
use thearchivist.Attest.Verdict.{about}
use thearchivist.Attest.Stated.{
  forbids_change, policy_forbids, overlooked, overstated, compare-policy_forbids,
}
use thearchivist.Attest.Fresh.{pushed}
use thearchivist.Attest.Told.{forbidden-pushed, run-again}

abbrev repr : String → String
repr s = s

abbrev before : Config
before = ("general/enabled", "1") ∷ ("dnsbl/u/allowlists", "a.example") ∷ ("sync/peer", "x") ∷ []

abbrev tampered : Config
tampered =
    ("general/enabled", "0")
    ∷ ("dnsbl/u/allowlists", "a.example,b.example")
    ∷ ("sync/peer", "y")
    ∷ []

abbrev empty_tables : Tables
empty_tables = record { references = []; standing = []; log = [] }

-- The first call captures the baseline; it has no notify_fn.
abbrev rounds : List Round
rounds = record { loud = false; now = 10; probed = found before } ∷ []

abbrev captured_tables : Tables
captured_tables = record {
  references =
      record { field = "general/enabled"; value = "1"; captured_at = 10 }
      ∷ record { field = "dnsbl/u/allowlists"; value = "a.example"; captured_at = 10 }
      ∷ record { field = "sync/peer"; value = "x"; captured_at = 10 }
      ∷ [];
  standing = [];
  log = [];
}

rounds-serve : (serve repr rounds empty_tables).0 ≡ captured_tables
unfolding serve run observe capture upsert any update
rounds-serve = refl

switched_off : policy_forbids "general/enabled" (some "1") (some "0") ≡ true
unfolding policy_forbids forbids_change policy_for assoc
switched_off = refl

seen : overlooked "general/enabled" (some "1") (some "0") ≡ false
unfolding overlooked policy_for assoc
seen = refl

-- The peer of the synchronisation has changed, and no rule governs it.
peer_overlooked : overlooked "sync/peer" (some "x") (some "y") ≡ true
unfolding overlooked policy_for assoc strip_prefix
peer_overlooked = refl

compare-policy_forbids_example :
    any (about "general/enabled" is_alert) (compare repr before tampered) ≡ (
      (policy_forbids "general/enabled"
          (assoc "general/enabled" before)
          (assoc "general/enabled" tampered)
        && not (
            overlooked "general/enabled"
              (assoc "general/enabled" before)
              (assoc "general/enabled" tampered)))
      || overstated "general/enabled"
          (assoc "general/enabled" before)
          (assoc "general/enabled" tampered))
compare-policy_forbids_example = compare-policy_forbids repr before tampered "general/enabled"

run-again_example :
    (run repr true 30
      (found tampered)
      (run repr true 20 (found tampered) captured_tables).tables).effects
    ≡ []
run-again_example = run-again repr 20 30 tampered captured_tables (λ e. ground (arith, e))

has_baseline : (serve repr rounds empty_tables).0.references ≢ []
unfolding serve run observe capture upsert any update
has_baseline e = ground (arith, e)

forbidden-pushed_example :
    (g : Finding) × Memᴰ g
      (compare repr (baseline (serve repr rounds empty_tables).0.references) tampered)
    × (g.field ≡ "general/enabled")
    × (is_alert g ≡ true)
    × ((k : String) × (elem k (alert_keys g) ≡ true))
    × ((k : String)
        → elem k (alert_keys g) ≡ true
        → elem k (
            pushed (
              (serve repr rounds empty_tables).1
              ++ (run repr true 20 (found tampered) (serve repr rounds empty_tables).0).effects))
          ≡ true)
unfolding serve run observe capture upsert any update assoc
forbidden-pushed_example =
    forbidden-pushed repr rounds empty_tables 20 tampered "general/enabled" refl has_baseline
      switched_off seen
