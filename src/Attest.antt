-- ===== src/Attest.antt =====
-- docs/writeups/2026-09-26-attest-youtube-exemption-and-one-shot-alerts/attest.py: which findings are
-- announced, and the table attest_standing of those that were.
pub mod Policy
pub mod Compare
pub mod Run
pub mod Probe
pub mod Audit
pub mod Leaves
pub mod Scanned
pub mod Fresh
pub mod Told
pub mod Verdict
pub mod Judged
pub mod Stated
pub mod Keyed
pub mod Listed
pub mod Standing
use Prim.Native.String
use thearchivist.Prelude.{
  ℕ, String, Bool, not, Option, none, some, List, [], ◌∷◌, ◌++◌, map, if◌then◌else◌,
}
use thearchivist.Table.{select}
use thearchivist.Registry.{elem}
use thearchivist.Text.{join}

pub data Severity : Type 0 where
  alert note : Severity

-- A finding of compare(). `items` is a key that a finding may lack; where it does, `label` is empty.
pub record Finding : Type 0 where
  pub field : String
  pub severity : Severity
  pub label : String
  pub detail : String
  pub items : Option (List String)

-- A row of attest_standing; `key` is its primary key.
pub record Notified : Type 0 where
  pub key : String
  pub notified_at : ℕ

abbrev pub keys_of : List Notified → List String
keys_of = map (λ (r : Notified). r.key)

-- f"{f['field']}|{f['label']}|{i}"
abbrev pub item_key : Finding → String → String
item_key f i = String.◌++◌ f.field (String.◌++◌ "|" (String.◌++◌ f.label (String.◌++◌ "|" i)))

-- f"{f['field']}|{f['detail']}"
abbrev pub whole_key : Finding → String
whole_key f = String.◌++◌ f.field (String.◌++◌ "|" f.detail)

unfoldable pub alert_keys : Finding → List String
alert_keys f = elim f.items [ none ↦ whole_key f ∷ [] | some is ↦ map (item_key f) is ]

unfoldable pub new_items : List String → Finding → List String → List String
new_items standing f [] = []
new_items standing f (i ∷ is) =
    let rest = new_items standing f is in if elem (item_key f i) standing then rest else i ∷ rest

-- What is announced of a finding, in front of the rest.
unfoldable pub trimmed : Finding → List String → List Finding → List Finding
trimmed f [] rest = rest
trimmed f (i ∷ is) rest =
    record f {
      items = some (i ∷ is);
      detail = String.◌++◌ f.label (String.◌++◌ ": " (join ", " (i ∷ is)));
    }
    ∷ rest

unfoldable pub fresh : List String → List Finding → List Finding
fresh standing [] = []
fresh standing (f ∷ fs) =
    let rest = fresh standing fs in
    (elim f.items [
      | none ↦ if elem (whole_key f) standing then rest else f ∷ rest
      | some is ↦ trimmed f (new_items standing f is) rest
    ])

unfoldable pub fresh_alerts : List Notified → List Finding → List Finding
fresh_alerts rows alerts = fresh (keys_of rows) alerts

-- {k for f in alerts for k in _alert_keys(f)}, in some order
unfoldable pub all_keys : List Finding → List String
all_keys [] = []
all_keys (f ∷ fs) = alert_keys f ++ all_keys fs

-- INSERT ... ON CONFLICT(key) DO NOTHING, for each key
unfoldable pub insert_missing : List String → ℕ → List Notified → List Notified
insert_missing [] now rows = rows
insert_missing (k ∷ ks) now rows =
    insert_missing ks now
      (if elem k (keys_of rows) then rows else rows ++ record { key = k; notified_at = now } ∷ [])

unfoldable pub mark_standing : List Finding → ℕ → List Notified → List Notified
mark_standing alerts now rows =
    let keys = all_keys alerts in insert_missing keys now (select (λ r. elem r.key keys) rows)
