-- ===== src/Attest/Run.antt =====
-- attest.py: run(), with its tables. The probe over ssh and the clock answer as the arguments say;
-- an exception of the probe other than Unreachable leaves run() before it reads a table.
use Prim.Native.String
use thearchivist.Prelude.{
  length, ℕ, String, Bool, true, false, List, [], ◌∷◌, ◌++◌, map, str_eq, if◌then◌else◌,
}
use thearchivist.Table.{select, any, update}
use thearchivist.Text.{join}
use thearchivist.Attest.{Severity, alert, note, Finding, Notified, fresh_alerts, mark_standing}
use thearchivist.Attest.Compare.{Config, compare}

-- A row of attest_baseline; `field` is its primary key.
pub record Reference : Type 0 where
  pub field : String
  pub value : String
  pub captured_at : ℕ

-- A row of attest_finding, less its number and the column that is never set.
pub record Logged : Type 0 where
  pub detected_at : ℕ
  pub field : String
  pub severity : Severity
  pub detail : String

pub record Tables : Type 0 where
  pub references : List Reference
  pub standing : List Notified
  pub log : List Logged

-- What probe() came to: the dict it returned, or the text of Unreachable.
pub data Probed : Type 0 where
  found : Config → Probed
  unreachable : String → Probed

-- store.record_gap(con, "attest_unreachable", ...), and notify_fn for some findings
pub data Effect : Type 0 where
  gap : String → Effect
  push : List Finding → Effect

-- What run() returns, by the keys of the dict.
pub data Summary : Type 0 where
  unverified : String → Summary
  captured : ℕ → Summary
  compared : List Finding → ℕ → ℕ → Summary

pub record Outcome : Type 0 where
  pub summary : Summary
  pub tables : Tables
  pub effects : List Effect

-- baseline()
abbrev pub baseline : List Reference → Config
baseline = map (λ (r : Reference). (r.field, r.value))

-- INSERT ... ON CONFLICT(field) DO UPDATE
unfoldable pub upsert : String → String → ℕ → List Reference → List Reference
upsert f v now rows =
    if any (λ r. str_eq r.field f) rows
    then update (λ r. str_eq r.field f) (λ r. record r { value = v; captured_at = now }) rows
    else rows ++ record { field = f; value = v; captured_at = now } ∷ []

unfoldable pub capture : Config → ℕ → List Reference → List Reference
capture [] now rows = rows
capture ((f, v) ∷ live) now rows = capture live now (upsert f v now rows)

-- record()
abbrev pub logged : ℕ → Finding → Logged
logged now f = record {
  detected_at = now;
  field = f.field;
  severity = f.severity;
  detail = f.detail;
}

abbrev pub is_alert : Finding → Bool
is_alert g = elim g.severity [ alert ↦ true | note ↦ false ]

-- The text that notify_fn is given; its title, priority and tags are constants.
unfoldable pub alert_text : List Finding → String
unfolding join
alert_text fs =
    String.◌++◌ "CONFIGURATION CHANGE ON SENTRY\n\n"
      (join "\n" (map (λ (f : Finding). String.◌++◌ f.field (String.◌++◌ ": " f.detail)) fs))

abbrev pub announce : List Finding → List Effect
announce [] = []
announce (f ∷ fs) = push (f ∷ fs) ∷ []

module _ (repr : String → String) where
  -- run() once there is a baseline; `loud` says whether there is a notify_fn.
  unfoldable pub examine : Bool → ℕ → Config → Tables → Outcome
  examine loud now live t =
      let findings = compare repr (baseline t.references) live in
      let alerts = select is_alert findings in
      let fresh = fresh_alerts t.standing alerts in
      record {
        summary = compared findings (length alerts) (if loud then length fresh else 0);
        tables = record t {
          log = t.log ++ map (logged now) findings;
          standing = if loud then mark_standing alerts now t.standing else t.standing;
        };
        effects = if loud then announce fresh else [];
      }

  unfoldable pub observe : Bool → ℕ → Config → Tables → List Reference → Outcome
  unfolding examine
  observe loud now live t [] = record {
    summary = captured (length live);
    tables = record t { references = capture live now t.references };
    effects = [];
  }
  observe loud now live t (r ∷ rs) = examine loud now live t

  unfoldable pub run : Bool → ℕ → Probed → Tables → Outcome
  unfolding observe
  run loud now (unreachable e) t = record {
    summary = unverified e;
    tables = t;
    effects = gap (String.◌++◌ "could not verify Sentry configuration: " e) ∷ [];
  }
  run loud now (found live) t = observe loud now live t t.references

-- A call of run(): with a notify_fn or without, when, and what the probe found.
pub record Round : Type 0 where
  pub loud : Bool
  pub now : ℕ
  pub probed : Probed

-- The tables after some rounds, and what the rounds did.
unfoldable pub serve : (String → String) → List Round → Tables → Tables × List Effect
unfolding run
serve repr [] t = (t, [])
serve repr (r ∷ rs) t =
    let o = run repr r.loud r.now r.probed t in
    let later = serve repr rs o.tables in (later.0, o.effects ++ later.1)
