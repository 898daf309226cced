-- ===== src/Tests/Findings.antt =====
-- Examples for attest.py: a list that lost two entries, one of which was announced before.
use thearchivist.Prelude.{◌≡◌, refl, some, List, [], ◌∷◌}
use thearchivist.Registry.{elem}
use thearchivist.Text.{join}
use thearchivist.Attest.{alert, Finding, Notified, new_items, trimmed, fresh, fresh_alerts}

abbrev lost : Finding
lost = record {
  field = "denylist";
  severity = alert;
  label = "removed";
  detail = "removed: a.example, b.example";
  items = some ("a.example" ∷ "b.example" ∷ []);
}

abbrev announced : List Notified
announced = record { key = "denylist|removed|a.example"; notified_at = 50 } ∷ []

abbrev trimmed_lost : Finding
trimmed_lost = record lost { items = some ("b.example" ∷ []); detail = "removed: b.example" }

lost-fresh : fresh_alerts announced (lost ∷ []) ≡ trimmed_lost ∷ []
unfolding fresh_alerts fresh new_items trimmed join elem
lost-fresh = refl
