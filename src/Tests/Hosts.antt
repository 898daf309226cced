-- ===== src/Tests/Hosts.antt =====
-- Examples for configs/responder/registry.py and configs/responder/diagnose.py.
use thearchivist.Text.{take_chars}
use thearchivist.Prelude.{◌≡◌, ◌↔◌, refl, true, false, none, some}
use thearchivist.Json.{Json, text, object, end, field, get_field}
use thearchivist.Registry.{
  by_checkmk_name, lookup, elem, is_write, is_protected, Action, validate_proposal,
}
use thearchivist.Registry.Laws.{MayLearn, is_protected_iff}
use thearchivist.Diagnose.{
  Diagnosis, read_output, verdict_of, read_verdict, check_proposal, interpret,
}
use thearchivist.Diagnose.Laws.{MayPropose, interpret-MayPropose}
use thearchivist.Tests.{two_hosts, python}

abbrev restart : Action
restart = record { host = "grafana"; verb = "restart"; unit = "grafana-server.service" }

abbrev proposed : Json
proposed = object (field "host" (text "grafana") (field "verb" (text "restart") end))

abbrev found : Diagnosis
found = record {
  diagnosis = "grafana is down";
  confidence = "low";
  proposal = some restart;
  rationale = "";
  is_ok = true;
  error = none;
}

is_protected_iff_example : (is_protected two_hosts "vault" ≡ false) ↔ MayLearn two_hosts "vault"
is_protected_iff_example = is_protected_iff two_hosts "vault"

interpret-MayPropose_example : MayPropose two_hosts "lxc-grafana" restart
unfolding interpret read_output verdict_of read_verdict check_proposal validate_proposal get_field
    is_write lookup elem by_checkmk_name take_chars
interpret-MayPropose_example =
    interpret-MayPropose python two_hosts "lxc-grafana" "verdict" found restart refl refl
