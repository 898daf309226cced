-- ===== src/Diagnose.antt =====
-- configs/responder/diagnose.py, from the output of one Claude session to a result that the code can
-- trust. The prompt is in Diagnose/Prompt, and the whole of run(), with its transcript, in
-- Diagnose/Session.
pub mod Laws
pub mod Prompt
pub mod Tags
pub mod Session
use Prim.Native.String
use thearchivist.Text.{take_chars}
use thearchivist.Prelude.{
  ℕ, String, Bool, true, false, not, ◌&&◌, Option, none, some, str_eq, if◌then◌else◌, Error,
  value_error, type_error, key_error, attribute_error, integrity_error, index_error, Result, ok,
  raise, ◌>>=◌,
}
use thearchivist.Json.{Json, null, boolean, number, text, array, object, Fields, get_field, truthy}
use thearchivist.Registry.{Registry, Action, validate_proposal, by_checkmk_name}

-- What the code takes from Python's json module and from str().
pub record Python : Type 0 where
  pub loads : String → Option Json
  pub dumps : Json → String
  pub to_str : Json → String
  pub action_repr : Action → String
  pub error_text : Error → String

pub record Diagnosis : Type 0 where
  pub diagnosis : String
  pub confidence : String
  pub proposal : Option Action
  pub rationale : String
  pub is_ok : Bool
  pub error : Option String

abbrev pub no_diagnosis : Diagnosis
no_diagnosis = record {
  diagnosis = "";
  confidence = "low";
  proposal = none;
  rationale = "";
  is_ok = false;
  error = none;
}

module _ (py : Python) where
  -- json.loads(s)
  abbrev pub load : String → Result Json
  load s = elim (py.loads s) [ none ↦ raise value_error | some j ↦ ok j ]

  -- verdict = json.loads(out["result"])
  abbrev pub load_result : Option Json → Result Json
  load_result none = raise key_error
  load_result (some (text s)) = load s
  load_result (some _) = raise type_error

  abbrev pub structured : Option Json → Fields → Result Json
  structured none fs = load_result (get_field "result" fs)
  structured (some null) fs = load_result (get_field "result" fs)
  structured (some v) fs = ok v

  -- out.get(...) is an AttributeError where the output is no object.
  unfoldable pub verdict_of : Json → Result Json
  verdict_of (object fs) = structured (get_field "structured_output" fs) fs
  verdict_of _ = raise attribute_error

  -- str(verdict.get(key, default))
  abbrev pub str_field : String → String → Fields → String
  str_field key default fs = elim (get_field key fs) [ none ↦ default | some j ↦ py.to_str j ]

  -- result.update(...), which is the last step before the proposal is looked at
  unfoldable pub read_verdict : Json → Result (Diagnosis × Json)
  read_verdict (object fs) = elim (get_field "diagnosis" fs) [
    | none ↦ raise key_error
    | some said ↦ ok (
      record {
        diagnosis = take_chars 600 (py.to_str said);
        confidence = str_field "confidence" "low" fs;
        proposal = none;
        rationale = take_chars 2000 (str_field "rationale" "" fs);
        is_ok = true;
        error = none;
      },
      elim (get_field "proposed_action" fs) [ none ↦ null | some raw ↦ raw ],
    )
  ]
  read_verdict _ = raise type_error

  -- The proposal after both checks, with what was dropped noted in the rationale.
  unfoldable pub vet : Registry → String → Json → Option Action → Diagnosis → Diagnosis
  vet reg job_host raw none d = record d {
    rationale =
        if truthy raw
        then String.◌++◌ d.rationale (
            String.◌++◌ "\n[responder] dropped out-of-registry proposal: "
              (take_chars 200 (py.dumps raw)))
        else d.rationale;
  }
  vet reg job_host raw (some a) d =
      if (elim (by_checkmk_name reg job_host) [ none ↦ false | some key ↦ str_eq key a.host ])
      then record d { proposal = some a }
      else record d {
        rationale =
            String.◌++◌ d.rationale
              (String.◌++◌ "\n[responder] dropped cross-host proposal: " (py.action_repr a));
      }

  -- except (ValueError, KeyError, TypeError)
  abbrev pub caught : Error → Bool
  caught value_error = true
  caught key_error = true
  caught type_error = true
  caught attribute_error = false
  caught integrity_error = false
  caught index_error = false

  abbrev pub failing : Error → Diagnosis → Result Diagnosis
  failing e d = if caught e then ok (record d { error = some (py.error_text e) }) else raise e

  -- `is_ok` was already set when validate_proposal() raises.
  unfoldable pub check_proposal : Registry → String → Diagnosis × Json → Result Diagnosis
  unfolding vet
  check_proposal reg job_host (d, raw) = elim (validate_proposal reg raw) [
    | raise e ↦ failing e d
    | ok proposal ↦ ok (vet reg job_host raw proposal d)
  ]

  unfoldable pub read_output : String → Result (Diagnosis × Json)
  read_output stdout = load stdout >>= λ out. verdict_of out >>= read_verdict

  -- run(), from the session's standard output on
  unfoldable pub interpret : Registry → String → String → Result Diagnosis
  interpret reg job_host stdout = elim (read_output stdout) [
    | raise e ↦ failing e no_diagnosis
    | ok read ↦ check_proposal reg job_host read
  ]
