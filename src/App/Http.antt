-- ===== src/App/Http.antt =====
-- configs/responder/app.py: the requests of Handler. A request that raises is answered by nothing.
use Prim.Native.String
use thearchivist.Text.{chars}
use thearchivist.Prelude.{
  ℕ, zero, suc, String, Bool, true, not, ◌||◌, Option, none, some, List, [], ◌∷◌, ltb, str_eq,
  if◌then◌else◌, ℤ, pos, negsuc, value_error, key_error, Result, ok, raise,
}
use thearchivist.Json.{Json, object, Fields, get_field, truthy}
use thearchivist.Registry.{elem}
use thearchivist.Diagnose.{Python}
use thearchivist.Store.Data.{State, opened, pending, approved, denied, expired, executing, closed}
use thearchivist.Store.Statements.{Report, intake_alert}
use thearchivist.Store.Operations.{
  Outcome, claimed, already_handled, invalid, late, close, claim, recover, interrupted,
}
use thearchivist.Grants.{Revocation, revoke}
use thearchivist.App.Paths.{TapAction, match_tap, match_revoke, match_hostname}
use thearchivist.App.World.{
  Env, Exec, new_job, approved_job, pure, lift, on_store, on_store_raising, on_book, ◌>>=◌, ◌>>◌,
  spawn, now, draw, get_job,
}
use thearchivist.App.Jobs.{journal_record}

-- The status code and the text of a reply.
abbrev pub Reply : Type 0
Reply = ℕ × String

abbrev pub state_text : State → String
state_text opened = "open"
state_text pending = "pending"
state_text approved = "approved"
state_text denied = "denied"
state_text expired = "expired"
state_text executing = "executing"
state_text closed = "closed"

abbrev pub decision_of : TapAction → State
decision_of TapAction.approve = approved
decision_of TapAction.deny = denied

-- f"already handled: {state}"
abbrev pub handled_text : Option State → String
handled_text none = "already handled: None"
handled_text (some s) = String.◌++◌ "already handled: " (state_text s)

-- What tap() does with the result of claim().
unfoldable pub answer_tap : Env → TapAction → String → Outcome × Option State → Exec Reply
answer_tap env TapAction.approve i (claimed, state) =
    spawn (approved_job i) >> pure (200, "approved: running")
answer_tap env TapAction.deny i (claimed, state) = do
  t ← now env
  shut ← on_store (close i "denied" t)
  job ← get_job i
  journal_record job "denied"
  pure (200, "denied")
answer_tap env action i (invalid, state) = pure (403, "invalid")
answer_tap env action i (already_handled, state) = pure (200, handled_text state)
answer_tap env action i (late, state) = pure (200, handled_text state)

-- Handler.tap()
unfoldable pub tap : Env → TapAction → String → String → Exec Reply
tap env action i token = do
  t ← now env
  result ← on_store_raising (claim env.hash i token (decision_of action) t)
  answer_tap env action i result

abbrev pub revocation_text : Revocation → String
revocation_text Revocation.revoked = "revoked"
revocation_text Revocation.already_revoked = "already revoked"
revocation_text Revocation.invalid = "invalid"

abbrev pub revocation_code : Revocation → ℕ
revocation_code Revocation.invalid = 403
revocation_code _ = 200

-- Handler.revoke()
unfoldable pub revoke_tap : Env → String → String → Exec Reply
revoke_tap env grant_id token = do
  t ← now env
  result ← on_book (λ b. let (b', r) = revoke env.hash grant_id token t b in (b', ok r))
  pure (revocation_code result, revocation_text result)

-- A request. `length` is int(Content-Length or 0), `none` where int() raises a ValueError; `body` is
-- what json.loads makes of the bytes read, `none` where it raises one; and `upper` is str.upper.
pub record Request : Type 0 where
  pub source : String
  pub authorization : String
  pub length : Option ℤ
  pub body : Option Json
  pub upper : String → String

abbrev pub max_body : ℕ
max_body = 16384

-- n <= 0 or n > MAX_BODY
abbrev pub bad_length : ℤ → Bool
bad_length (negsuc n) = true
bad_length (pos zero) = true
bad_length (pos (suc n)) = ltb max_body (suc n)

abbrev pub acts_on : List String
acts_on = "CRIT" ∷ "CRITICAL" ∷ "UNKNOWN" ∷ "DOWN" ∷ "UNREACHABLE" ∷ []

-- str(a["key"]), str(a.get(...) or ""), str(a.get(..., ""))
abbrev pub required : Python → String → Fields → Result String
required py key fs = elim (get_field key fs) [ none ↦ raise key_error | some j ↦ ok (py.to_str j) ]

abbrev pub or_empty : Python → String → Fields → String
or_empty py key fs = elim (get_field key fs) [
  | none ↦ ""
  | some j ↦ if truthy j then py.to_str j else ""
]

abbrev pub default_empty : Python → String → Fields → String
default_empty py key fs = elim (get_field key fs) [ none ↦ "" | some j ↦ py.to_str j ]

-- The fields of the alert. All of the exceptions that it may raise are caught, as bad JSON.
unfoldable pub read_alert : Python → (String → String) → Option Json → Option Report
read_alert py upper (some (object fs)) = elim (required py "host" fs) [
  | raise e ↦ none
  | ok h ↦ (elim (required py "type" fs) [
    | raise e ↦ none
    | ok kind ↦ (elim (required py "state" fs) [
      | raise e ↦ none
      | ok state ↦ some (record {
        host = h;
        service = or_empty py "service" fs;
        notification_type = kind;
        state = upper state;
        output = default_empty py "output" fs;
      })
    ])
  ])
]
read_alert py upper _ = none

-- The part of Handler.alert() that works on the tables. `digits` writes a number out.
unfoldable pub take_alert : Env → (ℕ → String) → Report → Exec Reply
take_alert env digits a =
    if str_eq a.notification_type "RECOVERY"
    then (do
      t ← now env
      shut ← on_store (recover a.host a.service t)
      pure (200, String.◌++◌ "recovered " (digits (ids_count shut))))
    else if not (str_eq a.notification_type "PROBLEM" || str_eq a.notification_type "CUSTOM")
        || not (elem a.state acts_on)
    then pure (200, "ignored")
    else (do
      t ← now env
      drawn ← draw env
      job ← on_store_raising (intake_alert a t env.dedupe_window drawn)
      (if job.1 then spawn (new_job job.0) else pure tt)
      pure (200, String.◌++◌ "job " (String.◌++◌ job.0 (if job.1 then " new" else " attached"))))
  where
    ids_count : List String → ℕ
    ids_count [] = 0
    ids_count (i ∷ is) = suc (ids_count is)

-- Handler.alert() from the fields of the alert on
unfoldable pub alert_read : Env → (ℕ → String) → Option Report → Exec Reply
alert_read env digits none = pure (400, "bad json")
alert_read env digits (some a) =
    if not (match_hostname a.host) || ltb 200 (chars a.service)
    then pure (400, "bad host/service")
    else take_alert env digits a

-- Handler.alert() from the length on
unfoldable pub alert_sized : Env → (ℕ → String) → Request → Option ℤ → Exec Reply
alert_sized env digits q none = lift (raise value_error)
alert_sized env digits q (some n) =
    if bad_length n
    then pure (400, "bad length")
    else alert_read env digits (read_alert env.python q.upper q.body)

-- Handler.alert()
unfoldable pub alert : Env → (ℕ → String) → Request → Exec Reply
alert env digits q =
    if not (elem q.source env.alert_sources)
      || not (str_eq q.authorization (String.◌++◌ "Bearer " env.alert_token))
    then pure (403, "forbidden")
    else alert_sized env digits q q.length

-- Handler.do_POST() from the match of REVOKE on, and from that of TAP on
unfoldable pub post_revoke : Env → Option (String × String) → Exec Reply
post_revoke env none = pure (404, "not found")
post_revoke env (some (i, token)) = revoke_tap env i token

unfoldable pub post_tap : Env → String → Option (TapAction × String × String) → Exec Reply
post_tap env path none = post_revoke env (match_revoke path)
post_tap env path (some (action, i, token)) = tap env action i token

-- Handler.do_POST()
unfoldable pub post : Env → (ℕ → String) → String → Request → Exec Reply
post env digits path q =
    if str_eq path "/alert" then alert env digits q else post_tap env path (match_tap path)

-- Handler.do_GET()
unfoldable pub answer_get : String → Reply
answer_get path = if str_eq path "/healthz" then (200, "ok") else (404, "not found")

-- What main() does to the tables before it serves.
unfoldable pub start_up : Env → Exec (List String)
start_up env = do t ← now env; on_store (interrupted t)
