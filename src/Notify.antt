-- ===== src/Notify.antt =====
-- What is sent to ntfy and to the responder: configs/responder/notify.py, and the notification plugins
-- configs/checkmk/ntfy-notify.py and configs/checkmk/responder-notify.py.
pub mod Delivery
pub mod Plugins
use Prim.Native.Char.{Char, code}
use Prim.Native.String
use thearchivist.Prelude.{
  ℕ, zero, suc, String, Bool, true, false, ◌&&◌, ◌||◌, not, Option, none, some, List, [], ◌∷◌, leb,
  ltb, ◌==◌, str_eq, if◌then◌else◌,
}
use thearchivist.Json.{Json, text, object, Fields, field, end}
use thearchivist.Registry.{elem}
use thearchivist.Table.{assoc}
use thearchivist.Text.{strip, rstrip, after_last, before_last, take_chars}

-- os.environ.get
abbrev pub Variables : Type 0
Variables = String → Option String

abbrev pub variable : Variables → String → String → String
variable vars name default = elim (vars name) [ none ↦ default | some v ↦ v ]

-- What the block with urlopen() came to: a status, an HTTPError whose body can be read, one whose body
-- cannot, another URLError or OSError, or an exception of another kind, such as one of http.client
pub data Answer : Type 0 where
  status http_error http_unread : ℕ → Answer
  unreached other_error : Answer

-- A push as ntfy takes it from the plugin, by its headers
pub record Push : Type 0 where
  pub title : String
  pub priority : String
  pub tags : String
  pub click : String
  pub body : String

-- ntfy-notify.py
module _ (vars : Variables) where
  abbrev pub notification_type : String
  notification_type = variable vars "NOTIFY_NOTIFICATIONTYPE" "PROBLEM"

  abbrev is_host : Bool
  is_host = str_eq (variable vars "NOTIFY_WHAT" "SERVICE") "HOST"

  abbrev named_host : String
  named_host = variable vars "NOTIFY_HOSTNAME" "?"

  abbrev pub ntfy_state : String
  ntfy_state =
      if is_host
      then variable vars "NOTIFY_HOSTSTATE" "?"
      else variable vars "NOTIFY_SERVICESTATE" "?"

  abbrev subject : String
  subject =
      if is_host
      then named_host
      else String.◌++◌ named_host (String.◌++◌ " / " (variable vars "NOTIFY_SERVICEDESC" "?"))

  abbrev output : String
  output =
      if is_host
      then variable vars "NOTIFY_HOSTOUTPUT" ""
      else variable vars "NOTIFY_SERVICEOUTPUT" ""

  unfoldable pub prio_tags : String → String → String × String
  prio_tags ntype state =
      if str_eq ntype "RECOVERY"
      then ("3", "white_check_mark")
      else if elem state ("DOWN" ∷ "UNREACHABLE" ∷ [])
      then ("5", "rotating_light")
      else if str_eq state "CRITICAL"
      then ("4", "red_circle")
      else if str_eq state "UNKNOWN"
      then ("3", "grey_question")
      else ("3", "warning")

  abbrev pub title : String
  title =
      let plain = String.◌++◌ ntfy_state (String.◌++◌ ": " subject) in
      if elem notification_type ("PROBLEM" ∷ "RECOVERY" ∷ [])
      then plain
      else String.◌++◌ "[" (String.◌++◌ notification_type (String.◌++◌ "] " plain))

  unfoldable pub ntfy_push : Push
  unfolding prio_tags
  ntfy_push =
      let (priority, tags) = prio_tags notification_type ntfy_state in
      record {
        title = title;
        priority = priority;
        tags = tags;
        click =
            String.◌++◌
              "https://checkmk.home.arpa/monitoring/check_mk/index.py?start_url=view.py%3Fview_name%3Dhost%26host%3D"
              named_host;
        body =
            strip (String.◌++◌ output (String.◌++◌ "\n" (variable vars "NOTIFY_SHORTDATETIME" "")));
      }

-- The exit code of ntfy-notify.py: with 1, Checkmk tries again.
unfoldable pub ntfy_exit : Answer → ℕ
ntfy_exit (status n) = 0
ntfy_exit (http_error n) = if leb 400 n && ltb n 500 then 2 else 1
ntfy_exit (http_unread n) = 1
ntfy_exit unreached = 1
ntfy_exit other_error = 1

-- responder-notify.py
module _ (vars : Variables) where
  abbrev pub given : String → String
  given name = variable vars (String.◌++◌ "NOTIFY_" name) ""

  abbrev is_service : Bool
  is_service = str_eq (given "WHAT") "SERVICE"

  abbrev pub service_name : String
  service_name = if is_service then given "SERVICEDESC" else ""

  abbrev pub alert_state : String
  alert_state = if is_service then given "SERVICESTATE" else given "HOSTSTATE"

  abbrev pub alert_output : String
  alert_output = take_chars 4000 (if is_service then given "SERVICEOUTPUT" else given "HOSTOUTPUT")

  unfoldable pub payload : Fields
  payload = field "what" (text (given "WHAT")) (
      field "host" (text (given "HOSTNAME")) (
        field "service" (text service_name) (
          field "type" (text (given "NOTIFICATIONTYPE"))
            (field "state" (text alert_state) (field "output" (text alert_output) end)))))

-- The exit code of responder-notify.py; an exception that it does not catch ends Python with 1.
unfoldable pub responder_exit : Answer → ℕ
responder_exit (status n) = 0
responder_exit (http_error n) = 2
responder_exit (http_unread n) = 2
responder_exit unreached = 2
responder_exit other_error = 1

-- notify.py: PRIORITY
abbrev pub priorities : List (String × ℕ)
priorities = ("low", 2) ∷ ("default", 3) ∷ ("high", 4) ∷ ("urgent", 5) ∷ []

pub record Button : Type 0 where
  pub label : String
  pub url : String

-- The JSON body of publish() and the URL it goes to.
pub record Message : Type 0 where
  pub base : String
  pub topic : String
  pub title : String
  pub message : String
  pub priority : ℕ
  pub tags : List String
  pub actions : List Button

abbrev pub is_slash : Char → Bool
is_slash c = code c == b'/'

-- publish() up to the request; without a slash in the URL, a subscript raises an IndexError.
unfoldable pub compose :
    String → String → String → String → List String → List Button → Option Message
compose ntfy_url title message priority tags actions =
    let url = rstrip is_slash ntfy_url in
    elim (before_last b'/' url) [
      | none ↦ none
      | some base ↦ (elim (after_last b'/' url) [
        | none ↦ none
        | some topic ↦ some (record {
          base = base;
          topic = topic;
          title = take_chars 250 title;
          message = take_chars 3800 message;
          priority = (elim (assoc priority priorities) [ none ↦ 3 | some n ↦ n ]);
          tags = tags;
          actions = actions;
        })
      ])
    ]

-- What publish() returns for the answer; an exception of another kind leaves it.
unfoldable pub was_sent : Answer → Option Bool
was_sent (status n) = some (leb 200 n && ltb n 300)
was_sent (http_error n) = some false
was_sent (http_unread n) = some false
was_sent unreached = some false
was_sent other_error = none
