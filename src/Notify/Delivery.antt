-- ===== src/Notify/Delivery.antt =====
-- That what the Checkmk plugin sends is what the responder reads, and where publish() sends what.
use Prim.Native.String
use Prim.Native.String.append.{nil, cons}
use thearchivist.Prelude.{
  ℕ, zero, suc, ◌≤◌, ◌≡◌, refl, inl, inr, String, true, false, none, some, List, arith, ltb, str_eq,
  str_eq-eq, str_eq_refl, if◌then◌else◌, Bool-cases, pos,
}
use thearchivist.Json.{text, object, get_field}
use thearchivist.Registry.{elem}
use thearchivist.Table.{assoc}
use thearchivist.Text.{before_last, strip, rstrip, after_last, take_chars, chars}
use thearchivist.Text.Last.{after_last-before_last, chars-take_chars}
use thearchivist.Store.Statements.{Report}
use thearchivist.Diagnose.{Python}
use thearchivist.App.Paths.{match_hostname}
use thearchivist.App.World.{World, Env}
use thearchivist.App.Http.{
  Request, max_body, read_alert, take_alert, alert_read, alert_sized, alert,
}
use thearchivist.Notify.{
  Variables, given, service_name, alert_state, alert_output, payload, is_slash, Message, compose,
  Button, priorities,
}

-- The request of responder-notify.py as the handler sees it, where `secret` is what the secret's file
-- holds and `size` is the length of the body, which json.loads reads back.
abbrev pub sent : Variables → String → String → ℕ → (String → String) → Request
sent vars source secret size upper = record {
  source = source;
  authorization = String.◌++◌ "Bearer " (strip secret);
  length = some (pos size);
  body = some (object (payload vars));
  upper = upper;
}

-- What Checkmk reports, in the responder's terms.
abbrev pub reported : Variables → (String → String) → Report
reported vars upper = record {
  host = given vars "HOSTNAME";
  service = service_name vars;
  notification_type = given vars "NOTIFICATIONTYPE";
  state = upper (alert_state vars);
  output = alert_output vars;
}

same_service : (s : String) → (if (if str_eq s "" then false else true) then s else "") ≡ s
same_service s = elim (Bool-cases (str_eq s "")) [
  | inl empty ↦ rw (empty, str_eq-eq s "" empty) refl
  | inr named ↦ rw named refl
]

module _ (py : Python) (vars : Variables) (upper : String → String)
    (texts : (s : String) → py.to_str (text s) ≡ s) where
  read_alert-payload :
      read_alert py upper (some (object (payload vars))) ≡ some (reported vars upper)
  unfolding read_alert payload get_field
  read_alert-payload =
      rw
        (
          texts (given vars "HOSTNAME"),
          texts (service_name vars),
          texts (given vars "NOTIFICATIONTYPE"),
          texts (alert_state vars),
          texts (alert_output vars),
          same_service (service_name vars),
        )
        refl

in_bounds : (n : ℕ) → suc n ≤ max_body → ltb max_body (suc n) ≡ false
in_bounds n h = ground (arith, h)

within : (n : ℕ) → n ≤ 200 → ltb 200 n ≡ false
within n h = ground (arith, h)

-- A notification of Checkmk that the plugin sends with the right token, from an address that may send
-- alerts, with a body that is not too long, is taken up as Checkmk means it: its host, service, type,
-- state in capitals and the first 4000 characters of its output. Its host must be a proper name, and
-- its service no longer than 200 characters. `str` of a text is taken to be the text.
pub alert-payload :
    (env : Env) (digits : ℕ → String) (w : World) (vars : Variables) (upper : String → String)
    (source secret : String) (size : ℕ)
    → ((s : String) → env.python.to_str (text s) ≡ s)
    → elem source env.alert_sources ≡ true
    → strip secret ≡ env.alert_token
    → 1 ≤ size
    → size ≤ max_body
    → match_hostname (given vars "HOSTNAME") ≡ true
    → chars (service_name vars) ≤ 200
    → alert env digits (sent vars source secret size upper) w
      ≡ take_alert env digits (reported vars upper) w
unfolding alert alert_sized alert_read
alert-payload env digits w vars upper source secret zero texts known token some_body short named
      brief =
    absurd (ground (arith, some_body))
alert-payload env digits w vars upper source secret (suc size) texts known token some_body short
      named brief =
    rw
      (
        known,
        token,
        str_eq_refl (String.◌++◌ "Bearer " env.alert_token),
        in_bounds size short,
        read_alert-payload env.python vars upper texts,
        named,
        within (chars (service_name vars)) brief,
      )
      refl

-- publish() composes a message if the URL, less the slashes at its end, has a slash. The message then
-- goes to the URL that is configured, as its base and its topic; its title has no more than 250 and
-- its text no more than 3800 characters.
pub compose_lem :
    (ntfy_url title message priority topic : String) (tags : List String) (actions : List Button)
    → after_last b'/' (rstrip is_slash ntfy_url) ≡ some topic
    → (m : Message) × (compose ntfy_url title message priority tags actions ≡ some m)
      × (String.◌++◌ m.base (String.◌++◌ "/" m.topic) ≡ rstrip is_slash ntfy_url)
      × (chars m.title ≤ 250)
      × (chars m.message ≤ 3800)
unfolding compose
compose_lem ntfy_url title message priority topic tags actions h =
    let (base, before, whole) = after_last-before_last "/" (rstrip is_slash ntfy_url) topic h in
    let at : before_last b'/' (rstrip is_slash ntfy_url) ≡ some base = before in
    let m : Message = record {
      base = base;
      topic = topic;
      title = take_chars 250 title;
      message = take_chars 3800 message;
      priority = (elim (assoc priority priorities) [ none ↦ 3 | some n ↦ n ]);
      tags = tags;
      actions = actions;
    } in
    (
      m,
      rw (compose, at, h) refl,
      rw (cons, nil) whole,
      chars-take_chars 250 title,
      chars-take_chars 3800 message,
    )
