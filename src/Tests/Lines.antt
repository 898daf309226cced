-- ===== src/Tests/Lines.antt =====
-- Examples for the bridge of the block log and for what the plugins send.
use thearchivist.Prelude.{
  length, Bool, ◌||◌, ◌&&◌, not, str_eq, ◌≡◌, ◌==◌, refl, String, true, false, List, none, some, [],
  ◌∷◌, ◌++◌, arith, ltb, if◌then◌else◌, pos, negsuc, value_error, ok, raise,
}
use thearchivist.Table.{count, any, assoc}
use thearchivist.Table.Any.{is_empty}
use thearchivist.Text.{join, count_char, lstrip, rstrip, chars, split}
use thearchivist.Registry.{elem}
use thearchivist.Bridge.{
  Host, look_up, read_fields, parse, written, drain, Turn, missing, opened, stopped, quiet, loop,
  logger_py_running, main,
}
use thearchivist.Bridge.Turns.{lines_read, main_lem}
use thearchivist.Bridge.Laws.{is_block}
use thearchivist.Bridge.Range.{late_block_ends}
use thearchivist.App.Paths.{match_hostname, host_chars}
use thearchivist.App.World.{empty_world}
use thearchivist.App.Http.{alert, take_alert}
use thearchivist.Notify.{Variables, Push, http_error, other_error}
use thearchivist.Notify.Plugins.{
  contents, ntfy_main, responder_main, may_help, is_other_error, is_locked_out, is_undecodable,
  plugins_lem,
}
use thearchivist.Notify.Delivery.{sent, reported, alert-payload}
use thearchivist.Tests.Requests.{env, digits}

-- A host whose clock cannot show times after 100.
abbrev clerk : Host
clerk = record {
  int = λ s. if elem s ("50" ∷ []) then some (pos 50) else some (pos 200);
  now = pos 60;
  local_time = λ n. elim n [
    | pos k ↦ if ltb 100 k then raise value_error else ok "then"
    | negsuc k ↦ ok "before"
  ];
  hostname = "sentrygate";
  dumps = λ r. "{}";
}

abbrev blocked : String
blocked = "p|50|c|4|A|ads.example.|1|1|b|3|7|0|60\n"

abbrev late : String
late = "p|999|c|4|A|ads.example.|1|1|b|3|7|0|60\n"

abbrev allowed : String
allowed = "|50|c|4|A|example.|0|0||0|7|0|60\n"

blocked-drain : (drain clerk (allowed ∷ blocked ∷ [])).1 ≡ none
unfolding drain written parse read_fields split rstrip look_up elem
blocked-drain = refl

-- A FIFO that is not there yet, whose writer then ends once, and a signal behind a block
abbrev turns : List Turn
turns = missing ∷ opened (allowed ∷ blocked ∷ []) ∷ stopped (blocked ∷ []) ∷ []

main_lem_example :
    (logger_py_running none ≡ true → main clerk none turns ≡ record quiet { status = some 1 })
    × (logger_py_running none ≡ false
        → ((main clerk none turns).status ≡ some 0)
          × ((main clerk none turns).told ≡ []
              → length (main clerk none turns).out ≡ count is_block (lines_read turns)))
main_lem_example = main_lem clerk none turns

turns-main :
    main clerk none turns
    ≡ record { out = "{}\n" ∷ "{}\n" ∷ []; told = []; slept = 5; status = some 0 }
unfolding main logger_py_running loop drain written parse read_fields split rstrip look_up elem
    assoc
turns-main = refl

late_block_ends_example :
    drain clerk ((allowed ∷ blocked ∷ []) ++ late ∷ blocked ∷ [])
    ≡ ((drain clerk (allowed ∷ blocked ∷ [])).0, some value_error)
unfolding elem join count_char
late_block_ends_example =
    late_block_ends clerk "p" "999" "c" "4" "A" "ads.example." "1" "1" "b" "3" "7" "0" "60"
      (allowed ∷ blocked ∷ []) (blocked ∷ []) value_error blocked-drain refl
      (
        refl,
        (
          refl,
          (
            refl,
            (refl, (refl, (refl, (refl, (refl, (refl, (refl, (refl, (refl, (refl, tt)))))))))),
          ),
        ),
      )
      (
        refl,
        (
          refl,
          (
            refl,
            (refl, (refl, (refl, (refl, (refl, (refl, (refl, (refl, (refl, (refl, tt)))))))))),
          ),
        ),
      )
      refl

-- A notification of Checkmk about a service that is down.
abbrev vars : Variables
vars name = assoc name (
    ("NOTIFY_WHAT", "SERVICE")
    ∷ ("NOTIFY_HOSTNAME", "lxc-grafana")
    ∷ ("NOTIFY_SERVICEDESC", "HTTP")
    ∷ ("NOTIFY_NOTIFICATIONTYPE", "PROBLEM")
    ∷ ("NOTIFY_SERVICESTATE", "CRIT")
    ∷ [])

alert-payload_example :
    alert env digits (sent vars "10.0.0.9" "secret\n" 80 (λ s. s)) empty_world
    ≡ take_alert env digits (reported vars (λ s. s)) empty_world
unfolding elem lstrip rstrip match_hostname host_chars chars assoc
alert-payload_example =
    alert-payload env digits empty_world vars (λ s. s) "10.0.0.9" "secret\n" 80 (λ s. refl) refl
      refl (omega arith) (omega arith) refl (omega arith)

abbrev plain_title : String → String
plain_title s = s

abbrev refusing : Variables
refusing name = none

-- urllib takes this URL and no other.
abbrev takes : String → Push → Bool
takes url push = str_eq url "http://ntfy/t"

plugins_lem_example :
    (((ntfy_main refusing plain_title takes
          (λ r. http_error 503)
          (contents "tk\n")
          (contents "http://ntfy/t\n")).1
        == 1)
      ≡ (let sent =
            (ntfy_main refusing plain_title takes
              (λ r. http_error 503)
              (contents "tk\n")
              (contents "http://ntfy/t\n")).0 in
          any (λ r. may_help (http_error 503)) sent
          || (is_empty sent && not (is_locked_out (contents "tk\n") (contents "http://ntfy/t\n")))))
    × (length
          (ntfy_main refusing plain_title takes
            (λ r. http_error 503)
            (contents "tk\n")
            (contents "http://ntfy/t\n")).0
        ≡ 1)
    × (((responder_main refusing (λ r. other_error) (contents "s\n")).1 == 1) ≡ (
        any
          (λ r. is_other_error other_error)
          (responder_main refusing (λ r. other_error) (contents "s\n")).0
        || is_undecodable (contents "s\n")))
    × (length (responder_main refusing (λ r. other_error) (contents "s\n")).0 ≡ 1)
unfolding lstrip rstrip
plugins_lem_example =
    plugins_lem refusing plain_title takes (λ r. http_error 503) (λ r. other_error)
      (contents "tk\n") (contents "http://ntfy/t\n") (contents "s\n")
