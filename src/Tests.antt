-- ===== src/Tests.antt =====
-- Data for the examples: a registry of two hosts, an alert, and the tables that it leads to.
mod Attestations
mod Jobs
mod Runs
mod Lines
mod Journals
mod Pages
mod Crashes
mod Sessions
mod Wires
mod Deadlines
mod Probes
mod Prompts
mod Approvals
mod Hosts
mod Requests
mod Findings
use thearchivist.Prelude.{
  ℕ, ◌+◌, ◌≡◌, refl, String, Bool, true, false, Option, none, some, List, [], ◌∷◌, str_eq,
  if◌then◌else◌,
}
use thearchivist.Json.{Json, text, object, array, nil, end, field}
use thearchivist.Registry.{Registry, HostConfig, Action}
use thearchivist.Diagnose.{Python}
use thearchivist.Store.Data.{Job, Store, empty_store}
use thearchivist.Store.Statements.{
  Report, Statement, intake, updates, mark_pending, exec, mark_closed, decide_approved,
}
use thearchivist.Store.Invariant.{Inv, exec-Inv, empty_store-Inv}
use thearchivist.Grants.{Book, empty_book}
use thearchivist.Grants.Operations.{Operation, operate, remembers, starts, links, operate-Inv}
use thearchivist.Grants.Invariant.{Inv as BookInv, empty_book-Inv}

abbrev pub grafana : HostConfig
grafana = record {
  checkmk_name = some "lxc-grafana";
  ip = some "10.0.0.5";
  unit = some "grafana-server.service";
  read_verbs = some ("status" ∷ []);
  write_verbs = some ("restart" ∷ []);
  is_marked_protected = none;
  verify_url = none;
  verify_expect = none;
  verify_timeout = none;
}

abbrev pub vault : HostConfig
vault = record {
  checkmk_name = some "lxc-vault";
  ip = some "10.0.0.6";
  unit = some "vault.service";
  read_verbs = none;
  write_verbs = some ("restart" ∷ []);
  is_marked_protected = some true;
  verify_url = none;
  verify_expect = none;
  verify_timeout = none;
}

abbrev pub two_hosts : Registry
two_hosts = record {
  hosts = ("grafana", grafana) ∷ ("vault", vault) ∷ [];
  protected_names = "lxc-dns" ∷ [];
  protected_units = "sshd.service" ∷ [];
}

abbrev pub digest : String → String
digest t = t

abbrev pub problem : Report
problem = record {
  host = "lxc-grafana";
  service = "HTTP";
  notification_type = "PROBLEM";
  state = "CRIT";
  output = "timeout";
}

abbrev pub opening : Statement
opening = intake problem 100 600 "j1"

abbrev pub proposing : Statement
proposing = updates (mark_pending "j1" "restart" "grafana-server.service" "t1" 700 110)

abbrev pub approving : Statement
approving = updates (decide_approved "j1" 120)

abbrev pub one_open : Store
one_open = exec opening empty_store

abbrev pub one_pending : Store
one_pending = exec proposing one_open

abbrev pub one_approved : Store
one_approved = exec approving one_pending

pub one_open-Inv : Inv one_open
one_open-Inv = exec-Inv opening empty_store empty_store-Inv

pub one_pending-Inv : Inv one_pending
one_pending-Inv = exec-Inv proposing one_open one_open-Inv

pub one_approved-Inv : Inv one_approved
one_approved-Inv = exec-Inv approving one_pending one_pending-Inv

abbrev pub learning : Operation
learning = remembers "grafana" "restart" "grafana-server.service" "j1" 200 "g1"

abbrev pub one_grant : Book
one_grant = operate two_hosts digest learning empty_book

abbrev pub one_run : Book
one_run = operate two_hosts digest (starts "g1" "j2" 1000) one_grant

pub one_grant-Inv : BookInv two_hosts one_grant
one_grant-Inv = operate-Inv two_hosts digest learning empty_book (empty_book-Inv two_hosts)

-- The verdict that a session prints as {"structured_output": ...}.
abbrev pub verdict : Json
verdict = object (
    field "diagnosis" (text "grafana is down") (
      field "proposed_action"
        (object (field "host" (text "grafana") (field "verb" (text "restart") end))) end))

-- A stand-in for Python's functions, whose json module reads two texts.
abbrev pub python : Python
python = record {
  loads = λ s.
      if str_eq s "verdict"
      then some (object (field "structured_output" verdict end))
      else if str_eq s "[]"
      then some (array nil)
      else none;
  dumps = λ j. "";
  to_str = λ j. elim j [ text s ↦ s | _ ↦ "" ];
  action_repr = λ a. "";
  error_text = λ e. "";
}
