-- ===== src/Tests/Runs.antt =====
-- Examples for executor.py: a restart on a host that answers within a second.
use thearchivist.Prelude.{
  ℕ, ◌+◌, ◌*◌, ◌<◌, ◌≡◌, ◌⊎◌, refl, String, Bool, true, none, some, [], ◌∷◌, ◌++◌, arith, pos,
  Result, ok,
}
use thearchivist.Registry.{HostConfig, elem}
use thearchivist.Text.{splitlines, has_part, strip_prefix, take_chars}
use thearchivist.Executor.{
  Machine, Line, gate, unit_active, http_ok, healthy, poll, verify, timeout_of, execute_at,
  execute_on, execute,
}
use thearchivist.Executor.Bounds.{Forward}
use thearchivist.Executor.Asks.{statuses, execute-asks}
use thearchivist.Executor.Answer.{Meaning, execute-Meaning}

-- A machine whose state is its clock, and whose unit is active at every question.
abbrev pub machine : Machine ℕ
machine = record {
  clock = λ w. w;
  ssh = λ ip verb timeout w. (some (pos 0, "ActiveState=active"), w + 500);
  fetch = λ url w. (ok (some "ok"), w + 100);
  sleep = λ s w. w + 1000 * s;
  decimal = λ n. "";
  seconds = λ n. "1";
}

pub machine-Forward : Forward machine
machine-Forward = record {
  sleep_forward = λ s w. omega arith;
  ssh_forward = λ ip verb timeout w. omega arith;
  fetch_forward = λ url w. omega arith;
}

abbrev pub grafana : HostConfig
grafana = record {
  checkmk_name = none;
  ip = some "192.168.10.20";
  unit = some "grafana-server.service";
  read_verbs = none;
  write_verbs = some ("restart" ∷ []);
  is_marked_protected = none;
  verify_url = some "http://192.168.10.20/health";
  verify_expect = some "ok";
  verify_timeout = some 2;
}

abbrev pub start : Line ℕ
start = record { world = 0; asked = [] }

execute-asks_example :
    (r : Result (Bool × String) × Line ℕ) × (execute machine grafana "restart" start ≡ some r)
    × (((grafana.ip ≡ none) × (r.1.asked ≡ []))
        ⊎ ((k : ℕ) × (r.1.asked ≡ [] ++ "restart" ∷ statuses k) × (3 * k < timeout_of grafana + 3)))
execute-asks_example = execute-asks machine machine-Forward grafana "restart" start

abbrev finished : Result (Bool × String) × Line ℕ
finished = (
  ok (true, "restart ok, verified in 1s"),
  record { world = 1100; asked = "restart" ∷ "status" ∷ [] },
)

start-execute : execute machine grafana "restart" start ≡ some finished
unfolding execute execute_on execute_at gate verify poll healthy unit_active http_ok splitlines
    has_part strip_prefix take_chars elem
start-execute = refl

execute-Meaning_example : Meaning machine grafana "restart" start finished
execute-Meaning_example = execute-Meaning machine grafana "restart" start finished start-execute
