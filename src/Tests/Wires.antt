-- ===== src/Tests/Wires.antt =====
-- An example for app.py with executor.py: a history of requests, whose runs ask a machine.
use thearchivist.Prelude.{ℕ, ◌≡◌, some}
use thearchivist.Table.{select}
use thearchivist.Executor.{Line}
use thearchivist.App.World.{empty_world}
use thearchivist.App.Steps.{runs_job}
use thearchivist.App.History.{serve}
use thearchivist.App.Wire.{rerun, Reached, one_verb_per_job}
use thearchivist.Tests.{two_hosts}
use thearchivist.Tests.Runs.{machine, machine-Forward, start}
use thearchivist.Tests.Requests.{env, digits, history, job_id}

one_verb_per_job_example :
    (l' : Line ℕ) × (rerun machine two_hosts
        (select (runs_job job_id) (serve env digits history empty_world).events)
        start
      ≡ some l')
    × Reached start l'
one_verb_per_job_example =
    one_verb_per_job machine machine-Forward two_hosts env digits history job_id start
