-- ===== src/Tests/Approvals.antt =====
-- Examples for configs/responder/grants.py.
use thearchivist.Prelude.{ℕ, List, [], ◌∷◌, ok, ◌<◌, ◌≡◌, ◌↔◌, refl, false, none, some, arith}
use thearchivist.Table.{find, count, next_rowid}
use thearchivist.Registry.{lookup, elem, is_protected}
use thearchivist.Grants.{
  Book, allowed, no_grant, per_tuple_24h, check_auto, start_auto_run, finish_auto_run, remember,
  revoke_link,
}
use thearchivist.Grants.Invariant.{Inv}
use thearchivist.Grants.Operations.{Operation, operate, starts, remembers, operate-Inv}
use thearchivist.Grants.Budget.{MayRun, check_auto_iff, recent}
use thearchivist.Grants.Pacing.{
  Paced, begin, other, auto_run, WithinBudget, Paced-WithinBudget, two_checks_overrun,
}
use thearchivist.Grants.Lasting.{operate_all}
use thearchivist.Grants.Demotion.{failed_run_demotes}
use thearchivist.Tests.{two_hosts, digest, learning, one_grant, one_run, one_grant-Inv}

operate-Inv_example : Inv two_hosts (operate two_hosts digest (starts "g1" "j2" 1000) one_grant)
operate-Inv_example = operate-Inv two_hosts digest (starts "g1" "j2" 1000) one_grant one_grant-Inv

allowed-here :
    check_auto two_hosts "grafana" "restart" "grafana-server.service" 900 one_grant
    ≡ (some "g1", allowed)
unfolding check_auto is_protected lookup elem operate remember find count
allowed-here = refl

check_auto_iff_example :
    (check_auto two_hosts "grafana" "restart" "grafana-server.service" 900 one_grant
      ≡ (some "g1", allowed))
    ↔ MayRun two_hosts "grafana" "restart" "grafana-server.service" 900 one_grant "g1"
check_auto_iff_example =
    check_auto_iff two_hosts "grafana" "restart" "grafana-server.service" 900 one_grant "g1"

paced : Paced two_hosts digest (start_auto_run "g1" "j2" 1000 one_grant).0
paced =
    auto_run (other begin learning refl) "grafana" "restart" "grafana-server.service" "g1" "j2" 900
      1000 (omega arith) allowed-here

Paced-WithinBudget_example : WithinBudget (start_auto_run "g1" "j2" 1000 one_grant).0
Paced-WithinBudget_example = Paced-WithinBudget paced

two_checks_overrun_example :
    per_tuple_24h
    < recent "g1" 2000 (start_auto_run "g1" "j4" 2000 (start_auto_run "g1" "j3" 2000 one_run).0).0
unfolding check_auto is_protected lookup elem operate remember find count start_auto_run next_rowid
two_checks_overrun_example =
    two_checks_overrun two_hosts "grafana" "restart" "grafana-server.service" "g1" "j3" "j4" 2000
      one_run refl refl

-- While the run goes on, the action is approved by a tap for another job.
abbrev approved_again : List Operation
approved_again = remembers "grafana" "restart" "grafana-server.service" "j4" 1050 "g2" ∷ []

failed_run_demotes_example :
    (run_id : ℕ) × ((start_auto_run "g1" "j2" 910 one_grant).1 ≡ ok run_id)
    × (check_auto two_hosts "grafana" "restart" "grafana-server.service" 5000 (
          finish_auto_run run_id "g1" false 1100 (
            operate_all two_hosts digest approved_again (start_auto_run "g1" "j2" 910 one_grant).0))
        ≡ (none, no_grant))
unfolding operate_all
failed_run_demotes_example =
    failed_run_demotes two_hosts digest "grafana" "restart" "grafana-server.service" "g1" 900
      one_grant one_grant-Inv allowed-here [] approved_again "j2" 910 1100 5000

abbrev one_link : Book
one_link = (revoke_link digest "g1" "t1" one_grant).0

one_link-Inv : Inv two_hosts one_link
unfolding operate
one_link-Inv = operate-Inv two_hosts digest (Operation.links "g1" "t1") one_grant one_grant-Inv
