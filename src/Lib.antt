-- ===== src/Lib.antt =====
-- The responder of the homelab repository, what happens between an alert from Checkmk and the
-- restart of a service, and the programs around it.
--
-- The program is the Python package configs/responder. Checkmk posts an alert; store.py attaches
-- it to a live job or opens one; for a new job a thread runs a Claude session (diagnose.py), whose
-- proposal registry.py checks; grants.py says whether the action may run without a tap; if not,
-- the phone is asked, with one-time links whose token store.py keeps as a hash; a tap, or a
-- remembered approval, makes the job approved, and only the caller that moves it on to executing
-- may run the action; executor.py then runs it over ssh and polls until the service is up. The
-- threads share one SQLite file and nothing else. Around it stand smaller programs of the same
-- repository: the plugin by which Checkmk sends the alert and the one that pushes it to the phone,
-- the bridge that logs blocked DNS queries, and the attestation of the DNS filter's settings.
--
-- Which file models what, with paths from the repository's root:
-- - Prelude: names passed on, the Boolean tests on native numbers and texts, the exceptions
--   (Error) and Result. Table: what is used of SQLite; a table is the list of its rows in the
--   order of their rowids, SELECT is find, select and count, UPDATE is update, INSERT appends.
-- - Json: the values of json.loads.
-- - Registry: configs/responder/registry.py; the functions keep their names. An entry's missing
--   key is `none`. Registry/Laws has its theorems.
-- - Store: configs/responder/store.py. Store/Data has the rows and the tests on them,
--   Store/Statements each UPDATE by its guard (WHERE) and its change (SET), the transaction
--   intake_alert() and histories of statements, Store/Operations the functions of the module,
--   under their names (the column value `open` is `opened`, the result EXPIRED is `late`). The
--   other files are proofs: Effects and Each what a statement and a loop of UPDATEs do to one row,
--   Invariant what holds of the tables, Diagram the arrows between states, Once and Approval how
--   often and why a job moves on, Claims, Race and Proposal the taps, Sweeps, Intake and Dedupe
--   the rest.
-- - Grants: configs/responder/grants.py; record() is `remember`, end() is `end_grant`. Invariant
--   and Operations have the invariant, Budget and Pacing the limits on runs without a tap,
--   Learning, Revoking, Lasting and Demotion the life of a remembered approval.
-- - Diagnose: run() of configs/responder/diagnose.py from the session's standard output on, with
--   its theorems in Diagnose/Laws; build_prompt() is in Diagnose/Prompt, run() as a whole in
--   Diagnose/Session, and Diagnose/Tags is about the tags around the text of alerts.
-- - App: configs/responder/app.py. App/World has the state of the handlers (both sets of tables,
--   what was sent, run and started) and the monad in which they run statement by statement,
--   App/Jobs the handlers of jobs (handle_new_job is admit_job and then conclude_job, which other
--   threads may come between, and as a whole in App/Session; handle_approved is run_approved, one
--   round of sweeper is sweep), App/Paths the regular expressions, App/Http the requests.
--   App/Steps is the abstract specification: a transition system of what any thread may do at
--   once, in which an action runs only behind a start_execution() that was won; App/Refines,
--   App/Handlers and App/Requests show that each handler is made of such steps, App/Safety has
--   what follows for every interleaving of steps, App/History for handlers run one after another;
--   App/Alerts, App/Taps and App/Names are about single requests, App/Sweeps about a round of
--   sweeper(), App/Stranded about a tap that comes between the deadline and that round,
--   App/Crashed about a run that raises, and App/Wire puts the runs of a history on the machine of
--   Executor.
-- - Text: the methods of Python's str that the code calls. Text/Laws, Text/Parts and Text/Last
--   have their lemmas; Table/Laws, Table/Latest and Table/Any have those on the rows of a table.
-- - Executor: configs/responder/executor.py, over a Machine that stands for ssh, urllib and the
--   clock; App takes its answer as a parameter. Executor/Bounds shows that the loop of verify()
--   ends, Executor/Runs that the loop on fuel goes the way of the loop that is written, and
--   Executor/Asks and Executor/Answer what a run asks of the host and what its answer means.
-- - Attest: attest.py, under
--   docs/writeups/2026-09-26-attest-youtube-exemption-and-one-shot-alerts, which compares the
--   settings of a DNS filter with a baseline. Attest has the findings and what is announced of
--   them, Attest/Policy the rules, Attest/Compare compare(), Attest/Run the tables and run(), for
--   what its probe came to, and rounds of it one after another; Attest/Probe has the program that
--   reads the XML file on the host, and probe(), which runs it over ssh, Attest/Audit run()
--   together with probe(). Attest/Stated has the policy as the header of attest.py states it, and
--   what compare() overlooks of it; the rest are proofs: Verdict, Judged, Listed and Keyed about
--   compare(), Leaves and Scanned about the program of the probe, Standing and Fresh about the
--   table attest_standing, Told about run().
-- - Bridge: configs/sentrygate/unbound-dnsbl-wazuh.py: parse(), and main() over what becomes of
--   the FIFO and its lines. Bridge/Laws, Bridge/Turns and Bridge/Range have its theorems.
-- - Journal: _publish() of configs/responder/journal.py, over a Clone that stands for git, its
--   files and the clock; Journal/Scrub has the secret filter scrub(), whose regular expressions
--   are functions, and Journal/Record record(), which is `page_entry`. Journal/Pushes and
--   Journal/Pings are about publishing, Journal/Shadow, Journal/Secrets and Journal/Published
--   about what scrub() leaves of a text.
-- - Notify: publish() of configs/responder/notify.py, and what the plugins
--   configs/checkmk/ntfy-notify.py and configs/checkmk/responder-notify.py send for the variables
--   of a notification; Notify/Plugins has the plugins as a whole, Notify/Delivery the other
--   theorems.
-- - Tests: concrete data, and for each result with a hypothesis an example at which it holds.
--
-- Times are native natural numbers, in seconds; where the code subtracts a span from a time the
-- result is the integer ℤ of Prelude; Executor counts in milliseconds. One loop runs on fuel,
-- verify() of executor.py: it has as many rounds as the timeout has milliseconds, and one more,
-- which is enough since each round but the last sleeps for three seconds. All others run over a
-- list or a fixed number of times. The threads interleave between SQL statements, each of which
-- SQLite runs atomically, so a theorem about "whatever statements run" quantifies over their lists
-- in any order.
--
-- Parameters, since their code is not in the repository: the SHA-256 digest (`hash`), the random
-- ids and tokens, the clock, json.loads, json.dumps, str, repr and int, str.upper, ssh, git,
-- urllib, the XML parser, the local time, and which characters beyond ASCII are letters. Numbers
-- of JSON are natural.
--
-- Not modelled: the texts of the responder's own notifications beyond their kind and links, the
-- bodies of the journal's entries, logging, what the Claude session does, and the other scripts of
-- the repository.
pub mod Prelude
pub mod Text
pub mod Table
pub mod Json
pub mod Registry
pub mod Store
pub mod Grants
pub mod Diagnose
pub mod Executor
pub mod App
pub mod Attest
pub mod Bridge
pub mod Notify
pub mod Journal
pub mod Tests
