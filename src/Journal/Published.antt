-- ===== src/Journal/Published.antt =====
-- What record() of journal.py lets out to the public repository.
use Prim.Native.Char.{Char}
use Prim.Native.String
use thearchivist.Prelude.{
  ◌≡◌, refl, sym, ap, inl, inr, String, Bool, false, none, some, arith, Bool-cases,
}
use thearchivist.Text.{strip}
use thearchivist.Registry.{elem}
use thearchivist.Store.Data.{Job}
use thearchivist.Journal.Scrub.{ntfy_token, alerts_topic, updates_topic, scrub}
use thearchivist.Journal.Secrets.{
  Absent, scrub-Absent, Absent-strip, ntfy_token-Foreign, alerts_topic-Foreign,
  updates_topic-Foreign,
}
use thearchivist.Journal.Record.{Calendar, Page, skip_hosts, heading, page_entry}

-- What is published of the body of an entry, behind its heading
pub record Published (is_letter : Char → Bool) (calendar : Calendar) (job : Job)
    (event body text : String) : Type 0 where
  pub shown : String
  pub scrubbed : shown ≡ strip (scrub is_letter body)
  pub layout : text ≡ String.◌++◌ (heading calendar job event) (String.◌++◌ shown "\n\n")
  pub no_token : Absent ntfy_token shown
  pub no_alerts_topic : Absent alerts_topic shown
  pub no_updates_topic : Absent updates_topic shown

-- An entry that record() hands to the publishing thread is of a host that is not one of those that are
-- never published, and its text is the heading and then the body, scrubbed and stripped, in which
-- neither a token of ntfy nor a name of a topic, of alerts or of updates, matches at any place.
pub page_entry-Published :
    (is_letter : Char → Bool) (calendar : Calendar) (job : Job) (event body : String) (page : Page)
    → page_entry calendar is_letter job event body ≡ some page
    → (elem job.host skip_hosts ≡ false) × Published is_letter calendar job event body page.text
unfolding page_entry
page_entry-Published is_letter calendar job event body page h =
    elim (Bool-cases (elem job.host skip_hosts)) [
      | inl skipped ↦ absurd (let nothing = (rw skipped at h) in ground (arith, nothing))
      | inr open_host ↦
          let made = (rw open_host at h) in
          let gone = scrub-Absent is_letter body in
          (
            open_host,
            record {
              shown = strip (scrub is_letter body);
              scrubbed = refl;
              layout = ap (λ p. elim p [ none ↦ page.text | some q ↦ q.text ]) (sym made);
              no_token = Absent-strip ntfy_token-Foreign (scrub is_letter body) gone.0;
              no_alerts_topic = Absent-strip alerts_topic-Foreign (scrub is_letter body) gone.1;
              no_updates_topic = Absent-strip updates_topic-Foreign (scrub is_letter body) gone.2;
            },
          )
    ]
