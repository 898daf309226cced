-- ===== src/Journal/Record.antt =====
-- configs/responder/journal.py: record(), which makes the entry of a job's page that is published in
-- the background. The texts of time.strftime() are parameters.
use Prim.Native.Char.{Char}
use Prim.Native.String
use thearchivist.Prelude.{ℕ, String, Bool, Option, none, some, List, [], ◌∷◌, str_eq, if◌then◌else◌}
use thearchivist.Text.{drop_chars, strip, take_chars, join}
use thearchivist.Registry.{elem}
use thearchivist.Store.Data.{Job}
use thearchivist.Journal.{Event, entry}
use thearchivist.Journal.Scrub.{scrub}

-- SKIP_HOSTS
abbrev pub skip_hosts : List String
skip_hosts =
    "sonarr" ∷ "radarr" ∷ "prowlarr" ∷ "seerr" ∷ "qbittorrent" ∷ "flaresolverr" ∷ "lidarr"
    ∷ "readarr" ∷ "bazarr" ∷ []

abbrev pub subdir : String
subdir = "journal/responder"

-- time.strftime(): a time as %Y-%m-%d, a time as %Y-%m-%d %H:%M %Z, and the time of the call as
-- %Y-%m-%d %H:%M:%S %Z
pub record Calendar : Type 0 where
  pub day : ℕ → String
  pub minute : ℕ → String
  pub stamp : String

-- What _safe_publish() is called with
pub record Page : Type 0 where
  pub relpath : String
  pub text : String
  pub note : String

-- `job['service'] or '(host check)'`
abbrev pub or_host_check : String → String
or_host_check s = if str_eq s "" then "(host check)" else s

module _ (calendar : Calendar) where
  unfoldable pub page_of : Job → String
  page_of job =
      let day = calendar.day job.created_at in
      join "/" (
        subdir
        ∷ take_chars 4 day
        ∷ take_chars 2 (drop_chars 5 day)
        ∷ join "-" (day ∷ job.host ∷ String.◌++◌ job.id ".md" ∷ [])
        ∷ [])

  -- A page starts with the diagnosis of its job.
  unfoldable pub header : Job → String → String
  header job event =
      if str_eq event "diagnosis"
      then join "" (
          "# "
          ∷ job.host
          ∷ " / "
          ∷ or_host_check job.service
          ∷ "\n\nJob `"
          ∷ job.id
          ∷ "`, opened "
          ∷ calendar.minute job.created_at
          ∷ ". Written automatically by the responder on CT 116.\n\n"
          ∷ [])
      else ""

  unfoldable pub heading : Job → String → String
  unfolding header
  heading job event =
      join "" (header job event ∷ "## " ∷ calendar.stamp ∷ ": " ∷ event ∷ "\n\n" ∷ [])

  -- record(), without an entry where it publishes nothing
  unfoldable pub page_entry : (Char → Bool) → Job → String → String → Option Page
  unfolding page_of heading
  page_entry is_letter job event body =
      if elem job.host skip_hosts
      then none
      else some (record {
        relpath = page_of job;
        text = String.◌++◌ (heading job event) (String.◌++◌ (strip (scrub is_letter body)) "\n\n");
        note = join "" ("journal: " ∷ job.host ∷ " " ∷ event ∷ " (" ∷ job.id ∷ ")" ∷ []);
      })

  -- The thread that is pages_started
  unfoldable pub pages_started :
      {W : Type 0} → (Char → Bool) → Job → String → String → List (Event W)
  unfolding page_entry
  pages_started is_letter job event body = elim (page_entry is_letter job event body) [
    | none ↦ []
    | some page ↦ entry page.relpath page.text page.note ∷ []
  ]
