-- ===== src/Tests/Pages.antt =====
-- Examples for journal.py: what of a text reaches a page.
use Prim.Native.Char.{Char}
use thearchivist.Prelude.{◌≡◌, refl, String, Bool, false, none, some}
use thearchivist.Text.{drop_chars, lstrip, rstrip, strip_prefix, chars, take_chars, join}
use thearchivist.Registry.{elem}
use thearchivist.Store.Data.{Job, pending}
use thearchivist.Journal.Scrub.{
  sub, span, word_run, strip_folded, assigned, value_behind, keyword, keywords, no_equals,
  one_equals, two_equals, equals_behind, longest, opaque, scrub,
}
use thearchivist.Journal.Record.{Calendar, Page, skip_hosts, header, heading, page_of, page_entry}
use thearchivist.Journal.Published.{Published, page_entry-Published}

abbrev ascii_only : Char → Bool
ascii_only c = false

abbrev calendar : Calendar
calendar = record {
  day = λ t. "2026-10-03";
  minute = λ t. "2026-10-03 21:04 CEST";
  stamp = "2026-10-03 21:05:11 CEST";
}

abbrev plex_job : Job
plex_job = record {
  id = "a1b2c3d4";
  dedupe_key = "k";
  host = "plex";
  service = "";
  state = pending;
  created_at = 1000;
  updated_at = 1000;
  closed_at = none;
  close_reason = none;
  verb = none;
  unit = none;
  token_hash = none;
  expires_at = none;
}

abbrev body : String
body = "push to homelab-alerts-a1b2c3d4 with tk_abcdefgh1\n"

abbrev page : Page
page = record {
  relpath = "journal/responder/2026/10/2026-10-03-plex-a1b2c3d4.md";
  text =
      "# plex / (host check)\n\nJob `a1b2c3d4`, opened 2026-10-03 21:04 CEST. Written automatically by the responder on CT 116.\n\n## 2026-10-03 21:05:11 CEST: diagnosis\n\npush to [redacted] with [redacted]\n\n";
  note = "journal: plex diagnosis (a1b2c3d4)";
}

plex-page_entry : page_entry calendar ascii_only plex_job "diagnosis" body ≡ some page
unfolding page_entry page_of header heading join take_chars lstrip rstrip scrub sub span drop_chars
    word_run strip_folded assigned value_behind keyword keywords no_equals one_equals two_equals
    equals_behind longest opaque strip_prefix chars elem
plex-page_entry = refl

page_entry-Published_example :
    (elem "plex" skip_hosts ≡ false)
    × Published ascii_only calendar plex_job "diagnosis" body page.text
page_entry-Published_example =
    page_entry-Published ascii_only calendar plex_job "diagnosis" body page plex-page_entry

scrub_example :
    scrub ascii_only "push to homelab-alerts-a1b2c3d4 with Token: tk_abcdefgh1, ok"
    ≡ "push to [redacted] with [redacted] ok"
unfolding scrub sub span drop_chars word_run strip_folded assigned value_behind keyword keywords
    no_equals one_equals two_equals equals_behind longest opaque strip_prefix chars elem
scrub_example = refl

-- The word behind a keyword is taken for the value, and the value is left.
keyword_shields_value : scrub ascii_only "the secret token hunter2" ≡ "the [redacted] hunter2"
unfolding scrub sub span drop_chars word_run strip_folded assigned value_behind keyword keywords
    no_equals one_equals two_equals equals_behind longest opaque strip_prefix chars elem
keyword_shields_value = refl

opaque_example :
    scrub ascii_only "id 0123456789abcdef0123456789ABCDEF== end" ≡ "id [redacted]== end"
unfolding scrub sub span drop_chars word_run strip_folded assigned value_behind keyword keywords
    no_equals one_equals two_equals equals_behind longest opaque strip_prefix chars elem
opaque_example = refl
