-- ===== src/Tests/Journals.antt =====
-- Examples for journal.py: a deploy key that is rejected for a day.
use thearchivist.Prelude.{ℕ, ◌+◌, ◌≡◌, refl, true, not, List, [], ◌∷◌, arith, ok}
use thearchivist.Table.{any}
use thearchivist.Text.{has_part, strip_prefix}
use thearchivist.Journal.{
  Clone, Desk, Event, entry, elsewhere, publish, ensure_clone, write_unless, write_page, git,
  update_clone, rebase, rebased, append_text, committed, push_rounds, pushed, auth_problem,
  safe_publish, publish_all,
}
use thearchivist.Journal.Pushes.{is_push}
use thearchivist.Journal.Pings.{Spaced, Steady, publish_all-Spaced}

-- A clone whose state is the clock, and which GitHub lets nobody push from.
abbrev locked : Clone ℕ
locked = record {
  clock = λ w. w;
  tick = λ w. w + 1;
  is_cloned = λ w. true;
  clone = λ w. (ok (record { succeeded = true; stderr = "" }), w + 1000);
  git = λ args w.
      (ok (record { succeeded = not (is_push args); stderr = "Permission denied" }), w + 1000);
  append = λ relpath text w. (ok true, w);
  branch = "main";
  subdir = "journal/responder";
}

locked-Steady : Steady locked
locked-Steady w = omega arith

abbrev desk : Desk ℕ
desk = record { world = 30000000; asked = []; last_auth_ping = 0; pings = [] }

-- A second entry a minute later, and a third a day later
abbrev entries : List (Event ℕ)
entries =
    entry "p1" "t" "m"
    ∷ elsewhere 30060000
    ∷ entry "p2" "t" "m"
    ∷ elsewhere 120000000
    ∷ entry "p3" "t" "m"
    ∷ []

publish_all-Spaced_example : Spaced (publish_all locked entries desk).pings
publish_all-Spaced_example = publish_all-Spaced locked locked-Steady entries desk refl

entries-pings : (publish_all locked entries desk).pings ≡ 120005001 ∷ 30005001 ∷ []
unfolding publish_all safe_publish publish ensure_clone write_unless write_page git update_clone
    rebase rebased append_text committed push_rounds pushed auth_problem any has_part strip_prefix
entries-pings = refl
