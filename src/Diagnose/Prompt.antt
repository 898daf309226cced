-- ===== src/Diagnose/Prompt.antt =====
-- configs/responder/diagnose.py: build_prompt(), which puts the text of alerts into the prompt of a
-- session between two tags.
use Prim.Native.Char.{Char, code}
use Prim.Native.String
use thearchivist.Prelude.{
  ℕ, String, Option, none, some, List, [], ◌∷◌, ◌++◌, map, ◌==◌, str_eq, if◌then◌else◌, key_error,
  Result, ok, raise, ◌>>=◌,
}
use thearchivist.Registry.{HostConfig, Registry, by_checkmk_name}
use thearchivist.Store.Data.{Job, Alert}
use thearchivist.Text.{before, join}

-- text.replace(c, d), for single characters
unfoldable pub replace_char : ℕ → Char → String → String
replace_char c d String.[] = String.[]
replace_char c d (String.◌∷◌ e s) = String.◌∷◌ (if code e == c then d else e) (replace_char c d s)

-- _untrusted()
unfoldable pub untrusted : String → String
untrusted s = replace_char b'>' "›" (replace_char b'<' "‹" s)

abbrev pub concat : List String → String
concat [] = ""
concat (s ∷ ss) = String.◌++◌ s (concat ss)

-- sorted(d.items()), for distinct keys
unfoldable pub place_item :
    String × HostConfig → List (String × HostConfig) → List (String × HostConfig)
place_item x [] = x ∷ []
place_item x (y ∷ ys) =
    let rest = place_item x ys in if before x.0 y.0 then x ∷ y ∷ ys else y ∷ rest

unfoldable pub sorted_items : List (String × HostConfig) → List (String × HostConfig)
sorted_items [] = []
sorted_items (x ∷ xs) = place_item x (sorted_items xs)

-- h[key]
abbrev pub subscript {ℓ} : {A : Type ℓ} → Option A → Result A
subscript none = raise key_error
subscript (some a) = ok a

-- `show_list` is str() of a list of texts, and `stamp` prints a local time.
module _ (show_list : List String → String) (stamp : ℕ → String) where
  unfoldable pub host_line : String → HostConfig → Result String
  host_line key h = subscript h.checkmk_name >>= λ name. subscript h.unit >>= λ unit.
      subscript h.read_verbs >>= λ reads. subscript h.write_verbs >>= λ writes. ok (
        concat (
          "- "
          ∷ key
          ∷ ": Checkmk name `"
          ∷ name
          ∷ "`, unit "
          ∷ unit
          ∷ ", read verbs "
          ∷ show_list reads
          ∷ ", write verbs "
          ∷ show_list writes
          ∷ []))

  unfoldable pub host_lines : List (String × HostConfig) → Result (List String)
  unfolding host_line
  host_lines [] = ok []
  host_lines ((key, h) ∷ hs) = host_line key h >>= λ l. host_lines hs >>= λ ls. ok (l ∷ ls)

  abbrev pub not_registered : String
  not_registered = "NOT registered: proposed_action must be null"

  abbrev pub known_as : Option String → String
  known_as none = not_registered
  known_as (some key) =
      if str_eq key "" then not_registered else concat ("registered as `" ∷ key ∷ "`" ∷ [])

  unfoldable pub alert_section : Job → Alert → String
  unfolding untrusted
  alert_section job a = untrusted (
      concat (
        a.notification_type
        ∷ " host="
        ∷ job.host
        ∷ " service="
        ∷ (if str_eq job.service "" then "(host check)" else job.service)
        ∷ " state="
        ∷ a.state
        ∷ " at="
        ∷ stamp a.received_at
        ∷ "\noutput: "
        ∷ a.output
        ∷ []))

  -- The lines up to the first tag
  abbrev pub preamble : List String → Option String → List String
  preamble hosts key =
      "A monitoring alert fired. Diagnose it."
      ∷ ""
      ∷ "Registered hosts (the only ones gate-read can reach, and the only valid proposal targets):"
      ∷ (hosts ++ "" ∷ concat ("This alert's host is " ∷ known_as key ∷ "." ∷ []) ∷ "" ∷ [])

  unfoldable pub build_prompt : Job → List Alert → Registry → Result String
  unfolding host_lines alert_section
  build_prompt job alerts reg = host_lines (sorted_items reg.hosts) >>= λ hosts. ok (
      join "\n" (
        preamble hosts (by_checkmk_name reg job.host)
        ++ "<untrusted_alert>" ∷ (map (alert_section job) alerts ++ "</untrusted_alert>" ∷ [])))
