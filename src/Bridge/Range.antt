-- ===== src/Bridge/Range.antt =====
-- unbound-dnsbl-wazuh.py: a block whose time the platform cannot show.
use Prim.Native.String
use thearchivist.Prelude.{
  ◌≡◌, refl, ◌∙◌, String, false, none, some, List, [], ◌∷◌, ◌++◌, arith, str_eq, Error, raise,
}
use thearchivist.Table.{All}
use thearchivist.Text.{join}
use thearchivist.Text.Parts.{Lacks}
use thearchivist.Bridge.{Host, or_number, read_number, read_fields, drain}
use thearchivist.Bridge.Laws.{drain-raises, parse-join}

module _ (host : Host)
    (id created srcip family qtype domain action source blocklist rcode time dnssec
      ttl : String) where
  -- The fields of a line, by the order of FIELDS
  abbrev pub fields : List String
  fields =
      id ∷ created ∷ srcip ∷ family ∷ qtype ∷ domain ∷ action ∷ source ∷ blocklist ∷ rcode ∷ time
      ∷ dnssec ∷ ttl ∷ []

  abbrev pub log_line : String
  log_line = String.◌++◌ (join "|" fields) "\n"

  fields-raises :
      (e : Error)
      → str_eq id "" ≡ false
      → host.local_time (or_number (read_number host created) host.now) ≡ raise e
      → read_fields host fields ≡ some (raise e)
  unfolding read_fields
  fields-raises e blocked late = rw (blocked, late) refl

  -- A block, written as a line of thirteen fields that have no bar and no newline, for whose time
  -- localtime() raises, ends the loop over the FIFO with that exception, if no line before it did: what
  -- is written are the blocks before it, and the block and the lines that the loop would have come to
  -- behind it are not written, whatever they are.
  pub late_block_ends :
      (before behind : List String) (e : Error)
      → (drain host before).1 ≡ none
      → str_eq id "" ≡ false
      → All (Lacks b'|') fields
      → All (Lacks 10) fields
      → host.local_time (or_number (read_number host created) host.now) ≡ raise e
      → drain host (before ++ log_line ∷ behind) ≡ ((drain host before).0, some e)
  late_block_ends before behind e fine blocked bars newlines late =
      drain-raises host before behind log_line e fine (
        parse-join host fields (λ q. ground (arith, q)) bars newlines
        ∙ fields-raises e blocked late)
