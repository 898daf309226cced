-- ===== src/Bridge.antt =====
-- configs/sentrygate/unbound-dnsbl-wazuh.py: the lines of Unbound's FIFO, and the blocks among them.
pub mod Laws
pub mod Turns
pub mod Range
use Prim.Native.Char.{Char, code}
use Prim.Native.String
use thearchivist.Prelude.{
  ℕ, ◌+◌, String, Bool, true, false, Option, none, some, List, [], ◌∷◌, ◌++◌, ◌==◌, str_eq,
  if◌then◌else◌, ℤ, pos, negsuc, zero, suc, Error, Result, ok, raise, ◌>>=◌,
}
use thearchivist.Table.{any, collect, assoc}
use thearchivist.Text.{rstrip, split, splitlines, has_part}

-- The dict that parse() returns. The key `integration` is a constant.
pub record Block : Type 0 where
  pub policy_id : String
  pub created_at : Option ℤ
  pub srcip : String
  pub family : String
  pub qtype : String
  pub domain : String
  pub action : String
  pub source : String
  pub blocklist : String
  pub rcode : String
  pub resolve_time_ms : Option ℤ
  pub dnssec_status : String
  pub ttl : Option ℤ
  pub hostname : String
  pub timestamp : String

-- What the code takes from outside: int() of a text, if it is one; time.time(), and the local time as
-- text, where localtime() raises for a time that the platform cannot hold; json.dumps() of a record.
pub record Host : Type 0 where
  pub int : String → Option ℤ
  pub now : ℤ
  pub local_time : ℤ → Result String
  pub hostname : String
  pub dumps : Block → String

abbrev pub action_map : List (String × String)
action_map = ("0", "pass") ∷ ("1", "block") ∷ ("2", "drop") ∷ []

abbrev pub source_map : List (String × String)
source_map = ("0", "recursion") ∷ ("1", "local") ∷ ("2", "localdata") ∷ ("3", "cache") ∷ []

abbrev pub rcode_map : List (String × String)
rcode_map = ("0", "NOERROR") ∷ ("3", "NXDOMAIN") ∷ []

-- table.get(key, default)
unfoldable pub look_up : List (String × String) → String → String → String
look_up table key default = elim (assoc key table) [ none ↦ default | some v ↦ v ]

-- x or default, for a text, and for a number or None
abbrev pub or_text : String → String → String
or_text x default = if str_eq x "" then default else x

abbrev pub or_number : Option ℤ → ℤ → ℤ
or_number (some (pos n)) default = elim n [ zero ↦ default | suc k ↦ pos (suc k) ]
or_number (some (negsuc n)) default = negsuc n
or_number none default = default

abbrev pub is_newline : Char → Bool
is_newline c = code c == 10

abbrev pub is_dot : Char → Bool
is_dot c = code c == b'.'

module _ (host : Host) where
  -- int(x) if x != '' else None, and None for a ValueError
  abbrev pub read_number : String → Option ℤ
  read_number x = if str_eq x "" then none else host.int x

  -- parse() once the line is taken apart, by the order of FIELDS
  unfoldable pub read_fields : List String → Option (Result Block)
  unfolding look_up
  read_fields
        (id ∷ created ∷ srcip ∷ family ∷ qtype ∷ domain ∷ action ∷ source ∷ blocklist ∷ rcode ∷ time
          ∷ dnssec ∷ ttl ∷ []) =
      if str_eq id ""
      then none
      else some (
          host.local_time (or_number (read_number created) host.now) >>= λ stamp. ok (record {
            policy_id = id;
            created_at = read_number created;
            srcip = srcip;
            family = family;
            qtype = qtype;
            domain = rstrip is_dot domain;
            action = look_up action_map action (or_text action "block");
            source = look_up source_map source source;
            blocklist = blocklist;
            rcode = look_up rcode_map rcode rcode;
            resolve_time_ms = read_number time;
            dnssec_status = dnssec;
            ttl = read_number ttl;
            hostname = host.hostname;
            timestamp = stamp;
          }))
  read_fields _ = none

  -- parse(): `none` is None
  unfoldable pub parse : String → Option (Result Block)
  unfolding read_fields
  parse line = read_fields (split b'|' (rstrip is_newline line))

  -- What emit() writes of a record
  abbrev pub emit : Block → String
  emit rec = String.◌++◌ (host.dumps rec) "\n"

  -- A round of `for line in fifo`, by what parse() made of the line, in front of the rest
  unfoldable pub written :
      Option (Result Block) → List String × Option Error → List String × Option Error
  written none rest = rest
  written (some (raise e)) rest = ([], some e)
  written (some (ok rec)) (out, end) = (emit rec ∷ out, end)

  -- The loop: the lines that it writes, and the exception that ends it, if any.
  unfoldable pub drain : List String → List String × Option Error
  unfolding parse written
  drain [] = ([], none)
  drain (line ∷ lines) = written (parse line) (drain lines)

-- logger_py_running(), for the output of ps, or for an exception
unfoldable pub logger_py_running : Option String → Bool
logger_py_running none = false
logger_py_running (some out) = any (has_part "unbound/logger.py") (splitlines out)

-- A turn of the loop of main(): no FIFO; an exception of open(); the lines that were taken out of the
-- FIFO, which are those up to the end of its writer or, where an exception ends the loop, those that the
-- buffer had by then; or the lines taken up to a signal, of which _stop() makes a SystemExit that no clause catches.
pub data Turn : Type 0 where
  missing : Turn
  unopened : Error → Turn
  opened stopped : List String → Turn

-- The lines of OUT, the exceptions that were told on stderr, the seconds that were waited, and the
-- exit status, if main() came to an end.
pub record Daemon : Type 0 where
  pub out : List String
  pub told : List Error
  pub slept : ℕ
  pub status : Option ℕ

abbrev pub quiet : Daemon
quiet = record { out = []; told = []; slept = 0; status = none }

abbrev pub wait : Daemon → Daemon
wait d = record d { slept = d.slept + 5 }

-- `except Exception`
abbrev pub after_error : Option Error → Daemon → Daemon
after_error none d = d
after_error (some e) d = record d { told = e ∷ d.told; slept = d.slept + 5 }

abbrev pub behind_lines : List String × Option Error → Daemon → Daemon
behind_lines (out, end) d = let later = after_error end d in record later { out = out ++ later.out }

abbrev pub told_of : Option Error → List Error
told_of none = []
told_of (some e) = e ∷ []

-- A signal ends the turn, also where it comes in the wait after an exception.
abbrev pub last_turn : List String × Option Error → Daemon
last_turn (out, end) = record { out = out; told = told_of end; slept = 0; status = some 0 }

unfoldable pub loop : Host → List Turn → Daemon
unfolding drain
loop host [] = quiet
loop host (missing ∷ ts) = wait (loop host ts)
loop host (unopened e ∷ ts) = after_error (some e) (loop host ts)
loop host (opened lines ∷ ts) = behind_lines (drain host lines) (loop host ts)
loop host (stopped lines ∷ ts) = last_turn (drain host lines)

-- main(), for the turns that its loop takes
unfoldable pub main : Host → Option String → List Turn → Daemon
unfolding loop logger_py_running
main host ps turns =
    if logger_py_running ps then record quiet { status = some 1 } else loop host turns
