-- ===== src/Executor.antt =====
-- configs/responder/executor.py. Times are in milliseconds; the machine stands for ssh, for urllib
-- and for the clock, whose answers may depend on all that went before.
pub mod Bounds
pub mod Runs
pub mod Asks
pub mod Answer
use Prim.Native.String
use thearchivist.Prelude.{
  ℕ, zero, suc, ◌+◌, ◌*◌, ◌-◌, String, Bool, true, false, ◌&&◌, Option, none, some, List, [], ◌∷◌,
  ◌++◌, ltb, str_eq, if◌then◌else◌, ℤ, pos, Error, key_error, Result, ok, raise,
}
use thearchivist.Registry.{HostConfig, elem}
use thearchivist.Text.{take_chars, splitlines, has_part, strip}

-- `ssh` runs a verb on an address: its return code and its output, decoded, or no answer within the
-- timeout in seconds. `fetch` is the start of a page, or no page for an URLError or an OSError; it
-- may raise what urllib raises besides. `decimal` is str() of an int or of None, `seconds` prints a
-- duration.
pub record Machine (W : Type 0) : Type 0 where
  pub clock : W → ℕ
  pub ssh : String → String → ℕ → W → Option (ℤ × String) × W
  pub fetch : String → W → Result (Option String) × W
  pub sleep : ℕ → W → W
  pub decimal : Option ℤ → String
  pub seconds : ℕ → String

-- A machine in some state, and the verbs that it was asked to run, first to last.
pub record Line (W : Type 0) : Type 0 where
  pub world : W
  pub asked : List String

-- h.get(key, default)
abbrev pub or_else {ℓ} : {A : Type ℓ} → A → Option A → A
or_else d none = d
or_else d (some a) = a

abbrev pub is_zero : Option ℤ → Bool
is_zero (some (pos n)) = elim n [ zero ↦ true | suc k ↦ false ]
is_zero _ = false

abbrev pub map_option {κ ℓ} : {A : Type κ} {B : Type ℓ} → (A → B) → Option A → Option B
map_option f none = none
map_option f (some a) = some (f a)

abbrev pub timeout_of : HostConfig → ℕ
timeout_of h = or_else 60 h.verify_timeout

module _ {W : Type 0} (m : Machine W) where
  -- gate()
  unfoldable pub gate : String → String → ℕ → Line W → (Option ℤ × String) × Line W
  gate ip verb timeout l =
      let (answer, w) = m.ssh ip verb timeout l.world in
      (
        elim answer [ none ↦ (none, "timeout") | some (rc, out) ↦ (some rc, take_chars 4000 out) ],
        record { world = w; asked = l.asked ++ verb ∷ [] },
      )

  -- _active()
  unfoldable pub unit_active : String → Line W → Bool × Line W
  unfolding gate
  unit_active ip l =
      let ((rc, out), after) = gate ip "status" 30 l in
      (is_zero rc && elem "ActiveState=active" (splitlines out), after)

  -- _http_ok()
  unfoldable pub http_ok : String → String → Line W → Result Bool × Line W
  http_ok url expect l =
      let (answer, w) = m.fetch url l.world in
      (
        elim answer [
          | raise e ↦ raise e
          | ok none ↦ ok false
          | ok (some page) ↦ ok (has_part expect page)
        ],
        record l { world = w },
      )

  abbrev pub page_ok : Option String → String → Line W → Result Bool × Line W
  page_ok none expect l = (ok true, l)
  page_ok (some url) expect l = if str_eq url "" then (ok true, l) else http_ok url expect l

  -- _active(ip) and (not url or _http_ok(url, expect))
  unfoldable pub healthy : HostConfig → String → Line W → Result Bool × Line W
  unfolding unit_active http_ok
  healthy h ip l =
      let (up, after) = unit_active ip l in
      if up then page_ok h.verify_url (or_else "" h.verify_expect) after else (ok false, after)

  abbrev pub rest_of :
      (Line W → Option (Result Bool × Line W))
      → Result Bool × Line W
      → Option (Result Bool × Line W)
  rest_of again (raise e, l) = some (raise e, l)
  rest_of again (ok true, l) = some (ok true, l)
  rest_of again (ok false, l) = again (record l { world = m.sleep 3 l.world })

  -- The loop of verify(), for a number of rounds; `none` if they do not suffice.
  unfoldable pub poll : HostConfig → String → ℕ → ℕ → Line W → Option (Result Bool × Line W)
  unfolding healthy
  poll h ip deadline zero l = none
  poll h ip deadline (suc n) l =
      let again = poll h ip deadline n in
      if ltb (m.clock l.world) deadline then rest_of again (healthy h ip l) else some (ok false, l)

  -- verify(), whose rounds are as many as the timeout has milliseconds, and one more
  unfoldable pub verify : HostConfig → String → Line W → Option (Result Bool × Line W)
  unfolding poll
  verify h ip l = poll h ip (m.clock l.world + 1000 * timeout_of h) (suc (1000 * timeout_of h)) l

  abbrev pub failed_text : String → Option ℤ → String → String
  failed_text verb rc out = String.◌++◌ "rgate " (
      String.◌++◌ verb (
        String.◌++◌ " failed (rc="
          (String.◌++◌ (m.decimal rc) (String.◌++◌ "): " (take_chars 300 (strip out))))))

  abbrev pub late_text : HostConfig → String → String
  late_text h verb = String.◌++◌ verb (
      String.◌++◌ " ran but verification failed within "
        (String.◌++◌ (m.decimal (some (pos (timeout_of h)))) "s"))

  abbrev pub done_text : String → ℕ → String
  done_text verb spent =
      String.◌++◌ verb (String.◌++◌ " ok, verified in " (String.◌++◌ (m.seconds spent) "s"))

  -- What execute() makes of verify()
  abbrev pub verified :
      HostConfig → String → ℕ → Result Bool × Line W → Result (Bool × String) × Line W
  verified h verb started (raise e, l) = (raise e, l)
  verified h verb started (ok false, l) = (ok (false, late_text h verb), l)
  verified h verb started (ok true, l) = (ok (true, done_text verb (m.clock l.world - started)), l)

  unfoldable pub execute_at :
      HostConfig → String → String → Line W → Option (Result (Bool × String) × Line W)
  unfolding gate verify
  execute_at h ip verb l =
      let ((rc, out), after) = gate ip verb 60 l in
      if is_zero rc
      then map_option (verified h verb (m.clock l.world)) (verify h ip after)
      else some (ok (false, failed_text verb rc out), after)

  unfoldable pub execute_on :
      HostConfig → Option String → String → Line W → Option (Result (Bool × String) × Line W)
  unfolding execute_at
  execute_on h none verb l = some (raise key_error, l)
  execute_on h (some ip) verb l = execute_at h ip verb l

  -- execute()
  unfoldable pub execute : HostConfig → String → Line W → Option (Result (Bool × String) × Line W)
  unfolding execute_on
  execute h verb l = execute_on h h.ip verb l
