-- ===== src/Store/Data.antt =====
-- configs/responder/store.py: the tables `jobs` and `alerts`, and the tests on a row.
use Prim.Native.String
use thearchivist.Prelude.{
  ℕ, String, Bool, true, false, not, ◌&&◌, ◌||◌, Option, none, some, List, [], leb, ltb, str_eq, ℤ,
  after,
}

-- The word `open` is `opened` here; the other states keep their words.
pub data State : Type 0 where
  opened pending approved denied expired executing closed : State

pub record Job : Type 0 where
  pub id : String
  pub dedupe_key : String
  pub host : String
  pub service : String
  pub state : State
  pub created_at : ℕ
  pub updated_at : ℕ
  pub closed_at : Option ℕ
  pub close_reason : Option String
  pub verb : Option String
  pub unit : Option String
  pub token_hash : Option String
  pub expires_at : Option ℕ

pub record Alert : Type 0 where
  pub id : ℕ
  pub job_id : String
  pub received_at : ℕ
  pub notification_type : String
  pub state : String
  pub output : String

pub record Store : Type 0 where
  pub jobs : List Job
  pub alerts : List Alert

abbrev pub empty_store : Store
empty_store = record { jobs = []; alerts = [] }

abbrev pub output_max : ℕ
output_max = 4096

unfoldable pub dedupe_key : String → String → String
dedupe_key host service = String.◌++◌ host (String.◌++◌ "\u{1f}" service)

abbrev pub state_eq : State → State → Bool
state_eq opened opened = true
state_eq pending pending = true
state_eq approved approved = true
state_eq denied denied = true
state_eq expired expired = true
state_eq executing executing = true
state_eq closed closed = true
state_eq _ _ = false

-- id = ?
abbrev pub has_id : String → Job → Bool
has_id i r = str_eq r.id i

-- dedupe_key = ?
abbrev pub has_key : String → Job → Bool
has_key k r = str_eq r.dedupe_key k

-- state = ?
abbrev pub in_state : State → Job → Bool
in_state s r = state_eq s r.state

abbrev pub not_closed : Job → Bool
not_closed r = not (in_state closed r)

-- expires_at > ?
abbrev pub expires_after : ℕ → Job → Bool
expires_after now r = elim r.expires_at [ none ↦ false | some e ↦ ltb now e ]

-- expires_at <= ?
abbrev pub expires_by : ℕ → Job → Bool
expires_by now r = elim r.expires_at [ none ↦ false | some e ↦ leb e now ]

-- close_reason != 'recovered' AND closed_at > ?
abbrev pub closed_since : ℤ → Job → Bool
closed_since since r =
    (elim r.close_reason [ none ↦ false | some why ↦ not (str_eq why "recovered") ])
    && (elim r.closed_at [ none ↦ false | some t ↦ after since t ])

-- A job that an alert for its key is attached to.
abbrev pub is_live : String → ℤ → Job → Bool
is_live key since r = has_key key r && (not_closed r || closed_since since r)
