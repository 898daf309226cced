-- ===== src/Store/Operations.antt =====
-- configs/responder/store.py: the operations. Each returns the store and the caller's result.
-- `hash` stands for the SHA-256 digest of `_hash`, and comparing digests is equality.
use thearchivist.Prelude.{
  ℕ, ◌+◌, String, Bool, false, not, ◌&&◌, Option, none, some, List, [], ◌∷◌, map, leb, str_eq,
  if◌then◌else◌, ℤ, after, Result, ok, raise, type_error, value_error,
}
use thearchivist.Table.{find, select, count}
use thearchivist.Store.Data.{
  State, pending, approved, denied, expired, executing, Job, Store, dedupe_key, has_id, has_key,
  in_state, not_closed, expires_by,
}
use thearchivist.Store.Statements.{
  Update, mark_pending, decide_approved, decide_denied, mark_expired, mark_approved, mark_executing,
  mark_closed, run_update, won,
}

unfoldable pub get : String → Store → Option Job
get i s = find (has_id i) s.jobs

unfoldable pub jobs_created_since : ℤ → Store → ℕ
jobs_created_since since s = count (λ r. after since r.created_at) s.jobs

-- The string constants that claim() returns.
pub data Outcome : Type 0 where
  claimed already_handled invalid late : Outcome

unfoldable pub auto_approve : String → String → String → ℕ → Store → Store × Bool
auto_approve i verb unit now s =
    let u = mark_approved i verb unit now in ((run_update u s).0, won u s)

unfoldable pub start_execution : String → ℕ → Store → Store × Bool
start_execution i now s = let u = mark_executing i now in ((run_update u s).0, won u s)

unfoldable pub close : String → String → ℕ → Store → Store × Bool
close i reason now s = let u = mark_closed i reason now in ((run_update u s).0, won u s)

-- [i for i in ids if <the UPDATE of i has rowcount 1>]
unfoldable pub update_each : (String → Update) → List String → Store → Store × List String
update_each u [] s = (s, [])
update_each u (i ∷ is) s =
    let (s', rest) = update_each u is (run_update (u i) s).0 in
    (s', if won (u i) s then i ∷ rest else rest)

abbrev pub ids : List Job → List String
ids = map (λ r. r.id)

unfoldable pub interrupted : ℕ → Store → Store × List String
interrupted now s =
    update_each (λ i. mark_closed i "interrupted" now) (ids (select (in_state executing) s.jobs)) s

-- dedupe_key = ? AND state NOT IN ('closed', 'executing')
abbrev pub recoverable : String → Job → Bool
recoverable key r = has_key key r && (not_closed r && not (in_state executing r))

unfoldable pub recover : String → String → ℕ → Store → Store × List String
recover host service now s =
    update_each (λ i. mark_closed i "recovered" now)
      (ids (select (recoverable (dedupe_key host service)) s.jobs)) s

-- state = 'pending' AND expires_at <= ?
abbrev pub due : ℕ → Job → Bool
due now r = in_state pending r && expires_by now r

unfoldable pub expire_due : ℕ → Store → Store × List String
expire_due now s = update_each (λ i. mark_expired i now) (ids (select (due now) s.jobs)) s

module _ (hash : String → String) where
  -- `token` is what secrets.token_urlsafe(24) returns.
  unfoldable pub propose : String → String → String → String → ℕ → ℕ → Store → Store × Option String
  propose i verb unit token now ttl s =
      let u = mark_pending i verb unit (hash token) (now + ttl) now in
      ((run_update u s).0, if won u s then some token else none)

-- decision in ("approved", "denied"), with the UPDATE that it leads to
abbrev pub decision_update : State → Option (String → ℕ → Update)
decision_update approved = some decide_approved
decision_update denied = some decide_denied
decision_update _ = none

-- get(conn, job_id)["state"]
unfoldable pub state_of : Option Job → Result (Outcome × Option State)
state_of none = raise type_error
state_of (some r) = ok (already_handled, some r.state)

abbrev pub Claim : Type 0
Claim = Store × Result (Outcome × Option State)

-- The last part of claim(): the guarded UPDATE, and the state read again where it misses.
unfoldable pub claim_update : (String → ℕ → Update) → String → State → ℕ → Store → Claim
unfolding get state_of
claim_update decide i decision now s =
    let s' = (run_update (decide i now) s).0 in
    (s', if won (decide i now) s then ok (claimed, some decision) else state_of (get i s'))

-- After the token is known to be right. `row` is the row as it was read.
unfoldable pub claim_decided : (String → ℕ → Update) → Job → String → State → ℕ → Store → Claim
unfolding claim_update
claim_decided decide row i decision now s =
    if in_state pending row
    then (elim row.expires_at [
      | none ↦ (s, raise type_error)
      | some e ↦
          if leb e now
          then ((run_update (mark_expired i now) s).0, ok (late, some expired))
          else claim_update decide i decision now s
    ])
    else claim_update decide i decision now s

module _ (hash : String → String) where
  -- hmac.compare_digest(_hash(token), row["token_hash"]), where the row has a hash
  abbrev pub token_matches : String → Job → Bool
  token_matches token row = elim row.token_hash [ none ↦ false | some h ↦ str_eq (hash token) h ]

  unfoldable pub claim_read :
      (String → ℕ → Update) → Option Job → String → String → State → ℕ → Store → Claim
  unfolding claim_decided
  claim_read decide none i token decision now s = (s, ok (invalid, none))
  claim_read decide (some row) i token decision now s =
      if token_matches token row
      then claim_decided decide row i decision now s
      else (s, ok (invalid, none))

  -- `row` is what the SELECT returned: it may be older than the store, when other threads run.
  unfoldable pub claim_row : Option Job → String → String → State → ℕ → Store → Claim
  unfolding claim_read
  claim_row row i token decision now s = elim (decision_update decision) [
    | none ↦ (s, raise value_error)
    | some decide ↦ claim_read decide row i token decision now s
  ]

  unfoldable pub claim : String → String → State → ℕ → Store → Claim
  unfolding claim_row get
  claim i token decision now s = claim_row (get i s) i token decision now s
