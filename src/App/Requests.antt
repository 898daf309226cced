-- ===== src/App/Requests.antt =====
-- The requests of configs/responder/app.py, in terms of the steps of App/Steps.
use thearchivist.Prelude.{ℕ, inl, inr, String, Option, none, some, Bool-cases, Option-cases, leb, ℤ}
use thearchivist.Store.Data.{
  State, opened, pending, approved, denied, expired, executing, closed, in_state, Job, Store,
}
use thearchivist.Store.Statements.{
  Report, Reach, here, next, Update, decide_approved, decide_denied, mark_expired, updates, exec,
}
use thearchivist.Store.Operations.{
  Outcome, claimed, already_handled, invalid, late, get, claim_update, claim_decided, claim_read,
  claim_row, token_matches, claim, recover, interrupted,
}
use thearchivist.Store.Sweeps.{Reach-recover, Reach-interrupted}
use thearchivist.App.Paths.{TapAction, match_revoke}
use thearchivist.App.Http.{
  answer_tap, tap, revoke_tap, take_alert, alert_read, alert_sized, alert, post_revoke, post_tap,
  post, start_up, Request,
}
use thearchivist.App.World.{Env}
use thearchivist.App.Steps.{Implements}
use thearchivist.App.Refines.{handler_rules}

module _ (i : String) (t : ℕ) (s : Store) where
  module _ (decide : String → ℕ → Update) (decision : State) where
    Reach-claim_update : Reach s (claim_update decide i decision t s).0
    unfolding claim_update exec
    Reach-claim_update = next here (updates (decide i t))

    Reach-claim_decided : (row : Job) → Reach s (claim_decided decide row i decision t s).0
    unfolding claim_decided exec
    Reach-claim_decided row = elim (Bool-cases (in_state pending row)) [
      | inr decided ↦ rw decided Reach-claim_update
      | inl waiting ↦ elim (Option-cases row.expires_at) [
        | inl open_end ↦ rw (waiting, claim_decided, open_end) here
        | inr (e, ends) ↦
            rw (waiting, claim_decided, ends)
              (elim (Bool-cases (leb e t)) [
                | inl over ↦ rw over (next here (updates (mark_expired i t)))
                | inr in_time ↦ rw in_time Reach-claim_update
              ])
      ]
    ]

  module _ (hash : String → String) (token : String) where
    Reach-claim_read :
        (decide : String → ℕ → Update) (decision : State) (o : Option Job)
        → Reach s (claim_read hash decide o i token decision t s).0
    unfolding claim_read
    Reach-claim_read decide decision none = here
    Reach-claim_read decide decision (some row) = elim (Bool-cases (token_matches hash token row)) [
      | inl right ↦ rw right (Reach-claim_decided decide decision row)
      | inr wrong ↦ rw wrong here
    ]

    Reach-claim : (decision : State) → Reach s (claim hash i token decision t s).0
    unfolding claim claim_row
    Reach-claim approved = Reach-claim_read decide_approved approved (get i s)
    Reach-claim denied = Reach-claim_read decide_denied denied (get i s)
    Reach-claim opened = here
    Reach-claim pending = here
    Reach-claim expired = here
    Reach-claim executing = here
    Reach-claim closed = here

module _ (env : Env) where
  answer_tap-Implements :
      (action : TapAction) (i : String) (r : Outcome × Option State)
      → Implements env (answer_tap env action i r)
  unfolding answer_tap
  answer_tap-Implements TapAction.approve i (claimed, state) = search handler_rules depth 40
  answer_tap-Implements TapAction.deny i (claimed, state) = search handler_rules depth 40
  answer_tap-Implements TapAction.approve i (invalid, state) = search handler_rules depth 40
  answer_tap-Implements TapAction.deny i (invalid, state) = search handler_rules depth 40
  answer_tap-Implements TapAction.approve i (already_handled, state) = search handler_rules depth 40
  answer_tap-Implements TapAction.deny i (already_handled, state) = search handler_rules depth 40
  answer_tap-Implements TapAction.approve i (late, state) = search handler_rules depth 40
  answer_tap-Implements TapAction.deny i (late, state) = search handler_rules depth 40

  pub tap-Implements :
      (action : TapAction) (i token : String) → Implements env (tap env action i token)
  unfolding tap
  tap-Implements action i token =
      search (handler_rules, answer_tap-Implements, Reach-claim) depth 40

  revoke_tap-Implements : (i token : String) → Implements env (revoke_tap env i token)
  unfolding revoke_tap
  revoke_tap-Implements i token = search handler_rules depth 40

  Reach-recovered : (h service : String) (t : ℕ) (s : Store) → Reach s (recover h service t s).0
  Reach-recovered h service t s = Reach-recover s here h service t

  take_alert-Implements :
      (digits : ℕ → String) (a : Report) → Implements env (take_alert env digits a)
  unfolding take_alert
  take_alert-Implements digits a = search (handler_rules, Reach-recovered) depth 40

  alert_read-Implements :
      (digits : ℕ → String) (o : Option Report) → Implements env (alert_read env digits o)
  unfolding alert_read
  alert_read-Implements digits none = search handler_rules depth 40
  alert_read-Implements digits (some a) = search (handler_rules, take_alert-Implements) depth 40

  alert_sized-Implements :
      (digits : ℕ → String) (q : Request) (n : Option ℤ)
      → Implements env (alert_sized env digits q n)
  unfolding alert_sized
  alert_sized-Implements digits q none = search handler_rules depth 40
  alert_sized-Implements digits q (some n) = search (handler_rules, alert_read-Implements) depth 40

  alert-Implements : (digits : ℕ → String) (q : Request) → Implements env (alert env digits q)
  unfolding alert
  alert-Implements digits q = search (handler_rules, alert_sized-Implements) depth 40

  post_revoke-Implements : (o : Option (String × String)) → Implements env (post_revoke env o)
  unfolding post_revoke
  post_revoke-Implements none = search handler_rules depth 40
  post_revoke-Implements (some (i, token)) = revoke_tap-Implements i token

  post_tap-Implements :
      (path : String) (o : Option (TapAction × String × String))
      → Implements env (post_tap env path o)
  unfolding post_tap
  post_tap-Implements path none = post_revoke-Implements (match_revoke path)
  post_tap-Implements path (some (action, i, token)) = tap-Implements action i token

  pub post-Implements :
      (digits : ℕ → String) (path : String) (q : Request) → Implements env (post env digits path q)
  unfolding post
  post-Implements digits path q =
      search (handler_rules, alert-Implements, post_tap-Implements) depth 40

  Reach-found_executing : (t : ℕ) (s : Store) → Reach s (interrupted t s).0
  Reach-found_executing t s = Reach-interrupted s here t

  pub start_up-Implements : Implements env (start_up env)
  unfolding start_up
  start_up-Implements = search (handler_rules, Reach-found_executing) depth 40
