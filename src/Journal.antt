-- ===== src/Journal.antt =====
-- configs/responder/journal.py: _publish() and what it calls. The clone stands for git, for the files
-- of the working copy and for the clock, in milliseconds; publishing happens one at a time.
pub mod Pushes
pub mod Scrub
mod Shadow
pub mod Record
pub mod Secrets
pub mod Published
pub mod Pings
use Prim.Native.String
use thearchivist.Prelude.{
  ℕ, zero, suc, ◌+◌, String, Bool, true, false, ◌&&◌, ◌||◌, Option, none, some, List, [], ◌∷◌, ◌++◌,
  ltb, str_eq, if◌then◌else◌, Error, Result, ok, raise,
}
use thearchivist.Table.{any}
use thearchivist.Text.{has_part}

-- What a git command came to
pub record GitAnswer : Type 0 where
  pub succeeded : Bool
  pub stderr : String

-- `clock` is what time.time() returns, and `tick` the state after it was read. `append` makes the directories of a path and appends a text to its file. A command may raise, as
-- where it takes too long.
pub record Clone (W : Type 0) : Type 0 where
  pub clock : W → ℕ
  pub tick : W → W
  pub is_cloned : W → Bool
  pub clone : W → Result GitAnswer × W
  pub git : List String → W → Result GitAnswer × W
  pub append : String → String → W → Result Bool × W
  pub branch : String
  pub subdir : String

-- The clone in some state, the git commands so far, _last_auth_ping, and when the phone was pinged,
-- the last time first.
pub record Desk (W : Type 0) : Type 0 where
  pub world : W
  pub asked : List (List String)
  pub last_auth_ping : ℕ
  pub pings : List ℕ

abbrev pub auth_ping_every : ℕ
auth_ping_every = 21600000

abbrev pub auth_signs : List String
auth_signs =
    "Permission denied" ∷ "publickey" ∷ "Repository not found" ∷ "denied to deploy key"
    ∷ "Host key verification failed" ∷ []

abbrev pub Act : Type 0 → Type 0 → Type 0
Act W A = Desk W → Result A × Desk W

module _ {W A B : Type 0} where
  -- The first exception ends a chain of calls.
  abbrev pub continue : (A → Act W B) → Result A × Desk W → Result B × Desk W
  continue k (ok a, d) = k a d
  continue k (raise e, d) = (raise e, d)

  infixl 5 ◌>>=◌
  abbrev pub ◌>>=◌ : Act W A → (A → Act W B) → Act W B
  ◌>>=◌ m k d = continue k (m d)

abbrev pub pure : {W A : Type 0} → A → Act W A
pure a d = (ok a, d)

module _ {W : Type 0} (c : Clone W) where
  -- _git()
  unfoldable pub git : List String → Act W GitAnswer
  git args d =
      let (r, w) = c.git args d.world in (r, record d { world = w; asked = d.asked ++ args ∷ [] })

  -- The command that clones the repository
  unfoldable pub clone_now : Act W GitAnswer
  clone_now d = let (r, w) = c.clone d.world in (r, record d { world = w })

  unfoldable pub append_text : String → String → Act W Bool
  append_text relpath text d =
      let (r, w) = c.append relpath text d.world in (r, record d { world = w })

  unfoldable pub configure : Act W (Option String)
  configure = do
    _ ← git ("sparse-checkout" ∷ "set" ∷ c.subdir ∷ [])
    _ ← git ("config" ∷ "user.name" ∷ "Responder (CT 116)" ∷ [])
    _ ← git ("config" ∷ "user.email" ∷ "responder@thearchivist.home.arpa" ∷ [])
    pure none

  unfoldable pub cloned : GitAnswer → Act W (Option String)
  cloned r = if r.succeeded then configure else pure (some r.stderr)

  -- _ensure_clone()
  unfoldable pub ensure_clone : Act W (Option String)
  ensure_clone d = (if c.is_cloned d.world then pure none else (clone_now >>= cloned)) d

  -- A rebase onto the branch, taken back if it fails
  unfoldable pub rebased : GitAnswer → Act W Bool
  rebased r =
      if r.succeeded then pure true else (do _ ← git ("rebase" ∷ "--abort" ∷ []); pure false)

  unfoldable pub rebase : Act W Bool
  rebase = do r ← git ("rebase" ∷ String.◌++◌ "origin/" c.branch ∷ []); rebased r

  abbrev pub fetch : Act W GitAnswer
  fetch = git ("fetch" ∷ "--depth" ∷ "1" ∷ "origin" ∷ c.branch ∷ [])

  abbrev pub is_behind : GitAnswer → Bool
  is_behind r = has_part "rejected" r.stderr || has_part "fetch first" r.stderr

  -- The answer to a push, where `again` are the rounds that are left
  unfoldable pub pushed : Act W (Option String) → GitAnswer → Act W (Option String)
  pushed again r =
      if r.succeeded
      then pure none
      else if is_behind r
      then (do _ ← fetch; _ ← rebase; again)
      else pure (some r.stderr)

  -- `for _ in range(n)`
  unfoldable pub push_rounds : ℕ → Act W (Option String)
  push_rounds zero = pure none
  push_rounds (suc n) =
      git ("push" ∷ "-q" ∷ "origin" ∷ String.◌++◌ "HEAD:" c.branch ∷ []) >>= pushed (push_rounds n)

  unfoldable pub committed : GitAnswer → Act W (Option String)
  committed r = if r.succeeded then push_rounds 3 else pure none

  unfoldable pub update_clone : GitAnswer → Act W Bool
  update_clone r = if r.succeeded then rebase else pure false

  -- _publish() behind _ensure_clone()
  unfoldable pub write_page : String → String → String → Act W (Option String)
  write_page relpath text note = do
    r ← fetch
    _ ← update_clone r
    _ ← append_text relpath text
    _ ← git ("add" ∷ "--sparse" ∷ relpath ∷ [])
    r' ← git ("commit" ∷ "-q" ∷ "-m" ∷ note ∷ [])
    committed r'

  -- `if err`: an empty text is no error.
  unfoldable pub write_unless : String → String → String → Option String → Act W (Option String)
  write_unless relpath text note none = write_page relpath text note
  write_unless relpath text note (some err) =
      if str_eq err "" then write_page relpath text note else pure (some err)

  -- _publish(): the text for _auth_problem(), if it is called.
  unfoldable pub publish : String → String → String → Act W (Option String)
  publish relpath text note = ensure_clone >>= write_unless relpath text note

  abbrev pub has_sign : String → Bool
  has_sign stderr = any (λ s. has_part s stderr) auth_signs

  abbrev pub is_due : Desk W → Bool
  is_due d = ltb (d.last_auth_ping + auth_ping_every) (c.clock d.world)

  -- The time that is stored is read anew.
  abbrev pub ping : Desk W → Desk W
  ping d =
      let t = c.clock d.world in
      record d { world = c.tick d.world; last_auth_ping = t; pings = t ∷ d.pings }

  abbrev pub past_reading : Desk W → Desk W
  past_reading d = record d { world = c.tick d.world }

  -- _auth_problem()
  unfoldable pub auth_problem : String → Desk W → Desk W
  auth_problem stderr d =
      if has_sign stderr then (if is_due d then ping (past_reading d) else past_reading d) else d

  abbrev pub after_publish : Result (Option String) × Desk W → Desk W
  after_publish (ok (some stderr), d) = auth_problem stderr d
  after_publish (_, d) = d

  -- _safe_publish(): an exception is logged.
  unfoldable pub safe_publish : String → String → String → Desk W → Desk W
  safe_publish relpath text note d = after_publish (publish relpath text note d)

-- An entry to publish, and whatever else happens to the clone and the clock between two entries
pub data Event (W : Type 0) : Type 0 where
  entry : String → String → String → Event W
  elsewhere : W → Event W

unfoldable pub publish_all : {W : Type 0} → Clone W → List (Event W) → Desk W → Desk W
unfolding safe_publish
publish_all c [] d = d
publish_all c (entry relpath text note ∷ es) d =
    publish_all c es (safe_publish c relpath text note d)
publish_all c (elsewhere w ∷ es) d = publish_all c es (record d { world = w })
