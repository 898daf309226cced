-- ===== src/App/Stranded.antt =====
-- configs/responder/app.py: a job whose tap comes after its deadline and before the sweeper. claim()
-- makes it expired, tap() leaves it so, and the sweeper looks for pending jobs only.
use mathlib.Core.Path.{subst}
use thearchivist.Prelude.{
  ℕ, ◌≡◌, refl, sym, ◌∙◌, inl, inr, String, Bool, true, false, some, List, [], ◌∷◌, arith,
  str_eq_refl, ok, sub_ℕ,
}
use thearchivist.Table.{All}
use thearchivist.Table.Latest.{count_pos_of_find}
use thearchivist.Store.Data.{
  not_closed, pending, expired, Job, dedupe_key, has_id, in_state, expires_by, is_live,
}
use thearchivist.Store.Statements.{Report, intake_alert, to_state}
use thearchivist.Store.Operations.{get, late, claim, token_matches}
use thearchivist.Store.Sweeps.{interrupted_lem}
use thearchivist.Store.Invariant.{Inv, get-RowIsValid}
use thearchivist.Store.Effects.{has_id-get}
use thearchivist.Store.Claims.{claim-verdict, claim-settled}
use thearchivist.Store.Intake.{live_for, intake_alert_lem}
use thearchivist.App.World.{World, Env}
use thearchivist.App.Paths.{TapAction}
use thearchivist.App.History.{Handler, sweeps, starts_up, handle, handle-Steps, serve}
use thearchivist.App.Http.{decision_of, answer_tap, tap, start_up}
use thearchivist.App.Safety.{Sound, Steps-Sound}
use thearchivist.App.Taps.{decides}
use thearchivist.App.Requests.{tap-Implements}
use thearchivist.App.Sweeps.{sweep_lem}

-- What serves no request: a round of the sweeper, and a restart of the service
abbrev pub is_chore : Handler → Bool
is_chore sweeps = true
is_chore starts_up = true
is_chore _ = false

-- A job that is not closed is live for its host and service, so that an alert is attached to a job.
pub silent_for :
    {env : Env} (w : World) (r : Job)
    → Sound env w
    → get r.id w.store ≡ some r
    → not_closed r ≡ true
    → (a : Report) (now window : ℕ) (new_id : String) → a.host ≡ r.host
    → a.service ≡ r.service
    → (i : String) × ((intake_alert a now window new_id w.store).1 ≡ ok (i, false))
unfolding get
silent_for w r sound there dead a now window new_id h h' =
    elim (intake_alert_lem a now window new_id w.store) [
      | inl (row, latest, known, said) ↦ (row.id, rw said refl)
      | inr (nothing_live, opened) ↦
          let keyed = (get-RowIsValid r.id w.store r sound.jobs there).keyed in
          let live : is_live (dedupe_key a.host a.service) (sub_ℕ now window) r ≡ true =
            rw (h, h', dead, keyed, str_eq_refl (dedupe_key r.host r.service)) refl in
          absurd (
            ground (
              arith,
              nothing_live,
              count_pos_of_find (live_for a now window) (has_id r.id) w.store.jobs r there live,
            ))
    ]

module _ (env : Env) (digits : ℕ → String) where
  -- The job is expired, and every alert for its host and service is attached to a job that there is.
  pub record Stranded (r : Job) (w : World) : Type 0 where
    pub left : get r.id w.store ≡ some r
    pub dead : r.state ≡ expired
    pub silent :
        (a : Report) (now window : ℕ) (new_id : String)
        → a.host ≡ r.host
        → a.service ≡ r.service
        → (i : String) × ((intake_alert a now window new_id w.store).1 ≡ ok (i, false))

  chore-keeps :
      (h : Handler) (w : World) (j : String) (r : Job)
      → is_chore h ≡ true
      → Inv w.store
      → get j w.store ≡ some r
      → r.state ≡ expired
      → get j (handle env digits h w).store ≡ some r
  unfolding handle start_up
  chore-keeps sweeps w j r e v there dead =
      let (t, after) = (sweep_lem env w v.unique).1 j r there in after ∙ rw dead refl
  chore-keeps starts_up w j r e v there dead =
      (interrupted_lem w.store v.unique (env.clock w.reads) j).0 ∙ rw (there, dead) refl
  chore-keeps _ w j r e v there dead = absurd (ground (arith, e))

  chores-keep :
      (hs : List Handler) (w : World) (j : String) (r : Job)
      → All (λ h. is_chore h ≡ true) hs
      → Sound env w
      → get j w.store ≡ some r
      → r.state ≡ expired
      → (get j (serve env digits hs w).store ≡ some r) × Sound env (serve env digits hs w)
  unfolding serve
  chores-keep [] w j r e sound there dead = (there, sound)
  chores-keep (h ∷ hs) w j r (e, es) sound there dead =
      chores-keep hs (handle env digits h w) j r es
        (Steps-Sound (handle-Steps env digits h w) sound)
        (chore-keeps h w j r e sound.jobs there dead) dead

  late-tap :
      (action : TapAction) (i token : String) (w : World)
      → (claim env.hash i token (decision_of action) (env.clock w.reads) w.store).1
        ≡ ok (late, some expired)
      → (tap env action i token w).0.store
        ≡ (claim env.hash i token (decision_of action) (env.clock w.reads) w.store).0
  unfolding tap answer_tap
  late-tap TapAction.approve i token w e = rw e refl
  late-tap TapAction.deny i token w e = rw e refl

  -- Where both sets of tables keep their invariants, a tap with the right token on a pending job whose
  -- deadline has come makes the job expired and leaves it so: after any rounds of the sweeper and any
  -- restarts of the service the job is still expired and not closed, and an alert for its host and
  -- service then, whenever it comes, opens no job.
  pub late_tap_strands :
      (action : TapAction) (i token : String) (w : World) (r : Job) (hs : List Handler)
      → Sound env w
      → get i w.store ≡ some r
      → token_matches env.hash token r ≡ true
      → in_state pending r ≡ true
      → expires_by (env.clock w.reads) r ≡ true
      → All (λ h. is_chore h ≡ true) hs
      → Stranded
          (to_state expired (env.clock w.reads) r)
          (serve env digits hs (tap env action i token w).0)
  late_tap_strands action i token w r hs sound there right waiting over chores =
      let t = env.clock w.reads in
      let row = to_state expired t r in
      let store = w.store in
      let said : (claim env.hash i token (decision_of action) t store).1 ≡ ok (late, some expired) =
        claim-verdict env.hash i token t store (decision_of action) sound.jobs (decides action)
        ∙ rw (there, right, waiting, over) refl in
      let found : get i (claim env.hash i token (decision_of action) t store).0 ≡ some row =
        claim-settled env.hash i token t store (decision_of action) sound.jobs (decides action) i
        ∙ rw (str_eq_refl i, there, right, waiting, over) refl in
      let tapped = (tap env action i token w).0 in
      let expired_row : get i tapped.store ≡ some row = rw (late-tap action i token w said) found in
      let (kept, later) =
        chores-keep hs tapped i row chores
          (Steps-Sound ((tap-Implements env action i token).steps w) sound) expired_row refl in
      let named : get row.id (serve env digits hs tapped).store ≡ some row =
        subst (λ j. get j (serve env digits hs tapped).store ≡ some row)
          (sym (has_id-get i store r there)) kept in
      record {
        left = named;
        dead = refl;
        silent = silent_for (serve env digits hs tapped) row later named refl;
      }
