-- ===== src/Grants/Demotion.antt =====
-- configs/responder/grants.py: a run that a remembered approval allowed fails, as handle_diagnosis() of
-- configs/responder/app.py goes through it, with the operations of other handlers in between.
use thearchivist.Prelude.{
  ℕ, ◌≡◌, refl, sym, ◌∙◌, inl, inr, String, Bool, true, false, none, some, List, [], ◌∷◌, arith,
  eq-str_eq, Option-cases, Bool-cases, ok,
}
use thearchivist.Table.{find, amend, both, next_rowid}
use thearchivist.Table.Laws.{narrow}
use thearchivist.Registry.{Registry}
use thearchivist.Grants.{
  Grant, AutoRun, Book, allowed, no_grant, has_id, is_for, is_active, check_auto, start_auto_run,
  finish_auto_run,
}
use thearchivist.Grants.Budget.{check_auto_iff}
use thearchivist.Grants.Invariant.{Inv}
use thearchivist.Grants.Operations.{Operation, start_auto_run-Inv, finish_auto_run-Inv}
use thearchivist.Grants.Revoking.{grant_for, ended_by, active_for, grant_for-end, idle-no_grant}
use thearchivist.Grants.Lasting.{
  operate_all, operate_all-Inv, HasGrant, HasGrant-start_auto_run, HasGrant-operate_all,
}

find_other :
    (p q : Grant → Bool) (xs : List Grant) (g : Grant)
    → find p xs ≡ some g
    → q g ≡ true
    → (x : Grant) × (find q xs ≡ some x)
unfolding find
find_other p q [] g e hit = cc
find_other p q (x ∷ xs) g e hit = elim (Bool-cases (q x)) [
  | inl here ↦ (x, rw here refl)
  | inr away ↦ elim (Bool-cases (p x)) [
    | inl found ↦ absurd (ground (arith, e, hit, found, away))
    | inr other ↦
        let (y, later) = find_other p q xs g (ground (arith, e, other)) hit in (y, rw away later)
  ]
]

module _ (host verb unit i : String) where
  -- While the grant is there, a run of it starts.
  starts_run :
      (job_id : String) (at : ℕ) (b : Book)
      → HasGrant host verb unit i b.grants
      → (run_id : ℕ) × ((start_auto_run i job_id at b).1 ≡ ok run_id)
  unfolding start_auto_run
  starts_run job_id at b (g, e, named) =
      let (row, known) =
        find_other (is_for host verb unit) (has_id i) b.grants g e (eq-str_eq g.id i named) in
      (next_rowid (λ (r : AutoRun). r.id) b.auto_runs, rw (known, start_auto_run) refl)

  idle_after_end :
      (g : Grant) (at : ℕ)
      → g.id ≡ i
      → narrow is_active (some (amend (both (has_id i) is_active) (ended_by "verify-failed" at) g))
        ≡ none
  idle_after_end g at named = ground (arith, named, eq-str_eq g.id i named)

  finished_idle :
      (run_id at : ℕ) (b : Book)
      → HasGrant host verb unit i b.grants
      → narrow is_active (grant_for host verb unit (finish_auto_run run_id i false at b)) ≡ none
  unfolding finish_auto_run
  finished_idle run_id at b (g, e, named) =
      rw (grant_for-end host verb unit i "verify-failed" at b, e) (idle_after_end g at named)

module _ (reg : Registry) (hash : String → String) (host verb unit i : String) (now : ℕ) (b : Book)
    (v : Inv reg b) (run : check_auto reg host verb unit now b ≡ (some i, allowed)) where
  allowed-HasGrant : HasGrant host verb unit i b.grants
  allowed-HasGrant =
      let m = (check_auto_iff reg host verb unit now b i).0 run in
      let e = sym (active_for reg host verb unit b v) ∙ m.found in
      elim (Option-cases (grant_for host verb unit b)) [
        | inl missing ↦ absurd (ground (arith, e, missing))
        | inr (g, is) ↦ (g, is, ground (arith, e, is, m.named))
      ]

  -- With the invariant: when check_auto() has allowed a run, the run starts and gets an id whatever
  -- operations came in between. When its verification has failed, whatever operations came in between
  -- again, also a new approval of the action, check_auto() then finds no grant for the action, at any
  -- time, so that it is asked for.
  pub failed_run_demotes :
      (earlier during : List Operation) (job_id : String) (started at later : ℕ)
      → let b' = operate_all reg hash earlier b in
        (run_id : ℕ) × ((start_auto_run i job_id started b').1 ≡ ok run_id)
        × (check_auto reg host verb unit later (
              finish_auto_run run_id i false at
                (operate_all reg hash during (start_auto_run i job_id started b').0))
            ≡ (none, no_grant))
  failed_run_demotes earlier during job_id started at later =
      let b' = operate_all reg hash earlier b in
      let v' = operate_all-Inv reg hash earlier b v in
      let h' = HasGrant-operate_all host verb unit i reg hash earlier b allowed-HasGrant in
      let running = (start_auto_run i job_id started b').0 in
      let v'' = start_auto_run-Inv reg b' v' i job_id started in
      let h'' = HasGrant-start_auto_run host verb unit i i job_id started b' h' in
      let over = operate_all reg hash during running in
      let h = HasGrant-operate_all host verb unit i reg hash during running h'' in
      let (run_id, started_run) = starts_run host verb unit i job_id started b' h' in
      (
        run_id,
        started_run,
        idle-no_grant reg host verb unit (finish_auto_run run_id i false at over)
            (finish_auto_run-Inv reg over run_id i false at
              (operate_all-Inv reg hash during running v''))
            later ((check_auto_iff reg host verb unit now b i).0 run).unprotected
            (finished_idle host verb unit i run_id at over h),
      )
