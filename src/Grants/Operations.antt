-- ===== src/Grants/Operations.antt =====
-- Every operation of configs/responder/grants.py keeps the invariant of its tables.
use thearchivist.Prelude.{
  ℕ, ◌≡◌, refl, inl, inr, String, Bool, true, false, some, ◌==◌, str_eq, Option-cases, Bool-cases,
}
use thearchivist.Table.{find, update, both}
use thearchivist.Table.Laws.{All-update, All-insert}
use thearchivist.Registry.{Registry, is_protected}
use thearchivist.Grants.{
  AutoRun, RevokeLink, Book, has_id, is_for, is_active, clashes, insert_grant, new_grant, renewed,
  record_new, remember, start_auto_run, end_grant, finish_auto_run, revoke_link, revoke,
}
use thearchivist.Grants.Invariant.{Inv, known, update-Inv, insert-Inv, renewed-Keeps, ended-Keeps}

module _ (reg : Registry) (b : Book) (v : Inv reg b) where
  record_new-Inv :
      (host verb unit job_id : String) (now : ℕ) (new_id : String)
      → is_protected reg host ≡ false
      → Inv reg (record_new host verb unit job_id now new_id b).0
  unfolding record_new
  record_new-Inv host verb unit job_id now new_id free =
      let g = new_grant new_id host verb unit job_id now in
      elim (Option-cases (find (clashes g) b.grants)) [
        | inr (row, taken) ↦ rw (taken, record_new) v
        | inl none_like ↦
            rw (none_like, record_new)
              (insert-Inv reg b v g none_like
                (record { learned = free; ended = refl; explained = refl }))
      ]

  pub remember-Inv :
      (host verb unit job_id : String) (now : ℕ) (new_id : String)
      → Inv reg (remember reg host verb unit job_id now new_id b).0
  unfolding remember insert_grant
  remember-Inv host verb unit job_id now new_id = elim (Bool-cases (is_protected reg host)) [
    | inl ask ↦ rw ask v
    | inr free ↦ rw free (elim (Option-cases (find (is_for host verb unit) b.grants)) [
      | inr (row, e) ↦ rw e (
          update-Inv reg b v (has_id row.id) (renewed job_id now)
            (renewed-Keeps reg b v job_id now))
      | inl fresh ↦ rw fresh (record_new-Inv host verb unit job_id now new_id free)
    ])
  ]

  pub end_grant-Inv : (i reason : String) (now : ℕ) → Inv reg (end_grant i reason now b).0
  unfolding end_grant
  end_grant-Inv i reason now =
      update-Inv reg b v (both (has_id i) is_active) _ (ended-Keeps reg b v reason now)

  pub start_auto_run-Inv : (i job_id : String) (now : ℕ) → Inv reg (start_auto_run i job_id now b).0
  unfolding start_auto_run
  start_auto_run-Inv i job_id now = elim (Option-cases (find (has_id i) b.grants)) [
    | inl unknown ↦ rw (unknown, start_auto_run) v
    | inr (row, e) ↦
        rw (e, start_auto_run)
          (record {
            ids = v.ids;
            actions = v.actions;
            valid = v.valid;
            runs = All-insert _ _ b.auto_runs v.runs (rw e);
            links = v.links;
          })
  ]

  module _ (hash : String → String) where
    pub revoke_link-Inv : (i token : String) → Inv reg (revoke_link hash i token b).0
    unfolding revoke_link
    revoke_link-Inv i token =
        elim (Option-cases
          (find (λ (l : RevokeLink). str_eq l.token_hash (hash token)) b.revoke_links)) [
            | inr (row, taken) ↦ rw (taken, revoke_link) v
            | inl fresh ↦ elim (Option-cases (find (has_id i) b.grants)) [
              | inl unknown ↦ rw (fresh, revoke_link, unknown) v
              | inr (row, e) ↦
                  rw (fresh, revoke_link, e)
                    (record {
                      ids = v.ids;
                      actions = v.actions;
                      valid = v.valid;
                      runs = v.runs;
                      links = All-insert _ _ b.revoke_links v.links (rw e);
                    })
            ]
          ]

    pub revoke-Inv : (i token : String) (now : ℕ) → Inv reg (revoke hash i token now b).0
    unfolding revoke
    revoke-Inv i token now =
        elim (Option-cases
          (find (λ (l : RevokeLink). str_eq l.token_hash (hash token)) b.revoke_links)) [
            | inl unknown ↦ rw (unknown, revoke) v
            | inr (row, e) ↦
                rw (e, revoke)
                  (elim (Bool-cases (str_eq row.grant_id i)) [
                    | inl same ↦ rw same (unfold end_grant in end_grant-Inv i "revoked" now)
                    | inr other ↦ rw other v
                  ])
          ]

module _ (reg : Registry) where
  marked-Inv :
      (b : Book) (p : AutoRun → Bool) (ok_now : Bool)
      → Inv reg b
      → Inv reg
          (record b { auto_runs = update p (λ r. record r { verified = some ok_now }) b.auto_runs })
  marked-Inv b p ok_now v = record {
    ids = v.ids;
    actions = v.actions;
    valid = v.valid;
    links = v.links;
    runs =
        All-update (λ (r : AutoRun). known b r.grant_id ≡ true) p _ b.auto_runs
          (λ r o. elim (Bool-cases (p r)) [ inl hit ↦ rw hit o | inr miss ↦ rw miss o ]) v.runs;
  }

  pub finish_auto_run-Inv :
      (b : Book) (run_id : ℕ) (i : String) (verified : Bool) (now : ℕ)
      → Inv reg b
      → Inv reg (finish_auto_run run_id i verified now b)
  unfolding finish_auto_run
  finish_auto_run-Inv b run_id i true now v = marked-Inv b (λ r. r.id == run_id) true v
  finish_auto_run-Inv b run_id i false now v =
      end_grant-Inv reg _ (marked-Inv b (λ r. r.id == run_id) false v) i "verify-failed" now

-- The operations of the module that change its tables.
pub data Operation : Type 0 where
  remembers : String → String → String → String → ℕ → String → Operation
  starts : String → String → ℕ → Operation
  finishes : ℕ → String → Bool → ℕ → Operation
  ends : String → String → ℕ → Operation
  links : String → String → Operation
  revokes : String → String → ℕ → Operation

unfoldable pub operate : Registry → (String → String) → Operation → Book → Book
operate reg hash (remembers host verb unit job_id now new_id) b =
    (remember reg host verb unit job_id now new_id b).0
operate reg hash (starts i job_id now) b = (start_auto_run i job_id now b).0
operate reg hash (finishes run_id i verified now) b = finish_auto_run run_id i verified now b
operate reg hash (ends i reason now) b = (end_grant i reason now b).0
operate reg hash (links i token) b = (revoke_link hash i token b).0
operate reg hash (revokes i token now) b = (revoke hash i token now b).0

-- Every operation keeps the invariant: grant ids differ, no action has two grants, every grant is for
-- a host that the registry does not protect and has an end and a reason exactly if it is inactive,
-- and every run and every revoke link belongs to a grant of the table.
pub operate-Inv :
    (reg : Registry) (hash : String → String) (o : Operation) (b : Book)
    → Inv reg b
    → Inv reg (operate reg hash o b)
unfolding operate
operate-Inv reg hash (remembers host verb unit job_id now new_id) b v =
    remember-Inv reg b v host verb unit job_id now new_id
operate-Inv reg hash (starts i job_id now) b v = start_auto_run-Inv reg b v i job_id now
operate-Inv reg hash (finishes run_id i verified now) b v =
    finish_auto_run-Inv reg b run_id i verified now v
operate-Inv reg hash (ends i reason now) b v = end_grant-Inv reg b v i reason now
operate-Inv reg hash (links i token) b v = revoke_link-Inv reg b v hash i token
operate-Inv reg hash (revokes i token now) b v = revoke-Inv reg b v hash i token now
