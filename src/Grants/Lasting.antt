-- ===== src/Grants/Lasting.antt =====
-- configs/responder/grants.py: what operations leave of the grant of an action.
use thearchivist.Prelude.{
  ℕ, ◌≡◌, refl, ◌∙◌, inl, inr, String, Bool, true, false, some, List, [], ◌∷◌, arith, str_eq,
  Option-cases, Bool-cases,
}
use thearchivist.Table.{find, amend, update, insert, both}
use thearchivist.Table.Laws.{find-update, find-insert}
use thearchivist.Registry.{Registry, is_protected}
use thearchivist.Grants.{
  Grant, RevokeLink, Book, has_id, is_for, is_active, clashes, insert_grant, new_grant, renewed,
  record_new, remember, start_auto_run, end_grant, finish_auto_run, revoke_link, revoke,
}
use thearchivist.Grants.Invariant.{Inv}
use thearchivist.Grants.Operations.{
  Operation, remembers, starts, finishes, ends, links, revokes, operate, operate-Inv,
}
use thearchivist.Grants.Revoking.{ended_by}

-- Operations one after another
unfoldable pub operate_all : Registry → (String → String) → List Operation → Book → Book
operate_all reg hash [] b = b
operate_all reg hash (o ∷ os) b = operate_all reg hash os (operate reg hash o b)

pub operate_all-Inv :
    (reg : Registry) (hash : String → String) (os : List Operation) (b : Book)
    → Inv reg b
    → Inv reg (operate_all reg hash os b)
unfolding operate_all
operate_all-Inv reg hash [] b v = v
operate_all-Inv reg hash (o ∷ os) b v =
    operate_all-Inv reg hash os (operate reg hash o b) (operate-Inv reg hash o b v)

-- The grant of an action is the one with an id.
module _ (host verb unit i : String) where
  abbrev pub HasGrant : List Grant → Type 0
  HasGrant gs = (g : Grant) × (find (is_for host verb unit) gs ≡ some g) × (g.id ≡ i)

  HasGrant-update :
      (q : Grant → Bool) (f : Grant → Grant) (gs : List Grant)
      → ((x : Grant) → is_for host verb unit (amend q f x) ≡ is_for host verb unit x)
      → ((x : Grant) → (amend q f x).id ≡ x.id)
      → HasGrant gs
      → HasGrant (update q f gs)
  HasGrant-update q f gs keeps same (g, e, named) = (
    amend q f g,
    rw (find-update (is_for host verb unit) q f gs keeps) (rw e refl),
    same g ∙ named,
  )

  HasGrant-insert : (r : Grant) (gs : List Grant) → HasGrant gs → HasGrant (insert r gs)
  HasGrant-insert r gs (g, e, named) =
      (g, rw (find-insert (is_for host verb unit) r gs) (rw e refl), named)

  HasGrant-end_grant :
      (j reason : String) (now : ℕ) (b : Book)
      → HasGrant b.grants
      → HasGrant (end_grant j reason now b).0.grants
  unfolding end_grant
  HasGrant-end_grant j reason now b h =
      HasGrant-update (both (has_id j) is_active) (ended_by reason now) b.grants (λ x. ground arith)
        (λ x. ground arith) h

  HasGrant-record_new :
      (host' verb' unit' job_id : String) (now : ℕ) (new_id : String) (b : Book)
      → HasGrant b.grants
      → HasGrant (record_new host' verb' unit' job_id now new_id b).0.grants
  unfolding record_new insert_grant
  HasGrant-record_new host' verb' unit' job_id now new_id b h =
      let g = new_grant new_id host' verb' unit' job_id now in
      elim (Option-cases (find (clashes g) b.grants)) [
        | inr (row, taken) ↦ rw (taken, record_new) h
        | inl none_like ↦ rw (none_like, record_new) (HasGrant-insert g b.grants h)
      ]

  HasGrant-remember :
      (reg : Registry) (host' verb' unit' job_id : String) (now : ℕ) (new_id : String) (b : Book)
      → HasGrant b.grants
      → HasGrant (remember reg host' verb' unit' job_id now new_id b).0.grants
  unfolding remember
  HasGrant-remember reg host' verb' unit' job_id now new_id b h =
      elim (Bool-cases (is_protected reg host')) [
        | inl ask ↦ rw (ask, remember) h
        | inr free ↦ elim (Option-cases (find (is_for host' verb' unit') b.grants)) [
          | inr (row, e) ↦
              rw (free, e, remember)
                (HasGrant-update (has_id row.id) (renewed job_id now) b.grants (λ x. ground arith)
                  (λ x. ground arith) h)
          | inl fresh ↦
              rw (free, fresh, remember)
                (HasGrant-record_new host' verb' unit' job_id now new_id b h)
        ]
      ]

  pub HasGrant-start_auto_run :
      (j job_id : String) (now : ℕ) (b : Book)
      → HasGrant b.grants
      → HasGrant (start_auto_run j job_id now b).0.grants
  unfolding start_auto_run
  HasGrant-start_auto_run j job_id now b h = elim (Option-cases (find (has_id j) b.grants)) [
    | inl unknown ↦ rw (unknown, start_auto_run) h
    | inr (row, e) ↦ rw (e, start_auto_run) h
  ]

  HasGrant-revoke_link :
      (hash : String → String) (j token : String) (b : Book)
      → HasGrant b.grants
      → HasGrant (revoke_link hash j token b).0.grants
  unfolding revoke_link
  HasGrant-revoke_link hash j token b h =
      elim (Option-cases
        (find (λ (l : RevokeLink). str_eq l.token_hash (hash token)) b.revoke_links)) [
          | inr (row, taken) ↦ rw (taken, revoke_link) h
          | inl fresh ↦ elim (Option-cases (find (has_id j) b.grants)) [
            | inl unknown ↦ rw (fresh, unknown, revoke_link) h
            | inr (row, e) ↦ rw (fresh, e, revoke_link) h
          ]
        ]

  HasGrant-revoke :
      (hash : String → String) (j token : String) (now : ℕ) (b : Book)
      → HasGrant b.grants
      → HasGrant (revoke hash j token now b).0.grants
  unfolding revoke
  HasGrant-revoke hash j token now b h =
      elim (Option-cases
        (find (λ (l : RevokeLink). str_eq l.token_hash (hash token)) b.revoke_links)) [
          | inl unknown ↦ rw (unknown, revoke) h
          | inr (row, e) ↦ elim (Bool-cases (str_eq row.grant_id j)) [
            | inl same ↦
                rw (e, revoke, same) (unfold end_grant in HasGrant-end_grant j "revoked" now b h)
            | inr other ↦ rw (e, revoke, other) h
          ]
        ]

  -- No operation removes the grant of an action, or gives it another id.
  HasGrant-operate :
      (reg : Registry) (hash : String → String) (o : Operation) (b : Book)
      → HasGrant b.grants
      → HasGrant (operate reg hash o b).grants
  unfolding operate finish_auto_run
  HasGrant-operate reg hash (remembers host' verb' unit' job_id now new_id) b h =
      HasGrant-remember reg host' verb' unit' job_id now new_id b h
  HasGrant-operate reg hash (starts j job_id now) b h = HasGrant-start_auto_run j job_id now b h
  HasGrant-operate reg hash (finishes run_id j true now) b h = h
  HasGrant-operate reg hash (finishes run_id j false now) b h =
      HasGrant-end_grant j "verify-failed" now b h
  HasGrant-operate reg hash (ends j reason now) b h = HasGrant-end_grant j reason now b h
  HasGrant-operate reg hash (links j token) b h = HasGrant-revoke_link hash j token b h
  HasGrant-operate reg hash (revokes j token now) b h = HasGrant-revoke hash j token now b h

  pub HasGrant-operate_all :
      (reg : Registry) (hash : String → String) (os : List Operation) (b : Book)
      → HasGrant b.grants
      → HasGrant (operate_all reg hash os b).grants
  unfolding operate_all
  HasGrant-operate_all reg hash [] b h = h
  HasGrant-operate_all reg hash (o ∷ os) b h =
      HasGrant-operate_all reg hash os (operate reg hash o b) (HasGrant-operate reg hash o b h)
