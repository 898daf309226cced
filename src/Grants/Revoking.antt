-- ===== src/Grants/Revoking.antt =====
-- What a remembered approval of configs/responder/grants.py lives through: it is made, it
-- ends, and a revoke link ends it.
use thearchivist.Prelude.{
  ℕ, ◌≡◌, refl, inl, inr, String, Bool, true, false, not, ◌&&◌, Option, none, some, arith, ◌==◌,
  str_eq, str_eq_refl, if◌then◌else◌, Option-cases, Bool-cases, ok,
}
use thearchivist.Table.{find, amend, both}
use thearchivist.Table.Laws.{
  find-both, find-update, find-insert, find_sound, map_option, narrow, count-both, hits,
}
use thearchivist.Registry.{Registry, is_protected}
use thearchivist.Grants.{
  Grant, RevokeLink, Book, no_grant, has_id, is_for, is_active, check_auto, end_grant, revoke_link,
  revoke, revoked, already_revoked, invalid,
}
use thearchivist.Grants.Invariant.{Inv}
use thearchivist.Grants.Operations.{revoke_link-Inv, revoke-Inv}

-- The grant of an action, active or not.
abbrev pub grant_for : String → String → String → Book → Option Grant
grant_for host verb unit b = find (is_for host verb unit) b.grants

abbrev pub ended_by : String → ℕ → Grant → Grant
ended_by reason now g = record g { active = false; ended_at = some now; end_reason = some reason }

module _ (reg : Registry) (host verb unit : String) (b : Book) (v : Inv reg b) where
  pub active_for :
      find (both (is_for host verb unit) is_active) b.grants
      ≡ narrow is_active (grant_for host verb unit b)
  active_for = find-both (is_for host verb unit) is_active b.grants (v.actions host verb unit)

  -- What check_auto() says of an action without an active grant.
  pub idle-no_grant :
      (now : ℕ)
      → is_protected reg host ≡ false
      → narrow is_active (grant_for host verb unit b) ≡ none
      → check_auto reg host verb unit now b ≡ (none, no_grant)
  unfolding check_auto
  idle-no_grant now free e = ground (arith, free, active_for, e)

pub grant_for-end :
    (host verb unit i reason : String) (now : ℕ) (b : Book)
    → grant_for host verb unit (end_grant i reason now b).0
      ≡ map_option
          (amend (both (has_id i) is_active) (ended_by reason now))
          (grant_for host verb unit b)
unfolding end_grant
grant_for-end host verb unit i reason now b =
    find-update (is_for host verb unit) (both (has_id i) is_active) (ended_by reason now) b.grants
      (λ g. ground arith)

-- The link that a token opens.
abbrev pub link_for : (String → String) → String → Book → Option RevokeLink
link_for hash token b = find (λ (l : RevokeLink). str_eq l.token_hash (hash token)) b.revoke_links

abbrev pub grant_active : Option Grant → Bool
grant_active none = false
grant_active (some g) = g.active

abbrev pub active_id : String → Book → Bool
active_id i b = grant_active (find (has_id i) b.grants)

-- Whether a link is for a grant.
abbrev pub opens : Option RevokeLink → String → Bool
opens none i = false
opens (some l) i = str_eq l.grant_id i

module _ (reg : Registry) (hash : String → String) (i : String) (b : Book) (v : Inv reg b) where
  end_grant_lem :
      (reason : String) (now : ℕ)
      → ((end_grant i reason now b).1 ≡ active_id i b)
        × (active_id i (end_grant i reason now b).0 ≡ false)
  unfolding end_grant
  end_grant_lem reason now = (
    rw (count-both (has_id i) is_active b.grants (v.ids i)) (hit (find (has_id i) b.grants)),
    rw
        (find-update (has_id i) (both (has_id i) is_active) (ended_by reason now) b.grants
          (λ g. ground arith))
        (idle (find (has_id i) b.grants) refl),
  )
    where
      hit : (o : Option Grant) → (hits is_active o == 1) ≡ grant_active o
      hit none = refl
      hit (some g) = ground arith

      idle :
          (o : Option Grant)
          → find (has_id i) b.grants ≡ o
          → grant_active (map_option (amend (both (has_id i) is_active) (ended_by reason now)) o)
            ≡ false
      idle none e = refl
      idle (some g) e = ground (arith, find_sound (has_id i) b.grants g e)

  -- With the invariant, revoke() on every branch: a token that opens no link, or the link of
  -- another grant, is invalid and changes nothing; a right one ends the grant, is reported as
  -- revoked if the grant was active and as already revoked if not, and leaves the grant inactive.
  pub revoke_lem :
      (token : String) (now : ℕ)
      → let right = opens (link_for hash token b) i in
        ((revoke hash i token now b).1
          ≡ (if right then (if active_id i b then revoked else already_revoked) else invalid))
        × ((revoke hash i token now b).0 ≡ (if right then (end_grant i "revoked" now b).0 else b))
        × (active_id i (revoke hash i token now b).0 ≡ (active_id i b && not right))
  unfolding revoke
  revoke_lem token now = elim (Option-cases (link_for hash token b)) [
    | inl unknown ↦ rw (unknown, revoke) (refl, refl, ground arith)
    | inr (l, e) ↦
        rw (e, revoke)
          (elim (Bool-cases (str_eq l.grant_id i)) [
            | inr other ↦ rw other (refl, refl, ground arith)
            | inl same ↦
                let (ended, idle) = end_grant_lem "revoked" now in
                rw (same, ended) (refl, refl, rw idle (ground arith))
          ])
  ]

  revoke_link-opens :
      (token : String)
      → (revoke_link hash i token b).1 ≡ ok token
      → ((revoke_link hash i token b).0.grants ≡ b.grants)
        × (opens (link_for hash token (revoke_link hash i token b).0) i ≡ true)
  unfolding revoke_link
  revoke_link-opens token made = elim (Option-cases (link_for hash token b)) [
    | inr (l, taken) ↦ absurd (ground (arith, taken, made))
    | inl fresh ↦ elim (Option-cases (find (has_id i) b.grants)) [
      | inl unknown ↦ absurd (ground (arith, fresh, unknown, made))
      | inr (g, e) ↦
          rw (fresh, revoke_link, e)
            (
              refl,
              rw
                  (
                    find-insert (λ (l : RevokeLink). str_eq l.token_hash (hash token))
                        (record { token_hash = hash token; grant_id = i }) b.revoke_links,
                    fresh,
                    str_eq_refl (hash token),
                  )
                  (str_eq_refl i),
            )
    ]
  ]

  link_for-revoke :
      (token : String) (now : ℕ)
      → link_for hash token (revoke hash i token now b).0 ≡ link_for hash token b
  unfolding revoke
  link_for-revoke token now = ground arith

-- With the invariant: a link that was issued for an active grant revokes it once. The first tap is
-- answered with revoked, and a second one after it with already revoked, at any times.
pub revoke_link-revoke :
    (reg : Registry) (hash : String → String) (i token : String) (now later : ℕ) (b : Book)
    → Inv reg b
    → active_id i b ≡ true
    → (revoke_link hash i token b).1 ≡ ok token
    → let b' = (revoke_link hash i token b).0 in
      ((revoke hash i token now b').1 ≡ revoked)
      × ((revoke hash i token later (revoke hash i token now b').0).1 ≡ already_revoked)
revoke_link-revoke reg hash i token now later b v active made =
    let b' = (revoke_link hash i token b).0 in
    let v' : Inv reg b' = revoke_link-Inv reg b v hash i token in
    let (same, right) = revoke_link-opens reg hash i b v token made in
    let b'' = (revoke hash i token now b').0 in
    let v'' : Inv reg b'' = revoke-Inv reg b' v' hash i token now in
    let first = revoke_lem reg hash i b' v' token now in
    let second = revoke_lem reg hash i b'' v'' token later in
    let right' : opens (link_for hash token b'') i ≡ true =
      rw (link_for-revoke reg hash i b' v' token now) right in
    let active' : active_id i b' ≡ true = rw same active in
    (ground (arith, first.0, right, active'), ground (arith, second.0, right', first.2, right))
