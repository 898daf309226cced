-- ===== src/Grants/Learning.antt =====
-- record() of configs/responder/grants.py, and what check_auto() says afterwards.
use thearchivist.Prelude.{
  ℕ, ◌≡◌, refl, ap, inl, inr, String, true, false, none, some, arith, str_eq_refl, Option-cases,
  Bool-cases, ok,
}
use thearchivist.Table.{find, update}
use thearchivist.Table.Laws.{find-update, find-insert}
use thearchivist.Registry.{Registry, is_protected}
use thearchivist.Grants.{
  Grant, Book, has_id, is_for, clashes, new_grant, renewed, record_new, remember, check_auto,
  check_limits,
}
use thearchivist.Grants.Invariant.{Inv}
use thearchivist.Grants.Operations.{remember-Inv}
use thearchivist.Grants.Revoking.{grant_for, active_for}

-- The action has an active grant of that id.
record Learned (host verb unit i : String) (b : Book) : Type 0 where
  grant : Grant
  found : grant_for host verb unit b ≡ some grant
  active : grant.active ≡ true
  named : grant.id ≡ i

module _ (host verb unit job_id i : String) (now : ℕ) (new_id : String) (b : Book) where
  record_new-Learned :
      grant_for host verb unit b ≡ none
      → (record_new host verb unit job_id now new_id b).1 ≡ ok (some i)
      → Learned host verb unit i (record_new host verb unit job_id now new_id b).0
  unfolding record_new
  record_new-Learned fresh made =
      let g = new_grant new_id host verb unit job_id now in
      elim (Option-cases (find (clashes g) b.grants)) [
        | inr (x, taken) ↦ absurd (ground (arith, taken, made))
        | inl free ↦
            rw (free, record_new)
              (record {
                grant = g;
                found = rw (
                  find-insert (is_for host verb unit) g b.grants,
                  fresh,
                  str_eq_refl host,
                  str_eq_refl verb,
                  str_eq_refl unit,
                );
                active = refl;
                named = ground (arith, free, made);
              })
      ]

  renewed-Learned :
      (row : Grant)
      → grant_for host verb unit b ≡ some row
      → row.id ≡ i
      → Learned host verb unit i
          (record b { grants = update (has_id row.id) (renewed job_id now) b.grants })
  renewed-Learned row e named = record {
    grant = renewed job_id now row;
    found = rw (
      find-update (is_for host verb unit) (has_id row.id) (renewed job_id now) b.grants
          (λ g. ground arith),
      e,
      str_eq_refl row.id,
    );
    active = refl;
    named = named;
  }

  remember-Learned :
      (reg : Registry)
      → (remember reg host verb unit job_id now new_id b).1 ≡ ok (some i)
      → Learned host verb unit i (remember reg host verb unit job_id now new_id b).0
        × (is_protected reg host ≡ false)
  unfolding remember
  remember-Learned reg made = elim (Bool-cases (is_protected reg host)) [
    | inl ask ↦ absurd (ground (arith, ask, made))
    | inr free ↦ elim (Option-cases (grant_for host verb unit b)) [
      | inr (row, e) ↦
          rw (free, e, remember) (renewed-Learned row e (ground (arith, free, e, made)), refl)
      | inl fresh ↦
          rw (free, fresh, remember)
            (record_new-Learned fresh (ground (arith, free, fresh, made)), refl)
    ]
  ]

check_auto-Learned :
    (reg : Registry) (host verb unit i : String) (later : ℕ) (b : Book)
    → Inv reg b
    → Learned host verb unit i b
    → is_protected reg host ≡ false
    → check_auto reg host verb unit later b ≡ check_limits i later b
unfolding check_auto
check_auto-Learned reg host verb unit i later b v l free =
    rw (free, active_for reg host verb unit b v, l.found, check_auto, l.active)
      (ap (λ (k : String). check_limits k later b) l.named)

-- With the invariant: once record() has remembered an action and returned its grant, check_auto()
-- finds that grant, at any time, and only the limits on runs decide.
pub remember-check_auto :
    (reg : Registry) (host verb unit job_id i : String) (now later : ℕ) (new_id : String) (b : Book)
    → Inv reg b
    → (remember reg host verb unit job_id now new_id b).1 ≡ ok (some i)
    → check_auto reg host verb unit later (remember reg host verb unit job_id now new_id b).0
      ≡ check_limits i later (remember reg host verb unit job_id now new_id b).0
remember-check_auto reg host verb unit job_id i now later new_id b v made =
    let b' = (remember reg host verb unit job_id now new_id b).0 in
    let (l, free) = remember-Learned host verb unit job_id i now new_id b reg made in
    let v' : Inv reg b' = remember-Inv reg b v host verb unit job_id now new_id in
    check_auto-Learned reg host verb unit i later b' v' l free
