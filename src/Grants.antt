-- ===== src/Grants.antt =====
-- configs/responder/grants.py: learned approvals, the runs that they allowed, and revoke links.
-- `hash` stands for the SHA-256 digest of `_hash`; fresh random ids and tokens are arguments.
pub mod Invariant
pub mod Operations
pub mod Budget
pub mod Pacing
pub mod Revoking
pub mod Lasting
pub mod Demotion
pub mod Learning
use thearchivist.Prelude.{
  ℕ, ◌+◌, ◌-◌, ◌*◌, String, Bool, true, false, not, ◌&&◌, ◌||◌, Option, none, some, List, [], ◌∷◌,
  leb, ◌==◌, str_eq, if◌then◌else◌, ℤ, after, sub_ℕ, Result, ok, raise, integrity_error, ◌>>=◌,
}
use thearchivist.Table.{find, count, update, insert, next_rowid, both}
use thearchivist.Registry.{Registry, is_protected}

pub record Grant : Type 0 where
  pub id : String
  pub host : String
  pub verb : String
  pub unit : String
  pub created_at : ℕ
  pub approved_job : String
  pub active : Bool
  pub ended_at : Option ℕ
  pub end_reason : Option String

pub record AutoRun : Type 0 where
  pub id : ℕ
  pub grant_id : String
  pub job_id : String
  pub ran_at : ℕ
  pub verified : Option Bool

pub record RevokeLink : Type 0 where
  pub token_hash : String
  pub grant_id : String

-- The three tables of the module.
pub record Book : Type 0 where
  pub grants : List Grant
  pub auto_runs : List AutoRun
  pub revoke_links : List RevokeLink

abbrev pub empty_book : Book
empty_book = record { grants = []; auto_runs = []; revoke_links = [] }

abbrev pub per_tuple_24h : ℕ
per_tuple_24h = 2

abbrev pub global_per_hour : ℕ
global_per_hour = 4

-- The reasons of check_auto().
pub data Reason : Type 0 where
  allowed no_grant protected tuple_limit global_limit : Reason

-- id = ?
abbrev pub has_id : String → Grant → Bool
has_id i g = str_eq g.id i

-- host = ? AND verb = ? AND unit = ?
abbrev pub is_for : String → String → String → Grant → Bool
is_for host verb unit g = str_eq g.host host && (str_eq g.verb verb && str_eq g.unit unit)

abbrev pub is_active : Grant → Bool
is_active g = g.active

abbrev pub run_of : String → AutoRun → Bool
run_of i r = str_eq r.grant_id i

abbrev pub ran_after : ℤ → AutoRun → Bool
ran_after since r = after since r.ran_at

-- The rows that stand in the way of a new one.
abbrev pub clashes : Grant → Grant → Bool
clashes g x = has_id g.id x || is_for g.host g.verb g.unit x

-- INSERT INTO grants: `id` is the primary key, and (host, verb, unit) is unique.
unfoldable pub insert_grant : Grant → Book → Result Book
insert_grant g b = elim (find (clashes g) b.grants) [
  | none ↦ ok (record b { grants = insert g b.grants })
  | some _ ↦ raise integrity_error
]

abbrev pub new_grant : String → String → String → String → String → ℕ → Grant
new_grant i host verb unit job_id now = record {
  id = i;
  host = host;
  verb = verb;
  unit = unit;
  created_at = now;
  approved_job = job_id;
  active = true;
  ended_at = none;
  end_reason = none;
}

abbrev pub renewed : String → ℕ → Grant → Grant
renewed job_id now g = record g {
  active = true;
  ended_at = none;
  end_reason = none;
  approved_job = job_id;
  created_at = now;
}

-- An operation that returns, or raises after the statements before it were committed.
abbrev pub Outcome {ℓ} : Type ℓ → Type ℓ
Outcome A = Book × Result A

-- `new_id` is what secrets.token_hex(6) returns.
unfoldable pub record_new :
    String → String → String → String → ℕ → String → Book → Outcome (Option String)
unfolding insert_grant
record_new host verb unit job_id now new_id b =
    elim (insert_grant (new_grant new_id host verb unit job_id now) b) [
      | ok b' ↦ (b', ok (some new_id))
      | raise e ↦ (b, raise e)
    ]

-- record()
unfoldable pub remember :
    Registry → String → String → String → String → ℕ → String → Book → Outcome (Option String)
unfolding record_new
remember reg host verb unit job_id now new_id b =
    if is_protected reg host then (b, ok none) else (elim (find (is_for host verb unit) b.grants) [
      | some row ↦ (
        record b { grants = update (has_id row.id) (renewed job_id now) b.grants },
        ok (some row.id),
      )
      | none ↦ record_new host verb unit job_id now new_id b
    ])

-- The limits of check_auto(), for a grant that was found.
unfoldable pub check_limits : String → ℕ → Book → Option String × Reason
check_limits i now b =
    if leb per_tuple_24h (count (both (run_of i) (ran_after (sub_ℕ now 86400))) b.auto_runs)
    then (none, tuple_limit)
    else if leb global_per_hour (count (ran_after (sub_ℕ now 3600)) b.auto_runs)
    then (none, global_limit)
    else (some i, allowed)

unfoldable pub check_auto : Registry → String → String → String → ℕ → Book → Option String × Reason
unfolding check_limits
check_auto reg host verb unit now b =
    if is_protected reg host
    then (none, protected)
    else (elim (find (both (is_for host verb unit) is_active) b.grants) [
      | none ↦ (none, no_grant)
      | some row ↦ check_limits row.id now b
    ])

-- The id that the next run gets is the lastrowid of its INSERT.
unfoldable pub start_auto_run : String → String → ℕ → Book → Outcome ℕ
start_auto_run i job_id now b = elim (find (has_id i) b.grants) [
  | none ↦ (b, raise integrity_error)
  | some _ ↦
      let run_id = next_rowid (λ (r : AutoRun). r.id) b.auto_runs in
      (
        record b {
          auto_runs =
              insert
                (record {
                  id = run_id;
                  grant_id = i;
                  job_id = job_id;
                  ran_at = now;
                  verified = none;
                })
                b.auto_runs;
        },
        ok run_id,
      )
]

-- end()
unfoldable pub end_grant : String → String → ℕ → Book → Book × Bool
end_grant i reason now b = (
  record b {
    grants =
        update (both (has_id i) is_active)
          (λ g. record g { active = false; ended_at = some now; end_reason = some reason })
          b.grants;
  },
  count (both (has_id i) is_active) b.grants == 1,
)

unfoldable pub finish_auto_run : ℕ → String → Bool → ℕ → Book → Book
unfolding end_grant
finish_auto_run run_id i verified now b =
    let b' = record b {
      auto_runs =
          update (λ r. r.id == run_id) (λ r. record r { verified = some verified }) b.auto_runs;
    } in
    if verified then b' else (end_grant i "verify-failed" now b').0

module _ (hash : String → String) where
  -- `token` is what secrets.token_urlsafe(24) returns.
  unfoldable pub revoke_link : String → String → Book → Outcome String
  revoke_link i token b =
      elim (find (λ (l : RevokeLink). str_eq l.token_hash (hash token)) b.revoke_links) [
        | some _ ↦ (b, raise integrity_error)
        | none ↦ (elim (find (has_id i) b.grants) [
          | none ↦ (b, raise integrity_error)
          | some _ ↦ (
            record b {
              revoke_links =
                  insert (record { token_hash = hash token; grant_id = i }) b.revoke_links;
            },
            ok token,
          )
        ])
      ]

-- The strings that revoke() returns.
pub data Revocation : Type 0 where
  revoked already_revoked invalid : Revocation

module _ (hash : String → String) where
  unfoldable pub revoke : String → String → ℕ → Book → Book × Revocation
  unfolding end_grant
  revoke i token now b =
      elim (find (λ (l : RevokeLink). str_eq l.token_hash (hash token)) b.revoke_links) [
        | none ↦ (b, invalid)
        | some row ↦
            if str_eq row.grant_id i
            then (let (b', ended) = end_grant i "revoked" now b in
                (b', if ended then revoked else already_revoked))
            else (b, invalid)
      ]
