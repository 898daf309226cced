-- ===== src/App/Alerts.antt =====
-- The guards of /alert in configs/responder/app.py.
use Prim.Native.String
use thearchivist.Text.{chars}
use thearchivist.Prelude.{
  ℕ, zero, suc, ◌≤◌, ◌≡◌, ◌⊎◌, refl, inl, inr, String, Bool, true, not, ◌||◌, Option, none, some,
  arith, leb, ltb, str_eq, str_eq-eq, Bool-cases, ℤ, pos, negsuc, Result, ok, raise,
}
use thearchivist.Registry.{elem}
use thearchivist.Store.Statements.{Report}
use thearchivist.App.Paths.{match_hostname}
use thearchivist.App.World.{World, Env}
use thearchivist.App.Http.{
  Reply, Request, max_body, read_alert, take_alert, alert_read, alert_sized, alert,
}

-- What an alert that is acted on has passed.
pub record Trusted (env : Env) (q : Request) (a : Report) : Type 0 where
  pub source_known : elem q.source env.alert_sources ≡ true
  pub token_right : q.authorization ≡ String.◌++◌ "Bearer " env.alert_token
  pub size : ℕ
  pub sized : q.length ≡ some (pos size)
  pub some_body : 1 ≤ size
  pub short_body : size ≤ max_body
  pub readable : read_alert env.python q.upper q.body ≡ some a
  pub host_named : match_hostname a.host ≡ true
  pub service_short : chars a.service ≤ 200

abbrev pub is_refusal : Result Reply → Bool
is_refusal (ok (code, said)) = leb 400 code
is_refusal (raise e) = true

module _ (env : Env) (digits : ℕ → String) (q : Request) (w : World) where
  -- A refused request leaves the world as it is.
  abbrev pub Refused : Type 0
  Refused = ((alert env digits q w).0 ≡ w) × (is_refusal (alert env digits q w).1 ≡ true)

  abbrev pub Accepted : Type 0
  Accepted = (a : Report) × Trusted env q a × (alert env digits q w ≡ take_alert env digits a w)

  sized_cases :
      (n : Option ℤ)
      → q.length ≡ n
      → ((alert_sized env digits q n w).0 ≡ w)
          × (is_refusal (alert_sized env digits q n w).1 ≡ true)
        ⊎ ((size : ℕ) × (n ≡ some (pos size))
            × (1 ≤ size)
            × (size ≤ max_body)
            × (alert_sized env digits q n w
                ≡ alert_read env digits (read_alert env.python q.upper q.body) w))
  unfolding alert_sized
  sized_cases none e = inl (refl, refl)
  sized_cases (some (negsuc n)) e = inl (refl, refl)
  sized_cases (some (pos zero)) e = inl (refl, refl)
  sized_cases (some (pos (suc n))) e = elim (Bool-cases (ltb max_body (suc n))) [
    | inl long ↦ inl (rw long (refl, refl))
    | inr short ↦ inr (suc n, refl, omega arith, ground arith, rw short)
  ]

  read_cases :
      (o : Option Report)
      → ((alert_read env digits o w).0 ≡ w) × (is_refusal (alert_read env digits o w).1 ≡ true)
        ⊎ ((a : Report) × (o ≡ some a)
            × (match_hostname a.host ≡ true)
            × (chars a.service ≤ 200)
            × (alert_read env digits o w ≡ take_alert env digits a w))
  unfolding alert_read
  read_cases none = inl (refl, refl)
  read_cases (some a) =
      elim (Bool-cases (not (match_hostname a.host) || ltb 200 (chars a.service))) [
        | inl bad ↦ inl (rw bad (refl, refl))
        | inr good ↦ inr (a, refl, ground arith, ground arith, rw good)
      ]

  -- A request to /alert is either refused, with a status of 400 or more or by an exception, and then
  -- nothing at all has changed; or it comes from a known source with the right token, has a body of
  -- at most 16384 bytes that reads as an alert, for a name that HOSTNAME matches and a service of at
  -- most 200 characters, and is then handled.
  pub alert_lem : Refused ⊎ Accepted
  unfolding alert
  alert_lem =
      elim (Bool-cases (
        not (elem q.source env.alert_sources)
        || not (str_eq q.authorization (String.◌++◌ "Bearer " env.alert_token)))) [
          | inl stranger ↦ inl (rw stranger (refl, refl))
          | inr friend ↦ rw friend (elim (sized_cases q.length refl) [
            | inl bad_size ↦ inl bad_size
            | inr (size, sized, lower, upper, e) ↦
                rw e (elim (read_cases (read_alert env.python q.upper q.body)) [
                  | inl bad ↦ inl bad
                  | inr (a, readable, named, short, e') ↦ inr (
                    a,
                    record {
                      source_known = ground arith;
                      token_right = str_eq-eq _ _ (ground arith);
                      size = size;
                      sized = sized;
                      some_body = lower;
                      short_body = upper;
                      readable = readable;
                      host_named = named;
                      service_short = short;
                    },
                    e',
                  )
                ])
          ])
        ]
