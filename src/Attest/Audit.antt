-- ===== src/Attest/Audit.antt =====
-- attest.py: run() with its probe() over ssh.
use Prim.Native.String
use mathlib.Core.Path.{subst}
use thearchivist.Prelude.{
  ℕ, ◌≡◌, ◌≢◌, refl, sym, ap, ◌∙◌, inl, inr, ◌⊎◌, String, Bool, false, Option, some, [], ◌∷◌,
  str_eq, eq-str_eq, index_error, Result, ok, raise, ◌==◌, arith, Bool-cases, Option-cases,
}
use thearchivist.Text.{strip, splitlines, take_chars}
use thearchivist.Attest.Compare.{Config}
use thearchivist.Attest.Run.{Probed, found, unreachable, Tables, Outcome, unverified, gap, run}
use thearchivist.Attest.Probe.{SshAnswer, timed_out, answered, or_say, last_line, probe}

module _ (repr : String → String) (loads : String → Option Config) (loud : Bool) (now : ℕ) where
  abbrev pub continued : Tables → Result Probed → Result Outcome
  continued t (ok probed) = ok (run repr loud now probed t)
  continued t (raise e) = raise e

  -- run(), where an exception of probe() that is not Unreachable leaves it
  unfoldable pub audit : SshAnswer → Tables → Result Outcome
  unfolding probe run
  audit answer t = continued t (probe loads answer)

-- ssh did not come back, or not with success.
abbrev pub Failed : SshAnswer → Type 0
Failed timed_out = timed_out ≡ timed_out
Failed (answered status stdout stderr) = (status == 0) ≡ false

-- A round without a reading
pub record Unread (answer : SshAnswer) (t : Tables) (o : Outcome) : Type 0 where
  pub reason : String
  pub failed : Failed answer
  pub given : reason ≢ ""
  pub told : o.summary ≡ unverified reason
  pub kept : o.tables ≡ t
  pub recorded : o.effects ≡ gap (String.◌++◌ "could not verify Sentry configuration: " reason) ∷ []

-- A round with a reading
pub record Read (repr : String → String) (loads : String → Option Config) (loud : Bool) (now : ℕ)
    (answer : SshAnswer) (t : Tables) (o : Outcome) : Type 0 where
  pub stdout : String
  pub stderr : String
  pub line : String
  pub live : Config
  pub succeeded : answer ≡ answered 0 stdout stderr
  pub last : last_line (splitlines (strip stdout)) ≡ ok line
  pub parsed : loads line ≡ some live
  pub ran : o ≡ run repr loud now (found live) t

reason_given : (s : String) → or_say s "probe failed" ≢ ""
reason_given s = elim (Bool-cases (str_eq s "")) [
  | inl blank ↦ rw blank (λ e. ground (arith, eq-str_eq "probe failed" "" e))
  | inr text ↦ rw text (λ e. ground (arith, eq-str_eq s "" e, text))
]

Result-cases : {A : Type 0} (r : Result A) → ((a : A) × (r ≡ ok a)) ⊎ ((e : _) × (r ≡ raise e))
Result-cases (ok a) = inl (a, refl)
Result-cases (raise e) = inr (e, refl)

module _ (repr : String → String) (loads : String → Option Config) (loud : Bool) (now : ℕ) where
  audit-Unread :
      (answer : SshAnswer) (t : Tables) (o : Outcome) (reason : String)
      → Failed answer
      → reason ≢ ""
      → ok (run repr loud now (unreachable reason) t) ≡ ok o
      → Unread answer t o
  unfolding run
  audit-Unread answer t o reason failed given h =
      let same : run repr loud now (unreachable reason) t ≡ o = cc in
      record {
        reason = reason;
        failed = failed;
        given = given;
        told = ap (λ (x : Outcome). x.summary) (sym same);
        kept = ap (λ (x : Outcome). x.tables) (sym same);
        recorded = ap (λ (x : Outcome). x.effects) (sym same);
      }

  audit-Read :
      (stdout stderr : String) (t : Tables) (o : Outcome)
      → audit repr loads loud now (answered 0 stdout stderr) t ≡ ok o
      → Read repr loads loud now (answered 0 stdout stderr) t o
  unfolding audit probe
  audit-Read stdout stderr t o h = elim (Result-cases (last_line (splitlines (strip stdout)))) [
    | inr (e, missing) ↦ absurd (let raised = (rw missing at h) in cc)
    | inl (line, last) ↦ elim (Option-cases (loads line)) [
      | inl broken ↦ absurd (let raised = (rw (last, broken) at h) in cc)
      | inr (live, parsed) ↦
          let ran = (rw (last, parsed) at h) in
          record {
            stdout = stdout;
            stderr = stderr;
            line = line;
            live = live;
            succeeded = refl;
            last = last;
            parsed = parsed;
            ran = cc;
          }
    ]
  ]

  audit_blank :
      (stdout stderr : String) (t : Tables)
      → strip stdout ≡ ""
      → audit repr loads loud now (answered 0 stdout stderr) t ≡ raise index_error
  unfolding audit probe splitlines last_line
  audit_blank stdout stderr t blank = rw blank refl

  -- A round that returns either has a reason that is not empty, for which ssh did not succeed, records
  -- it as a gap and changes no table; or ssh succeeded, the last line of its output is a dict, and the
  -- round is run() on that dict. A round where ssh succeeded and printed nothing but white space does
  -- not return: it raises the IndexError of the last line, and records no gap.
  pub audit_lem :
      (answer : SshAnswer) (t : Tables)
      → ((o : Outcome)
          → audit repr loads loud now answer t ≡ ok o
          → Unread answer t o ⊎ Read repr loads loud now answer t o)
        × ((stdout stderr : String)
            → answer ≡ answered 0 stdout stderr
            → strip stdout ≡ ""
            → audit repr loads loud now answer t ≡ raise index_error)
  unfolding audit probe last_line splitlines
  audit_lem timed_out t = (
    λ o h. inl (
        audit-Unread timed_out t o "ssh timed out probing Sentry" refl
          (λ e. ground (arith, eq-str_eq "ssh timed out probing Sentry" "" e)) h),
    λ stdout stderr e blank. absurd cc,
  )
  audit_lem (answered status stdout stderr) t = (
    λ o h. elim (Bool-cases (status == 0)) [
      | inr refused ↦
          let reason = or_say (take_chars 300 (strip stderr)) "probe failed" in
          inl (
            audit-Unread (answered status stdout stderr) t o reason refused
              (reason_given (take_chars 300 (strip stderr))) ((rw (probe, refused) at h)))
      | inl done ↦
          let zero_status : status ≡ 0 = ground (arith, done) in
          inr (
            subst
              (λ n.
                audit repr loads loud now (answered n stdout stderr) t ≡ ok o
                → Read repr loads loud now (answered n stdout stderr) t o)
              (sym zero_status) (audit-Read stdout stderr t o) h)
    ],
    λ out err e blank. ap (λ a. audit repr loads loud now a t) e ∙ audit_blank out err t blank,
  )
