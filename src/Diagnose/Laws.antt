-- ===== src/Diagnose/Laws.antt =====
-- What run() of configs/responder/diagnose.py lets through to the rest of the responder.
use mathlib.Core.Path.{subst}
use thearchivist.Prelude.{
  ◌≡◌, refl, inl, inr, String, Bool, true, false, Option, none, some, arith, str_eq, str_eq-eq,
  Option-cases, Bool-cases, attribute_error, Result, ok, raise, >>=-returns,
}
use thearchivist.Json.{Json, object}
use thearchivist.Registry.{Registry, Action, validate_proposal, by_checkmk_name, is_write}
use thearchivist.Registry.Laws.{validate_proposal-Validated}
use thearchivist.Diagnose.{
  Python, Diagnosis, load, verdict_of, read_verdict, read_output, vet, check_proposal, interpret,
}

-- An action that may be proposed for a job on a Checkmk host.
pub record MayPropose (reg : Registry) (job_host : String) (a : Action) : Type 0 where
  pub same_host : by_checkmk_name reg job_host ≡ some a.host
  pub writable : is_write reg a.host a.verb ≡ true

abbrev pub is_object : Json → Bool
is_object (object fs) = true
is_object _ = false

module _ (py : Python) (reg : Registry) (job_host : String) where
  vet-MayPropose :
      (raw : Json) (o : Option Action) (d d' : Diagnosis) (a : Action)
      → d.proposal ≡ none
      → validate_proposal reg raw ≡ ok o
      → vet py reg job_host raw o d ≡ d'
      → d'.proposal ≡ some a
      → MayPropose reg job_host a
  unfolding vet
  vet-MayPropose raw none d d' a clean e e' h = absurd (ground (arith, clean, e', h))
  vet-MayPropose raw (some x) d d' a clean e e' h =
      elim (Option-cases (by_checkmk_name reg job_host)) [
        | inl unknown ↦ absurd (ground (arith, unknown, clean, e', h))
        | inr (key, named) ↦ elim (Bool-cases (str_eq key x.host)) [
          | inr other ↦ absurd (ground (arith, named, other, clean, e', h))
          | inl own ↦
              let same : x ≡ a = ground (arith, named, own, e', h) in
              subst (MayPropose reg job_host) same (record {
                same_host = rw (← str_eq-eq key x.host own) named;
                writable = (validate_proposal-Validated reg raw x e).writable;
              })
        ]
      ]

  check_proposal-MayPropose :
      (raw : Json) (d d' : Diagnosis) (a : Action)
      → d.proposal ≡ none
      → check_proposal py reg job_host (d, raw) ≡ ok d'
      → d'.proposal ≡ some a
      → MayPropose reg job_host a
  unfolding check_proposal
  check_proposal-MayPropose raw d d' a clean e h = go (validate_proposal reg raw) refl
    where
      go : (r : Result (Option Action)) → validate_proposal reg raw ≡ r → MayPropose reg job_host a
      go (raise x) v = absurd (ground (arith, clean, h, rw (v, check_proposal) at e))
      go (ok o) v =
          vet-MayPropose raw o d d' a clean v (ground (arith, rw (v, check_proposal) at e)) h

  read_verdict-clean :
      (v : Json) (d : Diagnosis) (raw : Json) → read_verdict py v ≡ ok (d, raw) → d.proposal ≡ none
  unfolding read_verdict
  read_verdict-clean v d raw e = ground (arith, e)

  read_output-clean :
      (stdout : String) (d : Diagnosis) (raw : Json)
      → read_output py stdout ≡ ok (d, raw)
      → d.proposal ≡ none
  unfolding read_output
  read_output-clean stdout d raw e =
      let (out, e', _) = >>=-returns _ (load py stdout) e in
      let (v, e'', _) = >>=-returns _ (verdict_of py out) e' in read_verdict-clean v d raw e''

  -- Whatever a session prints, a proposal that run() returns is for the host of the job, as the
  -- registry names it, and its verb is one of that host's write verbs.
  pub interpret-MayPropose :
      (stdout : String) (d : Diagnosis) (a : Action)
      → interpret py reg job_host stdout ≡ ok d
      → d.proposal ≡ some a
      → MayPropose reg job_host a
  unfolding interpret
  interpret-MayPropose stdout d a e h = go (read_output py stdout) refl
    where
      go : (r : Result (Diagnosis × Json)) → read_output py stdout ≡ r → MayPropose reg job_host a
      go (raise x) v = absurd (ground (arith, h, rw (v, interpret) at e))
      go (ok (d', raw)) v =
          check_proposal-MayPropose raw d' d a (read_output-clean stdout d' raw v)
            (rw (v, interpret) at e) h

  -- Output that is JSON but no object makes run() raise an AttributeError, which it does not catch.
  pub interpret-not_object :
      (stdout : String) (out : Json)
      → py.loads stdout ≡ some out
      → is_object out ≡ false
      → interpret py reg job_host stdout ≡ raise attribute_error
  unfolding interpret read_output verdict_of
  interpret-not_object stdout (object fs) e h = cc
  interpret-not_object stdout _ e h = ground (arith, e)
