-- ===== src/Bridge/Turns.antt =====
-- The loop of main() of unbound-dnsbl-wazuh.py, over what becomes of the FIFO.
use thearchivist.Prelude.{
  length, ◌+◌, ◌≡◌, refl, inl, inr, String, Bool, true, false, Option, none, some, List, [], ◌∷◌,
  ◌++◌, arith, if◌then◌else◌, Option-cases,
}
use thearchivist.Table.{count}
use thearchivist.Bridge.{
  Host, drain, Turn, missing, unopened, opened, stopped, quiet, loop, logger_py_running, main,
  told_of,
}
use thearchivist.Bridge.Laws.{is_block, drain-counts}

-- Whether a signal comes, and the lines that are read up to it
abbrev pub has_stop : List Turn → Bool
has_stop [] = false
has_stop (stopped lines ∷ ts) = true
has_stop (_ ∷ ts) = has_stop ts

abbrev pub lines_read : List Turn → List String
lines_read [] = []
lines_read (opened lines ∷ ts) = lines ++ lines_read ts
lines_read (stopped lines ∷ ts) = lines
lines_read (_ ∷ ts) = lines_read ts

length-append : (xs ys : List String) → length (xs ++ ys) ≡ length xs + length ys
length-append [] ys = ground arith
length-append (x ∷ xs) ys = ground (arith, length-append xs ys)

count-append :
    (p : String → Bool) (xs ys : List String) → count p (xs ++ ys) ≡ count p xs + count p ys
unfolding count
count-append p [] ys = ground arith
count-append p (x ∷ xs) ys = ground (arith, count-append p xs ys)

module _ (host : Host) where
  loop-status : (ts : List Turn) → (loop host ts).status ≡ (if has_stop ts then some 0 else none)
  unfolding loop
  loop-status [] = refl
  loop-status (missing ∷ ts) = loop-status ts
  loop-status (unopened e ∷ ts) = loop-status ts
  loop-status (opened lines ∷ ts) = elim (Option-cases (drain host lines).1) [
    | inl fine ↦ rw fine (loop-status ts)
    | inr (e, ended) ↦ rw ended (loop-status ts)
  ]
  loop-status (stopped lines ∷ ts) = refl

  loop-counts :
      (ts : List Turn)
      → (loop host ts).told ≡ []
      → length (loop host ts).out ≡ count is_block (lines_read ts)
  unfolding loop count
  loop-counts [] h = refl
  loop-counts (missing ∷ ts) h = loop-counts ts h
  loop-counts (unopened e ∷ ts) h = absurd cc
  loop-counts (opened lines ∷ ts) h = elim (Option-cases (drain host lines).1) [
    | inl fine ↦
        rw
          (
            fine,
            length-append (drain host lines).0 (loop host ts).out,
            count-append is_block lines (lines_read ts),
            drain-counts host lines fine,
            loop-counts ts (rw fine at h),
          )
          refl
    | inr (e, ended) ↦ absurd (let told = (rw ended at h) in cc)
  ]
  loop-counts (stopped lines ∷ ts) h = elim (Option-cases (drain host lines).1) [
    | inl fine ↦ drain-counts host lines fine
    | inr (e, ended) ↦ absurd (
        let unsaid : told_of (drain host lines).1 ≡ [] = h in let told = (rw ended at unsaid) in cc)
  ]

  -- Where another reader of the FIFO runs, main() returns 1 at once and writes nothing. Else it ends
  -- exactly when a signal comes, with status 0; and as long as no exception was told on stderr, OUT has
  -- one line for each block among the lines that were read up to then, whatever waits and ends of the
  -- writer were in between.
  pub main_lem :
      (ps : Option String) (ts : List Turn)
      → (logger_py_running ps ≡ true → main host ps ts ≡ record quiet { status = some 1 })
        × (logger_py_running ps ≡ false
            → ((main host ps ts).status ≡ (if has_stop ts then some 0 else none))
              × ((main host ps ts).told ≡ []
                  → length (main host ps ts).out ≡ count is_block (lines_read ts)))
  unfolding main
  main_lem ps ts = (λ busy. rw busy refl, λ free. rw free (loop-status ts, loop-counts ts))
