-- ===== src/Journal/Pushes.antt =====
-- journal.py: how often publishing an entry pushes.
use thearchivist.Prelude.{
  ℕ, zero, suc, ◌+◌, ◌≤◌, ◌≡◌, refl, ◌∙◌, inl, inr, String, Bool, true, false, Option, none, some,
  List, [], ◌∷◌, ◌++◌, arith, str_eq, if◌then◌else◌, Bool-cases, Result, ok, raise,
}
use thearchivist.Table.{count}
use thearchivist.Journal.{
  GitAnswer, Clone, Desk, Act, continue, ◌>>=◌, pure, git, clone_now, append_text, configure,
  cloned, ensure_clone, rebased, rebase, is_behind, pushed, push_rounds, committed, update_clone,
  write_page, write_unless, publish, has_sign, is_due, auth_problem, after_publish, safe_publish,
}

abbrev pub is_push : List String → Bool
is_push [] = false
is_push (verb ∷ args) = str_eq verb "push"

count-append_one :
    (args : List String) (xs : List (List String))
    → count is_push (xs ++ args ∷ []) ≡ count is_push xs + (if is_push args then 1 else 0)
unfolding count
count-append_one args [] = ground arith
count-append_one args (x ∷ xs) = ground (arith, count-append_one args xs)

-- An action pings nobody and pushes no more often than a number says.
pub record Within {W A : Type 0} (n : ℕ) (m : Act W A) : Type 0 where
  pub same_pings : (d : Desk W) → (m d).1.pings ≡ d.pings
  pub same_last : (d : Desk W) → (m d).1.last_auth_ping ≡ d.last_auth_ping
  pub few_pushes : (d : Desk W) → count is_push (m d).1.asked ≤ count is_push d.asked + n

module _ {W A B : Type 0} {b : ℕ} {k : A → Act W B} where
  continue-Within :
      (h : (x : A) → Within b (k x)) (r : Result A × Desk W)
      → ((continue k r).1.pings ≡ r.1.pings)
        × ((continue k r).1.last_auth_ping ≡ r.1.last_auth_ping)
        × (count is_push (continue k r).1.asked ≤ count is_push r.1.asked + b)
  continue-Within h (ok x, d) = ((h x).same_pings d, (h x).same_last d, (h x).few_pushes d)
  continue-Within h (raise e, d) = (refl, refl, ground arith)

  >>=-Within :
      {a : ℕ} {m : Act W A} → Within a m → ((x : A) → Within b (k x)) → Within (a + b) (m >>= k)
  >>=-Within {m = m} g h = record {
    same_pings = λ d. (continue-Within h (m d)).0 ∙ g.same_pings d;
    same_last = λ d. (continue-Within h (m d)).1 ∙ g.same_last d;
    few_pushes = λ d. ground (arith, (continue-Within h (m d)).2, g.few_pushes d);
  }

module _ {W A : Type 0} where
  pure-Within : {n : ℕ} (x : A) → Within n (pure {W = W} x)
  pure-Within x = record {
    same_pings = λ d. refl;
    same_last = λ d. refl;
    few_pushes = λ d. ground arith;
  }

  weaken : {a b : ℕ} {m : Act W A} → Within a m → a ≤ b → Within b m
  weaken g h = record {
    same_pings = g.same_pings;
    same_last = g.same_last;
    few_pushes = λ d. ground (arith, g.few_pushes d, h);
  }

  if-Within :
      {n : ℕ} {x y : Act W A} (t : Bool) → Within n x → Within n y → Within n (if t then x else y)
  if-Within true g h = g
  if-Within false g h = h

module _ {W A B : Type 0} {n : ℕ} {k : A → Act W B} where
  -- Behind an action that does not push
  quiet_then : {m : Act W A} → Within 0 m → ((x : A) → Within n (k x)) → Within n (m >>= k)
  quiet_then g h = weaken (>>=-Within g h) (ground arith)

module _ {W : Type 0} (c : Clone W) where
  git-Within : (args : List String) → Within (if is_push args then 1 else 0) (git c args)
  unfolding git
  git-Within args = record {
    same_pings = λ d. refl;
    same_last = λ d. refl;
    few_pushes = λ d. ground (arith, count-append_one args d.asked);
  }

  clone_now-Within : Within 0 (clone_now c)
  unfolding clone_now
  clone_now-Within = record {
    same_pings = λ d. refl;
    same_last = λ d. refl;
    few_pushes = λ d. ground arith;
  }

  append_text-Within : (relpath text : String) → Within 0 (append_text c relpath text)
  unfolding append_text
  append_text-Within relpath text = record {
    same_pings = λ d. refl;
    same_last = λ d. refl;
    few_pushes = λ d. ground arith;
  }

  configure-Within : Within 0 (configure c)
  unfolding configure
  configure-Within =
      quiet_then (git-Within _)
        (λ r. quiet_then (git-Within _) (λ r'. quiet_then (git-Within _) (λ r''. pure-Within _)))

  cloned-Within : (r : GitAnswer) → Within 0 (cloned c r)
  unfolding cloned
  cloned-Within r = if-Within r.succeeded configure-Within (pure-Within _)

  rebased-Within : (r : GitAnswer) → Within 0 (rebased c r)
  unfolding rebased
  rebased-Within r =
      if-Within r.succeeded (pure-Within _) (quiet_then (git-Within _) (λ r'. pure-Within _))

  rebase-Within : Within 0 (rebase c)
  unfolding rebase
  rebase-Within = quiet_then (git-Within _) rebased-Within

  pushed-Within :
      (n : ℕ) (again : Act W (Option String)) (r : GitAnswer)
      → Within n again
      → Within n (pushed c again r)
  unfolding pushed
  pushed-Within n again r h = if-Within r.succeeded (pure-Within _) (
      if-Within (is_behind c r)
        (quiet_then (git-Within _) (λ r'. quiet_then rebase-Within (λ done. h))) (pure-Within _))

  push_rounds-Within : (n : ℕ) → Within n (push_rounds c n)
  unfolding push_rounds
  push_rounds-Within zero = pure-Within _
  push_rounds-Within (suc n) =
      weaken
        (>>=-Within (git-Within _)
          (λ r. pushed-Within n (push_rounds c n) r (push_rounds-Within n)))
        (ground arith)

  committed-Within : (r : GitAnswer) → Within 3 (committed c r)
  unfolding committed
  committed-Within r = if-Within r.succeeded (push_rounds-Within 3) (pure-Within _)

  update_clone-Within : (r : GitAnswer) → Within 0 (update_clone c r)
  unfolding update_clone
  update_clone-Within r = if-Within r.succeeded rebase-Within (pure-Within _)

  chosen-Within :
      (d : Desk W)
      → Within 0 (if c.is_cloned d.world then pure none else (clone_now c >>= cloned c))
  chosen-Within d =
      if-Within (c.is_cloned d.world) (pure-Within none) (quiet_then clone_now-Within cloned-Within)

  ensure_clone-Within : Within 0 (ensure_clone c)
  unfolding ensure_clone
  ensure_clone-Within = record {
    same_pings = λ d. (chosen-Within d).same_pings d;
    same_last = λ d. (chosen-Within d).same_last d;
    few_pushes = λ d. (chosen-Within d).few_pushes d;
  }

  module _ (relpath text note : String) where
    write_page-Within : Within 3 (write_page c relpath text note)
    unfolding write_page
    write_page-Within = quiet_then (git-Within _) (λ r. quiet_then (update_clone-Within r) (λ done.
        quiet_then (append_text-Within relpath text) (λ written.
          quiet_then (git-Within _) (λ r'. quiet_then (git-Within _) committed-Within))))

    write_unless-Within : (err : Option String) → Within 3 (write_unless c relpath text note err)
    unfolding write_unless
    write_unless-Within none = write_page-Within
    write_unless-Within (some err) = if-Within (str_eq err "") write_page-Within (pure-Within _)

    pub publish-Within : Within 3 (publish c relpath text note)
    unfolding publish
    publish-Within = quiet_then ensure_clone-Within write_unless-Within

  after_publish-asked :
      (o : Result (Option String) × Desk W)
      → count is_push (after_publish c o).asked ≡ count is_push o.1.asked
  unfolding auth_problem
  after_publish-asked (ok (some stderr), d) = elim (Bool-cases (has_sign c stderr)) [
    | inl locked_out ↦ elim (Bool-cases (is_due c d)) [
      | inl now ↦ rw (locked_out, now) refl
      | inr not_yet ↦ rw (locked_out, not_yet) refl
    ]
    | inr other ↦ rw other refl
  ]
  after_publish-asked (ok none, d) = refl
  after_publish-asked (raise e, d) = refl

  -- Whatever git answers, publishing one entry pushes at most three times.
  pub safe_publish-pushes :
      (relpath text note : String) (d : Desk W)
      → count is_push (safe_publish c relpath text note d).asked ≤ count is_push d.asked + 3
  unfolding safe_publish
  safe_publish-pushes relpath text note d = ground (
    arith,
    after_publish-asked (publish c relpath text note d),
    (publish-Within relpath text note).few_pushes d,
  )
