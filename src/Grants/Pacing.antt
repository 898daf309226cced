-- ===== src/Grants/Pacing.antt =====
-- The budget of runs without a tap over a history of configs/responder/grants.py in which each run is
-- counted right after its check, and what two interleaved checks do to it.
use thearchivist.Prelude.{
  ℕ, ◌+◌, ◌≤◌, ◌<◌, ◌≡◌, ◌⊎◌, refl, inl, inr, String, Bool, true, false, ◌&&◌, none, some, List,
  arith, leb, ltb, ◌==◌, str_eq-eq, eq-str_eq, str_eq_refl, is_some, Option-cases, Bool-cases,
  sub_ℕ, after-sub_ℕ,
}
use thearchivist.Table.{find, count, update, insert, next_rowid, both}
use thearchivist.Table.Laws.{count-update, count-insert, count_mono, count_empty}
use thearchivist.Table.Latest.{find-some_of_find}
use thearchivist.Registry.{Registry}
use thearchivist.Grants.{
  AutoRun, Book, empty_book, per_tuple_24h, global_per_hour, allowed, has_id, run_of, ran_after,
  check_auto, start_auto_run, remember, insert_grant, end_grant, finish_auto_run, revoke_link,
  revoke,
}
use thearchivist.Grants.Operations.{
  Operation, remembers, starts, finishes, ends, links, revokes, operate,
}
use thearchivist.Grants.Budget.{recent, check_auto_iff}

-- lo < ran_at <= lo + span
abbrev pub within : ℕ → ℕ → AutoRun → Bool
within span lo r = ltb lo r.ran_at && leb r.ran_at (lo + span)

-- In no window of 24 hours does a grant run more than twice, and in no window of an hour are there
-- more than four runs.
pub record WithinBudget (b : Book) : Type 0 where
  pub per_tuple :
      (i : String) (lo : ℕ) → count (both (run_of i) (within 86400 lo)) b.auto_runs ≤ per_tuple_24h
  pub per_hour : (lo : ℕ) → count (within 3600 lo) b.auto_runs ≤ global_per_hour

abbrev pub not_start : Operation → Bool
not_start (starts i job_id now) = false
not_start _ = true

-- The histories in which no other run comes between a check and its run.
-- The run may be counted later than the check looked.
pub data Paced (reg : Registry) (hash : String → String) : Book → Type 0 where
  begin : Paced reg hash empty_book
  other :
      {b : Book}
      → Paced reg hash b
      → (o : Operation) → not_start o ≡ true
      → Paced reg hash (operate reg hash o b)
  auto_run :
      {b : Book}
      → Paced reg hash b
      → (host verb unit i job_id : String) (now later : ℕ) → now ≤ later
      → check_auto reg host verb unit now b ≡ (some i, allowed)
      → Paced reg hash (start_auto_run i job_id later b).0

-- Runs differ from one book to the next in `verified` at most.
abbrev SameRuns : Book → Book → Type 0
SameRuns b b' =
    (b'.auto_runs ≡ b.auto_runs)
    ⊎ ((p : AutoRun → Bool) × (v : Bool) × (b'.auto_runs
          ≡ update p (λ r. record r { verified = some v }) b.auto_runs))

operate-SameRuns :
    (reg : Registry) (hash : String → String) (o : Operation) (b : Book)
    → not_start o ≡ true
    → SameRuns b (operate reg hash o b)
unfolding operate
operate-SameRuns reg hash (remembers host verb unit job_id now new_id) b h =
    inl (unfold remember insert_grant in ground arith)
operate-SameRuns reg hash (starts i job_id now) b h = cc
operate-SameRuns reg hash (finishes run_id i verified now) b h =
    inr ((λ r. r.id == run_id), verified, unfold finish_auto_run in ground arith)
operate-SameRuns reg hash (ends i reason now) b h = inl (unfold end_grant in refl)
operate-SameRuns reg hash (links i token) b h = inl (unfold revoke_link in ground arith)
operate-SameRuns reg hash (revokes i token now) b h = inl (unfold revoke in ground arith)

module _ (b b' : Book) (same : SameRuns b b') where
  same-count :
      (p : AutoRun → Bool)
      → ((r : AutoRun) (v : Bool) → p (record r { verified = some v }) ≡ p r)
      → count p b'.auto_runs ≡ count p b.auto_runs
  same-count p blind = elim same [
    | inl e ↦ rw e
    | inr (q, v, e) ↦ rw e (
        count-update p q (λ r. record r { verified = some v }) b.auto_runs
          (λ r. elim (Bool-cases (q r)) [ inl hit ↦ rw hit (blind r v) | inr miss ↦ rw miss ]))
  ]

  same-WithinBudget : WithinBudget b → WithinBudget b'
  same-WithinBudget w = record {
    per_tuple = λ i lo.
        rw (same-count (both (run_of i) (within 86400 lo)) (λ r v. refl)) (w.per_tuple i lo);
    per_hour = λ lo. rw (same-count (within 3600 lo) (λ r v. refl)) (w.per_hour lo);
  }

-- The row of a run as it starts.
abbrev starting : ℕ → String → String → ℕ → AutoRun
starting run_id i job_id now = record {
  id = run_id;
  grant_id = i;
  job_id = job_id;
  ran_at = now;
  verified = none;
}

started :
    (i job_id : String) (now : ℕ) (b : Book)
    → ((start_auto_run i job_id now b).0.auto_runs ≡ b.auto_runs)
      ⊎ ((run_id : ℕ) × ((start_auto_run i job_id now b).0.auto_runs
            ≡ insert (starting run_id i job_id now) b.auto_runs))
unfolding start_auto_run
started i job_id now b = elim (Option-cases (find (has_id i) b.grants)) [
  | inl unknown ↦ inl (rw (unknown, start_auto_run))
  | inr (g, e) ↦ inr (next_rowid (λ (r : AutoRun). r.id) b.auto_runs, rw (e, start_auto_run))
]

within-ran_after :
    (span lo now : ℕ) (r : AutoRun)
    → now ≤ lo + span
    → within span lo r ≡ true
    → ran_after (sub_ℕ now span) r ≡ true
within-ran_after span lo now r h w = rw (after-sub_ℕ now span r.ran_at) (ground arith)

module _ (i job_id : String) (run_id now later : ℕ) (rows : List AutoRun) (h : now ≤ later) where
  tuple_window :
      (j : String) (lo : ℕ)
      → count (both (run_of i) (ran_after (sub_ℕ now 86400))) rows < per_tuple_24h
      → count (both (run_of j) (within 86400 lo)) rows ≤ per_tuple_24h
      → count (both (run_of j) (within 86400 lo)) (insert (starting run_id i job_id later) rows)
        ≤ per_tuple_24h
  tuple_window j lo room before =
      rw (count-insert (both (run_of j) (within 86400 lo)) (starting run_id i job_id later) rows)
        (elim (Bool-cases (both (run_of j) (within 86400 lo) (starting run_id i job_id later))) [
          | inr out ↦ rw out (omega arith)
          | inl inside ↦
              let same : i ≡ j = str_eq-eq i j (ground arith) in
              let near : now ≤ lo + 86400 = ground arith in
              rw inside (
                omega (
                  arith,
                  room,
                  count_mono (both (run_of j) (within 86400 lo))
                      (both (run_of i) (ran_after (sub_ℕ now 86400))) rows
                      (λ r w. ground (arith, same, w, within-ran_after 86400 lo now r near)),
                ))
        ])

  hour_window :
      (lo : ℕ)
      → count (ran_after (sub_ℕ now 3600)) rows < global_per_hour
      → count (within 3600 lo) rows ≤ global_per_hour
      → count (within 3600 lo) (insert (starting run_id i job_id later) rows) ≤ global_per_hour
  hour_window lo room before =
      rw (count-insert (within 3600 lo) (starting run_id i job_id later) rows)
        (elim (Bool-cases (within 3600 lo (starting run_id i job_id later))) [
          | inr out ↦ rw out (omega arith)
          | inl inside ↦
              let near : now ≤ lo + 3600 = ground arith in
              rw inside (
                omega (
                  arith,
                  room,
                  count_mono (within 3600 lo) (ran_after (sub_ℕ now 3600)) rows
                      (λ r w. within-ran_after 3600 lo now r near w),
                ))
        ])

start-WithinBudget :
    (reg : Registry) (host verb unit i job_id : String) (now later : ℕ) (b : Book)
    → now ≤ later
    → check_auto reg host verb unit now b ≡ (some i, allowed)
    → WithinBudget b
    → WithinBudget (start_auto_run i job_id later b).0
start-WithinBudget reg host verb unit i job_id now later b h e w =
    let m = (check_auto_iff reg host verb unit now b i).0 e in
    elim (started i job_id later b) [
      | inl same ↦ record {
        per_tuple = λ j lo. rw same (w.per_tuple j lo);
        per_hour = λ lo. rw same (w.per_hour lo);
      }
      | inr (run_id, grown) ↦ record {
        per_tuple = λ j lo. rw grown (
            tuple_window i job_id run_id now later b.auto_runs h j lo m.tuple_room
              (w.per_tuple j lo));
        per_hour = λ lo.
            rw grown (
              hour_window i job_id run_id now later b.auto_runs h lo m.global_room (w.per_hour lo));
      }
    ]

-- After any history from empty tables in which each run without a tap starts no earlier than its
-- check, with nothing between the two: no grant ever ran more than twice in 24 hours, and there
-- never were more than four runs in an hour, whichever window one takes.
pub Paced-WithinBudget :
    {reg : Registry} {hash : String → String} {b : Book} → Paced reg hash b → WithinBudget b
Paced-WithinBudget begin = record {
  per_tuple = λ i lo. rw (count_empty (both (run_of i) (within 86400 lo))) (omega arith);
  per_hour = λ lo. rw (count_empty (within 3600 lo)) (omega arith);
}
Paced-WithinBudget {reg} {hash} (other {b = b} p o quiet) =
    same-WithinBudget b (operate reg hash o b) (operate-SameRuns reg hash o b quiet)
      (Paced-WithinBudget p)
Paced-WithinBudget {reg} (auto_run {b = b} p host verb unit i job_id now later k e) =
    start-WithinBudget reg host verb unit i job_id now later b k e (Paced-WithinBudget p)

start_known :
    (i job_id : String) (now : ℕ) (b : Book)
    → is_some (find (has_id i) b.grants) ≡ true
    → (recent i now (start_auto_run i job_id now b).0 ≡ recent i now b + 1)
      × ((start_auto_run i job_id now b).0.grants ≡ b.grants)
unfolding start_auto_run
start_known i job_id now b known = elim (Option-cases (find (has_id i) b.grants)) [
  | inl unknown ↦ absurd (ground (arith, unknown, known))
  | inr (g, e) ↦
      rw (e, start_auto_run)
        (
          rw
              (count-insert (both (run_of i) (ran_after (sub_ℕ now 86400)))
                (starting (next_rowid (λ (r : AutoRun). r.id) b.auto_runs) i job_id now)
                b.auto_runs)
              (ground (arith, str_eq_refl i)),
          refl,
        )
]

-- If check_auto() allows an action whose grant ran once in the last 24 hours, and two handlers
-- start a run on the strength of that check, at its time, then the grant has run more often in the
-- last 24 hours than its limit allows.
pub two_checks_overrun :
    (reg : Registry) (host verb unit i job_id other_job : String) (now : ℕ) (b : Book)
    → check_auto reg host verb unit now b ≡ (some i, allowed)
    → recent i now b ≡ 1
    → per_tuple_24h
      < recent i now (start_auto_run i other_job now (start_auto_run i job_id now b).0).0
two_checks_overrun reg host verb unit i job_id other_job now b e once =
    let m = (check_auto_iff reg host verb unit now b i).0 e in
    let known =
      find-some_of_find (has_id i) _ b.grants m.grant m.found (eq-str_eq m.grant.id i m.named) in
    let (first, same) = start_known i job_id now b known in
    let (second, _) =
      start_known i other_job now (start_auto_run i job_id now b).0 (rw same known) in
    omega (arith, first, second, once)
