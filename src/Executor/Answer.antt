-- ===== src/Executor/Answer.antt =====
-- executor.py: when execute() reports success, and when failure.
use thearchivist.Prelude.{
  ℕ, ◌+◌, ◌*◌, ◌≡◌, ◌⊎◌, refl, sym, ap, inl, inr, String, Bool, true, false, none, some, ltb,
  Bool-cases, Result, ok, raise, key_error,
}
use thearchivist.Registry.{HostConfig}
use thearchivist.Executor.{
  Machine, Line, is_zero, gate, unit_active, page_ok, healthy, timeout_of, execute, or_else,
  verified,
}
use thearchivist.Executor.Runs.{
  Polled, late, healthy_now, escaped, again, Ran, nowhere, refused, carried, execute-Ran,
}

-- What the loop of verify() comes to the head of: the first place, and three seconds behind each round
-- that began before the deadline and found the service not ready.
pub data Reaches {W : Type 0} (m : Machine W) (h : HostConfig) (ip : String) (deadline : ℕ)
    (from : Line W) : Line W → Type 0 where
  first : Reaches m h ip deadline from from
  later :
      {l after : Line W}
      → Reaches m h ip deadline from l
      → ltb (m.clock l.world) deadline ≡ true
      → healthy m h ip l ≡ (ok false, after)
      → Reaches m h ip deadline from (record after { world = m.sleep 3 after.world })

module _ {W : Type 0} (m : Machine W) (h : HostConfig) (verb : String) (l : Line W) where
  -- By when verify() polls.
  abbrev pub deadline : String → ℕ
  deadline ip = m.clock (gate m ip verb 60 l).1.world + 1000 * timeout_of h

  -- A place that the loop comes to after the verb has run.
  abbrev pub AfterVerb : String → Line W → Type 0
  AfterVerb ip at = Reaches m h ip (deadline ip) (gate m ip verb 60 l).1 at

  abbrev pub page_at : String → Line W → Result Bool × Line W
  page_at ip at = page_ok m h.verify_url (or_else "" h.verify_expect) (unit_active m ip at).1

  -- The verb ended with 0 on the host, and a poll behind it, before the deadline, saw the unit active.
  pub record SeenActive (ip : String) (at : Line W) : Type 0 where
    pub given : h.ip ≡ some ip
    pub done : is_zero (gate m ip verb 60 l).0.0 ≡ true
    pub reached : AfterVerb ip at
    pub early : ltb (m.clock at.world) (deadline ip) ≡ true
    pub active : (unit_active m ip at).0 ≡ true

  -- What the answer of execute() says, and where it leaves the machine.
  unfoldable pub Meaning : Result (Bool × String) × Line W → Type 0
  Meaning (raise e, after) =
      ((h.ip ≡ none) × (e ≡ key_error) × (after ≡ l))
      ⊎ ((ip : String) × (at : Line W) × SeenActive ip at × (page_at ip at ≡ (raise e, after)))
  Meaning (ok (true, detail), after) =
      (ip : String) × (at : Line W) × SeenActive ip at × (page_at ip at ≡ (ok true, after))
  Meaning (ok (false, detail), after) =
      (ip : String) × (h.ip ≡ some ip)
      × (((is_zero (gate m ip verb 60 l).0.0 ≡ false) × (after ≡ (gate m ip verb 60 l).1))
          ⊎ ((is_zero (gate m ip verb 60 l).0.0 ≡ true)
              × AfterVerb ip after
              × (ltb (m.clock after.world) (deadline ip) ≡ false)))

  -- A round that ends the loop has seen the unit active, and the page says how it ends.
  healthy-page :
      (ip : String) (at after : Line W) (r : Result Bool)
      → (r ≡ ok false → ⊥)
      → healthy m h ip at ≡ (r, after)
      → ((unit_active m ip at).0 ≡ true) × (page_at ip at ≡ (r, after))
  unfolding healthy
  healthy-page ip at after r ends round = elim (Bool-cases (unit_active m ip at).0) [
    | inl up ↦ (up, rw (healthy, up) at round)
    | inr down ↦ absurd (
        let quiet = (rw (healthy, down) at round) in
        ends (ap (λ (p : Result Bool × Line W). p.0) (sym quiet)))
  ]

  Polled-Meaning :
      {ip : String} {from : Line W} {v : Result Bool × Line W}
      → h.ip ≡ some ip
      → is_zero (gate m ip verb 60 l).0.0 ≡ true
      → AfterVerb ip from
      → Polled m h ip (deadline ip) from v
      → Meaning (verified m h verb (m.clock l.world) v)
  unfolding Meaning
  Polled-Meaning given done reached (late over) = (_, given, inr (done, reached, over))
  Polled-Meaning {ip} given done reached (escaped {l = at} {after} {e} early round) =
      let (up, page) = healthy-page ip at after (raise e) (λ q. cc) round in
      inr (
        ip,
        at,
        record { given = given; done = done; reached = reached; early = early; active = up },
        page,
      )
  Polled-Meaning {ip} given done reached (healthy_now {l = at} {after} early round) =
      let (up, page) = healthy-page ip at after (ok true) (λ q. cc) round in
      (
        ip,
        at,
        record { given = given; done = done; reached = reached; early = early; active = up },
        page,
      )
  Polled-Meaning given done reached (again early round rest) =
      Polled-Meaning given done (later reached early round) rest

  Ran-Meaning : {r : Result (Bool × String) × Line W} → Ran m h verb l r → Meaning r
  unfolding Meaning
  Ran-Meaning (nowhere missing) = inl (missing, refl, refl)
  Ran-Meaning (refused given failed) = (_, given, inl (failed, refl))
  Ran-Meaning (carried given done polled) = Polled-Meaning given done first polled

  -- If execute() answers success, the verb ended with 0 and then, before the deadline, a poll that the
  -- loop came to behind the verb, by rounds that were not ready, saw the unit active and the page, if
  -- there is one, as expected; it is the last thing that the run did. If it answers failure, the verb
  -- did not end with 0 and nothing came after it, or the loop went on until the deadline was over. If
  -- it raises, the entry has no address and nothing was asked, or the page of such a poll raised.
  pub execute-Meaning :
      (r : Result (Bool × String) × Line W) → execute m h verb l ≡ some r → Meaning r
  execute-Meaning r end = Ran-Meaning (execute-Ran m h verb l r end)
