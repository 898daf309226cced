-- ===== src/Journal/Secrets.antt =====
-- What scrub() of journal.py leaves of a text: no token of ntfy and no topic's name.
use Prim.Native.Char.{Char}
use Prim.Native.String.append.{nil, cons}
use thearchivist.Prelude.{
  ℕ, zero, suc, ◌-◌, ◌≡◌, refl, inl, inr, String, Bool, ◌&&◌, Option, none, some, str_eq,
  Bool-cases, Option-cases,
}
use thearchivist.Text.{drop_chars, strip_prefix, count_char, lstrip, rstrip, strip, is_space}
use thearchivist.Journal.Scrub.{
  Pattern, redacted, sub, word_run, is_token_char, is_topic_char, ntfy_token, alerts_topic,
  updates_topic, first_of, keywords, secret_words, opaque, scrub,
}
use thearchivist.Journal.Shadow.{Shadow, done, same, Shadow-sub, Plain, word_run-Shadow}

-- The pattern matches nowhere in the text.
abbrev pub Absent : (String → Option ℕ) → String → Type 0
Absent pat String.[] = pat "" ≡ none
Absent pat (String.◌∷◌ c s) = (pat (String.◌∷◌ c s) ≡ none) × Absent pat s

Absent-drop_chars :
    (pat : String → Option ℕ) (n : ℕ) (s : String) → Absent pat s → Absent pat (drop_chars n s)
unfolding drop_chars
Absent-drop_chars pat zero s h = h
Absent-drop_chars pat (suc n) String.[] h = h
Absent-drop_chars pat (suc n) (String.◌∷◌ c s) h = Absent-drop_chars pat n s h.1

-- A pattern of a word and a run that nothing in "[redacted]" starts to match.
pub record Foreign (w : String) (p : Char → Bool) (least : ℕ) : Type 0 where
  is_plain : Plain w p
  missing : word_run w p least "" ≡ none
  covered : (s : String) → Absent (word_run w p least) s → Absent (word_run w p least) (redacted s)

module _ {w : String} {p : Char → Bool} {least : ℕ} (foreign : Foreign w p least)
    (pat : Pattern) where
  -- A pass keeps out what is not in the text.
  Absent-sub :
      (before : Option Char) (skip : ℕ) (s : String)
      → Absent (word_run w p least) (drop_chars skip s)
      → Absent (word_run w p least) (sub pat before skip s)
  unfolding sub drop_chars
  Absent-sub before zero String.[] h = h
  Absent-sub before (suc skip) String.[] h = h
  Absent-sub before (suc skip) (String.◌∷◌ c s) h = Absent-sub (some c) skip s h
  Absent-sub before zero (String.◌∷◌ c s) h = elim (Option-cases (pat before (String.◌∷◌ c s))) [
    | inl missed ↦
        rw (sub, missed)
          (
            word_run-Shadow least foreign.is_plain (same {c = c} (Shadow-sub pat (some c) zero s))
                h.0,
            Absent-sub (some c) zero s h.1,
          )
    | inr (n, hit) ↦
        rw (sub, hit)
          (foreign.covered (sub pat (some c) (n - 1) s)
            (Absent-sub (some c) (n - 1) s (Absent-drop_chars (word_run w p least) (n - 1) s h.1)))
  ]

  -- The pass of a pattern that misses only where this one does takes it out.
  sub-Absent :
      ((before : Option Char) (s : String) → pat before s ≡ none → word_run w p least s ≡ none)
      → (before : Option Char) (skip : ℕ) (s : String)
      → Absent (word_run w p least) (sub pat before skip s)
  unfolding sub drop_chars
  sub-Absent wider before zero String.[] = foreign.missing
  sub-Absent wider before (suc skip) String.[] = foreign.missing
  sub-Absent wider before (suc skip) (String.◌∷◌ c s) = sub-Absent wider (some c) skip s
  sub-Absent wider before zero (String.◌∷◌ c s) =
      elim (Option-cases (pat before (String.◌∷◌ c s))) [
        | inl missed ↦
            rw (sub, missed)
              (
                word_run-Shadow least foreign.is_plain
                    (same {c = c} (Shadow-sub pat (some c) zero s))
                    (wider before (String.◌∷◌ c s) missed),
                sub-Absent wider (some c) zero s,
              )
        | inr (n, hit) ↦
            rw (sub, hit)
              (foreign.covered (sub pat (some c) (n - 1) s) (sub-Absent wider (some c) (n - 1) s))
      ]

-- The ten places of "[redacted]" in front of a text.
redacted-append :
    (s : String)
    → redacted s
      ≡ String.◌∷◌ "[" (
          String.◌∷◌ "r" (
            String.◌∷◌ "e" (
              String.◌∷◌ "d" (
                String.◌∷◌ "a" (
                  String.◌∷◌ "c"
                    (String.◌∷◌ "t" (String.◌∷◌ "e" (String.◌∷◌ "d" (String.◌∷◌ "]" s)))))))))
redacted-append s = rw (cons, cons, cons, cons, cons, cons, cons, cons, cons, cons, nil) refl

pub ntfy_token-Foreign : Foreign "tk_" is_token_char 8
unfolding word_run strip_prefix count_char
ntfy_token-Foreign = record {
  is_plain = record { word_plain = refl; class_plain = refl };
  missing = refl;
  covered = λ s h.
      rw (redacted-append s)
        (refl, (refl, (refl, (refl, (refl, (refl, (refl, (refl, (refl, (refl, h))))))))));
}

pub alerts_topic-Foreign : Foreign "homelab-alerts-" is_topic_char 6
unfolding word_run strip_prefix count_char
alerts_topic-Foreign = record {
  is_plain = record { word_plain = refl; class_plain = refl };
  missing = refl;
  covered = λ s h.
      rw (redacted-append s)
        (refl, (refl, (refl, (refl, (refl, (refl, (refl, (refl, (refl, (refl, h))))))))));
}

pub updates_topic-Foreign : Foreign "homelab-updates-" is_topic_char 6
unfolding word_run strip_prefix count_char
updates_topic-Foreign = record {
  is_plain = record { word_plain = refl; class_plain = refl };
  missing = refl;
  covered = λ s h.
      rw (redacted-append s)
        (refl, (refl, (refl, (refl, (refl, (refl, (refl, (refl, (refl, (refl, h))))))))));
}

first_of-none : (m n : Option ℕ) → first_of m n ≡ none → (m ≡ none) × (n ≡ none)
first_of-none none n h = (refl, h)
first_of-none (some m) n h = cc

-- In a text that went through scrub(), whatever it was and whatever letters there are beyond ASCII, no
-- token of ntfy is left and no name of a topic, of alerts or of updates: their patterns match at none
-- of its places.
pub scrub-Absent :
    (is_letter : Char → Bool) (text : String)
    → Absent ntfy_token (scrub is_letter text)
      × Absent alerts_topic (scrub is_letter text)
      × Absent updates_topic (scrub is_letter text)
unfolding scrub drop_chars sub
scrub-Absent is_letter text =
    let token_gone =
      sub-Absent ntfy_token-Foreign (λ before. ntfy_token) (λ before s missed. missed) none 0
        text in
    let words = λ (before : Option Char). keywords secret_words in
    let topics : Pattern = λ before s. first_of (alerts_topic s) (updates_topic s) in
    let no_words = sub words none 0 (sub (λ before. ntfy_token) none 0 text) in
    (
      Absent-sub ntfy_token-Foreign (opaque is_letter) none 0 _ (
          Absent-sub ntfy_token-Foreign topics none 0 _
            (Absent-sub ntfy_token-Foreign words none 0 _ token_gone)),
      Absent-sub alerts_topic-Foreign (opaque is_letter) none 0 _ (
          sub-Absent alerts_topic-Foreign topics
            (λ before s missed. (first_of-none (alerts_topic s) (updates_topic s) missed).0) none 0
            no_words),
      Absent-sub updates_topic-Foreign (opaque is_letter) none 0 _ (
          sub-Absent updates_topic-Foreign topics
            (λ before s missed. (first_of-none (alerts_topic s) (updates_topic s) missed).1) none 0
            no_words),
    )

-- A text that is stripped
module _ {w : String} {p : Char → Bool} {least : ℕ} (foreign : Foreign w p least) where
  rstrip-Shadow : (s : String) → Shadow (rstrip is_space s) s
  unfolding rstrip
  rstrip-Shadow String.[] = done
  rstrip-Shadow (String.◌∷◌ c s) = elim (Bool-cases (is_space c && str_eq (rstrip is_space s) "")) [
    | inl ends ↦ rw ends done
    | inr goes_on ↦ rw goes_on (same (rstrip-Shadow s))
  ]

  Absent-rstrip :
      (s : String) → Absent (word_run w p least) s → Absent (word_run w p least) (rstrip is_space s)
  unfolding rstrip
  Absent-rstrip String.[] h = h
  Absent-rstrip (String.◌∷◌ c s) h =
      elim (Bool-cases (is_space c && str_eq (rstrip is_space s) "")) [
        | inl ends ↦ rw ends foreign.missing
        | inr goes_on ↦ rw goes_on (
          word_run-Shadow least foreign.is_plain (same {c = c} (rstrip-Shadow s)) h.0,
          Absent-rstrip s h.1,
        )
      ]

  Absent-lstrip :
      (s : String) → Absent (word_run w p least) s → Absent (word_run w p least) (lstrip is_space s)
  unfolding lstrip
  Absent-lstrip String.[] h = h
  Absent-lstrip (String.◌∷◌ c s) h = elim (Bool-cases (is_space c)) [
    | inl space ↦ rw space (Absent-lstrip s h.1)
    | inr other ↦ rw other h
  ]

  pub Absent-strip :
      (s : String) → Absent (word_run w p least) s → Absent (word_run w p least) (strip s)
  Absent-strip s h = Absent-lstrip (rstrip is_space s) (Absent-rstrip s h)
