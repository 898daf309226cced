-- ===== src/Diagnose/Tags.antt =====
-- That the text of an alert cannot open or close the tags of the prompt.
use Prim.Native.Char.{Char, code}
use Prim.Native.String
use Prim.Native.String.append.{nil, cons}
use thearchivist.Prelude.{
  ℕ, ◌+◌, ◌≡◌, ◌≢◌, refl, sym, ap, ◌∙◌, inl, inr, String, List, [], ◌∷◌, ◌++◌, map, arith, ◌==◌,
  Bool-cases, ok, >>=-returns,
}
use thearchivist.Registry.{Registry, by_checkmk_name}
use thearchivist.Store.Data.{Job, Alert}
use thearchivist.Text.{join, count_char}
use thearchivist.Text.Parts.{Lacks, Lacks-cons, count_char-append}
use thearchivist.Diagnose.Prompt.{
  replace_char, untrusted, sorted_items, host_lines, alert_section, preamble, build_prompt,
}

module _ (c : ℕ) (d : Char) where
  Lacks-replace_char : (s : String) → code d ≢ c → Lacks c (replace_char c d s)
  unfolding replace_char count_char
  Lacks-replace_char String.[] other = refl
  Lacks-replace_char (String.◌∷◌ e s) other = elim (Bool-cases (code e == c)) [
    | inl here ↦ rw here (ground (arith, other, Lacks-replace_char s other))
    | inr away ↦ rw away (ground (arith, away, Lacks-replace_char s other))
  ]

  kept_out : (x : ℕ) (s : String) → code d ≢ x → Lacks x s → Lacks x (replace_char c d s)
  unfolding replace_char count_char
  kept_out x String.[] other h = refl
  kept_out x (String.◌∷◌ e s) other h =
      let (rest, away) = Lacks-cons x e s h in
      elim (Bool-cases (code e == c)) [
        | inl here ↦ rw here (ground (arith, other, kept_out x s other rest))
        | inr not_here ↦ rw (not_here, away) (kept_out x s other rest)
      ]

-- An angle bracket, opening or closing
data IsBracket : ℕ → Type 0 where
  opening : IsBracket b'<'
  closing : IsBracket b'>'

Lacks-untrusted : (x : ℕ) (s : String) → IsBracket x → Lacks x (untrusted s)
unfolding untrusted
Lacks-untrusted _ s opening =
    kept_out b'>' "›" b'<' (replace_char b'<' "‹" s) (ground arith)
      (Lacks-replace_char b'<' "‹" s (ground arith))
Lacks-untrusted _ s closing = Lacks-replace_char b'>' "›" (replace_char b'<' "‹" s) (ground arith)

-- How often a character stands in some texts.
total : ℕ → List String → ℕ
total x [] = 0
total x (s ∷ ss) = count_char x s + total x ss

total-append : (x : ℕ) (ss ts : List String) → total x (ss ++ ts) ≡ total x ss + total x ts
unfolding total
total-append x [] ts = ground arith
total-append x (s ∷ ss) ts = ground (arith, total-append x ss ts)

count_char-join : (x : ℕ) (ss : List String) → x ≢ 10 → count_char x (join "\n" ss) ≡ total x ss
unfolding join total count_char
count_char-join x [] other = refl
count_char-join x (s ∷ []) other = ground arith
count_char-join x (s ∷ t ∷ ts) other =
    rw
      (
        count_char-append x s (String.◌++◌ "\n" (join "\n" (t ∷ ts))),
        count_char-append x "\n" (join "\n" (t ∷ ts)),
      )
      (ground (arith, other, count_char-join x (t ∷ ts) other))

total-sections :
    (show_list : List String → String) (stamp : ℕ → String) (job : Job) (alerts : List Alert)
    (x : ℕ)
    → IsBracket x
    → total x (map (alert_section show_list stamp job) alerts) ≡ 0
unfolding total alert_section
total-sections show_list stamp job [] x b = refl
total-sections show_list stamp job (a ∷ alerts) x b =
    rw (Lacks-untrusted x _ b) (ground (arith, total-sections show_list stamp job alerts x b))

IsBracket-newline : (x : ℕ) → IsBracket x → x ≢ 10
IsBracket-newline _ opening = ground arith
IsBracket-newline _ closing = ground arith

module _ (show_list : List String → String) (stamp : ℕ → String) (job : Job) (alerts : List Alert)
    (reg : Registry) where
  abbrev prompt_lines : List String → List Alert → List String
  prompt_lines hosts some_alerts =
      preamble show_list stamp hosts (by_checkmk_name reg job.host)
      ++ "<untrusted_alert>"
        ∷ (map (alert_section show_list stamp job) some_alerts ++ "</untrusted_alert>" ∷ [])

  brackets :
      (hosts : List String) (x : ℕ)
      → IsBracket x
      → count_char x (join "\n" (prompt_lines hosts alerts))
        ≡ count_char x (join "\n" (prompt_lines hosts []))
  unfolding total
  brackets hosts x b =
      let other = IsBracket-newline x b in
      let above = preamble show_list stamp hosts (by_checkmk_name reg job.host) in
      let sections = map (alert_section show_list stamp job) alerts in
      rw
        (
          count_char-join x (prompt_lines hosts alerts) other,
          count_char-join x (prompt_lines hosts []) other,
          total-append x above ("<untrusted_alert>" ∷ (sections ++ "</untrusted_alert>" ∷ [])),
          total-append x above ("<untrusted_alert>" ∷ "</untrusted_alert>" ∷ []),
          total-append x sections ("</untrusted_alert>" ∷ []),
          total-sections show_list stamp job alerts x b,
        )
        (ground arith)

  -- Whatever the alerts, the host's and the service's name say, the prompt has as many angle brackets,
  -- opening and closing, as the prompt for the same job without any alert, which can be built if that
  -- for the alerts can.
  pub build_prompt-brackets :
      (text : String)
      → build_prompt show_list stamp job alerts reg ≡ ok text
      → (bare : String) × (build_prompt show_list stamp job [] reg ≡ ok bare)
        × (count_char b'<' text ≡ count_char b'<' bare)
        × (count_char b'>' text ≡ count_char b'>' bare)
  unfolding build_prompt
  build_prompt-brackets text built =
      let (hosts, e, listed) =
        >>=-returns (λ hosts. ok (join "\n" (prompt_lines hosts alerts)))
          (host_lines show_list stamp (sorted_items reg.hosts)) built in
      let same : join "\n" (prompt_lines hosts alerts) ≡ text = cc in
      (
        join "\n" (prompt_lines hosts []),
        rw listed refl,
        ap (count_char b'<') (sym same) ∙ brackets hosts b'<' opening,
        ap (count_char b'>') (sym same) ∙ brackets hosts b'>' closing,
      )
