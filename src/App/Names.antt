-- ===== src/App/Names.antt =====
-- The texts that HOSTNAME of configs/responder/app.py matches.
use Prim.Native.String
use mathlib.Core.Path.{subst}
use Prim.Native.String.append.{nil, cons}
use thearchivist.Text.{chars}
use thearchivist.Prelude.{
  ℕ, zero, suc, ◌≤◌, ◌≡◌, ◌↔◌, ◌⊎◌, refl, sym, ap, inl, inr, String, Bool, true, ◌&&◌, arith,
  str_eq, str_eq-eq, Bool-cases,
}
use thearchivist.App.Paths.{is_host_char, at_end, host_chars, match_hostname}

-- Every character is in [A-Za-z0-9._-].
unfoldable pub is_name : String → Bool
is_name String.[] = true
is_name (String.◌∷◌ c s) = is_host_char c && is_name s

-- A name of at most n characters, and a newline or nothing behind it.
pub record Named (n : ℕ) (s : String) : Type 0 where
  pub name : String
  pub rest : String
  pub parts : s ≡ String.◌++◌ name rest
  pub proper : is_name name ≡ true
  pub short : chars name ≤ n
  pub ends : at_end rest ≡ true

host_chars-Named : (n : ℕ) (s : String) → host_chars n s ≡ true → Named n s
unfolding host_chars is_name chars
host_chars-Named n String.[] h = record {
  name = "";
  rest = "";
  parts = sym (nil "");
  proper = refl;
  short = omega arith;
  ends = refl;
}
host_chars-Named zero (String.◌∷◌ c s) h = record {
  name = "";
  rest = String.◌∷◌ c s;
  parts = sym (nil (String.◌∷◌ c s));
  proper = refl;
  short = omega arith;
  ends = h;
}
host_chars-Named (suc n) (String.◌∷◌ c s) h = elim (Bool-cases (is_host_char c)) [
  | inr other ↦ record {
    name = "";
    rest = String.◌∷◌ c s;
    parts = sym (nil (String.◌∷◌ c s));
    proper = refl;
    short = omega arith;
    ends = rw other at h;
  }
  | inl good ↦
      let tail = host_chars-Named n s (rw good at h) in
      record {
        name = String.◌∷◌ c tail.name;
        rest = tail.rest;
        parts = rw (cons c tail.name tail.rest) (ap (String.◌∷◌ c) tail.parts);
        proper = rw good tail.proper;
        short = omega (arith, tail.short);
        ends = tail.ends;
      }
]

at_end-cases : (s : String) → at_end s ≡ true → (s ≡ "") ⊎ (s ≡ "\n")
at_end-cases s h = elim (Bool-cases (str_eq s "")) [
  | inl empty ↦ inl (str_eq-eq s "" empty)
  | inr more ↦ inr (str_eq-eq s "\n" (rw more at h))
]

host_chars_end : (n : ℕ) (s : String) → at_end s ≡ true → host_chars n s ≡ true
unfolding host_chars
host_chars_end n s h = elim (at_end-cases s h) [
  | inl empty ↦ rw empty
  | inr line ↦ rw line (newline n)
]
  where
    newline : (m : ℕ) → host_chars m "\n" ≡ true
    newline zero = refl
    newline (suc m) = refl

host_chars_name :
    (n : ℕ) (name rest : String)
    → is_name name ≡ true
    → chars name ≤ n
    → at_end rest ≡ true
    → host_chars n (String.◌++◌ name rest) ≡ true
unfolding host_chars is_name chars
host_chars_name n String.[] rest proper short ends = rw (nil rest) (host_chars_end n rest ends)
host_chars_name zero (String.◌∷◌ c s) rest proper short ends = absurd (omega (arith, short))
host_chars_name (suc n) (String.◌∷◌ c s) rest proper short ends =
    rw (cons c s rest) (ground (arith, host_chars_name n s rest (ground arith) (omega arith) ends))

-- HOSTNAME matches exactly the texts that are a name of 1 to 64 of the characters A-Z, a-z, 0-9, `.`,
-- `_` and `-`, or such a name with a newline behind it.
pub match_hostname_iff :
    (s : String) → (match_hostname s ≡ true) ↔ ((x : Named 64 s) × (1 ≤ chars x.name))
unfolding match_hostname chars is_name
match_hostname_iff s = (forth s, λ x. back s x.0 x.0.name refl x.1)
  where
    forth : (t : String) → match_hostname t ≡ true → (x : Named 64 t) × (1 ≤ chars x.name)
    forth String.[] h = cc
    forth (String.◌∷◌ c t) h =
        let tail = host_chars-Named 63 t (ground arith) in
        (
          record {
            name = String.◌∷◌ c tail.name;
            rest = tail.rest;
            parts = rw (cons c tail.name tail.rest) (ap (String.◌∷◌ c) tail.parts);
            proper = ground (arith, tail.proper);
            short = omega (arith, tail.short);
            ends = tail.ends;
          },
          omega arith,
        )

    back :
        (t : String) (x : Named 64 t) (name : String)
        → x.name ≡ name
        → 1 ≤ chars x.name
        → match_hostname t ≡ true
    back t x String.[] e some_name = absurd (omega (arith, rw e at some_name))
    back t x (String.◌∷◌ c name) e some_name =
        let proper : is_name (String.◌∷◌ c name) ≡ true =
          subst (λ (u : String). is_name u ≡ true) e x.proper in
        let short : chars (String.◌∷◌ c name) ≤ 64 =
          subst (λ (u : String). chars u ≤ 64) e x.short in
        rw (x.parts, e, cons c name x.rest)
          (ground (arith, host_chars_name 63 name x.rest (ground arith) (omega arith) x.ends))

host_chars-newline :
    (n : ℕ) (s : String)
    → is_name s ≡ true
    → host_chars n s ≡ true
    → host_chars n (String.◌++◌ s "\n") ≡ true
unfolding host_chars is_name chars
host_chars-newline n String.[] proper h = rw (nil "\n") (host_chars_end n "\n" refl)
host_chars-newline zero (String.◌∷◌ c s) proper h = elim (at_end-cases (String.◌∷◌ c s) h) [
  | inl empty ↦ absurd (ground (arith, ap chars empty))
  | inr line ↦ absurd (ground (arith, ap is_name line))
]
host_chars-newline (suc n) (String.◌∷◌ c s) proper h =
    rw (cons c s "\n") (ground (arith, host_chars-newline n s (ground arith) (ground arith)))

-- A name that HOSTNAME matches is also matched with a newline behind it, which the alert's host then
-- ends in.
pub match_hostname-newline :
    (s : String)
    → is_name s ≡ true
    → match_hostname s ≡ true
    → match_hostname (String.◌++◌ s "\n") ≡ true
unfolding match_hostname is_name
match_hostname-newline String.[] proper h = cc
match_hostname-newline (String.◌∷◌ c s) proper h =
    rw (cons c s "\n") (ground (arith, host_chars-newline 63 s (ground arith) (ground arith)))
