-- ===== src/Grants/Budget.antt =====
-- check_auto() of configs/responder/grants.py, and the limits that it puts on runs without a tap.
use thearchivist.Prelude.{ℕ, ◌<◌, ◌≡◌, ◌↔◌, refl, String, false, Option, none, some, arith, sub_ℕ}
use thearchivist.Table.{find, count, both}
use thearchivist.Registry.{Registry, is_protected}
use thearchivist.Grants.{
  Grant, Book, per_tuple_24h, global_per_hour, allowed, is_for, is_active, run_of, ran_after,
  check_auto,
}

-- The runs of a grant in the 24 hours, and all runs in the hour, that end at a time.
abbrev pub recent : String → ℕ → Book → ℕ
recent i now b = count (both (run_of i) (ran_after (sub_ℕ now 86400))) b.auto_runs

abbrev pub last_hour : ℕ → Book → ℕ
last_hour now b = count (ran_after (sub_ℕ now 3600)) b.auto_runs

-- The conditions under which an action may run without a tap.
pub record MayRun (reg : Registry) (host verb unit : String) (now : ℕ) (b : Book) (i : String)
    : Type 0 where
  pub unprotected : is_protected reg host ≡ false
  pub grant : Grant
  pub found : find (both (is_for host verb unit) is_active) b.grants ≡ some grant
  pub named : grant.id ≡ i
  pub tuple_room : recent i now b < per_tuple_24h
  pub global_room : last_hour now b < global_per_hour

module _ (reg : Registry) (host verb unit : String) (now : ℕ) (b : Book) (i : String) where
  allowed-MayRun :
      (o : Option Grant)
      → find (both (is_for host verb unit) is_active) b.grants ≡ o
      → check_auto reg host verb unit now b ≡ (some i, allowed)
      → MayRun reg host verb unit now b i
  unfolding check_auto
  allowed-MayRun none e h = absurd (ground (arith, e, h))
  allowed-MayRun (some g) e h =
      let named : g.id ≡ i = ground (arith, e, h) in
      record {
        unprotected = ground (arith, e, h);
        grant = g;
        found = e;
        named = named;
        tuple_room = rw (← named) (ground (arith, e, h));
        global_room = ground (arith, e, h);
      }

  -- check_auto() allows a grant exactly if the host is not protected, the action has an active grant,
  -- the grant ran less than twice in the last 24 hours, and less than four runs of any grant were
  -- made in the last hour.
  pub check_auto_iff :
      (check_auto reg host verb unit now b ≡ (some i, allowed)) ↔ MayRun reg host verb unit now b i
  check_auto_iff = (
    allowed-MayRun _ refl,
    λ m.
        unfold check_auto in
        ground (arith, m.unprotected, m.found, m.named, m.tuple_room, m.global_room),
  )
