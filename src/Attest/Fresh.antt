-- ===== src/Attest/Fresh.antt =====
-- What run() of attest.py pushes, in terms of the keys of its alerts.
use thearchivist.Prelude.{
  ℕ, ◌≡◌, refl, ◌∙◌, inl, inr, String, Bool, true, false, not, ◌&&◌, ◌||◌, List, [], ◌∷◌, ◌++◌, map,
  arith, str_eq-eq, Bool-cases, Option-cases,
}
use thearchivist.Table.{select}
use thearchivist.Table.Any.{elem-append}
use thearchivist.Registry.{elem}
use thearchivist.Attest.{
  Finding, Notified, keys_of, item_key, whole_key, alert_keys, new_items, trimmed, fresh,
  fresh_alerts, all_keys,
}
use thearchivist.Attest.Compare.{Config, compare}
use thearchivist.Attest.Standing.{mark_standing_lem}
use thearchivist.Attest.Run.{
  Reference, Tables, Probed, found, unreachable, Effect, gap, push, Outcome, Round, serve, baseline,
  is_alert, announce, examine, observe, run,
}

module _ (k : String) (standing : List String) where
  elem-new_items :
      (f : Finding) (is : List String)
      → elem k (map (item_key f) (new_items standing f is))
        ≡ (elem k (map (item_key f) is) && not (elem k standing))
  unfolding new_items elem
  elem-new_items f [] = refl
  elem-new_items f (i ∷ is) = elim (Bool-cases (elem (item_key f i) standing)) [
    | inl known ↦ rw known (ground (arith, elem-new_items f is, str_eq-eq (item_key f i) k, known))
    | inr unknown ↦
        rw unknown (ground (arith, elem-new_items f is, str_eq-eq (item_key f i) k, unknown))
  ]

  elem-trimmed :
      (f : Finding) (is : List String) (rest : List Finding)
      → elem k (all_keys (trimmed f is rest))
        ≡ (elem k (map (item_key f) is) || elem k (all_keys rest))
  unfolding trimmed all_keys alert_keys elem
  elem-trimmed f [] rest = refl
  elem-trimmed f (i ∷ is) rest = elem-append k (map (item_key f) (i ∷ is)) (all_keys rest)

  elem-fresh :
      (fs : List Finding)
      → elem k (all_keys (fresh standing fs)) ≡ (elem k (all_keys fs) && not (elem k standing))
  unfolding fresh all_keys alert_keys elem
  elem-fresh [] = refl
  elem-fresh (f ∷ fs) = elim (Option-cases f.items) [
    | inl whole ↦ elim (Bool-cases (elem (whole_key f) standing)) [
      | inl known ↦
          rw (whole, known) (ground (arith, elem-fresh fs, str_eq-eq (whole_key f) k, known))
      | inr unknown ↦
          rw (whole, unknown, all_keys, alert_keys, whole)
            (ground (arith, elem-fresh fs, str_eq-eq (whole_key f) k, unknown))
    ]
    | inr (is, listed) ↦
        rw
          (
            listed,
            elem-trimmed f (new_items standing f is) (fresh standing fs),
            elem-new_items f is,
            elem-fresh fs,
            elem-append k (map (item_key f) is) (all_keys fs),
          )
          (ground arith)
  ]

-- fresh_alerts() leaves exactly those keys of the alerts that do not stand.
pub fresh_alerts_lem :
    (rows : List Notified) (alerts : List Finding) (k : String)
    → elem k (all_keys (fresh_alerts rows alerts))
      ≡ (elem k (all_keys alerts) && not (elem k (keys_of rows)))
unfolding fresh_alerts
fresh_alerts_lem rows alerts k = elem-fresh k (keys_of rows) alerts

-- The keys that some effects pushed.
unfoldable pub pushed : List Effect → List String
pushed [] = []
pushed (gap e ∷ es) = pushed es
pushed (push fs ∷ es) = all_keys fs ++ pushed es

pub pushed-append :
    (k : String) (es ds : List Effect)
    → elem k (pushed (es ++ ds)) ≡ (elem k (pushed es) || elem k (pushed ds))
unfolding pushed elem
pushed-append k [] ds = refl
pushed-append k (gap e ∷ es) ds = pushed-append k es ds
pushed-append k (push fs ∷ es) ds =
    rw
      (
        elem-append k (all_keys fs) (pushed (es ++ ds)),
        elem-append k (all_keys fs) (pushed es),
        pushed-append k es ds,
      )
      (ground arith)

pub pushed-announce :
    (k : String) (fs : List Finding) → elem k (pushed (announce fs)) ≡ elem k (all_keys fs)
unfolding pushed elem all_keys
pushed-announce k [] = refl
pushed-announce k (f ∷ fs) = elem-append k (all_keys (f ∷ fs)) [] ∙ ground arith

chained : (a b c d : Bool) → (b || c) ≡ true → (b ≡ true → (a || d) ≡ true) → (a || (d || c)) ≡ true
chained true b c d later step = refl
chained false true c d later step = ground (arith, step refl)
chained false false c d later step = ground (arith, later)

module _ (repr : String → String) (k : String) where
  -- A key that stands after a call stood before it, or the call pushed it.
  Accounts : Tables → Outcome → Type 0
  Accounts t o =
      elem k (keys_of o.tables.standing) ≡ true
      → (elem k (keys_of t.standing) || elem k (pushed o.effects)) ≡ true

  examine-Accounts :
      (loud : Bool) (now : ℕ) (live : Config) (t : Tables)
      → Accounts t (examine repr loud now live t)
  unfolding examine Accounts pushed elem
  examine-Accounts false now live t h = ground (arith, h)
  examine-Accounts true now live t h =
      let alerts = select is_alert (compare repr (baseline t.references) live) in
      rw (pushed-announce k (fresh_alerts t.standing alerts), fresh_alerts_lem t.standing alerts k)
        (ground (arith, h, mark_standing_lem alerts now t.standing k))

  observe-Accounts :
      (loud : Bool) (now : ℕ) (live : Config) (t : Tables) (rs : List Reference)
      → Accounts t (observe repr loud now live t rs)
  unfolding observe Accounts pushed elem
  observe-Accounts loud now live t [] h = ground (arith, h)
  observe-Accounts loud now live t (r ∷ rs) h = examine-Accounts loud now live t h

  run-Accounts :
      (loud : Bool) (now : ℕ) (probed : Probed) (t : Tables)
      → Accounts t (run repr loud now probed t)
  unfolding run Accounts pushed elem
  run-Accounts loud now (unreachable e) t h = ground (arith, h)
  run-Accounts loud now (found live) t h = observe-Accounts loud now live t t.references h

  pub serve-accounts :
      (rounds : List Round) (t : Tables)
      → elem k (keys_of (serve repr rounds t).0.standing) ≡ true
      → (elem k (keys_of t.standing) || elem k (pushed (serve repr rounds t).1)) ≡ true
  unfolding serve pushed elem Accounts
  serve-accounts [] t h = ground (arith, h)
  serve-accounts (r ∷ rounds) t h =
      let o = run repr r.loud r.now r.probed t in
      let later = serve-accounts rounds o.tables h in
      rw (pushed-append k o.effects (serve repr rounds o.tables).1)
        (chained _ _ _ _ later (run-Accounts r.loud r.now r.probed t))
