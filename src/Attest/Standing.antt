-- ===== src/Attest/Standing.antt =====
-- What attest.py announces: a drift once, and again after it was gone.
use thearchivist.Prelude.{
  ℕ, ◌≡◌, refl, inl, inr, String, true, ◌&&◌, ◌||◌, Option, none, some, List, [], ◌∷◌, ◌++◌, map,
  arith, str_eq, str_eq-eq, str_eq_refl, Bool-cases,
}
use thearchivist.Table.{select}
use thearchivist.Table.Any.{elem-append}
use thearchivist.Registry.{elem}
use thearchivist.Attest.{
  Finding, Notified, keys_of, item_key, whole_key, alert_keys, new_items, trimmed, fresh,
  fresh_alerts, all_keys, insert_missing, mark_standing,
}

keys_of-append :
    (k : String) (rows : List Notified) (r : Notified)
    → elem k (keys_of (rows ++ r ∷ [])) ≡ (elem k (keys_of rows) || str_eq r.key k)
unfolding elem
keys_of-append k [] r = ground arith
keys_of-append k (x ∷ rows) r = ground (arith, keys_of-append k rows r)

keys_of-select :
    (k : String) (keys : List String) (rows : List Notified)
    → elem k (keys_of (select (λ r. elem r.key keys) rows)) ≡ (elem k (keys_of rows) && elem k keys)
unfolding elem select
keys_of-select k keys [] = refl
keys_of-select k keys (r ∷ rows) = ground (arith, keys_of-select k keys rows, str_eq-eq r.key k)

keys_of-insert_missing :
    (k : String) (ks : List String) (now : ℕ) (rows : List Notified)
    → elem k (keys_of (insert_missing ks now rows)) ≡ (elem k (keys_of rows) || elem k ks)
unfolding elem insert_missing
keys_of-insert_missing k [] now rows = ground arith
keys_of-insert_missing k (x ∷ ks) now rows = elim (Bool-cases (elem x (keys_of rows))) [
  | inl known ↦
      rw known (ground (arith, keys_of-insert_missing k ks now rows, str_eq-eq x k, known))
  | inr fresh_key ↦
      let row : Notified = record { key = x; notified_at = now } in
      rw fresh_key (
        ground
          (arith, keys_of-insert_missing k ks now (rows ++ row ∷ []), keys_of-append k rows row))
]

-- After mark_standing(), the standing keys are exactly those of the alerts that are present now,
-- whatever stood before.
pub mark_standing_lem :
    (alerts : List Finding) (now : ℕ) (rows : List Notified) (k : String)
    → elem k (keys_of (mark_standing alerts now rows)) ≡ elem k (all_keys alerts)
unfolding mark_standing
mark_standing_lem alerts now rows k = ground (
  arith,
  keys_of-insert_missing k (all_keys alerts) now (select (λ r. elem r.key (all_keys alerts)) rows),
  keys_of-select k (all_keys alerts) rows,
)

-- Every one of some keys stands.
abbrev Stands : List String → List String → Type 0
Stands keys standing = (k : String) → elem k keys ≡ true → elem k standing ≡ true

Stands-append_left :
    (xs ys standing : List String) → Stands (xs ++ ys) standing → Stands xs standing
Stands-append_left xs ys standing h k e = h k (rw (elem-append k xs ys, e))

Stands-append_right :
    (xs ys standing : List String) → Stands (xs ++ ys) standing → Stands ys standing
Stands-append_right xs ys standing h k e = h k (ground (arith, elem-append k xs ys))

new_items-none :
    (standing : List String) (f : Finding) (is : List String)
    → Stands (map (item_key f) is) standing
    → new_items standing f is ≡ []
unfolding new_items elem
new_items-none standing f [] h = refl
new_items-none standing f (i ∷ is) h =
    rw (h (item_key f i) (rw (str_eq_refl (item_key f i))))
      (new_items-none standing f is (λ k e. h k (ground arith)))

module _ (standing : List String) (f : Finding) (own : Stands (alert_keys f) standing) where
  own_whole : f.items ≡ none → elem (whole_key f) standing ≡ true
  unfolding alert_keys elem
  own_whole e = own (whole_key f) (rw (e, str_eq_refl (whole_key f)))

  own_items : (is : List String) → f.items ≡ some is → Stands (map (item_key f) is) standing
  unfolding alert_keys
  own_items is e k h = own k (rw e h)

  fresh_head :
      (fs : List Finding) (o : Option (List String))
      → f.items ≡ o
      → fresh standing fs ≡ []
      → fresh standing (f ∷ fs) ≡ []
  unfolding fresh trimmed
  fresh_head fs none e rest = rw (e, own_whole e) rest
  fresh_head fs (some is) e rest = rw (e, new_items-none standing f is (own_items is e)) rest

fresh-none :
    (standing : List String) (fs : List Finding)
    → Stands (all_keys fs) standing
    → fresh standing fs ≡ []
unfolding fresh all_keys
fresh-none standing [] h = refl
fresh-none standing (f ∷ fs) h =
    fresh_head standing f (Stands-append_left (alert_keys f) (all_keys fs) standing h) fs f.items
      refl (fresh-none standing fs (Stands-append_right (alert_keys f) (all_keys fs) standing h))

-- What stands is not announced again: right after mark_standing(), fresh_alerts() finds nothing new
-- in the same alerts, whatever stood before.
pub fresh_alerts-mark_standing :
    (alerts : List Finding) (now : ℕ) (rows : List Notified)
    → fresh_alerts (mark_standing alerts now rows) alerts ≡ []
unfolding fresh_alerts
fresh_alerts-mark_standing alerts now rows =
    fresh-none (keys_of (mark_standing alerts now rows)) alerts
      (λ k e. rw (mark_standing_lem alerts now rows k) e)
