-- ===== src/Text/Laws.antt =====
-- Lemmas on texts and on sorted sets of texts.
use thearchivist.Prelude.{◌≡◌, refl, String, ◌||◌, List, [], ◌∷◌, arith, str_eq, str_eq-eq}
use thearchivist.Text.{place, sorted_set}
use thearchivist.Registry.{elem}

elem-place : (k x : String) (ys : List String) → elem k (place x ys) ≡ (str_eq x k || elem k ys)
unfolding elem place
elem-place k x [] = refl
elem-place k x (y ∷ ys) = ground (arith, elem-place k x ys, str_eq-eq x y)

pub elem-sorted_set : (k : String) (xs : List String) → elem k (sorted_set xs) ≡ elem k xs
unfolding elem sorted_set
elem-sorted_set k [] = refl
elem-sorted_set k (x ∷ xs) = ground (arith, elem-place k x (sorted_set xs), elem-sorted_set k xs)
