-- ===== src/Prelude/Assoc.antt =====
-- `std::map` and `std::unordered_map` as association lists. The test compares keys. No order of
-- entries is modelled: the code never walks over a map.
use sc4051_dist_system_proj.Prelude.{Bool, List, [], ◌∷◌, Option, none, some, if◌then◌else◌}

module _ {K V : Type 0} (eq : K → K → Bool) where
  -- `find`
  unfoldable pub lookup : K → List (K × V) → Option V
  lookup k [] = none
  lookup k ((j, v) ∷ m) = if eq j k then some v else lookup k m

  -- `m[k] = v`
  unfoldable pub insert : K → V → List (K × V) → List (K × V)
  insert k v [] = (k, v) ∷ []
  insert k v ((j, w) ∷ m) = if eq j k then (k, v) ∷ m else (j, w) ∷ insert k v m
