-- ===== src/Containers.antt =====
-- std::set and std::map as lists in the order of their keys: the operations that the program
-- uses. `lt` is the comparison; two keys are equivalent if neither is less than the other.
pub mod Laws
pub mod Nested
pub mod Numbers
use open_vrrp.Prelude.{
  if◌then◌else◌, Bool, true, false, not, ◌&&◌, List, [], ◌∷◌, Option, none, some,
}

module _ {ℓ} {K : Type ℓ} (lt : K → K → Bool) where
  abbrev pub equivalent : K → K → Bool
  equivalent a b = not (lt a b) && not (lt b a)

  -- `insert`: a key with an equivalent one stays out.
  unfoldable pub set_insert : K → List K → List K
  set_insert k [] = k ∷ []
  set_insert k (x ∷ xs) =
      let rest = set_insert k xs in
      if lt k x then k ∷ x ∷ xs else if lt x k then x ∷ rest else x ∷ xs

  -- `erase` by key.
  unfoldable pub set_erase : K → List K → List K
  set_erase k [] = []
  set_erase k (x ∷ xs) = let rest = set_erase k xs in if equivalent k x then rest else x ∷ rest

  unfoldable pub set_contains : K → List K → Bool
  set_contains k [] = false
  set_contains k (x ∷ xs) = if equivalent k x then true else set_contains k xs

  module _ {κ} {V : Type κ} where
    -- `m[k] = v`
    unfoldable pub map_set : K → V → List (K × V) → List (K × V)
    map_set k v [] = (k, v) ∷ []
    map_set k v ((j, w) ∷ m) =
        let rest = map_set k v m in
        if lt k j then (k, v) ∷ (j, w) ∷ m else if lt j k then (j, w) ∷ rest else (k, v) ∷ m

    -- `find`
    unfoldable pub map_find : K → List (K × V) → Option V
    map_find k [] = none
    map_find k ((j, w) ∷ m) = if equivalent k j then some w else map_find k m

    -- `erase`
    unfoldable pub map_erase : K → List (K × V) → List (K × V)
    map_erase k [] = []
    map_erase k ((j, w) ∷ m) =
        let rest = map_erase k m in if equivalent k j then rest else (j, w) ∷ rest
