-- ===== src/Containers/Laws.antt =====
-- What a lookup sees after an insertion or a removal.
use open_vrrp.Prelude.{
  if◌then◌else◌, Bool, true, not, ◌&&◌, ◌||◌, List, [], ◌∷◌, none, some, ◌≡◌, arith,
}
use open_vrrp.Address.Order.{IsStrictOrder}
use open_vrrp.Containers.{
  equivalent, set_insert, set_erase, set_contains, map_set, map_find, map_erase,
}

module _ {ℓ} {K : Type ℓ} (lt : K → K → Bool) (o : IsStrictOrder lt) where
  pub equivalent_refl : (a : K) → equivalent lt a a ≡ true
  equivalent_refl a = ground (arith, o.irreflexive a)

  pub eq_of_equivalent : (a b : K) → equivalent lt a b ≡ true → a ≡ b
  eq_of_equivalent a b h = ground (arith, o.connected a b)

  pub set_contains-insert :
      (j k : K) (xs : List K)
      → set_contains lt j (set_insert lt k xs) ≡ (equivalent lt j k || set_contains lt j xs)
  unfolding set_contains set_insert
  set_contains-insert j k [] = ground arith
  set_contains-insert j k (x ∷ xs) = ground (arith, set_contains-insert j k xs, o.connected k x)

  pub set_contains-erase :
      (j k : K) (xs : List K)
      → set_contains lt j (set_erase lt k xs) ≡ (not (equivalent lt j k) && set_contains lt j xs)
  unfolding set_contains set_erase
  set_contains-erase j k [] = ground arith
  set_contains-erase j k (x ∷ xs) = ground (
    arith,
    set_contains-erase j k xs,
    o.connected k x,
    o.connected j x,
    o.connected j k,
    equivalent_refl k,
    equivalent_refl x,
  )

  module _ {κ} {V : Type κ} where
    pub map_find-set :
        (j k : K) (v : V) (m : List (K × V))
        → map_find lt j (map_set lt k v m) ≡ (if equivalent lt j k then some v else map_find lt j m)
    unfolding map_find map_set
    map_find-set j k v [] = ground arith
    map_find-set j k v ((i, w) ∷ m) =
        ground (arith, map_find-set j k v m, o.connected k i, o.connected j k)

    pub map_find-erase :
        (j k : K) (m : List (K × V))
        → map_find lt j (map_erase lt k m) ≡ (if equivalent lt j k then none else map_find lt j m)
    unfolding map_find map_erase
    map_find-erase j k [] = ground arith
    map_find-erase j k ((i, w) ∷ m) = ground (
      arith,
      map_find-erase j k m,
      o.connected k i,
      o.connected j i,
      o.connected j k,
      equivalent_refl k,
    )
