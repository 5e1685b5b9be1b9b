-- ===== src/Configurator/Saved.antt =====
-- A daemon's whole registry, saved and loaded again.
use Prim.{tt}
use mathlib.Core.Option.{some-injective}
use open_vrrp.Prelude.{
  ℕ, ◌^◌, ◌<◌, ltb, true, List, [], ◌∷◌, ◌++◌, some, ◌≡◌, ap, sym, ◌∙◌, arith, All, ℤ, length,
  Option-cases, Bool-cases, inl, inr, subst,
}
use open_vrrp.Service.{Service}
use open_vrrp.Containers.{equivalent, map_find}
use open_vrrp.Containers.Nested.{inner, nested_find}
use open_vrrp.Manager.{VrrpServiceMap, find_service}
use open_vrrp.Configurator.{write_configuration}
use open_vrrp.Configurator.Load.{Machine, read_configuration}
use open_vrrp.Configurator.Reloaded.{IsLoadable}
use open_vrrp.Configurator.Reload.{IsRestored, read_configuration-write}
use open_vrrp.Configurator.Registry.{
  FamilyMap, RouterMap, services_of_router, services_of_interface, services_of, IsPlaced,
  services_of-AreApart,
}

All-split : (P : Service → Type 0) (xs ys : List Service) → All P (xs ++ ys) → All P xs × All P ys
All-split P [] ys h = (tt, h)
All-split P (x ∷ xs) ys (p, h) = let (k, l) = All-split P xs ys h in ((p, k), l)

module _ (P : Service → Type 0) where
  found_family :
      (f : ℕ) (m : FamilyMap) (s : Service)
      → All P (services_of_router m)
      → map_find ltb f m ≡ some s
      → P s
  unfolding services_of_router map_find
  found_family f [] s h e = cc
  found_family f ((g, t) ∷ m) s (p, h) e = elim (Bool-cases (equivalent ltb f g)) [
    | inl same ↦ subst P (some-injective t s (ground arith)) p
    | inr other ↦ found_family f m s h (ground arith)
  ]

  found_router :
      (v : ℕ) (m : RouterMap) (r : FamilyMap)
      → All P (services_of_interface m)
      → map_find ltb v m ≡ some r
      → All P (services_of_router r)
  unfolding services_of_interface map_find
  found_router v [] r h e = cc
  found_router v ((w, q) ∷ m) r h e =
      let (k, l) = All-split P (services_of_router q) (services_of_interface m) h in
      elim (Bool-cases (equivalent ltb v w)) [
        | inl same ↦ subst (λ x. All P (services_of_router x)) (some-injective q r (ground arith)) k
        | inr other ↦ found_router v m r l (ground arith)
      ]

  found_interface :
      (i : ℕ) (m : VrrpServiceMap) (r : RouterMap)
      → All P (services_of m)
      → map_find ltb i m ≡ some r
      → All P (services_of_interface r)
  unfolding services_of map_find
  found_interface i [] r h e = cc
  found_interface i ((j, q) ∷ m) r h e =
      let (k, l) = All-split P (services_of_interface q) (services_of m) h in
      elim (Bool-cases (equivalent ltb i j)) [
        | inl same ↦
            subst (λ x. All P (services_of_interface x)) (some-injective q r (ground arith)) k
        | inr other ↦ found_interface i m r l (ground arith)
      ]

  -- What holds of all services that are listed holds of any that a lookup finds.
  found :
      (i v f : ℕ) (m : VrrpServiceMap) (s : Service)
      → All P (services_of m)
      → find_service i v f m ≡ some s
      → P s
  unfolding find_service nested_find map_find
  found i v f m s h e = elim (Option-cases (map_find ltb i m)) [
    | inl none_there ↦ absurd (ground (arith, none_there))
    | inr (r, at_interface) ↦ elim (Option-cases (map_find ltb v r)) [
      | inl none_there ↦ absurd (ground (arith, at_interface, none_there))
      | inr (q, at_router) ↦
          found_family f q s (found_router v r q (found_interface i m r h at_interface) at_router) (
            sym (
              ap (λ o. map_find ltb f (inner (map_find ltb v (inner o)))) at_interface
              ∙ ap (λ o. map_find ltb f (inner o)) at_router)
            ∙ e)
    ]
  ]

module _ (machine : Machine) (name : ℕ → List ℕ) where
  -- A daemon without routers that reads the file which another one wrote of its whole registry, in the
  -- order of Configurator::services, reads it to the end; and whatever service a lookup by interface,
  -- router id and family finds in that registry, it has one in its place with the same settings: the
  -- interface, router id, VLAN, family, priority, interval, preempt and accept mode, commands and
  -- subnets, whether the primary address was set, that address if it was and the loading machine's own
  -- if not; and that is enabled exactly if the other was. Every service of the registry, fewer than
  -- 2^31, stands in its place, and is loadable: its values are in the range of the file's fields and of
  -- the setters, a primary address that was set is of its family, its interface has its name on the
  -- machine, and the constructor makes no error there.
  pub read_configuration-services_of :
      (m : VrrpServiceMap) (vlan : ℤ)
      → IsPlaced m
      → All (λ s. IsLoadable machine (name s.interface) s) (services_of m)
      → length (services_of m) < 2 ^ 31
      → let r = read_configuration machine vlan (write_configuration name (services_of m)) [] in
        (r.1 ≡ true)
        × ((i v f : ℕ) (s : Service) → find_service i v f m ≡ some s → IsRestored machine (r.0).0 s)
  read_configuration-services_of m vlan placed loadable few =
      let (restored, ended) =
        read_configuration-write machine name (services_of m) vlan loadable
          (services_of-AreApart m placed) few in
      (ended, λ i v f s e. found (IsRestored machine _) i v f m s restored e)
