-- ===== src/Configurator/Reload.antt =====
-- A configuration that is saved and loaded again.
use Prim.{tt}
use open_vrrp.Prelude.{
  ℕ, ◌^◌, ◌<◌, if◌then◌else◌, Bool, true, false, List, [], ◌∷◌, Option, none, some, ◌≡◌, refl, ap,
  ◌∙◌, arith, All, ℤ, length,
}
use open_vrrp.Address.{number}
use open_vrrp.Service.{Service}
use open_vrrp.Containers.{map_find}
use open_vrrp.Containers.Nested.{nested_find}
use open_vrrp.Service.Run.Settings.{settings_of}
use open_vrrp.Manager.{VrrpServiceMap, find_service}
use open_vrrp.Configurator.{write_configuration}
use open_vrrp.Configurator.RoundTrip.{AreSavable, router_of, routers_of, read-write_file}
use open_vrrp.Configurator.Load.{Machine, load_router, load_routers, read_configuration}
use open_vrrp.Service.Transitions.{enabled}
use open_vrrp.Configurator.Restore.{restored}
use open_vrrp.Configurator.Reloaded.{
  IsLoadable, reloaded, is_at, reloaded-settings, reloaded-enabled, load_router-find,
}

-- Two services have different places in the map.
abbrev pub IsApart : Service → Service → Type 0
IsApart s t = is_at s.interface s.virtual_router_id (number s.family) t ≡ false

abbrev pub AreApart : List Service → Type 0
AreApart [] = Unit
AreApart (s ∷ services) = All (IsApart s) services × AreApart services

IsApart-sym : (s t : Service) → IsApart s t → IsApart t s
IsApart-sym s t h = ground arith

abbrev place : Service → VrrpServiceMap → Option Service
place s m = find_service s.interface s.virtual_router_id (number s.family) m

-- The place of the service has one with the settings that the file restores, and as enabled.
pub record IsRestored (machine : Machine) (m : VrrpServiceMap) (s : Service) : Type 0 where
  pub service : Service
  pub found : place s m ≡ some service
  pub same : settings_of service ≡ restored (machine.host s.interface) s
  pub as_enabled : enabled service ≡ enabled s

module _ (machine : Machine) (name : ℕ → List ℕ) where
  abbrev AreLoadable : List Service → Type 0
  AreLoadable = All (λ s. IsLoadable machine (name s.interface) s)

  abbrev after : List Service → VrrpServiceMap → VrrpServiceMap
  after services m = (load_routers machine (routers_of name services) m).0

  elsewhere :
      (s t : Service) (m : VrrpServiceMap)
      → IsLoadable machine (name s.interface) s
      → place s m ≡ none
      → IsApart t s
      → place t (load_router machine (router_of (name s.interface) s) m).0 ≡ place t m
  elsewhere s t m h free apart =
      load_router-find machine (name s.interface) s h t.interface t.virtual_router_id
        (number t.family) m free
      ∙ ap (λ (b : Bool). if b then some (reloaded machine (name s.interface) s) else place t m)
          apart

  still_free :
      (s : Service) (services : List Service) (m : VrrpServiceMap)
      → IsLoadable machine (name s.interface) s
      → place s m ≡ none
      → All (IsApart s) services
      → All (λ t. place t m ≡ none) services
      → All
          (λ t. place t (load_router machine (router_of (name s.interface) s) m).0 ≡ none)
          services
  still_free s [] m h free apart empty = tt
  still_free s (t ∷ services) m h free (a, apart) (e, empty) =
      (elsewhere s t m h free (IsApart-sym s t a) ∙ e, still_free s services m h free apart empty)

  kept :
      (services : List Service) (t : Service) (m : VrrpServiceMap)
      → AreLoadable services
      → AreApart services
      → All (λ s. place s m ≡ none) services
      → All (IsApart t) services
      → place t (after services m) ≡ place t m
  unfolding load_routers
  kept [] t m hs distinct empty apart = refl
  kept (s ∷ services) t m (h, hs) (ds, distinct) (e, empty) (a, apart) =
      kept services t (load_router machine (router_of (name s.interface) s) m).0 hs distinct
        (still_free s services m h e ds empty) apart
      ∙ elsewhere s t m h e a

  here :
      (s : Service) (m : VrrpServiceMap)
      → IsLoadable machine (name s.interface) s
      → place s m ≡ none
      → place s (load_router machine (router_of (name s.interface) s) m).0
        ≡ some (reloaded machine (name s.interface) s)
  here s m h e =
      let itself : is_at s.interface s.virtual_router_id (number s.family) s ≡ true =
        ground arith in
      load_router-find machine (name s.interface) s h s.interface s.virtual_router_id
        (number s.family) m e
      ∙ ap (λ (b : Bool). if b then some (reloaded machine (name s.interface) s) else place s m)
          itself

  all_restored :
      (services : List Service) (m : VrrpServiceMap)
      → AreLoadable services
      → AreApart services
      → All (λ s. place s m ≡ none) services
      → All (IsRestored machine (after services m)) services
  unfolding load_routers
  all_restored [] m hs distinct empty = tt
  all_restored (s ∷ services) m (h, hs) (ds, distinct) (e, empty) =
      let next = (load_router machine (router_of (name s.interface) s) m).0 in
      let free = still_free s services m h e ds empty in
      (
        record {
          service = reloaded machine (name s.interface) s;
          found = kept services s next hs distinct free ds ∙ here s m h e;
          same = reloaded-settings machine (name s.interface) s h;
          as_enabled = reloaded-enabled machine (name s.interface) s h;
        },
        all_restored services next hs distinct free,
      )

  nothing_there : (services : List Service) → All (λ s. place s [] ≡ none) services
  unfolding find_service nested_find map_find
  nothing_there [] = tt
  nothing_there (s ∷ services) = (refl, nothing_there services)

  are_savable : (services : List Service) → AreLoadable services → AreSavable name services
  are_savable [] hs = tt
  are_savable (s ∷ services) (h, hs) = (h.savable, are_savable services hs)

  -- A daemon without routers that reads the file which writeConfiguration wrote of services, fewer
  -- than 2^31 in different places, reads it to the end, and has in the place of each a service
  -- with the same interface, router id, VLAN, family, priority, interval, preempt and accept mode,
  -- commands and subnets, enabled exactly if that one was, and with its primary address if that was
  -- set and the machine's own if not. The services are loadable: their values are in the range of the
  -- file's fields and of the setters, a primary address that was set is of their family, their
  -- interface has its name on the machine, and the constructor makes no error there.
  pub read_configuration-write :
      (services : List Service) (vlan : ℤ)
      → AreLoadable services
      → AreApart services
      → length services < 2 ^ 31
      → let r = read_configuration machine vlan (write_configuration name services) [] in
        All (IsRestored machine (r.0).0) services × (r.1 ≡ true)
  unfolding read_configuration
  read_configuration-write services vlan hs distinct few =
      let file = read-write_file name services vlan (are_savable services hs) few in
      rw file (all_restored services [] hs distinct (nothing_there services), refl)
