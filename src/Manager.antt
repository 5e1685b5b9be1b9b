-- ===== src/Manager.antt =====
-- src/vrrpmanager.h and src/vrrpmanager.cpp: the services by interface, virtual router id and
-- family. Each service stands in one place of the map, which is where its pointer leads.
pub mod Laws
pub mod Sound
pub mod Memberships
use open_vrrp.Prelude.{
  ℕ, ◌==◌, ltb, if◌then◌else◌, Bool, true, false, not, List, [], ◌∷◌, ◌++◌, Option, none, some,
  take,
}
use open_vrrp.Address.{Family, number}
use open_vrrp.Containers.{map_set, map_find, map_erase}
use open_vrrp.Containers.Nested.{inner, nested_find, nested_set}
use open_vrrp.Text.{codes, text_eq}
use open_vrrp.Service.{Service, Call, remove_interface}
use open_vrrp.Service.Lifecycle.{Host, construct, destruct}

abbrev pub VrrpServiceMap : Type 0
VrrpServiceMap = List (ℕ × List (ℕ × List (ℕ × Service)))

unfoldable pub find_service : ℕ → ℕ → ℕ → VrrpServiceMap → Option Service
find_service interface vrid family services =
    map_find ltb family (inner (nested_find ltb interface vrid services))

-- `m_services[interface][virtualRouterId][family] = service`
unfoldable pub set_service : ℕ → ℕ → ℕ → Service → VrrpServiceMap → VrrpServiceMap
set_service interface vrid family service services =
    nested_set ltb interface vrid
      (map_set ltb family service (inner (nested_find ltb interface vrid services))) services

-- The result of a method, the map after it, and the calls of the services.
pub record Managed : Type 0 where
  pub service : Option Service
  pub services : VrrpServiceMap
  pub calls : List Call

abbrev pub create_service : Host → ℕ → ℕ → ℕ → Family → VrrpServiceMap → Managed
create_service host interface vrid vlan family services =
    let made = construct host interface family vrid vlan in
    if made.service.error == 0
    then record {
      service = some made.service;
      services = set_service interface vrid (number family) made.service services;
      calls = made.calls;
    }
    else record {
      service = none;
      services = services;
      calls = made.calls ++ (destruct host.has_socket made.service).calls;
    }

-- `host` is what the system answers to the constructor of a new service.
unfoldable pub get_service : Host → ℕ → ℕ → ℕ → Family → Bool → VrrpServiceMap → Managed
get_service host interface vrid vlan family create_if_missing services =
    elim (find_service interface vrid (number family) services) [
      | some service ↦ record { service = some service; services = services; calls = [] }
      | none ↦
          if create_if_missing
          then create_service host interface vrid vlan family services
          else record { service = none; services = services; calls = [] }
    ]

-- removeService of a service of the map.
unfoldable pub remove_service : Bool → Service → VrrpServiceMap → VrrpServiceMap × List Call
remove_service has_socket service services =
    let routers = inner (nested_find ltb service.interface service.virtual_router_id services) in
    elim (map_find ltb (number service.family) routers) [
      | none ↦ (services, [])
      | some found ↦ (
        nested_set ltb service.interface service.virtual_router_id
            (map_erase ltb (number service.family) routers) services,
        (destruct has_socket service).calls,
      )
    ]

delete_families : Bool → List (ℕ × Service) → List Call
delete_families has_socket [] = []
delete_families has_socket ((family, service) ∷ rest) =
    (destruct has_socket service).calls ++ delete_families has_socket rest

delete_routers : Bool → List (ℕ × List (ℕ × Service)) → List Call
delete_routers has_socket [] = []
delete_routers has_socket ((vrid, families) ∷ rest) =
    delete_families has_socket families ++ delete_routers has_socket rest

-- The calls of cleanup, which deletes every service and leaves the map as it is.
unfoldable pub cleanup : Bool → VrrpServiceMap → List Call
unfolding delete_routers delete_families
cleanup has_socket [] = []
cleanup has_socket ((interface, routers) ∷ rest) =
    delete_routers has_socket routers ++ cleanup has_socket rest

-- removeVrrpInterfaces, for the interfaces that Netlink lists with their names.
unfoldable pub remove_vrrp_interfaces : List (ℕ × List ℕ) → List Call
unfolding text_eq
remove_vrrp_interfaces [] = []
remove_vrrp_interfaces ((interface, name) ∷ rest) =
    let more = remove_vrrp_interfaces rest in
    if text_eq (take 4 name) (codes "vrrp") then remove_interface interface ∷ more else more
