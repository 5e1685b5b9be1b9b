-- ===== src/Configurator/Load.antt =====
-- What readConfiguration does with a router that it has read.
use open_vrrp.Prelude.{
  ℕ, ◌^◌, ltb, leb, not, ◌||◌, ◌&&◌, if◌then◌else◌, Bool, true, List, [], ◌∷◌, ◌++◌, map, none,
  some, ℤ, pos, less_int, eq_int, is_tens, tenth, word_of, fast16_of,
}
use open_vrrp.Address.{number}
use open_vrrp.Service.{Call}
use open_vrrp.Service.Lifecycle.{Host}
use open_vrrp.Service.Run.{
  Event, enabling, disabling, primary, prioritise, advertise_every, preempt, accept, on_master,
  on_backup, add, run,
}
use open_vrrp.Manager.{VrrpServiceMap, Managed, set_service, get_service}
use open_vrrp.Configurator.{Router, has_primary, family_of, read_file}

-- What the system answers.
pub record Machine : Type 0 where
  pub if_nametoindex : List ℕ → ℕ
  pub host : ℕ → Host
  pub is_interface_up : ℕ → Bool

-- The number of an interface, as an int, is positive.
abbrev pub is_interface : ℕ → Bool
is_interface n = leb 1 n && ltb n (2 ^ 31)

-- The tests under "Sanitize" before the one on the interface.
unfoldable pub is_sane : Router → Bool
is_sane r =
    not (less_int r.vrid (pos 1) || less_int (pos 255) r.vrid)
    && (not (less_int r.priority (pos 1) || less_int (pos 255) r.priority)
        && ((eq_int r.address_family (pos 2) || eq_int r.address_family (pos 10))
            && not (
                not (is_tens r.interval)
                || (less_int r.interval (pos 10) || less_int (pos 40950) r.interval))))

abbrev pub primary_of : Bool → Router → List Event
primary_of given r = if given then primary r.primary_ip ∷ [] else []

-- The calls of the setters, in their order.
unfoldable pub settings : Bool → Router → List Event
settings up r =
    prioritise (word_of r.priority)
      ∷ advertise_every (word_of (tenth r.interval))
      ∷ accept r.accept
      ∷ preempt r.preempt
      ∷ primary_of (has_primary r.flags) r
    ++ (on_master r.master_command
        ∷ (on_backup r.backup_command
            ∷ (map add r.subnets ++ (if r.enable then enabling up else disabling) ∷ [])))

-- The services and the calls after a router.
abbrev pub set_up : Bool → Router → Managed → VrrpServiceMap × List Call
set_up up r m = elim m.service [
  | none ↦ (m.services, m.calls)
  | some s ↦
      let after = run (settings up r) s in
      (
        set_service s.interface s.virtual_router_id (number s.family) after.service m.services,
        m.calls ++ after.calls,
      )
]

unfoldable pub load_router : Machine → Router → VrrpServiceMap → VrrpServiceMap × List Call
load_router machine r services =
    let interface = machine.if_nametoindex r.interface in
    if is_sane r && is_interface interface
    then set_up (machine.is_interface_up interface) r (
        get_service (machine.host interface) interface (word_of r.vrid) (fast16_of r.vlan_id)
          (family_of r.address_family) true services)
    else (services, [])

unfoldable pub load_routers : Machine → List Router → VrrpServiceMap → VrrpServiceMap × List Call
load_routers machine [] services = (services, [])
load_routers machine (r ∷ rs) services =
    let first = load_router machine r services in
    let rest = load_routers machine rs first.0 in (rest.0, first.1 ++ rest.1)

-- `vlan` is what the variable `vlanId` holds when the file does not give it. The result has the
-- services, the calls, and whether the file was read to its end.
unfoldable pub read_configuration :
    Machine → ℤ → List ℕ → VrrpServiceMap → (VrrpServiceMap × List Call) × Bool
read_configuration machine vlan bytes services =
    let file = read_file vlan bytes in (load_routers machine file.0 services, file.1)
