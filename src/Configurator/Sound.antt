-- ===== src/Configurator/Sound.antt =====
-- What readConfiguration leaves in the map of the services.
use Prim.{tt}
use open_vrrp.Prelude.{
  word_of_byte, ℕ, ◌||◌, ◌&&◌, if◌then◌else◌, Bool, true, false, List, [], ◌∷◌, ◌++◌, map, Option,
  none, some, ◌≡◌, arith, All, ℤ, pos, less_int, word_of, fast16_of, Bool-cases, inl, inr,
}
use open_vrrp.Address.{IpSubnet, number}
use open_vrrp.Service.{Service, Call}
use open_vrrp.Service.Run.{Event, enabling, disabling, add, on_master, on_backup, run}
use open_vrrp.Service.Run.Liveness.{IsFeasible}
use open_vrrp.Manager.{VrrpServiceMap, find_service, get_service}
use open_vrrp.Manager.Sound.{
  IsSound, AreSound, IfSome, AreSound-set, run-IsSound, get_service-AreSound, empty-AreSound,
}
use open_vrrp.Configurator.{Router, has_primary, family_of, read_file}
use open_vrrp.Configurator.Load.{
  Machine, is_interface, is_sane, primary_of, settings, set_up, load_router, load_routers,
  read_configuration,
}

AreFeasible-append :
    (xs ys : List Event) → All IsFeasible xs → All IsFeasible ys → All IsFeasible (xs ++ ys)
AreFeasible-append [] ys h k = k
AreFeasible-append (x ∷ xs) ys h k = (h.0, AreFeasible-append xs ys h.1 k)

added-AreFeasible : (xs : List IpSubnet) → All IsFeasible (map add xs)
added-AreFeasible [] = tt
added-AreFeasible (x ∷ xs) = (tt, added-AreFeasible xs)

ending-IsFeasible : (b up : Bool) → IsFeasible (if b then enabling up else disabling)
ending-IsFeasible true up = tt
ending-IsFeasible false up = tt

primary_of-AreFeasible : (b : Bool) (r : Router) → All IsFeasible (primary_of b r)
primary_of-AreFeasible true r = (tt, tt)
primary_of-AreFeasible false r = tt

settings-AreFeasible : (up : Bool) (r : Router) → is_sane r ≡ true → All IsFeasible (settings up r)
unfolding settings is_sane
settings-AreFeasible up r e =
    let in_range : (less_int r.priority (pos 1) || less_int (pos 255) r.priority) ≡ false =
      ground arith in
    let ending : List Event = (if r.enable then enabling up else disabling) ∷ [] in
    let commands : List Event =
      on_master r.master_command ∷ (on_backup r.backup_command ∷ (map add r.subnets ++ ending)) in
    let rest : All IsFeasible commands = (
      tt,
      (
        tt,
        AreFeasible-append (map add r.subnets) ending (added-AreFeasible r.subnets)
            (ending-IsFeasible r.enable up, tt),
      ),
    ) in
    (
      word_of_byte r.priority in_range,
      (
        tt,
        (
          tt,
          (
            tt,
            AreFeasible-append (primary_of (has_primary r.flags) r) commands
                (primary_of-AreFeasible (has_primary r.flags) r) rest,
          ),
        ),
      ),
    )

set_up-AreSound :
    (up : Bool) (r : Router) (o : Option Service) (m : VrrpServiceMap) (calls : List Call)
    → is_sane r ≡ true
    → AreSound m × IfSome IsSound o
    → AreSound (set_up up r (record { service = o; services = m; calls = calls })).0
set_up-AreSound up r none m calls e h = h.0
set_up-AreSound up r (some s) m calls e h =
    AreSound-set s.interface s.virtual_router_id (number s.family) (run (settings up r) s).service m
      (run-IsSound (settings up r) s (settings-AreFeasible up r e) h.1) h.0

load_router-AreSound :
    (machine : Machine) (r : Router) (m : VrrpServiceMap)
    → AreSound m
    → AreSound (load_router machine r m).0
unfolding load_router
load_router-AreSound machine r m all =
    let interface = machine.if_nametoindex r.interface in
    let got =
      get_service (machine.host interface) interface (word_of r.vrid) (fast16_of r.vlan_id)
        (family_of r.address_family) true m in
    elim (Bool-cases (is_sane r && is_interface interface)) [
      | inl e ↦ rw e (
          set_up-AreSound (machine.is_interface_up interface) r got.service got.services got.calls
            (ground arith)
            (get_service-AreSound (machine.host interface) interface (word_of r.vrid)
              (fast16_of r.vlan_id) (family_of r.address_family) true m all))
      | inr e ↦ rw e all
    ]

load_routers-AreSound :
    (machine : Machine) (rs : List Router) (m : VrrpServiceMap)
    → AreSound m
    → AreSound (load_routers machine rs m).0
unfolding load_routers
load_routers-AreSound machine [] m all = all
load_routers-AreSound machine (r ∷ rs) m all =
    load_routers-AreSound machine rs (load_router machine r m).0
      (load_router-AreSound machine r m all)

-- Whatever bytes the configuration file of a daemon without routers holds, every service that a
-- lookup finds after readConfiguration is in order: its numbers are in range, its timers are armed
-- as its state wants them, and a master's timer will expire.
pub read_configuration-IsSound :
    (machine : Machine) (vlan : ℤ) (bytes : List ℕ) (i v f : ℕ) (s : Service)
    → find_service i v f ((read_configuration machine vlan bytes []).0).0 ≡ some s
    → IsSound s
unfolding read_configuration
read_configuration-IsSound machine vlan bytes i v f s found =
    load_routers-AreSound machine (read_file vlan bytes).0 [] empty-AreSound i v f s found
