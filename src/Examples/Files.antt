-- ===== src/Examples/Files.antt =====
-- Configuration files, texts of addresses, and ARP packets.
use Prim.{tt}
use open_vrrp.Prelude.{
  ℕ, ltb, true, false, List, [], ◌∷◌, ◌≤◌, some, All, ◌≡◌, refl, arith, pos, inl,
}
use open_vrrp.Address.{inet, less, greater, family_size, subnet_less}
use open_vrrp.Containers.{map_find}
use open_vrrp.Containers.Nested.{inner}
use open_vrrp.Service.{Service}
use open_vrrp.Service.Config.{add_ip_address}
use open_vrrp.Service.Lifecycle.{construct, initial}
use open_vrrp.Service.Run.{Event, enabling, master_down, add, run}
use open_vrrp.Ledger.{held}
use open_vrrp.Ledger.Runs.{IsCarefulRun}
use open_vrrp.ArpService.{ArpPacket, arpop_request, is_ignored, target, on_arp_packet}
use open_vrrp.ArpService.Tables.{perform_all, is_some}
use open_vrrp.ArpService.Replies.{request_answered}
use open_vrrp.Text.{codes}
use open_vrrp.Manager.Sound.{IsSound}
use open_vrrp.Configurator.{write_configuration}
use open_vrrp.Configurator.Load.{Machine, read_configuration}
use open_vrrp.Configurator.Sound.{read_configuration-IsSound}
use open_vrrp.Manager.{VrrpServiceMap, find_service}
use open_vrrp.Configurator.Registry.{
  services_of, services_of_interface, services_of_router, IsPlaced,
}
use open_vrrp.Configurator.Saved.{read_configuration-services_of}
use open_vrrp.Configurator.Reloaded.{IsLoadable}
use open_vrrp.Configurator.Reload.{IsRestored, AreApart, read_configuration-write}
use open_vrrp.Examples.{address, subnet, host}

abbrev machine : Machine
machine = record { if_nametoindex = λ name. 3; host = host; is_interface_up = λ i. true }

abbrev name_of : ℕ → List ℕ
name_of i = codes "eth0"

-- A router with two subnets.
abbrev saved : ℕ → Service
saved vrid = record (initial (host 3) 3 inet vrid 0) {
  priority = 120;
  advertisement_interval = 50;
  accept_mode = true;
  primary_ip_address = address 77;
  auto_primary_ip_address = false;
  master_command = codes "up";
  subnets = subnet 100 ∷ subnet 101 ∷ [];
}

saved-IsLoadable :
    (vrid : ℕ) → 1 ≤ vrid → vrid ≤ 255 → IsLoadable machine (codes "eth0") (saved vrid)
unfolding initial family_size subnet_less less greater construct
saved-IsLoadable vrid least most = record {
  savable = record {
    name_fits = omega arith;
    master_command_fits = omega arith;
    backup_command_fits = omega arith;
    vrid_fits = omega arith;
    priority_fits = omega arith;
    interval_fits = omega arith;
    vlan_fits = omega arith;
    count_fits = omega arith;
    primary_sized = refl;
    subnets_stored = ((refl, omega arith), ((refl, omega arith), tt));
    subnets_increasing = (((refl, refl), tt), (tt, tt));
  };
  restorable = record {
    priority_least = omega arith;
    priority_most = omega arith;
    interval_least = omega arith;
    interval_most = omega arith;
    accepts = λ e. refl;
    of_family = (refl, (refl, tt));
    primary_of_family = λ e. refl;
  };
  named = refl;
  positive = refl;
  builds = refl;
  vrid_least = least;
  vrid_most = most;
  supported = inl refl;
}

abbrev two : List Service
two = saved 7 ∷ saved 8 ∷ []

abbrev bytes : List ℕ
bytes = write_configuration name_of two

two_AreLoadable : All (λ s. IsLoadable machine (name_of s.interface) s) two
two_AreLoadable = (
  saved-IsLoadable 7 (omega arith) (omega arith),
  (saved-IsLoadable 8 (omega arith) (omega arith), tt),
)

two_apart : AreApart two
unfolding initial
two_apart = ((refl, tt), (tt, tt))

-- The router with the id 8 of that file.
second_restored : IsRestored machine ((read_configuration machine (pos 0) bytes []).0).0 (saved 8)
second_restored =
    (read_configuration-write machine name_of two (pos 0) two_AreLoadable two_apart
      (omega arith)).0.1.0

read_configuration-IsSound_example : IsSound second_restored.service
unfolding initial
read_configuration-IsSound_example =
    read_configuration-IsSound machine (pos 0) bytes 3 8 2 second_restored.service
      second_restored.found

abbrev request : ArpPacket
request = record {
  hardware_type = 1;
  protocol_type = 0x800;
  hardware_address_length = 6;
  protocol_address_length = 4;
  operation = arpop_request;
  sender_hardware_address = 2 ∷ 0 ∷ 0 ∷ 0 ∷ 0 ∷ 9 ∷ [];
  sender_protocol_address = (address 9).bytes;
  target_hardware_address = 0 ∷ 0 ∷ 0 ∷ 0 ∷ 0 ∷ 0 ∷ [];
  target_protocol_address = (address 100).bytes;
}

abbrev mac : List ℕ
mac = 2 ∷ 0 ∷ 0 ∷ 0 ∷ 0 ∷ 3 ∷ []

-- A master that answers for two addresses.
abbrev rise : List Event
rise = add (subnet 100) ∷ add (subnet 101) ∷ enabling true ∷ master_down ∷ []

abbrev newborn : Service
newborn = (construct (host 2) 3 inet 7 0).service

rise-IsCarefulRun : IsCarefulRun rise newborn
unfolding construct run add_ip_address
rise-IsCarefulRun = (inl refl, (inl refl, (tt, (tt, tt))))

request_answered_example :
    let after = run rise newborn in
    is_some (on_arp_packet (inner (map_find ltb 3 (perform_all after.calls []))) 28 request)
    ≡ (held after.service).answered 3 (target request)
unfolding is_ignored
request_answered_example =
    request_answered (host 2) 3 inet 7 0 rise 3 28 request rise-IsCarefulRun refl

-- The registry with these two services.
abbrev registry : VrrpServiceMap
registry = (3, (7, (2, saved 7) ∷ []) ∷ (8, (2, saved 8) ∷ []) ∷ []) ∷ []

registry-IsPlaced : IsPlaced registry
unfolding initial
registry-IsPlaced =
    (((refl, refl, refl, tt, tt), (refl, tt), ((refl, refl, refl, tt, tt), tt, tt)), tt, tt)

read_configuration-services_of_example :
    let r =
      read_configuration machine (pos 0) (write_configuration name_of (services_of registry)) [] in
    (r.1 ≡ true)
    × ((i v f : ℕ) (s : Service)
        → find_service i v f registry ≡ some s
        → IsRestored machine (r.0).0 s)
unfolding services_of services_of_interface services_of_router
read_configuration-services_of_example =
    read_configuration-services_of machine name_of registry (pos 0) registry-IsPlaced
      two_AreLoadable (omega arith)
