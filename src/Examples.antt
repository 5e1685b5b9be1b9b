-- ===== src/Examples.antt =====
-- The services, packets and tables on which the library's theorems are tried.
mod Lives
mod Encounters
mod Owners
mod Pieces
mod Daemon
mod Files
mod Rounds
mod Kernel
mod Wire
mod Sockets
mod Sessions
mod Refusals
use open_vrrp.Prelude.{ℕ, Bool, true, List, [], ◌∷◌, none, some}
use open_vrrp.Address.{inet, IpAddress, IpSubnet, host_subnet}
use open_vrrp.Service.{State, Service}
use open_vrrp.Service.Advertisements.{Advertisement}
use open_vrrp.Service.Lifecycle.{Host, initial}

abbrev pub address : ℕ → IpAddress
address n = record { family = inet; bytes = 192 ∷ 168 ∷ 1 ∷ n ∷ [] }

abbrev pub subnet : ℕ → IpSubnet
subnet n = record { address = address n; cidr = 24 }

-- A host without MACVLAN interfaces.
abbrev pub host : ℕ → Host
host n = record {
  primary_ip_address = address n;
  has_socket = true;
  macvlan_interface = none;
  vlan_interface = none;
  hardware_mac = some (0x02 ∷ 0 ∷ 0 ∷ 0 ∷ 0 ∷ n ∷ []);
}

-- The same with them.
abbrev pub macvlan_host : ℕ → Host
macvlan_host n = record (host n) { macvlan_interface = some 17 }

-- A service with a state and a priority.
unfoldable pub service : ℕ → State → ℕ → Service
unfolding initial
service n st prio = record (initial (host n) 3 inet 7 0) { state = st; priority = prio }

abbrev pub advertisement : ℕ → ℕ → ℕ → Advertisement
advertisement n prio interval = record {
  source = address n;
  prio = prio;
  max_advertisement_interval = interval;
  addresses = address 100 ∷ [];
}
