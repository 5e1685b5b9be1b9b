-- ===== src/Service/Lifecycle.antt =====
-- The constructor and the destructor of VrrpService.
use open_vrrp.Prelude.{
  ℕ, ◌==◌, if◌then◌else◌, Bool, true, not, ◌||◌, List, [], ◌∷◌, ◌++◌, Option, none, some,
}
use open_vrrp.Address.{Family, number, inet, inet6, IpAddress, no_address}
use open_vrrp.Timer
use open_vrrp.Service.{
  Service, Stats, disabled, not_master, master_not_responding, ProtocolErrorReason,
  add_macvlan_interface, add_vlan_interface, remove_interface, socket_add_interface,
  socket_remove_interface, socket_add_listener, socket_remove_listener, add_interface_monitor,
  remove_interface_monitor, Call, Method, Out, ◌>>=◌, ◌>>◌, get, modify, emit,
}
use open_vrrp.Service.Transitions.{shutdown}

-- What the host answers while a service is set up.
pub record Host : Type 0 where
  -- Netlink::getPrimaryIpAddress
  pub primary_ip_address : IpAddress
  -- VrrpSocket::instance gave an object.
  pub has_socket : Bool
  -- Netlink::addMacvlanInterface and addVlanInterface; `none` is a negative result.
  pub macvlan_interface : Option ℕ
  pub vlan_interface : Option ℕ
  -- The SIOCGIFHWADDR ioctl; `none` is its failure.
  pub hardware_mac : Option (List ℕ)

abbrev no_stats : Stats
no_stats = record {
  master_transitions = 0;
  new_master_reason = not_master;
  rcvd_advertisements = 0;
  adv_interval_errors = 0;
  ip_ttl_errors = 0;
  protocol_err_reason = ProtocolErrorReason.no_error;
  rcvd_pri_zero_packets = 0;
  sent_pri_zero_packets = 0;
  rcvd_invalid_type_packets = 0;
  address_list_errors = 0;
  packet_length_errors = 0;
}

abbrev is_inet : Family → Bool
is_inet family = number family == number inet

-- The initialisers, and the virtual MAC address.
unfoldable pub initial : Host → ℕ → Family → ℕ → ℕ → Service
initial host interface family vrid vlan = record {
  virtual_router_id = vrid;
  priority = 100;
  primary_ip_address = host.primary_ip_address;
  auto_primary_ip_address = true;
  master_ip_address = no_address;
  advertisement_interval = 100;
  master_advertisement_interval = 100;
  preempt_mode = true;
  accept_mode = number family == number inet6 || not (vlan == 0);
  master_down_timer = Timer.new;
  advertisement_timer = Timer.new;
  state = disabled;
  family = family;
  interface = interface;
  macvlan_interface = none;
  vlan_interface = none;
  output_interface = interface;
  input_interface = interface;
  vlan_id = vlan;
  mac = 0x00 ∷ 0x00 ∷ 0x5e ∷ 0x00 ∷ (if is_inet family then 1 else 2) ∷ vrid ∷ [];
  subnets = [];
  addresses = [];
  master_command = [];
  backup_command = [];
  stats = no_stats;
  pending_new_master_reason = master_not_responding;
  error = 0;
}

abbrev use_mac : Option (List ℕ) → Service → Service
use_mac none s = s
use_mac (some mac) s = record s { mac = mac }

-- The MACVLAN interface, or the hardware's MAC address without it.
abbrev create_macvlan : Host → Method
create_macvlan host = do
  s ← get
  emit (add_macvlan_interface s.output_interface s.mac ∷ [])
  elim host.macvlan_interface [
    | none ↦ modify (use_mac host.hardware_mac)
    | some i ↦ modify (λ t. record t { macvlan_interface = some i; output_interface = i })
  ]

-- The end of the constructor.
abbrev attach : Method
attach = do
  s ← get
  emit (
      socket_add_interface s.input_interface
      ∷ socket_add_listener s.input_interface s.virtual_router_id
      ∷ add_interface_monitor s.interface
      ∷ [])

abbrev fail : Method
fail = modify λ s. record s { error = 1 }

-- The VLAN interface, if a VLAN is asked for.
abbrev create_vlan : Host → Method
create_vlan host = do
  s ← get
  if s.vlan_id == 0 then attach else (do
    emit (add_vlan_interface s.output_interface s.vlan_id ∷ [])
    elim host.vlan_interface [
      | none ↦ fail
      | some i ↦ (do
        modify
            (λ t. record t { vlan_interface = some i; output_interface = i; input_interface = i })
        attach)
    ])

unfoldable pub construct : Host → ℕ → Family → ℕ → ℕ → Out (Unit {0})
unfolding initial
construct host interface family vrid vlan =
    let body : Method =
      if host.has_socket then (do create_macvlan host; create_vlan host) else fail in
    body (initial host interface family vrid vlan)

abbrev delete_if_any : Option ℕ → List Call
delete_if_any none = []
delete_if_any (some i) = remove_interface i ∷ []

-- `has_socket` tells whether `m_socket` is set.
unfoldable pub destruct : Bool → Method
unfolding shutdown
destruct has_socket = do
  shutdown disabled
  s ← get
  emit (remove_interface_monitor s.interface ∷ [])
  emit (
      if has_socket
      then socket_remove_interface s.input_interface
        ∷ socket_remove_listener s.input_interface s.virtual_router_id
        ∷ []
      else [])
  emit (delete_if_any s.vlan_interface ++ delete_if_any s.macvlan_interface)
