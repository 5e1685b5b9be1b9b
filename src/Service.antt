-- ===== src/Service.antt =====
-- src/vrrpservice.h and src/vrrpservice.cpp: one virtual router. This file has its state, the calls
-- that it makes of the other parts, and the monad in which its methods are written.
pub mod Timing
pub mod Actions
pub mod Transitions
pub mod Advertisements
pub mod Config
pub mod Lifecycle
pub mod Run
use open_vrrp.Prelude.{
  ℕ, ◌+◌, ◌==◌, if◌then◌else◌, Bool, true, false, not, ◌&&◌, List, [], ◌∷◌, ◌++◌, Option, none,
  some, u64,
}
use open_vrrp.Address.{Family, unspec, inet, inet6, IpAddress, IpSubnet}
use open_vrrp.Timer.{Timer}

pub data State : Type 0 where
  disabled link_down backup master : State

-- The value of the enumerator.
abbrev pub index : State → ℕ
index disabled = 0
index link_down = 1
index backup = 2
index master = 3

abbrev pub is_state : State → State → Bool
is_state s t = index s == index t

pub data NewMasterReason : Type 0 where
  not_master priority preempted master_not_responding : NewMasterReason

pub data ProtocolErrorReason : Type 0 where
  no_error ip_ttl_error version_error checksum_error vr_id_error : ProtocolErrorReason

-- The counters `m_stats...`.
pub record Stats : Type 0 where
  pub master_transitions : ℕ
  pub new_master_reason : NewMasterReason
  pub rcvd_advertisements : ℕ
  pub adv_interval_errors : ℕ
  pub ip_ttl_errors : ℕ
  pub protocol_err_reason : ProtocolErrorReason
  pub rcvd_pri_zero_packets : ℕ
  pub sent_pri_zero_packets : ℕ
  pub rcvd_invalid_type_packets : ℕ
  pub address_list_errors : ℕ
  pub packet_length_errors : ℕ

-- The members. An interface that the program writes as -1 is `none`; a command is its bytes.
pub record Service : Type 0 where
  pub virtual_router_id : ℕ
  pub priority : ℕ
  pub primary_ip_address : IpAddress
  pub auto_primary_ip_address : Bool
  pub master_ip_address : IpAddress
  pub advertisement_interval : ℕ
  pub master_advertisement_interval : ℕ
  pub preempt_mode : Bool
  pub accept_mode : Bool
  pub master_down_timer : Timer
  pub advertisement_timer : Timer
  pub state : State
  pub family : Family
  pub interface : ℕ
  pub macvlan_interface : Option ℕ
  pub vlan_interface : Option ℕ
  pub output_interface : ℕ
  pub input_interface : ℕ
  pub vlan_id : ℕ
  pub mac : List ℕ
  pub subnets : List IpSubnet
  pub addresses : List IpAddress
  pub master_command : List ℕ
  pub backup_command : List ℕ
  pub stats : Stats
  pub pending_new_master_reason : NewMasterReason
  pub error : ℕ

-- What a method asks of Netlink, ArpService, ArpSocket, VrrpSocket and the shell, with the
-- arguments it passes.
pub data Call : Type 0 where
  toggle_interface : ℕ → Bool → Call
  netlink_add netlink_remove : ℕ → IpSubnet → Call
  add_fake_arp : ℕ → IpAddress → List ℕ → Call
  remove_fake_arp : ℕ → IpAddress → Call
  gratuitous_arp : ℕ → IpAddress → Call
  send_packet : ℕ → IpAddress → ℕ → ℕ → ℕ → List IpAddress → Call
  execute_script : List ℕ → Call
  add_macvlan_interface : ℕ → List ℕ → Call
  add_vlan_interface : ℕ → ℕ → Call
  remove_interface : ℕ → Call
  socket_add_interface socket_remove_interface : ℕ → Call
  socket_add_listener socket_remove_listener : ℕ → ℕ → Call
  add_interface_monitor remove_interface_monitor : ℕ → Call

-- A method's result, the service after it, and its calls in their order.
pub record Out {ℓ} (A : Type ℓ) : Type ℓ where
  pub result : A
  pub service : Service
  pub calls : List Call

abbrev pub M {ℓ} : Type ℓ → Type ℓ
M A = Service → Out A

abbrev pub Method : Type 0
Method = M (Unit {0})

infixl 5 ◌>>=◌ ◌>>◌
abbrev pub ◌>>=◌ {ℓ κ} : {A : Type ℓ} {B : Type κ} → M A → (A → M B) → M B
◌>>=◌ m f s =
    let first = m s in
    let second = f first.result first.service in
    record { result = second.result; service = second.service; calls = first.calls ++ second.calls }

abbrev pub ◌>>◌ {ℓ κ} : {A : Type ℓ} {B : Type κ} → M A → M B → M B
m >> k = m >>= λ _. k

abbrev pub pure {ℓ} : {A : Type ℓ} → A → M A
pure a s = record { result = a; service = s; calls = [] }

abbrev pub skip : Method
skip = pure tt

-- The members as they are.
abbrev pub get : M Service
get s = record { result = s; service = s; calls = [] }

-- An assignment to members.
abbrev pub modify : (Service → Service) → Method
modify f s = record { result = tt; service = f s; calls = [] }

abbrev pub emit : List Call → Method
emit cs s = record { result = tt; service = s; calls = cs }

abbrev pub count : (Stats → Stats) → Method
count f = modify λ s. record s { stats = f s.stats }

-- `++counter`
abbrev pub next : ℕ → ℕ
next n = u64 (n + 1)
