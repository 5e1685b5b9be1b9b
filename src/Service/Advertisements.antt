-- ===== src/Service/Advertisements.antt =====
-- VrrpService::onIncomingVrrpPacket and onIncomingVrrpError.
pub mod Members
pub mod Timers
pub mod Election
pub mod Backup
use open_vrrp.Prelude.{
  ℕ, ◌*◌, ◌==◌, ltb, leb, if◌then◌else◌, Bool, true, false, not, ◌&&◌, ◌||◌, List, [], ◌∷◌,
}
use open_vrrp.Address.{IpAddress, less, greater}
use open_vrrp.Timer.{start}
use open_vrrp.Service.{
  Service, backup, master, NewMasterReason, preempted, master_not_responding, ProtocolErrorReason,
  Method, ◌>>=◌, ◌>>◌, get, modify, skip, count, next, State, disabled, link_down,
}
use open_vrrp.Service.Timing.{skew_time, start_master_down_timer, start_advertisement_timer}
use open_vrrp.Service.Actions.{send_advertisement, set_default_mac}
use open_vrrp.Service.Transitions.{set_state, stop_advertisement_timer}
use open_vrrp.Prelude.{u32}

-- std::sort
insert_sorted : IpAddress → List IpAddress → List IpAddress
insert_sorted a [] = a ∷ []
insert_sorted a (b ∷ bs) =
    let rest = insert_sorted a bs in if less b a then b ∷ rest else a ∷ b ∷ bs

unfoldable pub sort : List IpAddress → List IpAddress
unfolding insert_sorted
sort [] = []
sort (a ∷ more) = insert_sorted a (sort more)

-- std::set_difference of two sorted ranges.
unfoldable pub set_difference : List IpAddress → List IpAddress → List IpAddress
set_difference [] bs = []
set_difference (a ∷ more) [] = a ∷ more
set_difference (a ∷ more) (b ∷ bs) =
    let keep = set_difference more (b ∷ bs) in
    let advance = set_difference (a ∷ more) bs in
    let both = set_difference more bs in
    if less a b then a ∷ keep else if less b a then advance else both

abbrev is_empty {ℓ} : {A : Type ℓ} → List A → Bool
is_empty [] = true
is_empty (x ∷ xs) = false

-- The incoming list has an address that the service's list lacks.
unfoldable pub has_unknown_address : List IpAddress → List IpAddress → Bool
unfolding sort set_difference
has_unknown_address incoming ours = not (is_empty (set_difference (sort incoming) (sort ours)))

-- A packet's source, and its fields as VrrpSocket decoded them.
pub record Advertisement : Type 0 where
  pub source : IpAddress
  pub prio : ℕ
  pub max_advertisement_interval : ℕ
  pub addresses : List IpAddress

abbrev pub set_pending : NewMasterReason → Method
set_pending reason = modify λ s. record s { pending_new_master_reason = reason }

abbrev pub count_rcvd_pri_zero : Method
count_rcvd_pri_zero = count λ n. record n { rcvd_pri_zero_packets = next n.rcvd_pri_zero_packets }

-- `!x`
abbrev pub logical_not : ℕ → ℕ
logical_not x = if x == 0 then 1 else 0

-- The statistics at the top of the handler; `!maxAdvertisementInterval != m_advertisementInterval`.
unfoldable pub count_advertisement : Advertisement → Method
count_advertisement ad = do
  count (λ n. record n {
    rcvd_advertisements = next n.rcvd_advertisements;
    protocol_err_reason = ProtocolErrorReason.no_error;
  })
  s ← get
  if logical_not ad.max_advertisement_interval == s.advertisement_interval
      then skip
      else count (λ n. record n { adv_interval_errors = next n.adv_interval_errors })

-- `m_masterDownTimer.start(skewTime() * 10)`
unfoldable pub start_skew_timer : Method
unfolding start
start_skew_timer =
    modify λ s. record s { master_down_timer = start (u32 (skew_time s * 10)) s.master_down_timer }

-- The right master is running.
unfoldable pub follow_master : Advertisement → Method
unfolding start_master_down_timer
follow_master ad = do
  modify (λ s. record s { master_advertisement_interval = ad.max_advertisement_interval })
  start_master_down_timer
  modify (λ s. record s { master_ip_address = ad.source })
  s ← get
  if has_unknown_address ad.addresses s.addresses
      then count (λ n. record n { address_list_errors = next n.address_list_errors })
      else skip
  set_pending master_not_responding

unfoldable pub packet_in_backup : Advertisement → Method
unfolding start_skew_timer follow_master
packet_in_backup ad = do
  s ← get
  if ad.prio == 0
      then (do start_skew_timer; count_rcvd_pri_zero; set_pending NewMasterReason.priority)
      else if not s.preempt_mode || leb s.priority ad.prio
      then follow_master ad
      else if s.preempt_mode
      then set_pending preempted
      else set_pending NewMasterReason.priority

-- The other master goes first: a higher priority, or the same and a higher address.
unfoldable pub outranks : Advertisement → Service → Bool
outranks ad s =
    ltb s.priority ad.prio || (ad.prio == s.priority && greater ad.source s.primary_ip_address)

-- The way from master to backup.
unfoldable pub yield_to : Advertisement → Method
unfolding start_master_down_timer
yield_to ad = do
  stop_advertisement_timer
  modify (λ t. record t { master_advertisement_interval = ad.max_advertisement_interval })
  start_master_down_timer
  set_state backup
  set_default_mac
  set_pending NewMasterReason.priority

unfoldable pub packet_in_master : Advertisement → Method
unfolding start_advertisement_timer yield_to
packet_in_master ad = do
  s ← get
  if ad.prio == 0
      then (do
        send_advertisement s.priority
        start_advertisement_timer
        count_rcvd_pri_zero
        set_pending NewMasterReason.priority)
      else if outranks ad s
      then yield_to ad
      else skip

unfoldable pub packet_in : State → Advertisement → Method
unfolding packet_in_backup packet_in_master
packet_in backup ad = packet_in_backup ad
packet_in master ad = packet_in_master ad
packet_in disabled ad = skip
packet_in link_down ad = skip

unfoldable pub on_incoming_vrrp_packet : Advertisement → Method
unfolding count_advertisement packet_in
on_incoming_vrrp_packet ad = do count_advertisement ad; s ← get; packet_in s.state ad

-- VrrpEventListener::Error
pub data Error : Type 0 where
  checksum_error version_error vr_id_error adv_interval_error ip_ttl_error invalid_type_error
        packet_length_error :
      Error

unfoldable pub set_protocol_error_reason : ProtocolErrorReason → Method
set_protocol_error_reason reason = count λ n. record n { protocol_err_reason = reason }

unfoldable pub on_incoming_vrrp_error : Error → Method
unfolding set_protocol_error_reason
on_incoming_vrrp_error checksum_error = set_protocol_error_reason ProtocolErrorReason.checksum_error
on_incoming_vrrp_error version_error = set_protocol_error_reason ProtocolErrorReason.version_error
on_incoming_vrrp_error vr_id_error = set_protocol_error_reason ProtocolErrorReason.vr_id_error
on_incoming_vrrp_error adv_interval_error =
    count λ n. record n { adv_interval_errors = next n.adv_interval_errors }
on_incoming_vrrp_error ip_ttl_error = set_protocol_error_reason ProtocolErrorReason.ip_ttl_error
on_incoming_vrrp_error invalid_type_error =
    count λ n. record n { rcvd_invalid_type_packets = next n.rcvd_invalid_type_packets }
on_incoming_vrrp_error packet_length_error =
    count λ n. record n { packet_length_errors = next n.packet_length_errors }
