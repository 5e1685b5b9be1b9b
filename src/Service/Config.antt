-- ===== src/Service/Config.antt =====
-- The setters of VrrpService. A setter that answers `bool` has it as its result.
use open_vrrp.Prelude.{
  ℕ, ◌==◌, ltb, if◌then◌else◌, Bool, true, false, not, ◌&&◌, ◌||◌, List, [], ◌∷◌,
}
use open_vrrp.Address.{number, inet6, IpAddress, IpSubnet, less, subnet_less}
use open_vrrp.Containers.{set_insert, set_erase, set_contains}
use open_vrrp.Service.{
  Service, Call, netlink_add, netlink_remove, add_fake_arp, remove_fake_arp, master, is_state, M,
  Method, ◌>>=◌, ◌>>◌, pure, get, modify, emit, skip,
}
use open_vrrp.Service.Actions.{on_interface}

unfoldable pub set_primary_ip_address : IpAddress → M Bool
set_primary_ip_address address = do
  s ← get
  if number address.family == number s.family
      then (do
        modify (λ t. record t { primary_ip_address = address; auto_primary_ip_address = false })
        pure true)
      else pure false

-- `found` is the answer of Netlink::getPrimaryIpAddress.
unfoldable pub unset_primary_ip_address : IpAddress → Method
unset_primary_ip_address found = do
  s ← get
  if not s.auto_primary_ip_address
      then modify (λ t. record t { primary_ip_address = found; auto_primary_ip_address = false })
      else skip

-- The loop that moves the addresses from the ARP service to the interface.
unfoldable pub to_interface : Service → List IpSubnet → List Call
to_interface s [] = []
to_interface s (subnet ∷ subnets) =
    netlink_add s.output_interface subnet
    ∷ remove_fake_arp s.interface subnet.address
    ∷ to_interface s subnets

-- The loop that moves them back.
unfoldable pub to_arp_service : Service → List IpSubnet → List Call
to_arp_service s [] = []
to_arp_service s (subnet ∷ subnets) =
    add_fake_arp s.interface subnet.address s.mac
    ∷ netlink_remove s.output_interface subnet
    ∷ to_arp_service s subnets

-- The move that a change of priority asks of a master.
unfoldable pub move_addresses : ℕ → Service → List Call
unfolding to_interface to_arp_service
move_addresses prio s =
    if is_state s.state master && not s.accept_mode
    then (if not (s.priority == 255) && prio == 255
        then to_interface s s.subnets
        else if s.priority == 255 && not (prio == 255)
        then to_arp_service s s.subnets
        else [])
    else []

unfoldable pub set_priority : ℕ → M Bool
unfolding move_addresses
set_priority prio = if prio == 0 then pure false else (do
  s ← get
  emit (move_addresses prio s)
  modify (λ t. record t { priority = prio })
  pure true)

unfoldable pub set_advertisement_interval : ℕ → M Bool
set_advertisement_interval interval =
    if ltb interval 1 || ltb 4095 interval
    then pure false
    else (do modify (λ t. record t { advertisement_interval = interval }); pure true)

unfoldable pub set_preempt_mode : Bool → Method
set_preempt_mode on = modify λ s. record s { preempt_mode = on }

abbrev pub same : Bool → Bool → Bool
same true b = b
same false b = not b

unfoldable pub set_accept_mode : Bool → Method
unfolding to_interface to_arp_service
set_accept_mode on = do
  s ← get
  if same s.accept_mode on
      then skip
      else if number s.family == number inet6 || not (s.vlan_id == 0)
      then skip
      else (do
        emit (
            if is_state s.state master
            then (if on then to_interface s s.subnets else to_arp_service s s.subnets)
            else [])
        modify (λ t. record t { accept_mode = on }))

unfoldable pub set_master_command : List ℕ → Method
set_master_command command = modify λ s. record s { master_command = command }

unfoldable pub set_backup_command : List ℕ → Method
set_backup_command command = modify λ s. record s { backup_command = command }

unfoldable pub add_ip_address : IpSubnet → M Bool
add_ip_address subnet = do
  s ← get
  if not (number subnet.address.family == number s.family) then pure false else (do
    modify (λ t. record t {
      subnets = set_insert subnet_less subnet t.subnets;
      addresses = set_insert less subnet.address t.addresses;
    })
    emit (
        if is_state s.state master
        then (if on_interface s
            then netlink_add s.output_interface subnet ∷ []
            else add_fake_arp s.output_interface subnet.address s.mac ∷ [])
        else [])
    pure true)

unfoldable pub remove_ip_address : IpSubnet → M Bool
remove_ip_address subnet = do
  s ← get
  modify (λ t. record t {
    subnets = set_erase subnet_less subnet t.subnets;
    addresses = set_erase less subnet.address t.addresses;
  })
  emit (
      if is_state s.state master
      then (if on_interface s
          then netlink_remove s.output_interface subnet ∷ []
          else remove_fake_arp s.output_interface subnet.address ∷ [])
      else [])
  pure (set_contains subnet_less subnet s.subnets || set_contains less subnet.address s.addresses)
