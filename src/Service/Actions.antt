-- ===== src/Service/Actions.antt =====
-- The private methods of VrrpService that touch the network: sendAdvertisement, sendARPs,
-- setVirtualMac, setDefaultMac, addIpAddresses, removeIpAddresses and executeScript. The Boolean
-- results of these methods, which no caller reads, are left out.
use open_vrrp.Prelude.{
  ℕ, ◌==◌, if◌then◌else◌, Bool, true, false, ◌||◌, List, [], ◌∷◌, ◌++◌, map, Option, none, some,
}
use open_vrrp.Service.{
  Service, Call, toggle_interface, netlink_add, netlink_remove, add_fake_arp, remove_fake_arp,
  gratuitous_arp, send_packet, execute_script, Method, ◌>>=◌, get, emit,
}

unfoldable pub send_advertisement : ℕ → Method
send_advertisement prio = do
  s ← get
  emit (
      send_packet s.output_interface s.primary_ip_address s.virtual_router_id prio
        s.advertisement_interval s.addresses
      ∷ [])

unfoldable pub send_arps : Method
send_arps = do s ← get; emit (map (gratuitous_arp s.output_interface) s.addresses)

-- `if (interface != -1) Netlink::toggleInterface(interface, up)`
abbrev pub toggle_if_any : Option ℕ → Bool → List Call
toggle_if_any none up = []
toggle_if_any (some i) up = toggle_interface i up ∷ []

unfoldable pub set_virtual_mac : Method
set_virtual_mac = do
  s ← get
  emit (toggle_if_any s.macvlan_interface true ++ toggle_if_any s.vlan_interface true)

unfoldable pub set_default_mac : Method
set_default_mac = do
  s ← get
  emit (toggle_if_any s.vlan_interface false ++ toggle_if_any s.macvlan_interface false)

-- `m_acceptMode || m_priority == 255`
abbrev pub on_interface : Service → Bool
on_interface s = s.accept_mode || s.priority == 255

unfoldable pub add_ip_addresses : Method
add_ip_addresses = do
  s ← get
  emit (
      if on_interface s
      then map (netlink_add s.output_interface) s.subnets
      else map (λ subnet. add_fake_arp s.interface subnet.address s.mac) s.subnets)

unfoldable pub remove_ip_addresses : Method
remove_ip_addresses = do
  s ← get
  emit (
      if on_interface s
      then map (netlink_remove s.output_interface) s.subnets
      else map (λ subnet. remove_fake_arp s.interface subnet.address) s.subnets)

-- `if (command.size() != 0) executeScript(command)`
abbrev pub script_if_any : List ℕ → List Call
script_if_any [] = []
script_if_any (c ∷ cs) = execute_script (c ∷ cs) ∷ []

unfoldable pub run_master_command : Method
run_master_command = do s ← get; emit (script_if_any s.master_command)

unfoldable pub run_backup_command : Method
run_backup_command = do s ← get; emit (script_if_any s.backup_command)
