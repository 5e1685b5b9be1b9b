-- ===== src/Ledger.antt =====
-- What the calls of a service amount to on the host, if each of them succeeds: the addresses that
-- its interfaces have, and the addresses that the ARP service answers for. It is the independent
-- account by which the moves of src/vrrpservice.cpp are judged.
pub mod Replay
pub mod Keeps
pub mod Events
pub mod Setters
pub mod Runs
pub mod Leaks
pub mod Transitions
use open_vrrp.Prelude.{
  ℕ, ◌==◌, Bool, true, false, not, ◌&&◌, ◌||◌, List, [], ◌∷◌, ◌≡◌, if◌then◌else◌,
}
use open_vrrp.Address.{IpAddress, IpSubnet, less, subnet_less}
use open_vrrp.Containers.{equivalent, set_contains}
use open_vrrp.Service.{
  Service, Call, toggle_interface, netlink_add, netlink_remove, add_fake_arp, remove_fake_arp,
  gratuitous_arp, send_packet, execute_script, add_macvlan_interface, add_vlan_interface,
  remove_interface, socket_add_interface, socket_remove_interface, socket_add_listener,
  socket_remove_listener, add_interface_monitor, remove_interface_monitor, master, is_state,
}
use open_vrrp.Service.Actions.{on_interface}

pub record Ledger : Type 0 where
  -- The interface has the address of the subnet.
  pub assigned : ℕ → IpSubnet → Bool
  -- ARP requests for the address on the interface are answered.
  pub answered : ℕ → IpAddress → Bool

abbrev pub same_subnet : IpSubnet → IpSubnet → Bool
same_subnet = equivalent subnet_less

abbrev pub same_address : IpAddress → IpAddress → Bool
same_address = equivalent less

abbrev pub apply : Call → Ledger → Ledger
apply (netlink_add i x) l = record l {
  assigned = λ j y. (j == i && same_subnet y x) || l.assigned j y;
}
apply (netlink_remove i x) l = record l {
  assigned = λ j y. not (j == i && same_subnet y x) && l.assigned j y;
}
apply (add_fake_arp i a mac) l = record l {
  answered = λ j b. (j == i && same_address b a) || l.answered j b;
}
apply (remove_fake_arp i a) l = record l {
  answered = λ j b. not (j == i && same_address b a) && l.answered j b;
}
apply (toggle_interface i up) l = l
apply (gratuitous_arp i a) l = l
apply (send_packet i a vrid prio interval others) l = l
apply (execute_script c) l = l
apply (add_macvlan_interface i mac) l = l
apply (add_vlan_interface i v) l = l
apply (remove_interface i) l = l
apply (socket_add_interface i) l = l
apply (socket_remove_interface i) l = l
apply (socket_add_listener i v) l = l
apply (socket_remove_listener i v) l = l
apply (add_interface_monitor i) l = l
apply (remove_interface_monitor i) l = l

abbrev pub replay : List Call → Ledger → Ledger
replay [] l = l
replay (c ∷ cs) l = replay cs (apply c l)

-- The host without any address.
abbrev pub blank : Ledger
blank = record { assigned = λ j y. false; answered = λ j b. false }

abbrev pub has_address : IpAddress → List IpSubnet → Bool
has_address a [] = false
has_address a (x ∷ xs) = same_address a x.address || has_address a xs

-- What a service means the host to hold: its subnets on the output interface, or its addresses in
-- the ARP service, while it is master; nothing otherwise.
abbrev pub held : Service → Ledger
held s = record {
  assigned = λ j y.
      is_state s.state master
      && on_interface s
      && j == s.output_interface
      && set_contains subnet_less y s.subnets;
  answered = λ j b.
      is_state s.state master
      && not (on_interface s)
      && j == s.interface
      && has_address b s.subnets;
}

-- The host holds what the service means it to hold.
pub record Holds (s : Service) (l : Ledger) : Type 0 where
  pub assigned_right : (j : ℕ) (y : IpSubnet) → l.assigned j y ≡ (held s).assigned j y
  pub answered_right : (j : ℕ) (b : IpAddress) → l.answered j b ≡ (held s).answered j b
