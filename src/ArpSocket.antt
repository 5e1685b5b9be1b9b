-- ===== src/ArpSocket.antt =====
-- src/arpsocket.cpp: the gratuitous ARP packet that announces an address.
use open_vrrp.Prelude.{
  ℕ, ◌==◌, not, if◌then◌else◌, Bool, false, List, [], ◌∷◌, Option, none, some, take, ◌≡◌, arith,
}
use open_vrrp.Address.{number, inet, IpAddress}
use open_vrrp.ArpService.{ArpPacket, arpop_reply, IpAddressMap, on_arp_packet}
use open_vrrp.ArpService.Replies.{on_arp_packet-reply}

-- The packet for an address and the MAC address of the interface.
abbrev pub announcement : List ℕ → IpAddress → ArpPacket
announcement mac address = record {
  hardware_type = 1;
  protocol_type = 0x800;
  hardware_address_length = 6;
  protocol_address_length = 4;
  operation = arpop_reply;
  sender_hardware_address = take 6 mac;
  sender_protocol_address = address.bytes;
  target_hardware_address = 0 ∷ 0 ∷ 0 ∷ 0 ∷ 0 ∷ 0 ∷ [];
  target_protocol_address = address.bytes;
}

-- The answers of the system: a socket, its binding, the MAC address by SIOCGIFHWADDR, and sendto.
pub record Host : Type 0 where
  pub opened : Bool
  pub bound : Bool
  pub hardware_mac : Option (List ℕ)
  pub accepted : Bool

-- sendGratuitiousArp: its result, and the packet that sendto is given.
unfoldable pub send_gratuitious_arp : Host → IpAddress → Bool × Option ArpPacket
send_gratuitious_arp host address =
    if not (number address.family == number inet)
    then (false, none)
    else if not host.opened
    then (false, none)
    else if not host.bound
    then (false, none)
    else elim host.hardware_mac [
      | none ↦ (false, none)
      | some mac ↦ (host.accepted, some (announcement mac address))
    ]

-- A gratuitous ARP packet is a reply that names its address as the sender's and the target's, for
-- an IPv4 address alone, and no ARP service answers it, whatever addresses it has.
pub gratuitous_unanswered :
    (host : Host) (address : IpAddress) (p : ArpPacket) (addresses : IpAddressMap) (size : ℕ)
    → (send_gratuitious_arp host address).1 ≡ some p
    → (address.family ≡ inet)
      × (p.sender_protocol_address ≡ address.bytes)
      × (p.target_protocol_address ≡ address.bytes)
      × (on_arp_packet addresses size p ≡ none)
unfolding send_gratuitious_arp
gratuitous_unanswered host address p addresses size e =
    let reply : p.operation ≡ arpop_reply = ground arith in
    (ground arith, ground arith, ground arith, on_arp_packet-reply addresses size p reply)
