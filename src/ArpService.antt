-- ===== src/ArpService.antt =====
-- src/arpservice.h and src/arpservice.cpp: the addresses for which ARP requests are answered. A
-- table of the map `services` stands for its ArpService; the socket is the kernel's.
pub mod Tables
pub mod Replies
use open_vrrp.Prelude.{
  ℕ, ◌==◌, ltb, not, ◌||◌, if◌then◌else◌, Bool, true, false, List, [], ◌∷◌, Option, none, some,
  take,
}
use open_vrrp.Address.{inet, IpAddress, less}
use open_vrrp.Containers.{map_set, map_find, map_erase}
use open_vrrp.Containers.Nested.{inner, is_empty, nested_find}

-- `m_addresses`: the MAC address of each address.
abbrev pub IpAddressMap : Type 0
IpAddressMap = List (IpAddress × List ℕ)

-- `services`, by interface.
abbrev pub ServiceMap : Type 0
ServiceMap = List (ℕ × IpAddressMap)

-- The static method addFakeArp. `opened` tells whether the constructor got a socket, bound it and
-- put it into the main loop.
unfoldable pub arp_add : Bool → ℕ → IpAddress → List ℕ → ServiceMap → Bool × ServiceMap
arp_add opened interface address mac services = elim (map_find ltb interface services) [
  | none ↦
      if opened
      then (true, map_set ltb interface (map_set less address (take 6 mac) []) services)
      else (false, services)
  | some addresses ↦
      (true, map_set ltb interface (map_set less address (take 6 mac) addresses) services)
]

-- The static method removeFakeArp.
unfoldable pub arp_remove : ℕ → IpAddress → ServiceMap → Bool × ServiceMap
arp_remove interface address services = elim (map_find ltb interface services) [
  | none ↦ (false, services)
  | some addresses ↦ elim (map_find less address addresses) [
    | none ↦ (true, services)
    | some mac ↦
        let rest = map_erase less address addresses in
        (
          true,
          if is_empty rest
              then map_erase ltb interface services
              else map_set ltb interface rest services,
        )
  ]
]

-- The MAC address under which an address is answered for on an interface.
abbrev pub find_mac : ℕ → IpAddress → ServiceMap → Option (List ℕ)
find_mac interface address services = nested_find less interface address services

-- `struct ArpPacket`, its 16-bit fields read by ntohs.
pub record ArpPacket : Type 0 where
  pub hardware_type : ℕ
  pub protocol_type : ℕ
  pub hardware_address_length : ℕ
  pub protocol_address_length : ℕ
  pub operation : ℕ
  pub sender_hardware_address : List ℕ
  pub sender_protocol_address : List ℕ
  pub target_hardware_address : List ℕ
  pub target_protocol_address : List ℕ

abbrev pub arpop_request : ℕ
arpop_request = 1

abbrev pub arpop_reply : ℕ
arpop_reply = 2

-- The test of the fields; `sizeof(packet)` is 28, ARPHRD_ETHER 1 and ETHERTYPE_IP 0x800.
unfoldable pub is_ignored : ℕ → ArpPacket → Bool
is_ignored size p =
    not (size == 28)
    || not (p.hardware_type == 1)
    || not (p.protocol_type == 0x800)
    || not (p.hardware_address_length == 6)
    || not (p.protocol_address_length == 4)
    || not (p.operation == arpop_request)

abbrev pub target : ArpPacket → IpAddress
target p = record { family = inet; bytes = p.target_protocol_address }

abbrev pub reply : List ℕ → ArpPacket → ArpPacket
reply mac p = record p {
  operation = arpop_reply;
  target_hardware_address = p.sender_hardware_address;
  target_protocol_address = p.sender_protocol_address;
  sender_hardware_address = mac;
  sender_protocol_address = p.target_protocol_address;
}

-- onArpPacket, for `size` bytes that recvfrom gave: the packet that sendto is given, if any.
unfoldable pub on_arp_packet : IpAddressMap → ℕ → ArpPacket → Option ArpPacket
unfolding is_ignored
on_arp_packet addresses size p =
    if is_ignored size p
    then none
    else elim (map_find less (target p) addresses) [ none ↦ none | some mac ↦ some (reply mac p) ]
