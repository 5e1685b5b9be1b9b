-- ===== src/ArpService/Replies.antt =====
-- What the ARP service answers.
use open_vrrp.Prelude.{
  ℕ, ltb, true, false, List, [], none, some, ◌≡◌, refl, arith, Option-cases, inl, inr, ◌∙◌, ap, sym,
}
use open_vrrp.Address.{Family, less}
use open_vrrp.Containers.{map_find}
use open_vrrp.Containers.Nested.{inner, nested_find}
use open_vrrp.Service.Lifecycle.{Host, construct}
use open_vrrp.Service.Run.{Event, run}
use open_vrrp.Ledger.{blank, held}
use open_vrrp.Ledger.Runs.{IsCarefulRun, run-construct-Holds}
use open_vrrp.ArpService.{
  IpAddressMap, ArpPacket, arpop_reply, is_ignored, target, reply, on_arp_packet,
}
use open_vrrp.ArpService.Tables.{is_some, Agrees, perform_all, perform_all-Agrees}

-- A reply is not answered.
pub on_arp_packet-reply :
    (addresses : IpAddressMap) (size : ℕ) (p : ArpPacket)
    → p.operation ≡ arpop_reply
    → on_arp_packet addresses size p ≡ none
unfolding on_arp_packet
on_arp_packet-reply addresses size p e =
    let ignored : is_ignored size p ≡ true = unfold is_ignored in ground arith in rw ignored refl

empty-Agrees : Agrees [] blank
unfolding nested_find map_find
empty-Agrees j b = refl

answered_with :
    (addresses : IpAddressMap) (size : ℕ) (p r : ArpPacket)
    → on_arp_packet addresses size p ≡ some r
    → (mac : List ℕ) × (map_find less (target p) addresses ≡ some mac) × (r ≡ reply mac p)
unfolding on_arp_packet
answered_with addresses size p r e = elim (Option-cases (map_find less (target p) addresses)) [
  | inl f ↦ absurd (ground (arith, f))
  | inr (mac, f) ↦ (mac, f, ground (arith, f))
]

-- An answer goes back to the sender of a request, in the name of the address that it asks for and
-- with the MAC address that the table has for it; and no ARP service answers it in turn.
pub on_arp_packet_answers :
    (addresses others : IpAddressMap) (size size' : ℕ) (p r : ArpPacket)
    → on_arp_packet addresses size p ≡ some r
    → (map_find less (target p) addresses ≡ some r.sender_hardware_address)
      × (r.sender_protocol_address ≡ p.target_protocol_address)
      × (r.target_hardware_address ≡ p.sender_hardware_address)
      × (r.target_protocol_address ≡ p.sender_protocol_address)
      × (on_arp_packet others size' r ≡ none)
on_arp_packet_answers addresses others size size' p r e =
    let (mac, found, same) = answered_with addresses size p r e in
    (
      found ∙ ap (λ (q : ArpPacket). some q.sender_hardware_address) (sym same),
      ap (λ (q : ArpPacket). q.sender_protocol_address) same,
      ap (λ (q : ArpPacket). q.target_hardware_address) same,
      ap (λ (q : ArpPacket). q.target_protocol_address) same,
      on_arp_packet-reply others size' r (ap (λ (q : ArpPacket). q.operation) same),
    )

answered_if_found :
    (addresses : IpAddressMap) (size : ℕ) (p : ArpPacket)
    → is_ignored size p ≡ false
    → is_some (on_arp_packet addresses size p) ≡ is_some (map_find less (target p) addresses)
unfolding on_arp_packet
answered_if_found addresses size p e = elim (Option-cases (map_find less (target p) addresses)) [
  | inl f ↦ rw (e, f) refl
  | inr (mac, f) ↦ rw (e, f) refl
]

-- After any run of careful events of a new service (see IsCareful), with its calls performed on an
-- ARP service that had no address: a well-formed ARP request on an interface is answered exactly
-- if the service means its address to be answered for there.
pub request_answered :
    (host : Host) (interface : ℕ) (family : Family) (vrid vlan : ℕ) (es : List Event) (j size : ℕ)
    (p : ArpPacket)
    → IsCarefulRun es (construct host interface family vrid vlan).service
    → is_ignored size p ≡ false
    → let after = run es (construct host interface family vrid vlan).service in
      is_some (on_arp_packet (inner (map_find ltb j (perform_all after.calls []))) size p)
      ≡ (held after.service).answered j (target p)
unfolding nested_find
request_answered host interface family vrid vlan es j size p c e =
    let new = (construct host interface family vrid vlan).service in
    answered_if_found (inner (map_find ltb j (perform_all (run es new).calls []))) size p e
    ∙ perform_all-Agrees (run es new).calls [] blank empty-Agrees j (target p)
    ∙ (run-construct-Holds host interface family vrid vlan es c).answered_right j (target p)
