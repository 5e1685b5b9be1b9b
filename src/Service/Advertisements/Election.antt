-- ===== src/Service/Advertisements/Election.antt =====
-- Which of two masters stays.
use open_vrrp.Prelude.{◌≤◌, ◌≡◌, ◌≢◌, ◌⊎◌, if◌then◌else◌, true, false, arith}
use open_vrrp.Address.{IpAddress, less}
use open_vrrp.Address.Order.{greater-less, less-IsStrictOrder}
use open_vrrp.Service.{Service, master, backup}
use open_vrrp.Service.Advertisements.{
  Advertisement, packet_in, packet_in_master, outranks, on_incoming_vrrp_packet,
}
use open_vrrp.Service.Advertisements.Members.{
  counted, on_incoming_vrrp_packet-service, yield_to-service,
}

less_asym : (a b : IpAddress) → less a b ≡ true → less b a ≡ false
less_asym a b h =
    ground (arith, less-IsStrictOrder.transitive a b a h, less-IsStrictOrder.irreflexive a)

-- The advertisement that a router sends, as another router receives it.
abbrev pub advertisement_of : Service → Advertisement
advertisement_of s = record {
  source = s.primary_ip_address;
  prio = s.priority;
  max_advertisement_interval = s.advertisement_interval;
  addresses = s.addresses;
}

-- A master that hears another one stays master unless the other outranks it.
pub packet-master-state :
    (ad : Advertisement) (s : Service)
    → 1 ≤ ad.prio
    → s.state ≡ master
    → (on_incoming_vrrp_packet ad s).service.state ≡ (if outranks ad s then backup else master)
unfolding packet_in packet_in_master outranks
packet-master-state ad s h e =
    rw (on_incoming_vrrp_packet-service ad s, e)
      (ground (arith, yield_to-service ad (record s { stats = counted ad s })))

-- Two masters, whose priorities are not 0, hear each other's advertisement: if they differ in
-- priority or in primary address, exactly one of them stays master, and the other is a backup.
pub two_masters :
    (s t : Service)
    → 1 ≤ s.priority
    → 1 ≤ t.priority
    → s.state ≡ master
    → t.state ≡ master
    → (s.priority ≢ t.priority) ⊎ (s.primary_ip_address ≢ t.primary_ip_address)
    → let s' = (on_incoming_vrrp_packet (advertisement_of t) s).service in
      let t' = (on_incoming_vrrp_packet (advertisement_of s) t).service in
      ((s'.state ≡ master) × (t'.state ≡ backup)) ⊎ ((s'.state ≡ backup) × (t'.state ≡ master))
unfolding outranks
two_masters s t hs ht ms mt differ = ground (
  arith,
  packet-master-state (advertisement_of t) s,
  packet-master-state (advertisement_of s) t,
  greater-less t.primary_ip_address s.primary_ip_address,
  greater-less s.primary_ip_address t.primary_ip_address,
  less-IsStrictOrder.connected s.primary_ip_address t.primary_ip_address,
  less_asym s.primary_ip_address t.primary_ip_address,
)
