-- ===== src/Network.antt =====
-- Two daemons on a network: the advertisement timer of one (src/vrrpservice.cpp), the packet that its
-- socket sends and the other's receives (src/vrrpsocket.cpp), and what the other's service does.
use open_vrrp.Prelude.{
  if◌then◌else◌, ◌==◌, true, arith, ltb, ℕ, ◌≤◌, List, [], ◌∷◌, ◌++◌, Option, none, some, ◌≡◌, ◌≢◌,
  ◌⊎◌, refl,
}
use open_vrrp.Address.{Family}
use open_vrrp.Containers.{map_find}
use open_vrrp.Service.{Service, master, backup, Call, send_packet}
use open_vrrp.Service.Actions.{send_advertisement}
use open_vrrp.Service.Timing.{start_advertisement_timer}
use open_vrrp.Service.Transitions.{on_advertisement_timer}
use open_vrrp.Service.Advertisements.{on_incoming_vrrp_packet, on_incoming_vrrp_error}
use open_vrrp.Service.Advertisements.Election.{advertisement_of, two_masters}
use open_vrrp.Socket.{multicast_address}
use open_vrrp.Socket.Send
use open_vrrp.Socket.Send.{Built, built, refused, overrun, Datagram}
use open_vrrp.Socket.Receive.{Notice, bad, advertised, Counters, Outcome, handle_packet}
use open_vrrp.Socket.Exchange.{IsSendable, received, send-handle_packet}

-- The host that receives: the listeners of the interface, the counters, and what is behind the
-- packet in its buffer.
pub record Receiver : Type 0 where
  pub listeners : List (ℕ × ℕ)
  pub counters : Counters
  pub behind : List ℕ

-- What the listeners of a host are told of an outcome, none where a read left the buffer.
abbrev noticed : Option Outcome → List Notice
noticed none = []
noticed (some o) = o.notices

abbrev told_of : Family → Receiver → Built Datagram → List Notice
told_of family r (built d) =
    noticed (handle_packet family r.listeners (received d r.behind) r.counters)
told_of family r _ = []

-- What the listeners of a host are told after a call of another host: a packet that it sends.
abbrev pub carried : Family → Receiver → List Call → List Notice
carried family r [] = []
carried family r (send_packet interface source vrid prio interval addresses ∷ calls) =
    told_of family r (
      Send.send_packet family (multicast_address family) interface source vrid prio interval
        addresses)
    ++ carried family r calls
carried family r (_ ∷ calls) = carried family r calls

-- A service that is the listener with a number: it heeds the notices for that listener.
abbrev pub hear : ℕ → List Notice → Service → Service
hear me [] s = s
hear me (advertised listener vrid ad ∷ notices) s =
    hear me notices (if listener == me then (on_incoming_vrrp_packet ad s).service else s)
hear me (bad listener vrid e ∷ notices) s =
    hear me notices (if listener == me then (on_incoming_vrrp_error e s).service else s)

itself : (n : ℕ) → (n == n) ≡ true
itself n = ground arith

-- The members of a service fit a packet.
abbrev pub IsAdvertisable : Family → Service → Type 0
IsAdvertisable family s =
    IsSendable family s.virtual_router_id s.priority s.advertisement_interval s.primary_ip_address
      s.addresses

master-calls :
    (s : Service)
    → s.state ≡ master
    → (on_advertisement_timer s).calls
      ≡ send_packet s.output_interface s.primary_ip_address s.virtual_router_id s.priority
          s.advertisement_interval s.addresses
        ∷ []
unfolding on_advertisement_timer send_advertisement start_advertisement_timer
master-calls s e = rw e refl

-- The service with its advertisement timer started anew.
abbrev restarted : Service → Service
restarted s = (start_advertisement_timer s).service

master-service : (s : Service) → s.state ≡ master → (on_advertisement_timer s).service ≡ restarted s
unfolding on_advertisement_timer send_advertisement start_advertisement_timer
master-service s e = rw e refl

-- The advertisement timer of a master, whose members fit a packet, tells the listener of its router
-- id on another host, and no other, the master's address, priority, interval and addresses.
pub carried-advertisement :
    (family : Family) (s : Service) (r : Receiver) (listener : ℕ)
    → s.state ≡ master
    → IsAdvertisable family s
    → map_find ltb s.virtual_router_id r.listeners ≡ some listener
    → carried family r (on_advertisement_timer s).calls
      ≡ advertised listener s.virtual_router_id (advertisement_of s) ∷ []
carried-advertisement family s r listener e h found =
    let (d, sent, handled) =
      send-handle_packet family s.output_interface s.virtual_router_id s.priority
        s.advertisement_interval s.primary_ip_address s.addresses h r.behind r.listeners listener
        r.counters found in
    rw (master-calls s e, sent, handled) refl

-- Two masters on two hosts, each of which is on its host the listener for the other's router id, whose
-- members fit a packet, whose priorities are not 0, and which differ in priority or in primary address:
-- when the advertisement timer of each expires, and each hears the packet that the other's socket
-- sends, exactly one of them stays master, and the other is a backup.
pub masters_elect :
    (family : Family) (s t : Service) (r q : Receiver) (listener listener' : ℕ)
    → s.state ≡ master
    → t.state ≡ master
    → 1 ≤ s.priority
    → 1 ≤ t.priority
    → IsAdvertisable family s
    → IsAdvertisable family t
    → map_find ltb t.virtual_router_id r.listeners ≡ some listener
    → map_find ltb s.virtual_router_id q.listeners ≡ some listener'
    → (s.priority ≢ t.priority) ⊎ (s.primary_ip_address ≢ t.primary_ip_address)
    → let s' =
        hear listener
          (carried family r (on_advertisement_timer t).calls)
          (on_advertisement_timer s).service in
      let t' =
        hear listener'
          (carried family q (on_advertisement_timer s).calls)
          (on_advertisement_timer t).service in
      ((s'.state ≡ master) × (t'.state ≡ backup)) ⊎ ((s'.state ≡ backup) × (t'.state ≡ master))
unfolding start_advertisement_timer
masters_elect family s t r q listener listener' ms mt ps pt hs ht fr fq differ =
    rw
      (
        carried-advertisement family t r listener mt ht fr,
        carried-advertisement family s q listener' ms hs fq,
        master-service s ms,
        master-service t mt,
        itself listener,
        itself listener',
      )
      (two_masters (restarted s) (restarted t) ps pt ms mt differ)
