-- ===== src/Examples/Wire.antt =====
-- Packets between two hosts.
use Prim.{tt}
use open_vrrp.Prelude.{ℕ, ◌≤◌, [], ◌∷◌, some, true, refl, ◌≡◌, ◌⊎◌, inr, arith}
use open_vrrp.Address.{inet, family_size}
use open_vrrp.Containers.{map_find}
use open_vrrp.Service.{Service, backup, master}
use open_vrrp.Service.Transitions.{on_advertisement_timer}
use open_vrrp.Socket.{multicast_address}
use open_vrrp.Socket.Sums.{IsOf}
use open_vrrp.Socket.Send.{Datagram, built, send_packet}
use open_vrrp.Socket.Receive.{Counters, handle_packet}
use open_vrrp.Socket.Exchange.{IsSendable, received, as_sent, send-handle_packet}
use open_vrrp.Network.{Receiver, carried, hear, IsAdvertisable, masters_elect}
use open_vrrp.Examples.{address, service}

abbrev no_errors : Counters
no_errors = record {
  router_version_errors = 0;
  router_checksum_errors = 0;
  router_vr_id_errors = 0;
}

address-IsOf : (n : ℕ) → n ≤ 255 → IsOf inet (address n)
unfolding family_size
address-IsOf n h = record {
  of = refl;
  sized = refl;
  bytes = (omega arith, (omega arith, (omega arith, (omega arith, tt))));
}

two_addresses-IsSendable : IsSendable inet 7 100 250 (address 2) (address 100 ∷ address 101 ∷ [])
unfolding family_size
two_addresses-IsSendable = record {
  versioned = λ e. cc;
  vrid_fits = omega arith;
  prio_fits = omega arith;
  interval_fits = omega arith;
  count_fits = omega arith;
  room = omega arith;
  from = address-IsOf 2 (omega arith);
  all = (address-IsOf 100 (omega arith), (address-IsOf 101 (omega arith), tt));
}

send-handle_packet_example :
    (d : Datagram) × (send_packet inet
        (multicast_address inet)
        3
        (address 2)
        7
        100
        250
        (address 100 ∷ address 101 ∷ [])
      ≡ built d)
    × (handle_packet inet ((7, 41) ∷ (8, 42) ∷ []) (received d (1 ∷ 2 ∷ [])) no_errors
        ≡ some (record {
          accepted = true;
          notices = as_sent 41 7 100 250 (address 2) (address 100 ∷ address 101 ∷ []) ∷ [];
          counters = no_errors;
        }))
unfolding map_find
send-handle_packet_example =
    send-handle_packet inet 3 7 100 250 (address 2) (address 100 ∷ address 101 ∷ [])
      two_addresses-IsSendable (1 ∷ 2 ∷ []) ((7, 41) ∷ (8, 42) ∷ []) 41 no_errors refl

abbrev first : Service
first = record (service 2 master 100) { addresses = address 100 ∷ [] }

abbrev second : Service
second = record (service 3 master 100) { addresses = address 100 ∷ [] }

service-IsAdvertisable :
    (n : ℕ)
    → n ≤ 255
    → IsAdvertisable inet (record (service n master 100) { addresses = address 100 ∷ [] })
unfolding service family_size
service-IsAdvertisable n h = record {
  versioned = λ e. cc;
  vrid_fits = omega arith;
  prio_fits = omega arith;
  interval_fits = omega arith;
  count_fits = omega arith;
  room = omega arith;
  from = address-IsOf n h;
  all = (address-IsOf 100 (omega arith), tt);
}

-- Both hosts have a listener for router 7.
abbrev receiver : Receiver
receiver = record { listeners = (7, 41) ∷ []; counters = no_errors; behind = 0 ∷ [] }

masters_elect_example :
    let s' =
      hear 41
        (carried inet receiver (on_advertisement_timer second).calls)
        (on_advertisement_timer first).service in
    let t' =
      hear 41
        (carried inet receiver (on_advertisement_timer first).calls)
        (on_advertisement_timer second).service in
    ((s'.state ≡ master) × (t'.state ≡ backup)) ⊎ ((s'.state ≡ backup) × (t'.state ≡ master))
unfolding service map_find
masters_elect_example =
    masters_elect inet first second receiver receiver 41 41 refl refl (omega arith) (omega arith)
      (service-IsAdvertisable 2 (omega arith)) (service-IsAdvertisable 3 (omega arith)) refl refl
      (inr (λ e. cc))
