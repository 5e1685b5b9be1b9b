-- ===== src/Service/Advertisements/Timers.antt =====
-- The timers through the handling of packets.
use open_vrrp.Prelude.{◌≡◌, refl, arith}
use open_vrrp.Timer.{start, stop}
use open_vrrp.Service.{Service, State, disabled, link_down, backup, master}
use open_vrrp.Service.Timing.{start_master_down_timer, start_advertisement_timer}
use open_vrrp.Service.Actions.{send_advertisement}
use open_vrrp.Service.Advertisements.Members.{yield_to-service}
use open_vrrp.Service.Transitions.Timers.{TimersMatch}
use open_vrrp.Service.Advertisements.{
  Advertisement, Error, count_advertisement, start_skew_timer, follow_master, packet_in_backup,
  packet_in_master, packet_in, on_incoming_vrrp_packet, on_incoming_vrrp_error,
}

count_advertisement-TimersMatch :
    (ad : Advertisement) (s : Service)
    → TimersMatch s
    → TimersMatch (count_advertisement ad s).service
unfolding count_advertisement
count_advertisement-TimersMatch ad s t = ground arith

packet_in_backup-TimersMatch :
    (ad : Advertisement) (s : Service)
    → s.state ≡ backup
    → TimersMatch s
    → TimersMatch (packet_in_backup ad s).service
unfolding packet_in_backup follow_master start_skew_timer start start_master_down_timer
packet_in_backup-TimersMatch ad s e t = ground arith

packet_in_master-TimersMatch :
    (ad : Advertisement) (s : Service)
    → s.state ≡ master
    → TimersMatch s
    → TimersMatch (packet_in_master ad s).service
unfolding packet_in_master send_advertisement start_advertisement_timer start stop
packet_in_master-TimersMatch ad s e t = ground (arith, yield_to-service ad s)

packet_in-TimersMatch :
    (ad : Advertisement) (st : State) (s : Service)
    → s.state ≡ st
    → TimersMatch s
    → TimersMatch (packet_in st ad s).service
unfolding packet_in
packet_in-TimersMatch ad backup s e t = packet_in_backup-TimersMatch ad s e t
packet_in-TimersMatch ad master s e t = packet_in_master-TimersMatch ad s e t
packet_in-TimersMatch ad disabled s e t = t
packet_in-TimersMatch ad link_down s e t = t

pub on_incoming_vrrp_packet-TimersMatch :
    (ad : Advertisement) (s : Service)
    → TimersMatch s
    → TimersMatch (on_incoming_vrrp_packet ad s).service
unfolding on_incoming_vrrp_packet
on_incoming_vrrp_packet-TimersMatch ad s t =
    packet_in-TimersMatch ad _ _ refl (count_advertisement-TimersMatch ad s t)

pub on_incoming_vrrp_error-TimersMatch :
    (e : Error) (s : Service) → TimersMatch s → TimersMatch (on_incoming_vrrp_error e s).service
unfolding on_incoming_vrrp_error
on_incoming_vrrp_error-TimersMatch e s t = ground arith
