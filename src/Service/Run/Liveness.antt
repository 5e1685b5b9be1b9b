-- ===== src/Service/Run/Liveness.antt =====
-- A master keeps advertising: its members stay in range, and its advertisement timer pending.
use open_vrrp.Prelude.{◌⊎◌, ℕ, ◌≤◌, ◌≡◌, true, false, List, [], ◌∷◌, All, refl, arith}
use open_vrrp.Address.{Family}
use open_vrrp.Timer.{is_pending, stop}
use open_vrrp.Service.{Service, State, disabled, link_down, backup, master, is_state}
use open_vrrp.Service.Timing.{start_master_down_timer, start_advertisement_timer}
use open_vrrp.Service.Timing.Bounds.{InRange, start-is_pending}
use open_vrrp.Service.Actions.{send_advertisement}
use open_vrrp.Service.Transitions.{
  startup, shutdown, on_advertisement_timer, master_down_timer_expires, advertisement_timer_expires,
  interface_callback, enable, disable,
}
use open_vrrp.Service.Transitions.Members.{
  startup-service, shutdown-service, set_state-service, on_master_down_timer-service,
}
use open_vrrp.Service.Advertisements.{
  Advertisement, start_skew_timer, follow_master, packet_in_backup, packet_in_master, packet_in,
  on_incoming_vrrp_error,
}
use open_vrrp.Service.Advertisements.Members.{
  counted, on_incoming_vrrp_packet-service, yield_to-service,
}
use open_vrrp.Service.Config.{
  set_primary_ip_address, unset_primary_ip_address, set_priority, set_advertisement_interval,
  set_preempt_mode, set_accept_mode, set_master_command, set_backup_command, add_ip_address,
  remove_ip_address,
}
use open_vrrp.Service.Lifecycle.{Host, construct}
use open_vrrp.Service.Run.{
  Event, enabling, disabling, link, master_down, advertise_now, packet, prioritise, step, run,
}

pub record IsAlive (s : Service) : Type 0 where
  pub in_range : InRange s
  pub advertising : (is_state s.state master ≡ false) ⊎ (is_pending s.advertisement_timer ≡ true)

-- The ranges of a `uint8_t` priority and of the 12-bit interval of a packet.
abbrev pub IsFeasible : Event → Type 0
IsFeasible (prioritise p) = p ≤ 255
IsFeasible (packet ad) = ad.max_advertisement_interval ≤ 4095
IsFeasible _ = Unit {0}

startup-IsAlive : (s : Service) → InRange s → IsAlive (startup s).service
startup-IsAlive s r =
    ground
      (arith, startup-service s, start-is_pending s.advertisement_interval s.advertisement_timer)

shutdown-IsAlive :
    (target : State) (s : Service)
    → is_state target master ≡ false
    → IsAlive s
    → IsAlive (shutdown target s).service
unfolding stop
shutdown-IsAlive target s n a = ground (arith, shutdown-service target s)

master_down-IsAlive : (s : Service) → IsAlive s → IsAlive (master_down_timer_expires s).service
unfolding master_down_timer_expires
master_down-IsAlive s a = ground (
  arith,
  on_master_down_timer-service (record s { master_down_timer = stop s.master_down_timer }),
  start-is_pending s.advertisement_interval s.advertisement_timer,
)

advertise-IsAlive : (s : Service) → IsAlive s → IsAlive (advertisement_timer_expires s).service
unfolding advertisement_timer_expires on_advertisement_timer send_advertisement
    start_advertisement_timer stop
advertise-IsAlive s a =
    ground (arith, start-is_pending s.advertisement_interval (stop s.advertisement_timer))

packet_in-IsAlive :
    (ad : Advertisement) (st : State) (s : Service)
    → ad.max_advertisement_interval ≤ 4095
    → s.state ≡ st
    → IsAlive s
    → IsAlive (packet_in st ad s).service
unfolding packet_in packet_in_backup packet_in_master follow_master start_skew_timer
    send_advertisement start_advertisement_timer start_master_down_timer
packet_in-IsAlive ad backup s h e a = ground arith
packet_in-IsAlive ad master s h e a =
    ground (
      arith,
      yield_to-service ad s,
      start-is_pending s.advertisement_interval s.advertisement_timer,
    )
packet_in-IsAlive ad disabled s h e a = a
packet_in-IsAlive ad link_down s h e a = a

-- Every event whose numbers are in the range of their types keeps a service alive.
pub step-IsAlive : (e : Event) (s : Service) → IsFeasible e → IsAlive s → IsAlive (step e s).service
unfolding step set_primary_ip_address unset_primary_ip_address set_priority
    set_advertisement_interval set_preempt_mode set_accept_mode set_master_command
    set_backup_command add_ip_address remove_ip_address enable disable interface_callback
    on_incoming_vrrp_error
step-IsAlive (enabling up) s f a =
    ground (arith, startup-IsAlive s a.in_range, set_state-service link_down s)
step-IsAlive disabling s f a = ground (arith, shutdown-IsAlive disabled s)
step-IsAlive (link true) s f a = ground (arith, startup-IsAlive s a.in_range)
step-IsAlive (link false) s f a = ground (arith, shutdown-IsAlive link_down s)
step-IsAlive master_down s f a = master_down-IsAlive s a
step-IsAlive advertise_now s f a = advertise-IsAlive s a
step-IsAlive (packet ad) s f a =
    rw (on_incoming_vrrp_packet-service ad s)
      (packet_in-IsAlive ad s.state (record s { stats = counted ad s }) f refl (ground arith))
step-IsAlive _ s f a = ground arith

pub run-IsAlive :
    (es : List Event) (s : Service) → All IsFeasible es → IsAlive s → IsAlive (run es s).service
unfolding run
run-IsAlive [] s f a = a
run-IsAlive (e ∷ es) s f a = run-IsAlive es (step e s).service f.1 (step-IsAlive e s f.0 a)

pub construct-IsAlive :
    (host : Host) (interface : ℕ) (family : Family) (vrid vlan : ℕ)
    → IsAlive (construct host interface family vrid vlan).service
unfolding construct
construct-IsAlive host interface family vrid vlan = ground arith

-- After any run of events of a new service, with priorities up to 255 set and intervals up to 4095
-- received: its priority is from 1 to 255, its advertisement interval from 1 to 4095, its master's
-- interval at most 4095, and if it is master its advertisement timer will expire.
pub run-construct-IsAlive :
    (host : Host) (interface : ℕ) (family : Family) (vrid vlan : ℕ) (es : List Event)
    → All IsFeasible es
    → IsAlive (run es (construct host interface family vrid vlan).service).service
run-construct-IsAlive host interface family vrid vlan es f =
    run-IsAlive es _ f (construct-IsAlive host interface family vrid vlan)
