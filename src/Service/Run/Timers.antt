-- ===== src/Service/Run/Timers.antt =====
-- The timers through a run of events.
use open_vrrp.Prelude.{ℕ, List, [], ◌∷◌, arith}
use open_vrrp.Service.{Service}
use open_vrrp.Service.Transitions.Timers.{
  TimersMatch, enable-TimersMatch, disable-TimersMatch, interface_callback-TimersMatch,
  master_down-TimersMatch, advertise-TimersMatch,
}
use open_vrrp.Service.Advertisements.Timers.{
  on_incoming_vrrp_packet-TimersMatch, on_incoming_vrrp_error-TimersMatch,
}
use open_vrrp.Service.Config.{
  set_primary_ip_address, unset_primary_ip_address, set_priority, set_advertisement_interval,
  set_preempt_mode, set_accept_mode, set_master_command, set_backup_command, add_ip_address,
  remove_ip_address,
}
use open_vrrp.Address.{Family}
use open_vrrp.Service.Lifecycle.{Host, construct}
use open_vrrp.Service.Run.{
  Event, enabling, disabling, link, master_down, advertise_now, packet, bad_packet, step, run,
}

-- Every event keeps the timers right.
pub step-TimersMatch : (e : Event) (s : Service) → TimersMatch s → TimersMatch (step e s).service
unfolding step set_primary_ip_address unset_primary_ip_address set_priority
    set_advertisement_interval set_preempt_mode set_accept_mode set_master_command
    set_backup_command add_ip_address remove_ip_address
step-TimersMatch (enabling up) s t = enable-TimersMatch up s t
step-TimersMatch disabling s t = disable-TimersMatch s t
step-TimersMatch (link up) s t = interface_callback-TimersMatch up s t
step-TimersMatch master_down s t = master_down-TimersMatch s t
step-TimersMatch advertise_now s t = advertise-TimersMatch s t
step-TimersMatch (packet ad) s t = on_incoming_vrrp_packet-TimersMatch ad s t
step-TimersMatch (bad_packet e) s t = on_incoming_vrrp_error-TimersMatch e s t
step-TimersMatch _ s t = ground arith

pub run-TimersMatch :
    (es : List Event) (s : Service) → TimersMatch s → TimersMatch (run es s).service
unfolding run
run-TimersMatch [] s t = t
run-TimersMatch (e ∷ es) s t = run-TimersMatch es (step e s).service (step-TimersMatch e s t)

pub construct-TimersMatch :
    (host : Host) (interface : ℕ) (family : Family) (vrid vlan : ℕ)
    → TimersMatch (construct host interface family vrid vlan).service
unfolding construct
construct-TimersMatch host interface family vrid vlan = ground arith

-- After any run of events of a new service the master-down timer is armed exactly if the service
-- is a backup, and the advertisement timer exactly if it is master.
pub run-construct-TimersMatch :
    (host : Host) (interface : ℕ) (family : Family) (vrid vlan : ℕ) (es : List Event)
    → TimersMatch (run es (construct host interface family vrid vlan).service).service
run-construct-TimersMatch host interface family vrid vlan es =
    run-TimersMatch es _ (construct-TimersMatch host interface family vrid vlan)
