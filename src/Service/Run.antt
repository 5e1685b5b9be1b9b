-- ===== src/Service/Run.antt =====
-- What happens to a service between its constructor and its destructor, as one step relation by
-- events, and runs of events.
pub mod Timers
pub mod Graph
pub mod Liveness
pub mod Settings
use open_vrrp.Prelude.{ℕ, Bool, List, [], ◌∷◌}
use open_vrrp.Address.{IpAddress, IpSubnet}
use open_vrrp.Service.{M, Method, ◌>>◌, skip}
use open_vrrp.Service.Transitions.{
  enable, disable, interface_callback, master_down_timer_expires, advertisement_timer_expires,
}
use open_vrrp.Service.Advertisements.{
  Advertisement, Error, on_incoming_vrrp_packet, on_incoming_vrrp_error,
}
use open_vrrp.Service.Config.{
  set_primary_ip_address, unset_primary_ip_address, set_priority, set_advertisement_interval,
  set_preempt_mode, set_accept_mode, set_master_command, set_backup_command, add_ip_address,
  remove_ip_address,
}

-- A call of a public method, or a callback. `enabling` carries the answer of isInterfaceUp.
pub data Event : Type 0 where
  enabling : Bool → Event
  disabling : Event
  link : Bool → Event
  master_down advertise_now : Event
  packet : Advertisement → Event
  bad_packet : Error → Event
  primary : IpAddress → Event
  auto_primary : IpAddress → Event
  prioritise : ℕ → Event
  advertise_every : ℕ → Event
  preempt accept : Bool → Event
  on_master on_backup : List ℕ → Event
  add remove : IpSubnet → Event

abbrev ignore {ℓ} : {A : Type ℓ} → M A → Method
ignore m = do m; skip

unfoldable pub step : Event → Method
step (enabling up) = enable up
step disabling = disable
step (link up) = interface_callback up
step master_down = master_down_timer_expires
step advertise_now = advertisement_timer_expires
step (packet ad) = on_incoming_vrrp_packet ad
step (bad_packet e) = on_incoming_vrrp_error e
step (primary a) = ignore (set_primary_ip_address a)
step (auto_primary a) = unset_primary_ip_address a
step (prioritise p) = ignore (set_priority p)
step (advertise_every n) = ignore (set_advertisement_interval n)
step (preempt on) = set_preempt_mode on
step (accept on) = set_accept_mode on
step (on_master c) = set_master_command c
step (on_backup c) = set_backup_command c
step (add subnet) = ignore (add_ip_address subnet)
step (remove subnet) = ignore (remove_ip_address subnet)

unfoldable pub run : List Event → Method
unfolding step
run [] = skip
run (e ∷ es) = do step e; run es
