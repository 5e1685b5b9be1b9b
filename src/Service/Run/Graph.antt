-- ===== src/Service/Run/Graph.antt =====
-- The state diagram.
use open_vrrp.Prelude.{
  ◌≡◌, ◌⊎◌, inl, inr, refl, true, false, arith, Bool, Bool-cases, not, ◌||◌, ◌==◌,
}
use open_vrrp.Timer.{stop}
use open_vrrp.Service.{Service, State, disabled, link_down, backup, master, is_state}
use open_vrrp.Service.Timing.{start_master_down_timer, start_advertisement_timer}
use open_vrrp.Service.Actions.{send_advertisement}
use open_vrrp.Service.Transitions.{
  startup, on_advertisement_timer, master_down_timer_expires, advertisement_timer_expires,
  interface_callback, enable, disable,
}
use open_vrrp.Service.Transitions.Members.{
  startup-service, eq_of_is_state, shutdown-service, set_state-service,
  on_master_down_timer-service,
}
use open_vrrp.Service.Advertisements.{
  Advertisement, start_skew_timer, follow_master, packet_in_backup, packet_in_master, packet_in,
  on_incoming_vrrp_error,
}
use open_vrrp.Service.Advertisements.Members.{
  counted, on_incoming_vrrp_packet-service, yield_to-service,
}
use open_vrrp.Service.Config.{
  set_primary_ip_address, unset_primary_ip_address, set_priority, set_advertisement_interval,
  set_preempt_mode, set_accept_mode, set_master_command, set_backup_command, add_ip_address,
  remove_ip_address,
}
use open_vrrp.Service.Run.{
  Event, enabling, disabling, link, master_down, advertise_now, packet, step,
}

pub data IsActive : State → Type 0 where
  backup_active : IsActive backup
  master_active : IsActive master

-- The events after which a service may be in the state that it was in.
abbrev pub may_stay : Event → State → Bool
may_stay (enabling up) s = not (is_state s disabled)
may_stay disabling s = is_state s disabled || is_state s link_down
may_stay (link true) s = not (is_state s link_down)
may_stay (link false) s = is_state s disabled || is_state s link_down
may_stay _ s = true

-- The edges of the diagram, each with its event.
pub data IsEdge : Event → State → State → Type 0 where
  start : {t : State} → IsActive t → IsEdge (enabling true) disabled t
  await_link : IsEdge (enabling false) disabled link_down
  resume : {t : State} → IsActive t → IsEdge (link true) link_down t
  lose_link : {s : State} → IsActive s → IsEdge (link false) s link_down
  halt : {s : State} → IsActive s → IsEdge disabling s disabled
  take_over : IsEdge master_down backup master
  yield : {ad : Advertisement} → IsEdge (packet ad) master backup
  stay : {e : Event} {s : State} → may_stay e s ≡ true → IsEdge e s s

-- The state after an event, by an equation.
leads : {e : Event} {s t u : State} → u ≡ t → IsEdge e s t → IsEdge e s u
leads f edge = rw f edge

startup-IsActive : (s : Service) → IsActive (startup s).service.state
startup-IsActive s = elim (Bool-cases (s.priority == 255)) [
  | inl e ↦ rw (startup-service s, e) master_active
  | inr e ↦ rw (startup-service s, e) backup_active
]

enable-IsEdge :
    (up : Bool) (st : State) (s : Service)
    → s.state ≡ st
    → IsEdge (enabling up) st (enable up s).service.state
unfolding enable
enable-IsEdge true disabled s e = leads (ground arith) (start (startup-IsActive s))
enable-IsEdge false disabled s e = leads (ground (arith, set_state-service link_down s)) await_link
enable-IsEdge up link_down s e = leads (ground arith) (stay refl)
enable-IsEdge up backup s e = leads (ground arith) (stay refl)
enable-IsEdge up master s e = leads (ground arith) (stay refl)

disable-IsEdge :
    (st : State) (s : Service) → s.state ≡ st → IsEdge disabling st (disable s).service.state
unfolding disable
disable-IsEdge disabled s e = leads (ground arith) (stay refl)
disable-IsEdge link_down s e = leads (ground (arith, shutdown-service disabled s)) (stay refl)
disable-IsEdge backup s e = leads (ground (arith, shutdown-service disabled s)) (halt backup_active)
disable-IsEdge master s e = leads (ground (arith, shutdown-service disabled s)) (halt master_active)

link-IsEdge :
    (up : Bool) (st : State) (s : Service)
    → s.state ≡ st
    → IsEdge (link up) st (interface_callback up s).service.state
unfolding interface_callback
link-IsEdge true link_down s e = leads (ground arith) (resume (startup-IsActive s))
link-IsEdge true disabled s e = leads (ground arith) (stay refl)
link-IsEdge true backup s e = leads (ground arith) (stay refl)
link-IsEdge true master s e = leads (ground arith) (stay refl)
link-IsEdge false disabled s e = leads (ground arith) (stay refl)
link-IsEdge false link_down s e = leads (ground (arith, shutdown-service link_down s)) (stay refl)
link-IsEdge false backup s e =
    leads (ground (arith, shutdown-service link_down s)) (lose_link backup_active)
link-IsEdge false master s e =
    leads (ground (arith, shutdown-service link_down s)) (lose_link master_active)

-- Only a backup is moved by its timer, and only to be the master.
master_down-state :
    (s : Service)
    → ((master_down_timer_expires s).service.state ≡ s.state)
      ⊎ ((s.state ≡ backup) × ((master_down_timer_expires s).service.state ≡ master))
unfolding master_down_timer_expires
master_down-state s =
    let t : Service = record s { master_down_timer = stop s.master_down_timer } in
    ground (arith, on_master_down_timer-service t, eq_of_is_state s.state backup)

master_down-IsEdge :
    (s : Service) → IsEdge master_down s.state (master_down_timer_expires s).service.state
master_down-IsEdge s = elim (master_down-state s) [
  | inl e ↦ rw e (stay refl)
  | inr (e, f) ↦ rw (f, e) take_over
]

packet_in_backup-state :
    (ad : Advertisement) (s : Service) → (packet_in_backup ad s).service.state ≡ s.state
unfolding packet_in_backup follow_master start_skew_timer start_master_down_timer
packet_in_backup-state ad s = ground arith

packet_in_master-state :
    (ad : Advertisement) (s : Service)
    → ((packet_in_master ad s).service.state ≡ backup)
      ⊎ ((packet_in_master ad s).service.state ≡ s.state)
unfolding packet_in_master send_advertisement start_advertisement_timer
packet_in_master-state ad s = ground (arith, yield_to-service ad s)

packet_in-IsEdge :
    (ad : Advertisement) (st : State) (s : Service)
    → s.state ≡ st
    → IsEdge (packet ad) st (packet_in st ad s).service.state
unfolding packet_in
packet_in-IsEdge ad backup s e = rw (packet_in_backup-state ad s, e) (stay refl)
packet_in-IsEdge ad master s e = elim (packet_in_master-state ad s) [
  | inl p ↦ rw p yield
  | inr p ↦ rw (p, e) (stay refl)
]
packet_in-IsEdge ad disabled s e = rw e (stay refl)
packet_in-IsEdge ad link_down s e = rw e (stay refl)

advertise-state : (s : Service) → (advertisement_timer_expires s).service.state ≡ s.state
unfolding advertisement_timer_expires on_advertisement_timer send_advertisement
    start_advertisement_timer stop
advertise-state s = ground arith

same_state :
    (e : Event) (s t : Service)
    → may_stay e s.state ≡ true
    → t.state ≡ s.state
    → IsEdge e s.state t.state
same_state e s t may f = leads f (stay may)

-- Every event moves a service along an edge of the diagram that is its own, or leaves its state where
-- it may: `enable` moves a disabled service to Backup or Master, or to LinkDown, by the link; `disable`
-- moves a backup or a master to Disabled, and nothing else; the link moves a service in LinkDown to
-- Backup or Master, and a backup or a master to LinkDown; the master-down timer moves only a backup,
-- to Master, and a packet only a master, to Backup; and no other event changes the state.
pub step-IsEdge : (e : Event) (s : Service) → IsEdge e s.state (step e s).service.state
unfolding step set_primary_ip_address unset_primary_ip_address set_priority
    set_advertisement_interval set_preempt_mode set_accept_mode set_master_command
    set_backup_command add_ip_address remove_ip_address on_incoming_vrrp_error
step-IsEdge (enabling up) s = enable-IsEdge up s.state s refl
step-IsEdge disabling s = disable-IsEdge s.state s refl
step-IsEdge (link up) s = link-IsEdge up s.state s refl
step-IsEdge master_down s = master_down-IsEdge s
step-IsEdge advertise_now s =
    same_state advertise_now s (advertisement_timer_expires s).service refl (advertise-state s)
step-IsEdge (packet ad) s =
    rw (on_incoming_vrrp_packet-service ad s)
      (packet_in-IsEdge ad s.state (record s { stats = counted ad s }) refl)
step-IsEdge e s = same_state e s (step e s).service refl (ground arith)
