-- ===== src/Ledger/Events.antt =====
-- The ledger through the timers, the link, the packets and the setters.
use open_vrrp.Prelude.{
  ℕ, Bool, true, false, not, ◌||◌, leb, ◌==◌, refl, if◌then◌else◌, Bool-cases, inl, inr,
}
use open_vrrp.Service.{
  State, disabled, link_down, backup, master, is_state, ◌>>◌, skip, preempted, NewMasterReason,
}
use open_vrrp.Service.Actions.{send_advertisement, set_default_mac}
use open_vrrp.Service.Timing.{start_master_down_timer, start_advertisement_timer}
use open_vrrp.Service.Transitions.{
  set_state, startup, shutdown, on_master_down_timer, on_advertisement_timer,
  master_down_timer_expires, advertisement_timer_expires, interface_callback, enable, disable,
  stop_master_down_timer, stop_advertisement_timer,
}
use open_vrrp.Service.Advertisements.{
  Advertisement, Error, checksum_error, logical_not, count_advertisement, start_skew_timer,
  follow_master, packet_in_backup, yield_to, packet_in_master, packet_in, on_incoming_vrrp_packet,
  on_incoming_vrrp_error, set_pending, has_unknown_address, outranks, count_rcvd_pri_zero,
}
use open_vrrp.Ledger.Replay.{replay-append, replay-toggles}
use open_vrrp.Ledger.Transitions.{set_state-Holds}
use open_vrrp.Ledger.Keeps.{
  Keeps, Holds-eq, Keeps-if, Keeps-skip, through_set_state, startup-Keeps, shutdown-Keeps,
  on_master_down_timer-Keeps,
}

stopped_then-Keeps : Keeps (do stop_master_down_timer; on_master_down_timer)
stopped_then-Keeps s l h = on_master_down_timer-Keeps _ l (Holds-eq s _ l refl h)

pub master_down-Keeps : Keeps master_down_timer_expires
unfolding master_down_timer_expires
master_down-Keeps s l h = Keeps-if s.master_down_timer.armed _ _ stopped_then-Keeps Keeps-skip s l h

on_advertisement_timer-Keeps : Keeps on_advertisement_timer
unfolding on_advertisement_timer send_advertisement start_advertisement_timer
on_advertisement_timer-Keeps s l h = elim (Bool-cases (is_state s.state master)) [
  | inl e ↦ rw e (Holds-eq s _ l refl h)
  | inr e ↦ rw e h
]

silenced_then-Keeps : Keeps (do stop_advertisement_timer; on_advertisement_timer)
silenced_then-Keeps s l h = on_advertisement_timer-Keeps _ l (Holds-eq s _ l refl h)

pub advertise-Keeps : Keeps advertisement_timer_expires
unfolding advertisement_timer_expires
advertise-Keeps s l h =
    Keeps-if s.advertisement_timer.armed _ _ silenced_then-Keeps Keeps-skip s l h

pub interface_callback-Keeps : (up : Bool) → Keeps (interface_callback up)
unfolding interface_callback
interface_callback-Keeps true s l h =
    Keeps-if (is_state s.state link_down) startup skip startup-Keeps Keeps-skip s l h
interface_callback-Keeps false s l h =
    Keeps-if (is_state s.state disabled) skip (shutdown link_down) Keeps-skip
      (shutdown-Keeps link_down) s l h

pub enable-Keeps : (up : Bool) → Keeps (enable up)
unfolding enable
enable-Keeps up s l h =
    Keeps-if (is_state s.state disabled) (if up then startup else set_state link_down) skip
      (Keeps-if up startup (set_state link_down) startup-Keeps (set_state-Holds link_down))
      Keeps-skip s l h

pub disable-Keeps : Keeps disable
unfolding disable
disable-Keeps s l h =
    Keeps-if (is_state s.state disabled) skip (shutdown disabled) Keeps-skip
      (shutdown-Keeps disabled) s l h

follow_master-Keeps : (ad : Advertisement) → Keeps (follow_master ad)
unfolding follow_master start_master_down_timer
follow_master-Keeps ad s l h = elim (Bool-cases (has_unknown_address ad.addresses s.addresses)) [
  | inl e ↦ rw e (Holds-eq s _ l refl h)
  | inr e ↦ rw e (Holds-eq s _ l refl h)
]

set_pending-Keeps : (r : NewMasterReason) → Keeps (set_pending r)
set_pending-Keeps r s l h = Holds-eq s _ l refl h

stopping-Keeps :
    Keeps (do start_skew_timer; count_rcvd_pri_zero; set_pending NewMasterReason.priority)
unfolding start_skew_timer
stopping-Keeps s l h = Holds-eq s _ l refl h

packet_in_backup-Keeps : (ad : Advertisement) → Keeps (packet_in_backup ad)
unfolding packet_in_backup
packet_in_backup-Keeps ad s l h =
    Keeps-if (ad.prio == 0) _ _ stopping-Keeps
      (Keeps-if (not s.preempt_mode || leb s.priority ad.prio) _ _ (follow_master-Keeps ad) (
        Keeps-if s.preempt_mode _ _ (set_pending-Keeps preempted)
          (set_pending-Keeps NewMasterReason.priority)))
      s l h

yield_to-Keeps : (ad : Advertisement) → Keeps (yield_to ad)
unfolding yield_to start_master_down_timer set_default_mac
yield_to-Keeps ad s l h =
    simp (replay-append, replay-toggles) (through_set_state backup s _ _ l refl refl h)

reminding-Keeps :
    (p : ℕ)
    → Keeps (do
      send_advertisement p
      start_advertisement_timer
      count_rcvd_pri_zero
      set_pending NewMasterReason.priority)
unfolding send_advertisement start_advertisement_timer
reminding-Keeps p s l h = Holds-eq s _ l refl h

packet_in_master-Keeps : (ad : Advertisement) → Keeps (packet_in_master ad)
unfolding packet_in_master
packet_in_master-Keeps ad s l h =
    Keeps-if (ad.prio == 0) _ _ (reminding-Keeps s.priority)
      (Keeps-if (outranks ad s) _ _ (yield_to-Keeps ad) Keeps-skip) s l h

packet_in-Keeps : (st : State) (ad : Advertisement) → Keeps (packet_in st ad)
unfolding packet_in
packet_in-Keeps backup ad = packet_in_backup-Keeps ad
packet_in-Keeps master ad = packet_in_master-Keeps ad
packet_in-Keeps disabled ad = Keeps-skip
packet_in-Keeps link_down ad = Keeps-skip

count_advertisement-Keeps : (ad : Advertisement) → Keeps (count_advertisement ad)
unfolding count_advertisement
count_advertisement-Keeps ad s l h =
    elim (Bool-cases (logical_not ad.max_advertisement_interval == s.advertisement_interval)) [
      | inl e ↦ rw e (Holds-eq s _ l refl h)
      | inr e ↦ rw e (Holds-eq s _ l refl h)
    ]

pub packet-Keeps : (ad : Advertisement) → Keeps (on_incoming_vrrp_packet ad)
unfolding on_incoming_vrrp_packet
packet-Keeps ad s l h =
    rw replay-append (packet_in-Keeps _ ad _ _ (count_advertisement-Keeps ad s l h))

pub error-Keeps : (e : Error) → Keeps (on_incoming_vrrp_error e)
unfolding on_incoming_vrrp_error
error-Keeps checksum_error s l h = Holds-eq s _ l refl h
error-Keeps _ s l h = Holds-eq s _ l refl h
