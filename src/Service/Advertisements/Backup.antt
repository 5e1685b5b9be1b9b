-- ===== src/Service/Advertisements/Backup.antt =====
-- What a backup does with an advertisement.
use open_vrrp.Prelude.{
  ◌+◌, ◌-◌, ◌*◌, ◌/◌, ◌≤◌, ◌<◌, ◌≡◌, ◌⊎◌, ◌==◌, leb, true, false, not, refl, arith,
}
use open_vrrp.Timer.{is_pending, start}
use open_vrrp.Service.{Service, preempted, backup, master, next}
use open_vrrp.Service.Timing.{skew_time, master_down_interval, start_master_down_timer}
use open_vrrp.Service.Timing.Bounds.{InRange, product_le}
use open_vrrp.Service.Transitions.{master_down_timer_expires}
use open_vrrp.Service.Transitions.Members.{master_down_timer_expires-service}
use open_vrrp.Service.Advertisements.{
  Advertisement, start_skew_timer, follow_master, packet_in_backup, packet_in,
  on_incoming_vrrp_packet,
}
use open_vrrp.Service.Advertisements.Members.{
  packet-follows, packet-preempts, counted, on_incoming_vrrp_packet-service,
}

-- A backup with members in range gets an advertisement of priority 0. It stays a backup, and its
-- timer will expire exactly if its skew time is at least one unit of 10 ms.
pub master_leaves :
    (ad : Advertisement) (s : Service)
    → s.state ≡ backup
    → InRange s
    → ad.prio ≡ 0
    → let s' = (on_incoming_vrrp_packet ad s).service in
      (s'.state ≡ backup)
      × (is_pending s'.master_down_timer
          ≡ leb 256 ((256 - s.priority) * s.master_advertisement_interval))
unfolding packet_in packet_in_backup start_skew_timer skew_time
master_leaves ad s e r z =
    rw (on_incoming_vrrp_packet-service ad s, e, z)
      (refl, ground (arith, product_le s.priority s.master_advertisement_interval))

-- A backup with members in range gets an advertisement whose priority is not 0 and whose interval
-- is at most 4095, from a router of at least its own priority or, whatever its own is, while it does
-- not preempt. It stays a backup and takes over the sender's address and interval; its timer is set to the new
-- master-down interval, and will expire exactly if the interval is not 0.
pub follows :
    (ad : Advertisement) (s : Service)
    → s.state ≡ backup
    → 1 ≤ ad.prio
    → (s.preempt_mode ≡ false) ⊎ (s.priority ≤ ad.prio)
    → InRange s
    → ad.max_advertisement_interval ≤ 4095
    → let s' = (on_incoming_vrrp_packet ad s).service in
      (s'.state ≡ backup)
      × (s'.master_ip_address ≡ ad.source)
      × (s'.master_advertisement_interval ≡ ad.max_advertisement_interval)
      × (is_pending s'.master_down_timer ≡ not (ad.max_advertisement_interval == 0))
      × (s'.master_down_timer.tv_sec * 1000 + s'.master_down_timer.tv_nsec / 1000000
          ≡ 10 * master_down_interval s')
unfolding follow_master start_master_down_timer master_down_interval skew_time start
follows ad s e h p r m = rw (packet-follows ad s e h p) (
  e,
  refl,
  refl,
  ground (arith, product_le s.priority ad.max_advertisement_interval),
  omega (arith, product_le s.priority ad.max_advertisement_interval),
)

-- A backup that preempts, with its timer armed, gets an advertisement of a lower priority that is
-- not 0. It does not take over at once: it stays a backup, with its timer and its master's address as they were; and if its timer
-- then expires it becomes master, is its own master's address, counts one more transition and
-- gives preemption as the reason.
pub preempts :
    (ad : Advertisement) (s : Service)
    → s.state ≡ backup
    → s.master_down_timer.armed ≡ true
    → s.preempt_mode ≡ true
    → 1 ≤ ad.prio
    → ad.prio < s.priority
    → let s' = (on_incoming_vrrp_packet ad s).service in
      let t = (master_down_timer_expires s').service in
      (s'.state ≡ backup)
      × (s'.master_down_timer ≡ s.master_down_timer)
      × (s'.master_ip_address ≡ s.master_ip_address)
      × (t.state ≡ master)
      × (t.stats.new_master_reason ≡ preempted)
      × (t.stats.master_transitions ≡ next s.stats.master_transitions)
      × (t.master_ip_address ≡ s.primary_ip_address)
preempts ad s e a p h l =
    let t : Service = record s { stats = counted ad s; pending_new_master_reason = preempted } in
    rw (packet-preempts ad s e h p l, master_down_timer_expires-service t e a)
      (e, refl, refl, refl, refl, ground arith, refl)
