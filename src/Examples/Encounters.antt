-- ===== src/Examples/Encounters.antt =====
-- Encounters of services with advertisements, and the addresses that they leave on the host.
use open_vrrp.Prelude.{◌*◌, ◌+◌, ◌/◌, ◌≤◌, leb, true, ◌≡◌, refl, arith, inr, ◌-◌, u32}
use open_vrrp.Timer.{is_pending}
use open_vrrp.Service.{backup, master, preempted, next, Service}
use open_vrrp.Service.Timing.{master_down_interval}
use open_vrrp.Service.Timing.Bounds.{InRange, master_down_interval_bounds}
use open_vrrp.Service.Transitions.{master_down_timer_expires}
use open_vrrp.Service.Advertisements.{on_incoming_vrrp_packet}
use open_vrrp.Service.Advertisements.Backup.{master_leaves, follows, preempts}
use open_vrrp.Examples.{address, service, advertisement}

service-InRange : InRange (service 2 backup 100)
unfolding service
service-InRange = record {
  positive = omega arith;
  byte = omega arith;
  interval_min = omega arith;
  interval_max = omega arith;
  master_max = omega arith;
}

strong-InRange : InRange (service 3 backup 200)
unfolding service
strong-InRange = record {
  positive = omega arith;
  byte = omega arith;
  interval_min = omega arith;
  interval_max = omega arith;
  master_max = omega arith;
}

master_down_interval_bounds_example :
    let s = service 2 backup 100 in
    (master_down_interval s
      ≡ 3 * s.master_advertisement_interval
        + (256 - s.priority) * s.master_advertisement_interval / 256)
    × (3 * s.master_advertisement_interval ≤ master_down_interval s)
    × (master_down_interval s ≤ 4 * s.master_advertisement_interval)
    × (u32 (master_down_interval s * 10) ≡ master_down_interval s * 10)
master_down_interval_bounds_example =
    master_down_interval_bounds (service 2 backup 100) service-InRange

master_leaves_example :
    let s' = (on_incoming_vrrp_packet (advertisement 9 0 100) (service 2 backup 100)).service in
    (s'.state ≡ backup)
    × (is_pending s'.master_down_timer
        ≡ leb 256 (
            (256 - (service 2 backup 100).priority)
            * (service 2 backup 100).master_advertisement_interval))
unfolding service
master_leaves_example =
    master_leaves (advertisement 9 0 100) (service 2 backup 100) refl service-InRange refl

follows_example :
    let s' = (on_incoming_vrrp_packet (advertisement 9 200 50) (service 2 backup 100)).service in
    (s'.state ≡ backup)
    × (s'.master_ip_address ≡ address 9)
    × (s'.master_advertisement_interval ≡ 50)
    × (is_pending s'.master_down_timer ≡ true)
    × (s'.master_down_timer.tv_sec * 1000 + s'.master_down_timer.tv_nsec / 1000000
        ≡ 10 * master_down_interval s')
unfolding service
follows_example =
    follows (advertisement 9 200 50) (service 2 backup 100) refl (omega arith) (inr (omega arith))
      service-InRange (omega arith)

-- A backup that waits on its timer.
abbrev waiting : Service
waiting = record (service 2 backup 150) {
  master_down_timer = record { armed = true; tv_sec = 3; tv_nsec = 410000000 };
}

preempts_example :
    let s' = (on_incoming_vrrp_packet (advertisement 9 100 100) waiting).service in
    let t = (master_down_timer_expires s').service in
    (s'.state ≡ backup)
    × (s'.master_down_timer ≡ waiting.master_down_timer)
    × (s'.master_ip_address ≡ waiting.master_ip_address)
    × (t.state ≡ master)
    × (t.stats.new_master_reason ≡ preempted)
    × (t.stats.master_transitions ≡ next waiting.stats.master_transitions)
    × (t.master_ip_address ≡ waiting.primary_ip_address)
unfolding service
preempts_example =
    preempts (advertisement 9 100 100) waiting refl refl refl (omega arith) (omega arith)
