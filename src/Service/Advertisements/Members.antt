-- ===== src/Service/Advertisements/Members.antt =====
-- What the handling of packets leaves in the members.
use open_vrrp.Prelude.{
  ◌*◌, ◌==◌, ◌≡◌, refl, ap, ◌≤◌, ◌<◌, ◌⊎◌, ◌∙◌, arith, not, ◌||◌, leb, u32, Bool, true, false,
  if◌then◌else◌,
}
use open_vrrp.Timer.{start, stop}
use open_vrrp.Service.{
  Service, Out, State, Stats, next, skip, count, ProtocolErrorReason, NewMasterReason, preempted,
  master_not_responding, backup,
}
use open_vrrp.Service.Timing.{master_down_interval, start_master_down_timer}
use open_vrrp.Service.Actions.{set_default_mac}
use open_vrrp.Service.Transitions.Members.{set_state-service}
use open_vrrp.Service.Advertisements.{
  Advertisement, logical_not, count_advertisement, packet_in, packet_in_backup, follow_master,
  has_unknown_address, set_pending, on_incoming_vrrp_packet, yield_to,
}

-- A master that yields takes the interval of the other master, and waits for it as a backup.
pub yield_to-service :
    (ad : Advertisement) (s : Service)
    → (yield_to ad s).service ≡ record s {
      state = backup;
      master_advertisement_interval = ad.max_advertisement_interval;
      advertisement_timer = stop s.advertisement_timer;
      master_down_timer =
          start
            (u32 (
              master_down_interval
                (record s { master_advertisement_interval = ad.max_advertisement_interval })
              * 10))
            s.master_down_timer;
      pending_new_master_reason = NewMasterReason.priority;
    }
unfolding yield_to set_default_mac start_master_down_timer master_down_interval
yield_to-service ad s = rw (set_state-service backup) refl

-- The statistics after the top of the packet handler.
abbrev pub counted : Advertisement → Service → Stats
counted ad s =
    let n : Stats = record s.stats {
      rcvd_advertisements = next s.stats.rcvd_advertisements;
      protocol_err_reason = ProtocolErrorReason.no_error;
    } in
    if logical_not ad.max_advertisement_interval == s.advertisement_interval
    then n
    else record n { adv_interval_errors = next n.adv_interval_errors }

count_unless-service :
    (b : Bool) (f : Stats → Stats) (s : Service)
    → ((if b then skip else count f) s).service
      ≡ record s { stats = if b then s.stats else f s.stats }
count_unless-service true f s = refl
count_unless-service false f s = refl

count_advertisement-service :
    (ad : Advertisement) (s : Service)
    → (count_advertisement ad s).service ≡ record s { stats = counted ad s }
unfolding count_advertisement
count_advertisement-service ad s =
    count_unless-service (logical_not ad.max_advertisement_interval == s.advertisement_interval) _ _

-- The packet handler counts, and then does what the state asks for.
pub on_incoming_vrrp_packet-service :
    (ad : Advertisement) (s : Service)
    → (on_incoming_vrrp_packet ad s).service
      ≡ (packet_in s.state ad (record s { stats = counted ad s })).service
unfolding on_incoming_vrrp_packet
on_incoming_vrrp_packet-service ad s =
    ap (λ (t : Service). (packet_in t.state ad t).service) (count_advertisement-service ad s)

packet_in_follows :
    (ad : Advertisement) (st : State) (s : Service)
    → st ≡ backup
    → 1 ≤ ad.prio
    → (s.preempt_mode ≡ false) ⊎ (s.priority ≤ ad.prio)
    → packet_in st ad s ≡ follow_master ad s
unfolding packet_in packet_in_backup
packet_in_follows ad st s e h p =
    let positive : (ad.prio == 0) ≡ false = ground arith in
    let right : (not s.preempt_mode || leb s.priority ad.prio) ≡ true = ground arith in
    rw (e, positive, right) refl

packet_in_preempts :
    (ad : Advertisement) (st : State) (s : Service)
    → st ≡ backup
    → s.preempt_mode ≡ true
    → 1 ≤ ad.prio
    → ad.prio < s.priority
    → packet_in st ad s ≡ set_pending preempted s
unfolding packet_in packet_in_backup
packet_in_preempts ad st s e p h l =
    let positive : (ad.prio == 0) ≡ false = ground arith in
    let lower : (not s.preempt_mode || leb s.priority ad.prio) ≡ false = ground arith in
    rw (e, positive, lower, p) refl

count_if-service :
    (b : Bool) (f : Stats → Stats) (s : Service)
    → ((if b then count f else skip) s).service
      ≡ record s { stats = if b then f s.stats else s.stats }
count_if-service true f s = refl
count_if-service false f s = refl

-- The members of a backup that follows the sender of an advertisement.
abbrev pub followed : Advertisement → Service → Service
followed ad s = record s {
  master_advertisement_interval = ad.max_advertisement_interval;
  master_down_timer =
      start
        (u32 (
          master_down_interval
            (record s { master_advertisement_interval = ad.max_advertisement_interval })
          * 10))
        s.master_down_timer;
  master_ip_address = ad.source;
  stats =
      if has_unknown_address ad.addresses s.addresses
      then record s.stats { address_list_errors = next s.stats.address_list_errors }
      else s.stats;
  pending_new_master_reason = master_not_responding;
}

pub follow_master-service :
    (ad : Advertisement) (s : Service) → (follow_master ad s).service ≡ followed ad s
unfolding follow_master start_master_down_timer
follow_master-service ad s =
    rw (count_if-service (has_unknown_address ad.addresses s.addresses)) refl

module _ (ad : Advertisement) (s : Service) (waiting : s.state ≡ backup)
    (positive : 1 ≤ ad.prio) where
  -- A backup that hears from the right master.
  pub packet-follows :
      (s.preempt_mode ≡ false) ⊎ (s.priority ≤ ad.prio)
      → (on_incoming_vrrp_packet ad s).service ≡ followed ad (record s { stats = counted ad s })
  packet-follows p =
      on_incoming_vrrp_packet-service ad s
      ∙ ap (λ (o : Out (Unit {0})). o.service)
          (packet_in_follows ad s.state (record s { stats = counted ad s }) waiting positive p)
      ∙ follow_master-service ad (record s { stats = counted ad s })

  -- A backup that hears from a router that it will preempt.
  pub packet-preempts :
      s.preempt_mode ≡ true
      → ad.prio < s.priority
      → (on_incoming_vrrp_packet ad s).service
        ≡ record s { stats = counted ad s; pending_new_master_reason = preempted }
  packet-preempts p l =
      on_incoming_vrrp_packet-service ad s
      ∙ ap (λ (o : Out (Unit {0})). o.service)
          (packet_in_preempts ad s.state (record s { stats = counted ad s }) waiting p positive l)
