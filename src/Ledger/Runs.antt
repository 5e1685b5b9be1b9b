-- ===== src/Ledger/Runs.antt =====
-- The ledger through whole runs: what a service leaves behind on the host.
use open_vrrp.Prelude.{
  ℕ, ◌==◌, true, false, not, ◌||◌, List, [], ◌∷◌, ◌≡◌, ◌⊎◌, refl, arith, append-nil, Bool-cases,
  inl, inr, ltb,
}
use open_vrrp.Address.{Family, number, IpAddress}
use open_vrrp.Service.{Service, master, is_state}
use open_vrrp.Service.Actions.{on_interface}
use open_vrrp.Service.Config.{
  set_primary_ip_address, unset_primary_ip_address, set_advertisement_interval, set_preempt_mode,
  set_master_command, set_backup_command,
}
use open_vrrp.Service.Lifecycle.{Host, construct}
use open_vrrp.Service.Run.{
  Event, enabling, disabling, link, master_down, advertise_now, packet, bad_packet, primary,
  auto_primary, prioritise, advertise_every, preempt, accept, on_master, on_backup, add, remove,
  step, run,
}
use open_vrrp.Ledger.{Ledger, Holds, replay, blank}
use open_vrrp.Ledger.Replay.{replay-append}
use open_vrrp.Ledger.Transitions.{Holds-master}
use open_vrrp.Ledger.Keeps.{Keeps, Holds-eq}
use open_vrrp.Ledger.Events.{
  enable-Keeps, disable-Keeps, interface_callback-Keeps, master_down-Keeps, advertise-Keeps,
  packet-Keeps, error-Keeps,
}
use open_vrrp.Ledger.Setters.{
  set_priority-Holds, set_accept_mode-Holds, add_ip_address-Holds, remove_ip_address-Holds,
}

-- The events that keep the host in step. The three exceptions are a master with priority 255 whose
-- accept mode is turned off, and a master that leaves its addresses to the ARP service and gets or
-- loses a subnet.
abbrev pub IsCareful : Event → Service → Type 0
IsCareful (accept on) s =
    (is_state s.state master ≡ false) ⊎ ((on || not (s.priority == 255)) ≡ true)
IsCareful (add x) s =
    (is_state s.state master ≡ false) ⊎ (on_interface s ≡ true) ⊎ (s.output_interface ≡ s.interface)
IsCareful (remove x) s = (is_state s.state master ≡ false) ⊎ (on_interface s ≡ true)
IsCareful _ s = Unit {0}

-- Every event of a run is such, at the service that it meets.
abbrev pub IsCarefulRun : List Event → Service → Type 0
IsCarefulRun [] s = Unit {0}
IsCarefulRun (e ∷ es) s = IsCareful e s × IsCarefulRun es (step e s).service

-- The setters that touch no address.
primary-Keeps : (a : IpAddress) → Keeps (set_primary_ip_address a)
unfolding set_primary_ip_address
primary-Keeps a s l h = elim (Bool-cases (number a.family == number s.family)) [
  | inl e ↦ rw e (Holds-eq s _ l refl h)
  | inr e ↦ rw e h
]

auto_primary-Keeps : (a : IpAddress) → Keeps (unset_primary_ip_address a)
unfolding unset_primary_ip_address
auto_primary-Keeps a s l h = elim (Bool-cases (not s.auto_primary_ip_address)) [
  | inl e ↦ rw e (Holds-eq s _ l refl h)
  | inr e ↦ rw e h
]

interval-Keeps : (n : ℕ) → Keeps (set_advertisement_interval n)
unfolding set_advertisement_interval
interval-Keeps n s l h = elim (Bool-cases (ltb n 1 || ltb 4095 n)) [
  | inl e ↦ rw e h
  | inr e ↦ rw e (Holds-eq s _ l refl h)
]

step-Holds :
    (e : Event) (s : Service) (l : Ledger)
    → IsCareful e s
    → Holds s l
    → Holds (step e s).service (replay (step e s).calls l)
unfolding step set_preempt_mode set_master_command set_backup_command
step-Holds (enabling up) s l c h = enable-Keeps up s l h
step-Holds disabling s l c h = disable-Keeps s l h
step-Holds (link up) s l c h = interface_callback-Keeps up s l h
step-Holds master_down s l c h = master_down-Keeps s l h
step-Holds advertise_now s l c h = advertise-Keeps s l h
step-Holds (packet ad) s l c h = packet-Keeps ad s l h
step-Holds (bad_packet e) s l c h = error-Keeps e s l h
step-Holds (primary a) s l c h = rw append-nil (primary-Keeps a s l h)
step-Holds (auto_primary a) s l c h = auto_primary-Keeps a s l h
step-Holds (prioritise p) s l c h = rw append-nil (set_priority-Holds p s l h)
step-Holds (advertise_every n) s l c h = rw append-nil (interval-Keeps n s l h)
step-Holds (preempt on) s l c h = Holds-eq s _ l refl h
step-Holds (accept on) s l c h = set_accept_mode-Holds on s l h c
step-Holds (on_master m) s l c h = Holds-eq s _ l refl h
step-Holds (on_backup m) s l c h = Holds-eq s _ l refl h
step-Holds (add x) s l c h = rw append-nil (add_ip_address-Holds x s l h c)
step-Holds (remove x) s l c h = rw append-nil (remove_ip_address-Holds x s l h c)

run-Holds :
    (es : List Event) (s : Service) (l : Ledger)
    → IsCarefulRun es s
    → Holds s l
    → Holds (run es s).service (replay (run es s).calls l)
unfolding run
run-Holds [] s l c h = h
run-Holds (e ∷ es) s l c h =
    rw (replay-append (step e s).calls (run es (step e s).service).calls l)
      (run-Holds es (step e s).service (replay (step e s).calls l) c.1 (step-Holds e s l c.0 h))

construct-state :
    (host : Host) (interface : ℕ) (family : Family) (vrid vlan : ℕ)
    → is_state (construct host interface family vrid vlan).service.state master ≡ false
unfolding construct
construct-state host interface family vrid vlan = ground arith

construct-Holds :
    (host : Host) (interface : ℕ) (family : Family) (vrid vlan : ℕ)
    → Holds (construct host interface family vrid vlan).service blank
construct-Holds host interface family vrid vlan =
    Holds-master _ blank (construct-state host interface family vrid vlan)
      (record { unassigned = λ j y. refl; unanswered = λ j b. refl })

-- After any run of events of a new service in which each event is careful (see IsCareful) for the
-- service that it meets: the addresses that the service's calls left on a host that had none, on
-- its interfaces and in the ARP service, are the ones that the service means it to hold.
pub run-construct-Holds :
    (host : Host) (interface : ℕ) (family : Family) (vrid vlan : ℕ) (es : List Event)
    → IsCarefulRun es (construct host interface family vrid vlan).service
    → let after = run es (construct host interface family vrid vlan).service in
      Holds after.service (replay after.calls blank)
run-construct-Holds host interface family vrid vlan es c =
    run-Holds es _ blank c (construct-Holds host interface family vrid vlan)
