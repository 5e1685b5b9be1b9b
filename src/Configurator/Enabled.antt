-- ===== src/Configurator/Enabled.antt =====
-- The flag of a router that says whether it is enabled.
use open_vrrp.Prelude.{
  ℕ, if◌then◌else◌, Bool, true, false, List, [], ◌∷◌, ◌++◌, map, ◌≡◌, arith, ◌∙◌,
}
use open_vrrp.Address.{Family, IpSubnet}
use open_vrrp.Service.{Service, disabled, link_down}
use open_vrrp.Service.Transitions.{enable, disable, enabled}
use open_vrrp.Service.Transitions.Members.{startup-service, set_state-service}
use open_vrrp.Service.Config.{
  set_primary_ip_address, set_priority, set_advertisement_interval, set_preempt_mode,
  set_accept_mode, set_master_command, set_backup_command, add_ip_address,
}
use open_vrrp.Service.Lifecycle.{Host, construct}
use open_vrrp.Service.Run.{
  Event, enabling, disabling, primary, prioritise, advertise_every, preempt, accept, on_master,
  on_backup, add, step, run,
}
use open_vrrp.Configurator.{Router, has_primary}
use open_vrrp.Configurator.Load.{primary_of, settings}

-- The calls of setters that readConfiguration makes.
abbrev IsSetter : Event → Type 0
IsSetter (primary a) = Unit
IsSetter (prioritise p) = Unit
IsSetter (advertise_every n) = Unit
IsSetter (preempt b) = Unit
IsSetter (accept b) = Unit
IsSetter (on_master c) = Unit
IsSetter (on_backup c) = Unit
IsSetter (add x) = Unit
IsSetter _ = ⊥

setter-state : (e : Event) (s : Service) → IsSetter e → (step e s).service.state ≡ s.state
unfolding step set_primary_ip_address set_priority set_advertisement_interval set_preempt_mode
    set_accept_mode set_master_command set_backup_command add_ip_address
setter-state (primary a) s h = ground arith
setter-state (prioritise p) s h = ground arith
setter-state (advertise_every n) s h = ground arith
setter-state (preempt b) s h = ground arith
setter-state (accept b) s h = ground arith
setter-state (on_master c) s h = ground arith
setter-state (on_backup c) s h = ground arith
setter-state (add x) s h = ground arith
setter-state _ s h = absurd h

-- After the events, a service that was disabled is enabled exactly if `b` says so.
abbrev Leaves : List Event → Bool → Type 0
Leaves es b = (s : Service) → s.state ≡ disabled → enabled (run es s).service ≡ b

set_first : (e : Event) (es : List Event) (b : Bool) → IsSetter e → Leaves es b → Leaves (e ∷ es) b
unfolding run
set_first e es b setter rest s idle = rest (step e s).service (setter-state e s setter ∙ idle)

set_primary :
    (given : Bool) (r : Router) (es : List Event) (b : Bool)
    → Leaves es b
    → Leaves (primary_of given r ++ es) b
set_primary true r es b rest = set_first (primary r.primary_ip) es b tt rest
set_primary false r es b rest = rest

add_all :
    (xs : List IpSubnet) (es : List Event) (b : Bool) → Leaves es b → Leaves (map add xs ++ es) b
add_all [] es b rest = rest
add_all (x ∷ xs) es b rest = set_first (add x) (map add xs ++ es) b tt (add_all xs es b rest)

switched : (b up : Bool) → Leaves ((if b then enabling up else disabling) ∷ []) b
unfolding run step enable disable enabled
switched true true s idle = rw idle (ground (arith, startup-service s))
switched true false s idle = rw idle (ground (arith, set_state-service link_down s))
switched false up s idle = ground arith

pub construct-state :
    (host : Host) (interface : ℕ) (family : Family) (vrid vlan : ℕ)
    → (construct host interface family vrid vlan).service.state ≡ disabled
unfolding construct
construct-state host interface family vrid vlan = ground arith

-- A new service that is set up as a router of the file says is enabled exactly if the file says so.
pub settings-enabled :
    (up : Bool) (r : Router) (s : Service)
    → s.state ≡ disabled
    → enabled (run (settings up r) s).service ≡ r.enable
unfolding settings
settings-enabled up r = set_first _ _ r.enable tt (
    set_first _ _ r.enable tt (
      set_first _ _ r.enable tt (
        set_first _ _ r.enable tt (
          set_primary (has_primary r.flags) r _ r.enable (
            set_first _ _ r.enable tt
              (set_first _ _ r.enable tt (add_all r.subnets _ r.enable (switched r.enable up))))))))
