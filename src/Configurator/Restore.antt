-- ===== src/Configurator/Restore.antt =====
-- The settings of a service that is saved and loaded again.
use open_vrrp.Prelude.{
  ℕ, ◌*◌, ◌≤◌, ◌==◌, ltb, not, ◌||◌, if◌then◌else◌, Bool, true, false, List, [], ◌∷◌, ◌++◌, map,
  ◌≡◌, refl, sym, ap, ◌∙◌, arith, All, append_assoc, append-nil, pos, tenth, word_of,
}
use open_vrrp.Address.{Family, inet6, number, IpAddress, no_address, IpSubnet}
use open_vrrp.Service.{Service}
use open_vrrp.Service.Lifecycle.{Host, construct}
use open_vrrp.Service.Run.{
  Event, enabling, disabling, prioritise, advertise_every, preempt, accept, on_master, on_backup,
  add,
}
use open_vrrp.Service.Run.Settings.{Settings, settings_of, changed, changed_by}
use open_vrrp.Configurator.{Router, has_primary}
use open_vrrp.Configurator.Values.{
  IsIncreasing, IsBeyond, insert_last, IsBeyond-append, empty-IsBeyond,
}
use open_vrrp.Configurator.RoundTrip.{router_of}
use open_vrrp.Configurator.Load.{primary_of, settings}

-- The settings of a new service, with the primary address that the host gives it.
abbrev pub new_settings : Host → ℕ → Family → ℕ → ℕ → Settings
new_settings host interface family vrid vlan = record {
  interface = interface;
  virtual_router_id = vrid;
  vlan_id = vlan;
  family = family;
  primary_address = host.primary_ip_address;
  automatic = true;
  priority = 100;
  interval = 100;
  preempting = true;
  accepting = number family == number inet6 || not (vlan == 0);
  master_command = [];
  backup_command = [];
  subnets = [];
}

pub construct-settings :
    (host : Host) (interface : ℕ) (family : Family) (vrid vlan : ℕ)
    → settings_of (construct host interface family vrid vlan).service
      ≡ new_settings host interface family vrid vlan
unfolding construct
construct-settings host interface family vrid vlan = ground arith

-- A service with settings that its setters can have made.
pub record IsRestorable (s : Service) : Type 0 where
  pub priority_least : 1 ≤ s.priority
  pub priority_most : s.priority ≤ 255
  pub interval_least : 1 ≤ s.advertisement_interval
  pub interval_most : s.advertisement_interval ≤ 4095
  pub accepts :
      (number s.family == number inet6 || not (s.vlan_id == 0)) ≡ true → s.accept_mode ≡ true
  pub of_family :
      All (λ (x : IpSubnet). (number x.address.family == number s.family) ≡ true) s.subnets
  pub primary_of_family :
      s.auto_primary_ip_address ≡ false
      → (number s.primary_ip_address.family == number s.family) ≡ true

-- The settings that the file restores on a host: those of the service, but for a primary address that
-- was not set, in whose place is the host's.
abbrev pub restored : Host → Service → Settings
restored host s = record (settings_of s) {
  primary_address =
      if s.auto_primary_ip_address then host.primary_ip_address else s.primary_ip_address;
}

added :
    (ys : List IpSubnet) (es : List Event) (c : Settings)
    → All (λ (x : IpSubnet). (number x.address.family == number c.family) ≡ true) ys
    → IsIncreasing ys
    → IsBeyond c.subnets ys
    → changed_by (map add ys ++ es) c ≡ changed_by es (record c { subnets = c.subnets ++ ys })
unfolding changed_by
added [] es c h up beyond =
    ap (λ (xs : List IpSubnet). changed_by es (record c { subnets = xs }))
      (sym (append-nil c.subnets))
added (y ∷ ys) es c (f, h) (u, up) (b, beyond) =
    let one : changed (add y) c ≡ record c { subnets = c.subnets ++ y ∷ [] } =
      rw (f, insert_last y c.subnets b) refl in
    ap (changed_by (map add ys ++ es)) one
    ∙ added ys es (record c { subnets = c.subnets ++ y ∷ [] }) h up
        (IsBeyond-append c.subnets y ys beyond u)
    ∙ ap (λ (xs : List IpSubnet). changed_by es (record c { subnets = xs }))
        (append_assoc c.subnets (y ∷ []) ys)

ended :
    (b up : Bool) (c : Settings) → changed_by ((if b then enabling up else disabling) ∷ []) c ≡ c
unfolding changed_by
ended true up c = refl
ended false up c = refl

set_primary :
    (auto : Bool) (r : Router) (a found : IpAddress) (es : List Event) (c : Settings)
    → r.primary_ip ≡ (if not auto then a else no_address)
    → c.automatic ≡ true
    → c.primary_address ≡ found
    → (auto ≡ false → (number a.family == number c.family) ≡ true)
    → changed_by (primary_of (not auto) r ++ es) c
      ≡ changed_by es (record c { primary_address = if auto then found else a; automatic = auto })
unfolding changed_by
set_primary true r a found es c p e f h = ap (changed_by es) (
    ap (λ (b : Bool). record c { automatic = b }) e
    ∙ ap (λ (x : IpAddress). record c { primary_address = x; automatic = true }) f)
set_primary false r a found es c p e f h = rw (p, h refl) refl

flag_of : (auto : Bool) → has_primary (if auto then pos 0 else pos 1) ≡ not auto
flag_of true = refl
flag_of false = refl

prioritised :
    (p : ℕ) (es : List Event) (c : Settings)
    → 1 ≤ p
    → p ≤ 255
    → changed_by (prioritise (word_of (pos p)) ∷ es) c ≡ changed_by es (record c { priority = p })
unfolding changed_by
prioritised p es c least most =
    let same : word_of (pos p) ≡ p = omega arith in
    let test : (p == 0) ≡ false = ground arith in ap (changed_by es) (rw (same, test) refl)

timed :
    (n : ℕ) (es : List Event) (c : Settings)
    → 1 ≤ n
    → n ≤ 4095
    → changed_by (advertise_every (word_of (tenth (pos (n * 10)))) ∷ es) c
      ≡ changed_by es (record c { interval = n })
unfolding changed_by
timed n es c least most =
    let same : word_of (tenth (pos (n * 10))) ≡ n = omega arith in
    let test : (ltb n 1 || ltb 4095 n) ≡ false = ground arith in
    ap (changed_by es) (rw (same, test) refl)

accepting :
    (b on : Bool) (c : Settings)
    → c.accepting ≡ b
    → (b ≡ true → on ≡ true)
    → (if b then c else record c { accepting = on }) ≡ record c { accepting = on }
accepting true on c e h = ap (λ (a : Bool). record c { accepting = a }) (e ∙ sym (h refl))
accepting false on c e h = refl

accepted :
    (on : Bool) (es : List Event) (c : Settings)
    → c.accepting ≡ (number c.family == number inet6 || not (c.vlan_id == 0))
    → ((number c.family == number inet6 || not (c.vlan_id == 0)) ≡ true → on ≡ true)
    → changed_by (accept on ∷ es) c ≡ changed_by es (record c { accepting = on })
unfolding changed_by
accepted on es c e h = ap (changed_by es) (accepting _ on c e h)

preempted :
    (on : Bool) (es : List Event) (c : Settings)
    → changed_by (preempt on ∷ es) c ≡ changed_by es (record c { preempting = on })
unfolding changed_by
preempted on es c = refl

commanded :
    (m b : List ℕ) (es : List Event) (c : Settings)
    → changed_by (on_master m ∷ (on_backup b ∷ es)) c
      ≡ changed_by es (record c { master_command = m; backup_command = b })
unfolding changed_by
commanded m b es c = refl

module _ (host : Host) (s : Service) (h : IsRestorable s) where
  abbrev fresh : Settings
  fresh = new_settings host s.interface s.family s.virtual_router_id s.vlan_id

  pub settings-restore :
      (name : List ℕ) (up : Bool)
      → IsIncreasing s.subnets
      → changed_by (settings up (router_of name s)) fresh ≡ restored host s
  unfolding settings
  settings-restore name up sorted =
      let r = router_of name s in
      let ending : List Event = (if r.enable then enabling up else disabling) ∷ [] in
      let commands : List Event =
        on_master r.master_command ∷ (on_backup r.backup_command ∷ (map add r.subnets ++ ending)) in
      let named : List Event = primary_of (has_primary r.flags) r ++ commands in
      let c1 : Settings = record fresh { priority = s.priority } in
      let c2 : Settings = record c1 { interval = s.advertisement_interval } in
      let c3 : Settings = record c2 { accepting = s.accept_mode } in
      let c4 : Settings = record c3 { preempting = s.preempt_mode } in
      let c5 : Settings = record c4 {
        primary_address = (restored host s).primary_address;
        automatic = s.auto_primary_ip_address;
      } in
      let flag = flag_of s.auto_primary_ip_address in
      prioritised s.priority
        (advertise_every (word_of (tenth r.interval))
          ∷ (accept s.accept_mode ∷ (preempt s.preempt_mode ∷ named)))
        fresh h.priority_least h.priority_most
      ∙ timed s.advertisement_interval (accept s.accept_mode ∷ (preempt s.preempt_mode ∷ named)) c1
          h.interval_least h.interval_most
      ∙ accepted s.accept_mode (preempt s.preempt_mode ∷ named) c2 refl h.accepts
      ∙ preempted s.preempt_mode named c3
      ∙ ap (λ (b : Bool). changed_by (primary_of b r ++ commands) c4) flag
      ∙ set_primary s.auto_primary_ip_address r s.primary_ip_address host.primary_ip_address
          commands c4 (ap (λ (b : Bool). if b then s.primary_ip_address else no_address) flag) refl
          refl h.primary_of_family
      ∙ commanded s.master_command s.backup_command (map add s.subnets ++ ending) c5
      ∙ added s.subnets ending
          (record c5 { master_command = s.master_command; backup_command = s.backup_command })
          h.of_family sorted (empty-IsBeyond s.subnets)
      ∙ ended r.enable up (restored host s)
