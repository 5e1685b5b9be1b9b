-- ===== src/Configurator/Reloaded.antt =====
-- A router that is loaded from what was written of a service.
use open_vrrp.Prelude.{
  ℕ, ◌≤◌, ◌==◌, ◌||◌, ◌&&◌, if◌then◌else◌, Bool, true, false, List, Option, none, some, ◌≡◌, ◌⊎◌,
  refl, ap, ◌∙◌, arith, pos, inl, inr, word_of,
}
use open_vrrp.Address.{Family, unspec, inet, inet6, number}
use open_vrrp.Service.{Service}
use open_vrrp.Service.Lifecycle.{construct}
use open_vrrp.Service.Run.{run}
use open_vrrp.Service.Run.Settings.{Settings, settings_of, changed_by, run-settings}
use open_vrrp.Manager.{VrrpServiceMap, find_service, set_service, get_service}
use open_vrrp.Manager.Laws.{find_service-set}
use open_vrrp.Configurator.{family_of}
use open_vrrp.Configurator.RoundTrip.{IsSavable, router_of}
use open_vrrp.Configurator.Load.{Machine, is_interface, is_sane, settings, load_router}
use open_vrrp.Configurator.Restore.{IsRestorable, restored, construct-settings, settings-restore}
use open_vrrp.Configurator.Enabled.{construct-state, settings-enabled}
use open_vrrp.Service.Transitions.{enabled}

abbrev pub built : Machine → Service → Service
built machine s =
    (construct (machine.host s.interface) s.interface s.family s.virtual_router_id
      s.vlan_id).service

-- A machine on which a service can be set up again under the name of its interface.
pub record IsLoadable (machine : Machine) (name : List ℕ) (s : Service) : Type 0 where
  pub savable : IsSavable name s
  pub restorable : IsRestorable s
  pub named : machine.if_nametoindex name ≡ s.interface
  pub positive : is_interface s.interface ≡ true
  pub builds : (built machine s).error ≡ 0
  pub vrid_least : 1 ≤ s.virtual_router_id
  pub vrid_most : s.virtual_router_id ≤ 255
  pub supported : (s.family ≡ inet) ⊎ (s.family ≡ inet6)

family_of-number : (f : Family) → family_of (pos (number f)) ≡ f
family_of-number inet = refl
family_of-number inet6 = refl
family_of-number unspec = refl

is_supported : (f : Family) → (f ≡ inet) ⊎ (f ≡ inet6) → (number f == 2 || number f == 10) ≡ true
is_supported f (inl e) = rw e refl
is_supported f (inr e) = rw e refl

abbrev pub reloaded : Machine → List ℕ → Service → Service
reloaded machine name s =
    (run (settings (machine.is_interface_up s.interface) (router_of name s))
      (built machine s)).service

abbrev pub is_at : ℕ → ℕ → ℕ → Service → Bool
is_at i v f s = (i == s.interface && v == s.virtual_router_id) && f == number s.family

if_twice :
    {A : Type 0} (b : Bool) (x y z : A)
    → (if b then x else if b then y else z) ≡ (if b then x else z)
if_twice true x y z = refl
if_twice false x y z = refl

module _ (machine : Machine) (name : List ℕ) (s : Service) (h : IsLoadable machine name s) where
  router_of-is_sane : is_sane (router_of name s) ≡ true
  unfolding is_sane
  router_of-is_sane =
      let f = is_supported s.family h.supported in
      ground (
        arith, h.vrid_least, h.vrid_most, h.restorable.priority_least, h.restorable.priority_most,
        h.restorable.interval_least, h.restorable.interval_most,
      )

  pub reloaded-settings :
      settings_of (reloaded machine name s) ≡ restored (machine.host s.interface) s
  reloaded-settings =
      let up = machine.is_interface_up s.interface in
      run-settings (settings up (router_of name s)) (built machine s)
      ∙ ap (changed_by (settings up (router_of name s))) (
          construct-settings (machine.host s.interface) s.interface s.family s.virtual_router_id
            s.vlan_id)
      ∙ settings-restore (machine.host s.interface) s h.restorable name up
          h.savable.subnets_increasing

  pub reloaded-enabled : enabled (reloaded machine name s) ≡ enabled s
  reloaded-enabled =
      settings-enabled (machine.is_interface_up s.interface) (router_of name s) (built machine s) (
        construct-state (machine.host s.interface) s.interface s.family s.virtual_router_id
          s.vlan_id)

  created :
      (m : VrrpServiceMap)
      → find_service s.interface s.virtual_router_id (number s.family) m ≡ none
      → get_service
          (machine.host s.interface)
          s.interface
          s.virtual_router_id
          s.vlan_id
          s.family
          true
          m
        ≡ record {
          service = some (built machine s);
          services =
              set_service s.interface s.virtual_router_id (number s.family) (built machine s) m;
          calls =
              (construct
                (machine.host s.interface)
                s.interface
                s.family
                s.virtual_router_id
                s.vlan_id).calls;
        }
  unfolding get_service
  created m e =
      let good : ((built machine s).error == 0) ≡ true = rw h.builds refl in
      rw (e, get_service, good) refl

  loaded :
      (m : VrrpServiceMap)
      → find_service s.interface s.virtual_router_id (number s.family) m ≡ none
      → (load_router machine (router_of name s) m).0
        ≡ set_service s.interface s.virtual_router_id
            (number s.family)
            (reloaded machine name s)
            (set_service s.interface s.virtual_router_id (number s.family) (built machine s) m)
  unfolding load_router
  loaded m e =
      let vrid : word_of (pos s.virtual_router_id) ≡ s.virtual_router_id =
        omega (arith, h.vrid_most) in
      let same =
        construct-settings (machine.host s.interface) s.interface s.family s.virtual_router_id
          s.vlan_id in
      let i : (built machine s).interface ≡ s.interface = ap (λ (c : Settings). c.interface) same in
      let v : (built machine s).virtual_router_id ≡ s.virtual_router_id =
        ap (λ (c : Settings). c.virtual_router_id) same in
      let f : (built machine s).family ≡ s.family = ap (λ (c : Settings). c.family) same in
      rw (h.named, router_of-is_sane, h.positive, vrid, family_of-number s.family, created m e)
        (rw (i, v, f) refl)

  pub load_router-find :
      (i v f : ℕ) (m : VrrpServiceMap)
      → find_service s.interface s.virtual_router_id (number s.family) m ≡ none
      → find_service i v f (load_router machine (router_of name s) m).0
        ≡ (if is_at i v f s then some (reloaded machine name s) else find_service i v f m)
  load_router-find i v f m e =
      let r = reloaded machine name s in
      let first =
        set_service s.interface s.virtual_router_id (number s.family) (built machine s) m in
      ap (find_service i v f) (loaded m e)
      ∙ find_service-set i v f s.interface s.virtual_router_id (number s.family) r first
      ∙ ap (λ (o : Option Service). if is_at i v f s then some r else o)
          (find_service-set i v f s.interface s.virtual_router_id (number s.family)
            (built machine s) m)
      ∙ if_twice (is_at i v f s) (some r) (some (built machine s)) (find_service i v f m)
