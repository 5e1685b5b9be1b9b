-- ===== src/Manager/Sound.antt =====
-- The services of the map in order, and what keeps them so.
use Prim.{tt}
use open_vrrp.Prelude.{
  List, All, ℕ, ◌==◌, ◌&&◌, if◌then◌else◌, Bool, true, false, [], Option, none, some, ◌≡◌, ◌∙◌, sym,
  Bool-cases, inl, inr, Option-cases, subst,
}
use open_vrrp.Address.{Family, number}
use open_vrrp.Containers.{map_find}
use open_vrrp.Containers.Nested.{nested_find}
use open_vrrp.Service.{Service}
use open_vrrp.Service.Transitions.Timers.{TimersMatch}
use open_vrrp.Service.Lifecycle.{Host, construct}
use open_vrrp.Service.Run.{Event, step, run}
use open_vrrp.Service.Run.Timers.{step-TimersMatch, run-TimersMatch, construct-TimersMatch}
use open_vrrp.Service.Run.Liveness.{
  IsAlive, IsFeasible, step-IsAlive, run-IsAlive, construct-IsAlive,
}
use open_vrrp.Manager.{
  VrrpServiceMap, Managed, find_service, set_service, create_service, get_service, remove_service,
}
use open_vrrp.Manager.Laws.{find_service-set, find_service-remove}

-- A service in order: its numbers are in range, a master's timer will expire, and the timers match
-- the state.
pub record IsSound (s : Service) : Type 0 where
  pub alive : IsAlive s
  pub timed : TimersMatch s

-- Every service that a lookup finds is in order.
abbrev pub AreSound : VrrpServiceMap → Type 0
AreSound m = (i v f : ℕ) (s : Service) → find_service i v f m ≡ some s → IsSound s

pub step-IsSound : (e : Event) (s : Service) → IsFeasible e → IsSound s → IsSound (step e s).service
step-IsSound e s f h = record {
  alive = step-IsAlive e s f h.alive;
  timed = step-TimersMatch e s h.timed;
}

pub run-IsSound :
    (es : List Event) (s : Service) → All IsFeasible es → IsSound s → IsSound (run es s).service
run-IsSound es s f h = record {
  alive = run-IsAlive es s f h.alive;
  timed = run-TimersMatch es s h.timed;
}

pub construct-IsSound :
    (host : Host) (interface : ℕ) (family : Family) (vrid vlan : ℕ)
    → IsSound (construct host interface family vrid vlan).service
construct-IsSound host interface family vrid vlan = record {
  alive = construct-IsAlive host interface family vrid vlan;
  timed = construct-TimersMatch host interface family vrid vlan;
}

if-IsSound :
    (b : Bool) (o : Option Service) {s t : Service}
    → IsSound t
    → (o ≡ some s → IsSound s)
    → (if b then some t else o) ≡ some s
    → IsSound s
if-IsSound true o h k e = subst IsSound (cc) h
if-IsSound false o h k e = k e

pub AreSound-set :
    (i v f : ℕ) (t : Service) (m : VrrpServiceMap)
    → IsSound t
    → AreSound m
    → AreSound (set_service i v f t m)
AreSound-set i v f t m h all j w g s e =
    if-IsSound ((j == i && w == v) && g == f) (find_service j w g m) h (all j w g s)
      (sym (find_service-set j w g i v f t m) ∙ e)

if_none-IsSound :
    (b : Bool) (o : Option Service) {s : Service}
    → (o ≡ some s → IsSound s)
    → (if b then none else o) ≡ some s
    → IsSound s
if_none-IsSound true o k e = cc
if_none-IsSound false o k e = k e

pub AreSound-remove :
    (has_socket : Bool) (t : Service) (m : VrrpServiceMap)
    → AreSound m
    → AreSound (remove_service has_socket t m).0
AreSound-remove has_socket t m all j w g s e =
    if_none-IsSound ((j == t.interface && w == t.virtual_router_id) && g == number t.family)
      (find_service j w g m) (all j w g s) (sym (find_service-remove j w g has_socket t m) ∙ e)

abbrev pub IfSome {ℓ} : {A : Type 0} → (A → Type ℓ) → Option A → Type ℓ
IfSome P none = Unit
IfSome P (some a) = P a

create_service-AreSound :
    (host : Host) (interface vrid vlan : ℕ) (family : Family) (m : VrrpServiceMap)
    → AreSound m
    → let r = create_service host interface vrid vlan family m in
      AreSound r.services × IfSome IsSound r.service
create_service-AreSound host interface vrid vlan family m all =
    let t : Service = (construct host interface family vrid vlan).service in
    let sound : IsSound t = construct-IsSound host interface family vrid vlan in
    elim (Bool-cases (t.error == 0)) [
      | inl e ↦ rw e (AreSound-set interface vrid (number family) t m sound all, sound)
      | inr e ↦ rw e (all, tt)
    ]

made :
    (host : Host) (interface vrid vlan : ℕ) (family : Family) (create : Bool) (m : VrrpServiceMap)
    → AreSound m
    → let none_made : Managed = record { service = none; services = m; calls = [] } in
      let r = if create then create_service host interface vrid vlan family m else none_made in
      AreSound r.services × IfSome IsSound r.service
made host interface vrid vlan family true m all =
    create_service-AreSound host interface vrid vlan family m all
made host interface vrid vlan family false m all = (all, tt)

-- What a lookup or the creation of a service leaves behind.
pub get_service-AreSound :
    (host : Host) (interface vrid vlan : ℕ) (family : Family) (create : Bool) (m : VrrpServiceMap)
    → AreSound m
    → let r = get_service host interface vrid vlan family create m in
      AreSound r.services × IfSome IsSound r.service
unfolding get_service
get_service-AreSound host interface vrid vlan family create m all =
    elim (Option-cases (find_service interface vrid (number family) m)) [
      | inr (s, e) ↦ rw (e, get_service) (all, all interface vrid (number family) s e)
      | inl e ↦ rw (e, get_service) (made host interface vrid vlan family create m all)
    ]

pub empty-AreSound : AreSound []
unfolding find_service nested_find map_find
empty-AreSound i v f s found = cc
