-- ===== src/Telnet/Alive/Rules.antt =====
-- Computations that keep every service of the map in order, and how they compose.
use Prim.{tt}
use open_vrrp.Prelude.{ℕ, if◌then◌else◌, Bool, true, false, List, Option, none, some, get_elem?}
use open_vrrp.Address.{number}
use open_vrrp.Service.{Service, Call}
use open_vrrp.Service.Run.{Event, step}
use open_vrrp.Service.Run.Liveness.{IsFeasible}
use open_vrrp.Manager.{VrrpServiceMap}
use open_vrrp.Manager.Sound.{IsSound, AreSound, step-IsSound, AreSound-set}
use open_vrrp.Telnet.{
  Response, Session, T, ◌>>=◌, continue, pure, skip, respond, lift, word, get_services,
  put_services, invoke,
}

-- The computation ends in an ordered map and a value with the property, unless it reads past `argv`.
abbrev pub After {ℓ} : {A : Type 0} → (A → Type ℓ) → Option (A × Session) → Type ℓ
After Q none = Unit
After Q (some (a, s)) = AreSound s.services × Q a

pub record Ensures {ℓ} {A : Type 0} (Q : A → Type ℓ) (m : T A) : Type ℓ where
  pub run : (s : Session) → AreSound s.services → After Q (m s)

continue_after {ℓ κ} :
    {A B : Type 0} (Q : A → Type ℓ) (R : B → Type κ) (o : Option (A × Session)) (f : A → T B)
    → After Q o
    → ((a : A) → Q a → Ensures R (f a))
    → After R (continue o f)
continue_after Q R none f h k = tt
continue_after Q R (some (a, s)) f (all, q) k = (k a q).run s all

module _ {A : Type 0} where
  pub Ensures-bind {ℓ κ} :
      {B : Type 0} {Q : A → Type ℓ} {R : B → Type κ} (m : T A) (f : A → T B)
      → Ensures Q m
      → ((a : A) → Q a → Ensures R (f a))
      → Ensures R (m >>= f)
  Ensures-bind {Q} {R} m f h k = record {
    run = λ s all. continue_after Q R (m s) f (h.run s all) k;
  }

  pub Ensures-pure {ℓ} : {Q : A → Type ℓ} (a : A) → Q a → Ensures Q (pure a)
  Ensures-pure a q = record { run = λ s all. (all, q) }

  pub Ensures-if {ℓ} :
      {Q : A → Type ℓ} (b : Bool) (m k : T A)
      → Ensures Q m
      → Ensures Q k
      → Ensures Q (if b then m else k)
  Ensures-if true m k hm hk = hm
  Ensures-if false m k hm hk = hk

-- A computation that keeps every service in order.
abbrev pub IsOrderly : {A : Type 0} → T A → Type 0
IsOrderly m = Ensures (λ a. Unit {0}) m

pub respond-IsOrderly : (r : Response) → IsOrderly (respond r)
respond-IsOrderly r = record { run = λ s all. (all, tt) }

found :
    {A : Type 0} (o : Option A) (s : Session)
    → AreSound s.services
    → After (λ a. Unit {0}) (lift o s)
found none s all = tt
found (some a) s all = (all, tt)

pub word-IsOrderly : (argv : List (List ℕ)) (i : ℕ) → IsOrderly (word argv i)
word-IsOrderly argv i = record { run = λ s all. found (get_elem? argv i) s all }

pub invoke-IsOrderly : (e : Event) (t : Service) → IsFeasible e → IsSound t → IsOrderly (invoke e t)
unfolding invoke
invoke-IsOrderly e t f h = record {
  run = λ s all. (
    AreSound-set t.interface t.virtual_router_id (number t.family) (step e t).service s.services
        (step-IsSound e t f h) all,
    tt,
  );
}

pub put_services-IsOrderly :
    (m : VrrpServiceMap) (calls : List Call) → AreSound m → IsOrderly (put_services m calls)
put_services-IsOrderly m calls h = record { run = λ s all. (h, tt) }

pub get_services-Ensures : Ensures AreSound get_services
get_services-Ensures = record { run = λ s all. (all, all) }

pub skip-IsOrderly : IsOrderly skip
skip-IsOrderly = Ensures-pure tt tt
