-- ===== src/Telnet.antt =====
-- src/telnetsession.h and src/telnetsession.cpp: the commands of a telnet session. This file has
-- what a command can read and change, and the monad in which the handlers are written.
pub mod Receive
pub mod Server
pub mod Words
pub mod Lookup
pub mod Edit
pub mod Settings
pub mod Show
pub mod Commands
pub mod Daemon
pub mod Alive
pub mod Answers
pub mod Sessions
use open_vrrp.Prelude.{ℕ, Bool, true, false, List, [], ◌∷◌, ◌++◌, Option, none, some, get_elem?}
use open_vrrp.Address.{Family, number}
use open_vrrp.Address.Parse.{Pton}
use open_vrrp.Service.{Service, Call}
use open_vrrp.Service.Lifecycle.{Host}
use open_vrrp.Service.Run.{Event, step}
use open_vrrp.Socket.Receive.{Counters}
use open_vrrp.Manager.{VrrpServiceMap, set_service}

-- The texts `RESP_...`, and what the commands `show` and `save` write.
pub data Response : Type 0 where
  invalid_command no_such_interface invalid_router_id error_creating_router no_such_router
        invalid_ip invalid_priority invalid_interval :
      Response
  add_usage add_router_usage add_address_usage remove_usage remove_router_usage remove_address_usage
        set_usage set_primary_usage set_priority_usage set_interval_usage set_accept_usage
        set_preempt_usage set_master_command_usage set_backup_command_usage enable_usage
        disable_usage show_usage help :
      Response
  router router_stats : Service → Response
  stats : Counters → Response
  save_succeeded save_failed : Response

-- What the system and the other parts answer.
pub record Environment : Type 0 where
  -- 0 if there is no such interface, and otherwise a positive int.
  pub if_nametoindex : List ℕ → ℕ
  pub inet_pton : Pton
  -- Netlink::isInterfaceUp
  pub is_interface_up : ℕ → Bool
  -- The answers to the constructor of a service on an interface.
  pub host : ℕ → Host
  pub has_socket : Bool
  -- Configurator::writeConfiguration
  pub is_written : Option (List ℕ) → Bool
  pub counters : Counters

pub record Session : Type 0 where
  pub services : VrrpServiceMap
  -- What was written to the client, and the calls of the services, in their order.
  pub responses : List Response
  pub calls : List Call

-- `none` is a read past the end of `argv`.
abbrev pub T : Type 0 → Type 0
T A = Session → Option (A × Session)

abbrev pub continue : {A B : Type 0} → Option (A × Session) → (A → T B) → Option (B × Session)
continue none f = none
continue (some (a, s)) f = f a s

infixl 5 ◌>>=◌ ◌>>◌
abbrev pub ◌>>=◌ : {A B : Type 0} → T A → (A → T B) → T B
m >>= f = λ s. continue (m s) f

abbrev pub ◌>>◌ : {B : Type 0} → T (Unit {0}) → T B → T B
m >> k = m >>= λ _. k

abbrev pub pure : {A : Type 0} → A → T A
pure a s = some (a, s)

abbrev pub skip : T (Unit {0})
skip = pure tt

abbrev pub respond : Response → T (Unit {0})
respond r s = some (tt, record s { responses = s.responses ++ r ∷ [] })

-- `argv[i]`
abbrev pub lift : {A : Type 0} → Option A → T A
lift none s = none
lift (some a) s = some (a, s)

abbrev pub word : List (List ℕ) → ℕ → T (List ℕ)
word argv i = lift (get_elem? argv i)

abbrev pub get_services : T VrrpServiceMap
get_services s = some (s.services, s)

abbrev pub put_services : VrrpServiceMap → List Call → T (Unit {0})
put_services services calls s =
    some (tt, record s { services = services; calls = s.calls ++ calls })

-- A call of a method of a service of the map, by its pointer.
unfoldable pub invoke : Event → Service → T (Unit {0})
invoke e service = do
  services ← get_services
  put_services
      (set_service service.interface service.virtual_router_id (number service.family)
        (step e service).service services)
      (step e service).calls
