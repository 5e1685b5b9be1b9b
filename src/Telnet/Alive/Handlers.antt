-- ===== src/Telnet/Alive/Handlers.antt =====
-- Each handler keeps every service in order.
use Prim.{tt}
use open_vrrp.Prelude.{
  ℕ, ◌==◌, leb, ◌&&◌, if◌then◌else◌, Bool, true, false, List, Option, none, some, length, word_of,
}
use open_vrrp.Address.{Family, inet, inet6, IpSubnet}
use open_vrrp.Service.{Service}
use open_vrrp.Service.Run.{Event, add, remove}
use open_vrrp.Service.Run.Liveness.{IsFeasible}
use open_vrrp.Text.{codes, atoi}
use open_vrrp.Manager.{VrrpServiceMap, Managed, get_service, remove_service}
use open_vrrp.Telnet.{
  Response, add_usage, remove_usage, add_address_usage, remove_address_usage, no_such_interface,
  invalid_router_id, error_creating_router, no_such_router, Environment, T, respond, word,
  get_services, put_services,
}
use open_vrrp.Telnet.Lookup.{
  has_word, is_bad_id, lookup_service, with_service, managed, vlan_and_family, found_or_not,
  use_if_any,
}
use open_vrrp.Telnet.Edit.{
  create_router, edit_address, delete_router, sub_command, is_ipv6, on_add_command,
  on_remove_command, on_add_router_command, on_add_address_command, on_remove_router_command,
  on_remove_address_command,
}
use open_vrrp.Manager.Sound.{IsSound, AreSound, AreSound-remove, get_service-AreSound, IfSome}
use open_vrrp.Telnet.Alive.Rules.{
  Ensures, Ensures-bind, Ensures-pure, Ensures-if, IsOrderly, respond-IsOrderly, word-IsOrderly,
  invoke-IsOrderly, put_services-IsOrderly, get_services-Ensures, skip-IsOrderly,
}

found_or_not-Ensures :
    (create : Bool) (o : Option Service)
    → IfSome IsSound o
    → Ensures (IfSome IsSound) (found_or_not create o)
found_or_not-Ensures create (some service) h = Ensures-pure (some service) h
found_or_not-Ensures create none h =
    Ensures-bind (respond (if create then error_creating_router else no_such_router)) _
      (respond-IsOrderly _) λ _ _. Ensures-pure none tt

managed-Ensures :
    (create : Bool) (m : Managed)
    → AreSound m.services × IfSome IsSound m.service
    → Ensures (IfSome IsSound) (managed create m)
managed-Ensures create m h =
    Ensures-bind (put_services m.services m.calls) _ (put_services-IsOrderly m.services m.calls h.0)
      λ _ _. found_or_not-Ensures create m.service h.1

vlan_and_family-IsOrderly :
    (argv : List (List ℕ)) (create : Bool) → IsOrderly (vlan_and_family argv create)
vlan_and_family-IsOrderly argv create =
    Ensures-if (create && leb 6 (length argv) && has_word argv 4 (codes "vlan")) _ _
      (Ensures-bind (word argv 5) _ (word-IsOrderly argv 5) λ vlan _. Ensures-pure _ tt)
      (Ensures-pure _ tt)

pub lookup_service-Ensures :
    (env : Environment) (argv : List (List ℕ)) (create : Bool)
    → Ensures (IfSome IsSound) (lookup_service env argv create)
unfolding lookup_service
lookup_service-Ensures env argv create =
    Ensures-bind (word argv 2) _ (word-IsOrderly argv 2) λ name _.
      Ensures-if (env.if_nametoindex name == 0) _ _
        (Ensures-bind (respond no_such_interface) _ (respond-IsOrderly no_such_interface)
          λ _ _. Ensures-pure none tt)
        (Ensures-bind (word argv 3) _ (word-IsOrderly argv 3) λ id _.
          Ensures-if (is_bad_id (atoi id)) _ _
            (Ensures-bind (respond invalid_router_id) _ (respond-IsOrderly invalid_router_id)
              λ _ _. Ensures-pure none tt)
            (Ensures-bind (vlan_and_family argv create) _ (vlan_and_family-IsOrderly argv create)
              λ where_to _.
                let get = λ (m : VrrpServiceMap).
                  get_service (env.host (env.if_nametoindex name)) (env.if_nametoindex name)
                    (word_of (atoi id)) where_to.0 where_to.1 create m in
                Ensures-bind get_services (λ m. managed create (get m)) get_services-Ensures
                  λ services all. managed-Ensures create (get services) (
                    get_service-AreSound (env.host (env.if_nametoindex name))
                      (env.if_nametoindex name) (word_of (atoi id)) where_to.0 where_to.1 create
                      services all)))

pub use_if_any-IsOrderly :
    (f : Service → T (Unit {0})) (o : Option Service)
    → ((s : Service) → IsSound s → IsOrderly (f s))
    → IfSome IsSound o
    → IsOrderly (use_if_any f o)
use_if_any-IsOrderly f none k h = skip-IsOrderly
use_if_any-IsOrderly f (some s) k h = k s h

pub with_service-IsOrderly :
    (env : Environment) (argv : List (List ℕ)) (f : Service → T (Unit {0}))
    → ((s : Service) → IsSound s → IsOrderly (f s))
    → IsOrderly (with_service env argv f)
with_service-IsOrderly env argv f k =
    Ensures-bind (lookup_service env argv false) _ (lookup_service-Ensures env argv false)
      λ found sound. use_if_any-IsOrderly f found k sound

create_router-IsOrderly :
    (env : Environment) (argv : List (List ℕ)) → IsOrderly (create_router env argv)
create_router-IsOrderly env argv =
    Ensures-bind (lookup_service env argv true) _ (lookup_service-Ensures env argv true)
      λ _ _. skip-IsOrderly

on_add_router_command-IsOrderly :
    (env : Environment) (argv : List (List ℕ)) → IsOrderly (on_add_router_command env argv)
unfolding on_add_router_command
on_add_router_command-IsOrderly env argv =
    search (Ensures-if, create_router-IsOrderly, respond-IsOrderly)

edit_address-IsOrderly :
    (env : Environment) (argv : List (List ℕ)) (usage : Response) (event : IpSubnet → Event) (i : ℕ)
    (family : Family) (size : ℕ)
    → ((x : IpSubnet) → IsFeasible (event x))
    → IsOrderly (edit_address env argv usage event i family size)
edit_address-IsOrderly env argv usage event i family size h =
    Ensures-if _ _ _
      (Ensures-bind (word argv i) _ (word-IsOrderly argv i) λ text _.
        Ensures-if _ _ _ (respond-IsOrderly usage)
          (with_service-IsOrderly env argv _ λ s sound. invoke-IsOrderly _ s (h _) sound))
      (respond-IsOrderly usage)

delete_router-IsOrderly : (env : Environment) (s : Service) → IsOrderly (delete_router env s)
delete_router-IsOrderly env s =
    let removed = λ (m : VrrpServiceMap). remove_service env.has_socket s m in
    Ensures-bind get_services (λ m. put_services (removed m).0 (removed m).1) get_services-Ensures
      λ services all.
        put_services-IsOrderly (removed services).0 (removed services).1
          (AreSound-remove env.has_socket s services all)

on_remove_router_command-IsOrderly :
    (env : Environment) (argv : List (List ℕ)) → IsOrderly (on_remove_router_command env argv)
unfolding on_remove_router_command
on_remove_router_command-IsOrderly env argv =
    let removed =
      with_service-IsOrderly env argv (delete_router env) (λ s _. delete_router-IsOrderly env s) in
    Ensures-if _ _ _ (Ensures-if _ _ _ removed (respond-IsOrderly _))
      (Ensures-if _ _ _ removed (respond-IsOrderly _))

sub_command-IsOrderly :
    (argv : List (List ℕ)) (usage : Response) (m k : T (Unit {0}))
    → IsOrderly m
    → IsOrderly k
    → IsOrderly (sub_command argv usage m k)
sub_command-IsOrderly argv usage m k hm hk =
    Ensures-if _ _ _ (respond-IsOrderly usage)
      (Ensures-if _ _ _ hm (Ensures-if _ _ _ hk (respond-IsOrderly usage)))

on_add_address_command-IsOrderly :
    (env : Environment) (argv : List (List ℕ)) → IsOrderly (on_add_address_command env argv)
unfolding on_add_address_command
on_add_address_command-IsOrderly env argv =
    Ensures-if (is_ipv6 argv) _ _
      (edit_address-IsOrderly env argv add_address_usage add 5 inet6 6 (λ x. tt))
      (edit_address-IsOrderly env argv add_address_usage add 4 inet 5 (λ x. tt))

on_remove_address_command-IsOrderly :
    (env : Environment) (argv : List (List ℕ)) → IsOrderly (on_remove_address_command env argv)
unfolding on_remove_address_command
on_remove_address_command-IsOrderly env argv =
    Ensures-if (is_ipv6 argv) _ _
      (edit_address-IsOrderly env argv remove_address_usage remove 5 inet6 6 (λ x. tt))
      (edit_address-IsOrderly env argv remove_address_usage remove 4 inet 5 (λ x. tt))

pub on_add_command-IsOrderly :
    (env : Environment) (argv : List (List ℕ)) → IsOrderly (on_add_command env argv)
unfolding on_add_command
on_add_command-IsOrderly env argv =
    sub_command-IsOrderly argv add_usage _ _ (on_add_router_command-IsOrderly env argv)
      (on_add_address_command-IsOrderly env argv)

pub on_remove_command-IsOrderly :
    (env : Environment) (argv : List (List ℕ)) → IsOrderly (on_remove_command env argv)
unfolding on_remove_command
on_remove_command-IsOrderly env argv =
    sub_command-IsOrderly argv remove_usage _ _ (on_remove_router_command-IsOrderly env argv)
      (on_remove_address_command-IsOrderly env argv)
