-- ===== src/Telnet/Answers/Handlers.antt =====
-- The handlers that stay within their arguments.
use open_vrrp.Prelude.{
  ℕ, ◌==◌, ◌≤◌, ◌<◌, ltb, leb, ◌&&◌, not, Bool, true, false, List, Option, none, some, ◌≡◌, arith,
  length, get_elem?,
}
use open_vrrp.Address.{Family, inet, inet6, number, IpSubnet}
use open_vrrp.Address.Parse.{parse_subnet}
use open_vrrp.Service.{Service}
use open_vrrp.Service.Run.{Event, add, remove, disabling}
use open_vrrp.Text.{codes, atoi}
use open_vrrp.Manager.{Managed}
use open_vrrp.Telnet.{Response, Environment, T, respond, get_services, put_services, invoke}
use open_vrrp.Telnet.Lookup.{
  has_word, is_bad_id, lookup_service, with_service, managed, vlan_and_family, found_or_not,
  use_if_any,
}
use open_vrrp.Telnet.Edit.{
  create_router, edit_address, delete_router, sub_command, is_ipv6, on_add_command,
  on_remove_command, on_add_router_command, on_add_address_command, on_remove_router_command,
  on_remove_address_command,
}
use open_vrrp.Telnet.Settings.{on_enable_command, on_disable_command}
use open_vrrp.Telnet.Answers.Rules.{
  Answers, Answers-bind, Answers-pure, Answers-if, Answers-word, respond-Answers,
  get_services-Answers, put_services-Answers, invoke-Answers,
}

found_or_not-Answers : (create : Bool) (o : Option Service) → Answers (found_or_not create o)
found_or_not-Answers create (some service) = Answers-pure (some service)
found_or_not-Answers create none =
    Answers-bind (respond _) _ (respond-Answers _) λ _. Answers-pure none

managed-Answers : (create : Bool) (m : Managed) → Answers (managed create m)
managed-Answers create m =
    Answers-bind (put_services m.services m.calls) _ (put_services-Answers m.services m.calls)
      λ _. found_or_not-Answers create m.service

vlan_and_family-Answers :
    (argv : List (List ℕ)) (create : Bool) → Answers (vlan_and_family argv create)
vlan_and_family-Answers argv create =
    Answers-if (create && leb 6 (length argv) && has_word argv 4 (codes "vlan")) _ _
      (λ e. Answers-word argv 5 _ (ground arith) λ vlan _. Answers-pure _) λ _. Answers-pure _

-- The arguments that a lookup reads: the third one only behind the name of an interface.
abbrev pub HasNames : Environment → List (List ℕ) → Type 0
HasNames env argv =
    (2 < length argv)
    × ((name : List ℕ)
        → get_elem? argv 2 ≡ some name
        → (env.if_nametoindex name == 0) ≡ false
        → 3 < length argv)

pub lookup_service-Answers :
    (env : Environment) (argv : List (List ℕ)) (create : Bool)
    → HasNames env argv
    → Answers (lookup_service env argv create)
unfolding lookup_service
lookup_service-Answers env argv create h = Answers-word argv 2 _ h.0 λ name e.
    Answers-if (env.if_nametoindex name == 0) _ _
      (λ _. Answers-bind (respond _) _ (respond-Answers _) λ _. Answers-pure none)
      λ known. Answers-word argv 3 _ (h.1 name e known) λ id _.
        Answers-if (is_bad_id (atoi id)) _ _
          (λ _. Answers-bind (respond _) _ (respond-Answers _) λ _. Answers-pure none)
          λ _.
            Answers-bind (vlan_and_family argv create) _ (vlan_and_family-Answers argv create)
              λ where_to.
                Answers-bind get_services _ get_services-Answers
                  λ services. managed-Answers create _

use_if_any-Answers :
    (f : Service → T (Unit {0})) (o : Option Service)
    → ((s : Service) → Answers (f s))
    → Answers (use_if_any f o)
use_if_any-Answers f none k = Answers-pure tt
use_if_any-Answers f (some s) k = k s

pub with_service-Answers :
    (env : Environment) (argv : List (List ℕ)) (f : Service → T (Unit {0}))
    → HasNames env argv
    → ((s : Service) → Answers (f s))
    → Answers (with_service env argv f)
with_service-Answers env argv f h k =
    Answers-bind (lookup_service env argv false) _ (lookup_service-Answers env argv false h)
      λ found. use_if_any-Answers f found k

pub has_names : (env : Environment) (argv : List (List ℕ)) → 4 ≤ length argv → HasNames env argv
has_names env argv h = (omega arith, λ _ _ _. h)

create_router-Answers :
    (env : Environment) (argv : List (List ℕ)) → 4 ≤ length argv → Answers (create_router env argv)
create_router-Answers env argv h =
    Answers-bind (lookup_service env argv true) _
      (lookup_service-Answers env argv true (has_names env argv h)) λ _. Answers-pure tt

on_add_router_command-Answers :
    (env : Environment) (argv : List (List ℕ)) → Answers (on_add_router_command env argv)
unfolding on_add_router_command
on_add_router_command-Answers env argv =
    let created = create_router-Answers env argv in
    Answers-if (length argv == 4) _ _ (λ e. created (ground arith))
      λ _.
        Answers-if (length argv == 5 && has_word argv 4 (codes "ipv6")) _ _
          (λ e. created (ground arith))
          λ _.
            Answers-if (length argv == 6 && has_word argv 4 (codes "vlan")) _ _
              (λ e. created (ground arith))
              λ _.
                Answers-if
                  (length argv == 7
                    && has_word argv 4 (codes "vlan")
                    && has_word argv 6 (codes "ipv6"))
                  _ _ (λ e. created (ground arith)) λ _. respond-Answers _

edit_address-Answers :
    (env : Environment) (argv : List (List ℕ)) (usage : Response) (event : IpSubnet → Event) (i : ℕ)
    (family : Family) (size : ℕ)
    → i < size
    → 4 ≤ size
    → Answers (edit_address env argv usage event i family size)
edit_address-Answers env argv usage event i family size h k =
    Answers-if (length argv == size) _ _
      (λ e. Answers-word argv i _ (ground arith) λ text _.
        let subnet = parse_subnet env.inet_pton text in
        Answers-if (not (number subnet.address.family == number family)) _ _
          (λ _. respond-Answers usage)
          λ _.
            with_service-Answers env argv (invoke (event subnet))
              (has_names env argv (ground arith)) (invoke-Answers (event subnet)))
      λ _. respond-Answers usage

delete_router-Answers : (env : Environment) (s : Service) → Answers (delete_router env s)
delete_router-Answers env s =
    Answers-bind get_services _ get_services-Answers λ services. put_services-Answers _ _

on_remove_router_command-Answers :
    (env : Environment) (argv : List (List ℕ)) → Answers (on_remove_router_command env argv)
unfolding on_remove_router_command
on_remove_router_command-Answers env argv =
    let removed = λ (h : 4 ≤ length argv).
      with_service-Answers env argv (delete_router env) (has_names env argv h)
        (delete_router-Answers env) in
    Answers-if (is_ipv6 argv) _ _
      (λ _. Answers-if (length argv == 5) _ _ (λ e. removed (ground arith)) λ _. respond-Answers _)
      λ _. Answers-if (length argv == 4) _ _ (λ e. removed (ground arith)) λ _. respond-Answers _

sub_command-Answers :
    (argv : List (List ℕ)) (usage : Response) (m k : T (Unit {0}))
    → Answers m
    → Answers k
    → Answers (sub_command argv usage m k)
sub_command-Answers argv usage m k hm hk =
    Answers-if (length argv == 1) _ _ (λ _. respond-Answers usage)
      λ _.
        Answers-if (has_word argv 1 (codes "router")) _ _ (λ _. hm)
          λ _.
            Answers-if (has_word argv 1 (codes "address")) _ _ (λ _. hk) λ _. respond-Answers usage

pub on_add_command-Answers :
    (env : Environment) (argv : List (List ℕ)) → Answers (on_add_command env argv)
unfolding on_add_command on_add_address_command
on_add_command-Answers env argv =
    sub_command-Answers argv _ _ _ (on_add_router_command-Answers env argv) (
      Answers-if (is_ipv6 argv) _ _
        (λ _. edit_address-Answers env argv _ add 5 inet6 6 (omega arith) (omega arith))
        λ _. edit_address-Answers env argv _ add 4 inet 5 (omega arith) (omega arith))

pub on_remove_command-Answers :
    (env : Environment) (argv : List (List ℕ)) → Answers (on_remove_command env argv)
unfolding on_remove_command on_remove_address_command
on_remove_command-Answers env argv =
    sub_command-Answers argv _ _ _ (on_remove_router_command-Answers env argv) (
      Answers-if (is_ipv6 argv) _ _
        (λ _. edit_address-Answers env argv _ remove 5 inet6 6 (omega arith) (omega arith))
        λ _. edit_address-Answers env argv _ remove 4 inet 5 (omega arith) (omega arith))

pub on_enable_command-Answers :
    (env : Environment) (argv : List (List ℕ)) → Answers (on_enable_command env argv)
unfolding on_enable_command
on_enable_command-Answers env argv =
    Answers-if (ltb (length argv) 4) _ _ (λ _. respond-Answers _)
      λ e.
        with_service-Answers env argv _ (has_names env argv (ground arith)) λ s. invoke-Answers _ s

pub on_disable_command-Answers :
    (env : Environment) (argv : List (List ℕ)) → Answers (on_disable_command env argv)
unfolding on_disable_command
on_disable_command-Answers env argv =
    Answers-if (ltb (length argv) 4) _ _ (λ _. respond-Answers _)
      λ e.
        with_service-Answers env argv (invoke disabling) (has_names env argv (ground arith))
          λ s. invoke-Answers disabling s
