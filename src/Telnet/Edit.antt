-- ===== src/Telnet/Edit.antt =====
-- The commands that add and remove routers and addresses.
use open_vrrp.Prelude.{ℕ, ◌==◌, ◌&&◌, not, if◌then◌else◌, Bool, true, List, length}
use open_vrrp.Address.{Family, inet, inet6, number}
use open_vrrp.Address.Parse.{parse_subnet}
use open_vrrp.Service.{Service}
use open_vrrp.Service.Run.{Event, add, remove}
use open_vrrp.Address.{IpSubnet}
use open_vrrp.Text.{codes}
use open_vrrp.Manager.{remove_service}
use open_vrrp.Telnet.{
  Response, add_usage, add_router_usage, add_address_usage, remove_usage, remove_router_usage,
  remove_address_usage, Environment, T, ◌>>=◌, skip, respond, word, get_services, put_services,
  invoke,
}
use open_vrrp.Telnet.Lookup.{has_word, lookup_service, with_service}

abbrev pub create_router : Environment → List (List ℕ) → T (Unit {0})
create_router env argv = do service ← lookup_service env argv true; skip

unfoldable pub on_add_router_command : Environment → List (List ℕ) → T (Unit {0})
on_add_router_command env argv =
    if length argv == 4
    then create_router env argv
    else if length argv == 5 && has_word argv 4 (codes "ipv6")
    then create_router env argv
    else if length argv == 6 && has_word argv 4 (codes "vlan")
    then create_router env argv
    else if length argv == 7 && has_word argv 4 (codes "vlan") && has_word argv 6 (codes "ipv6")
    then create_router env argv
    else respond add_router_usage

-- `argv.size() > 4 && strcmp(argv[4], "ipv6") == 0`
abbrev pub is_ipv6 : List (List ℕ) → Bool
is_ipv6 argv = has_word argv 4 (codes "ipv6")

-- The two branches of onAddAddressCommand, and of onRemoveAddressCommand: the argument with the
-- subnet, the family that it must have, and the size of `argv`.
abbrev pub edit_address :
    Environment → List (List ℕ) → Response → (IpSubnet → Event) → ℕ → Family → ℕ → T (Unit {0})
edit_address env argv usage event i family size =
    if length argv == size
    then (do
      text ← word argv i
      let subnet = parse_subnet env.inet_pton text
      if not (number subnet.address.family == number family)
          then respond usage
          else with_service env argv (invoke (event subnet)))
    else respond usage

unfoldable pub on_add_address_command : Environment → List (List ℕ) → T (Unit {0})
on_add_address_command env argv =
    if is_ipv6 argv
    then edit_address env argv add_address_usage add 5 inet6 6
    else edit_address env argv add_address_usage add 4 inet 5

unfoldable pub on_remove_address_command : Environment → List (List ℕ) → T (Unit {0})
on_remove_address_command env argv =
    if is_ipv6 argv
    then edit_address env argv remove_address_usage remove 5 inet6 6
    else edit_address env argv remove_address_usage remove 4 inet 5

abbrev pub delete_router : Environment → Service → T (Unit {0})
delete_router env service = do
  services ← get_services
  let removed = remove_service env.has_socket service services
  put_services removed.0 removed.1

unfoldable pub on_remove_router_command : Environment → List (List ℕ) → T (Unit {0})
on_remove_router_command env argv =
    if is_ipv6 argv
    then (if length argv == 5
        then with_service env argv (delete_router env)
        else respond remove_router_usage)
    else if length argv == 4
    then with_service env argv (delete_router env)
    else respond remove_router_usage

abbrev pub sub_command : List (List ℕ) → Response → T (Unit {0}) → T (Unit {0}) → T (Unit {0})
sub_command argv usage router address =
    if length argv == 1
    then respond usage
    else if has_word argv 1 (codes "router")
    then router
    else if has_word argv 1 (codes "address")
    then address
    else respond usage

unfoldable pub on_add_command : Environment → List (List ℕ) → T (Unit {0})
on_add_command env argv =
    sub_command argv add_usage (on_add_router_command env argv) (on_add_address_command env argv)

unfoldable pub on_remove_command : Environment → List (List ℕ) → T (Unit {0})
on_remove_command env argv =
    sub_command argv remove_usage (on_remove_router_command env argv)
      (on_remove_address_command env argv)
