-- ===== src/Telnet/Lookup.antt =====
-- TelnetSession::getService, which the handlers share, and the tests on words.
use open_vrrp.Prelude.{
  ℕ, ◌==◌, leb, ◌&&◌, ◌||◌, if◌then◌else◌, Bool, false, List, Option, none, some, length, ℤ, pos,
  less_int, word_of, fast16_of, get_elem?,
}
use open_vrrp.Address.{Family, inet, inet6}
use open_vrrp.Service.{Service}
use open_vrrp.Text.{codes, text_eq, atoi}
use open_vrrp.Manager.{Managed, get_service}
use open_vrrp.Telnet.{
  no_such_interface, invalid_router_id, error_creating_router, no_such_router, Environment, T,
  ◌>>=◌, ◌>>◌, pure, skip, respond, word, get_services, put_services,
}

-- `argv.size() > i && strcmp(argv[i], text) == 0`
abbrev pub has_word : List (List ℕ) → ℕ → List ℕ → Bool
has_word argv i text = elim (get_elem? argv i) [ none ↦ false | some w ↦ text_eq w text ]

abbrev pub family_if : Bool → Family
family_if ipv6 = if ipv6 then inet6 else inet

-- `vrid <= 0 || vrid > 255`
abbrev pub is_bad_id : ℤ → Bool
is_bad_id vrid = less_int vrid (pos 1) || less_int (pos 255) vrid

-- The family and the VLAN.
abbrev pub vlan_and_family : List (List ℕ) → Bool → T (ℕ × Family)
vlan_and_family argv create =
    if create && leb 6 (length argv) && has_word argv 4 (codes "vlan")
    then (do
      vlan ← word argv 5
      pure (fast16_of (atoi vlan), family_if (has_word argv 6 (codes "ipv6"))))
    else pure (0, family_if (has_word argv 4 (codes "ipv6")))

abbrev pub found_or_not : Bool → Option Service → T (Option Service)
found_or_not create (some service) = pure (some service)
found_or_not create none = do
  respond (if create then error_creating_router else no_such_router)
  pure none

abbrev pub managed : Bool → Managed → T (Option Service)
managed create m = do put_services m.services m.calls; found_or_not create m.service

unfoldable pub lookup_service : Environment → List (List ℕ) → Bool → T (Option Service)
lookup_service env argv create = do
  name ← word argv 2
  let interface = env.if_nametoindex name
  if interface == 0 then (do respond no_such_interface; pure none) else (do
    id ← word argv 3
    let vrid = atoi id
    if is_bad_id vrid then (do respond invalid_router_id; pure none) else (do
      (vlan, family) ← vlan_and_family argv create
      services ← get_services
      managed create
          (get_service (env.host interface) interface (word_of vrid) vlan family create services)))

-- A handler's use of the service that is found.
abbrev pub use_if_any : (Service → T (Unit {0})) → Option Service → T (Unit {0})
use_if_any f none = skip
use_if_any f (some service) = f service

abbrev pub with_service : Environment → List (List ℕ) → (Service → T (Unit {0})) → T (Unit {0})
with_service env argv f = do found ← lookup_service env argv false; use_if_any f found
