-- ===== src/Examples/Refusals.antt =====
-- A service whose VLAN interface cannot be made, on an interface with one other service.
use open_vrrp.Prelude.{ℕ, ◌^◌, ◌-◌, ◌<◌, true, [], ◌∷◌, ◌≡◌, refl, arith}
use open_vrrp.Address.{inet}
use open_vrrp.Containers.{map_find}
use open_vrrp.Containers.Nested.{nested_find}
use open_vrrp.Manager.{find_service, get_service}
use open_vrrp.Manager.Memberships.{join_all, get_service-users}
use open_vrrp.Socket.{InterfaceMap}
use open_vrrp.Socket.Memberships.{users}
use open_vrrp.Examples.{host}

abbrev one_user : InterfaceMap
one_user = (3, 1) ∷ []

few_users : (j : ℕ) → users j one_user < 2 ^ 32 - 1
unfolding map_find
few_users j = ground arith

get_service-users_example :
    users 3 (join_all (get_service (host 2) 3 7 9 inet true []).calls one_user) ≡ 0
unfolding map_find find_service nested_find
get_service-users_example =
    get_service-users (host 2) 3 7 9 inet [] one_user refl refl (omega arith) few_users 3
