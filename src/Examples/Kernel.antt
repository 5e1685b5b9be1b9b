-- ===== src/Examples/Kernel.antt =====
-- The theorems of the requests to the kernel and of the watched links, at concrete inputs.
use Prim.{tt}
use open_vrrp.Prelude.{ℕ, true, false, List, [], ◌∷◌, none, some, pos, negsuc, ◌≡◌, refl, arith}
use open_vrrp.Netlink.{Link, newlink, Objects, Kernel}
use open_vrrp.Netlink.Balance.{asks_up, changes, Change, adds_macvlan, live_after, live_after-leaks}
use open_vrrp.Netlink.Monitors.{
  CallbackData, is_closed, add_interface_monitor, remove_interface_monitor,
}
use open_vrrp.Netlink.Monitors.Watched
use open_vrrp.Containers.{map_find, map_set, map_erase, set_insert, set_erase, set_contains}
use open_vrrp.Netlink.Monitors.Watched.{adds, removes, perform_all, unmonitored, perform_all-sock}
use open_vrrp.Netlink.Monitors.Delivered.{delivered, delivered-wanted, is_called}
use open_vrrp.Netlink.Monitors.Sound.{is_watched}

abbrev eth0 : Link
eth0 = record { ifindex = 2; name = 101 ∷ 116 ∷ 104 ∷ 48 ∷ []; operstate = 6 }

-- A kernel that agrees to everything, with the interface eth0.
abbrev agreeing : Kernel
agreeing = record {
  connected = true;
  sending = pos 48;
  acknowledged = pos 0;
  caching = pos 0;
  modified = true;
  entries = record { ifindex = 2; family = 2; permanent = true; local = 10 ∷ 0 ∷ 0 ∷ 1 ∷ [] } ∷ [];
  links = eth0 ∷ [];
  name2i = λ name. 7;
  link_get = λ i. some eth0;
}

-- It does not acknowledge.
abbrev refusing : Kernel
refusing = record agreeing { acknowledged = negsuc 0 }

-- Objects of which the numbers 0 and 3 are live.
abbrev objects : Objects
objects = record { next = 4; live = 3 ∷ 0 ∷ []; sent = [] }

abbrev eth0_mac : List ℕ
eth0_mac = 0 ∷ 0 ∷ 94 ∷ 0 ∷ 1 ∷ 5 ∷ []

abbrev name : List ℕ
name = 118 ∷ 53 ∷ []

abbrev virtual : Change
virtual = adds_macvlan 2 eth0_mac name

-- The reference to eth0 stays.
live_after-leaks_example : live_after agreeing (asks_up 2) objects ≡ some (6 ∷ 3 ∷ 0 ∷ [])
live_after-leaks_example =
    live_after-leaks agreeing (asks_up 2) objects (omega arith, (omega arith, tt))

-- The kernel does not acknowledge the new interface, and the freed socket is used.
refused_interface : live_after refusing (changes virtual) objects ≡ none
refused_interface =
    live_after-leaks refusing (changes virtual) objects (omega arith, (omega arith, tt))

abbrev first : CallbackData
first = record { callback = 0x4000; user_data = 0x9000 }

abbrev second : CallbackData
second = record { callback = 0x4000; user_data = 0x9100 }

abbrev watching : List Watched.Operation
watching = adds true 2 first ∷ adds true 2 second ∷ adds true 3 first ∷ removes 3 first ∷ []

perform_all-sock_example : is_closed (perform_all watching unmonitored).sock ≡ false
unfolding add_interface_monitor remove_interface_monitor map_find map_set map_erase set_insert
    set_erase set_contains
perform_all-sock_example = (perform_all-sock watching).0 2 second refl

delivered-wanted_example :
    let m = perform_all watching unmonitored in
    (is_called 2 true second (delivered (record { type = newlink; index = 2; flags = 0x1003 }) m)
      ≡ true)
    × (true ≡ is_watched m.sock)
unfolding add_interface_monitor remove_interface_monitor map_find map_set map_erase set_insert
    set_erase set_contains
delivered-wanted_example =
    delivered-wanted watching (record { type = newlink; index = 2; flags = 0x1003 }) 2 true second
