-- ===== src/Netlink/Answers.antt =====
-- What the functions that ask for a change send to the kernel, and what they answer to their caller.
use open_vrrp.Prelude.{
  if◌then◌else◌, not, ◌&&◌, Bool, List, [], ◌∷◌, Option, none, some, ℤ, pos, negsuc,
}
use open_vrrp.Netlink.{setlink, dellink, address, Request, message, modifies, Objects, Kernel}
use open_vrrp.Netlink.Numbers.{same, before, before_2, before_3, after, after_3}
use open_vrrp.Netlink.Requests.{
  modify_ip_address, add_macvlan_interface, add_vlan_interface, remove_interface, set_mac,
  toggle_interface, macvlan_message, vlan_message,
}
use open_vrrp.Netlink.Balance.{
  Change, modifies_address, adds_macvlan, adds_vlan, removes, sets_mac, toggles, refuses, no_cache,
}

-- The answer as an `int`, and all that was sent.
abbrev pub told : {A : Type 0} → (A → ℤ) → Option (A × Objects) → Option (ℤ × List Request)
told to none = none
told to (some (a, o)) = some (to a, o.sent)

abbrev pub number_of : Bool → ℤ
number_of b = if b then pos 1 else pos 0

abbrev pub same_int : ℤ → ℤ
same_int z = z

abbrev pub answer : Kernel → Change → Objects → Option (ℤ × List Request)
answer k (modifies_address interface ip add) o =
    told number_of (modify_ip_address k interface ip add o)
answer k (adds_macvlan interface mac name) o =
    told same_int (add_macvlan_interface k interface mac name o)
answer k (adds_vlan interface vlan name) o =
    told same_int (add_vlan_interface k interface vlan name o)
answer k (removes interface) o = told number_of (remove_interface k interface o)
answer k (sets_mac interface mac) o = told number_of (set_mac k interface mac o)
answer k (toggles interface up) o = told number_of (toggle_interface k interface up o)

-- The request of a change.
abbrev pub request : Change → Request
request (modifies_address interface ip add) = modifies add interface ip
request (adds_macvlan interface mac name) = message (macvlan_message interface mac name)
request (adds_vlan interface vlan name) = message (vlan_message interface vlan name)
request (removes interface) = message (record {
  type = dellink;
  flags = 1;
  index = interface;
  change = 0;
  link_flags = 0;
  attributes = [];
})
request (sets_mac interface mac) = message (record {
  type = setlink;
  flags = 0;
  index = interface;
  change = 0;
  link_flags = 0;
  attributes = address mac ∷ [];
})
request (toggles interface up) = message (record {
  type = setlink;
  flags = 0;
  index = interface;
  change = 1;
  link_flags = if up then 1 else 0;
  attributes = [];
})

abbrev pub sent_by : Kernel → Change → List Request
sent_by k c = if k.connected then request c ∷ [] else []

-- The answer where the change makes no mistake.
abbrev pub reply : Kernel → Change → ℤ
reply k (modifies_address interface ip add) = number_of (k.connected && k.modified)
reply k (adds_macvlan interface mac name) =
    if k.connected && not (no_cache k) then pos (k.name2i name) else negsuc 0
reply k (adds_vlan interface vlan name) =
    if k.connected && not (no_cache k) then pos (k.name2i name) else negsuc 0
reply k (removes interface) = number_of (not (refuses k))
reply k (sets_mac interface mac) = number_of (k.connected && not (refuses k))
reply k (toggles interface up) = number_of (k.connected && not (refuses k))

ruleset handles = (same, before, before_2, before_3, after, after_3)
