-- ===== src/Netlink/Balance.antt =====
-- Which objects of libnl each function leaves behind, and when it uses one that it must not.
use open_vrrp.Prelude.{
  ℕ, ◌+◌, ◌++◌, if◌then◌else◌, not, ◌&&◌, ◌||◌, Bool, false, List, [], ◌∷◌, Option, none, some, pos,
  less_int, ◌≡◌, arith, Bool-cases, inl, inr, Option-cases,
}
use open_vrrp.Address.{Family, IpSubnet}
use open_vrrp.Netlink.{Objects, has, Kernel, Link}
use open_vrrp.Netlink.Numbers.{same, before, before_2, before_3, after, after_3, IsFresh, has-fresh}
use open_vrrp.Netlink.Requests.{
  create_socket, get_primary_ip_address, modify_ip_address, add_interface, add_macvlan_interface,
  add_vlan_interface, remove_interface, interfaces, set_mac, toggle_interface, is_interface_up,
}

-- The functions that ask for a change, and those that ask for information.
pub data Change : Type 0 where
  modifies_address : ℕ → IpSubnet → Bool → Change
  adds_macvlan : ℕ → List ℕ → List ℕ → Change
  adds_vlan : ℕ → ℕ → List ℕ → Change
  removes : ℕ → Change
  sets_mac : ℕ → List ℕ → Change
  toggles : ℕ → Bool → Change

pub data Operation : Type 0 where
  gets_primary : ℕ → Family → Operation
  lists_all : Operation
  asks_up : ℕ → Operation
  changes : Change → Operation

-- The objects that are live after a computation, if it ends.
abbrev pub left : {A : Type 0} → Option (A × Objects) → Option (List ℕ)
left none = none
left (some (a, o)) = some o.live

abbrev pub live_after : Kernel → Operation → Objects → Option (List ℕ)
live_after k (gets_primary interface family) o = left (get_primary_ip_address k interface family o)
live_after k (changes (modifies_address interface ip add)) o =
    left (modify_ip_address k interface ip add o)
live_after k (changes (adds_macvlan interface mac name)) o =
    left (add_macvlan_interface k interface mac name o)
live_after k (changes (adds_vlan interface vlan name)) o =
    left (add_vlan_interface k interface vlan name o)
live_after k (changes (removes interface)) o = left (remove_interface k interface o)
live_after k lists_all o = left (interfaces k o)
live_after k (asks_up interface) o = left (is_interface_up k interface o)
live_after k (changes (sets_mac interface mac)) o = left (set_mac k interface mac o)
live_after k (changes (toggles interface up)) o = left (toggle_interface k interface up o)

abbrev pub refuses : Kernel → Bool
refuses k = less_int k.sending (pos 0) || less_int k.acknowledged (pos 0)

abbrev pub no_cache : Kernel → Bool
no_cache k = less_int k.caching (pos 0)

modify-left :
    (k : Kernel) (i : ℕ) (ip : IpSubnet) (add : Bool) (o : Objects)
    → left (modify_ip_address k i ip add o) ≡ some o.live
unfolding modify_ip_address
modify-left k i ip add o = ground arith

-- Objects made one after the other are not the same.
ruleset handles = (same, before, before_2, before_3, after, after_3)

primary-left :
    (k : Kernel) (i : ℕ) (f : Family) (o : Objects)
    → left (get_primary_ip_address k i f o) ≡ (
        if not k.connected
        then some o.live
        else if no_cache k
        then none
        else some (o.next ∷ o.live))
unfolding get_primary_ip_address create_socket
primary-left k i f o = elim (Bool-cases k.connected) [
  | inl e ↦ elim (Bool-cases (no_cache k)) [
    | inl n ↦ simp (e, n, handles)
    | inr n ↦ simp (e, n, handles)
  ]
  | inr e ↦ simp (e, handles)
]

interfaces-left :
    (k : Kernel) (o : Objects)
    → left (interfaces k o) ≡ (if k.connected && no_cache k then none else some o.live)
unfolding interfaces create_socket
interfaces-left k o = elim (Bool-cases k.connected) [
  | inl e ↦ elim (Bool-cases (no_cache k)) [
    | inl n ↦ simp (e, n, handles)
    | inr n ↦ simp (e, n, handles)
  ]
  | inr e ↦ simp (e, handles)
]

remove-left :
    (k : Kernel) (i : ℕ) (o : Objects)
    → left (remove_interface k i o) ≡ (if k.connected then some o.live else none)
unfolding remove_interface
remove-left k i o = ground arith

mac-left :
    (k : Kernel) (i : ℕ) (mac : List ℕ) (o : Objects) → left (set_mac k i mac o) ≡ some o.live
unfolding set_mac
mac-left k i mac o = ground arith

toggle-left :
    (k : Kernel) (i : ℕ) (up : Bool) (o : Objects) → left (toggle_interface k i up o) ≡ some o.live
unfolding toggle_interface
toggle-left k i up o = ground arith

-- The reference to a link that is_interface_up finds.
abbrev pub reference : Option Link → ℕ → List ℕ
reference none h = []
reference (some l) h = h ∷ []

up-left :
    (k : Kernel) (i : ℕ) (o : Objects)
    → left (is_interface_up k i o) ≡ (
        if k.connected && no_cache k
        then none
        else some
            ((if k.connected then reference (k.link_get i) (o.next + 1 + 1) else []) ++ o.live))
unfolding is_interface_up create_socket
up-left k i o = elim (Bool-cases k.connected) [
  | inl e ↦ elim (Bool-cases (no_cache k)) [
    | inl n ↦ simp (e, n, handles)
    | inr n ↦ elim (Option-cases (k.link_get i)) [
      | inl q ↦ simp (e, n, q, handles)
      | inr (l, q) ↦ simp (e, n, q, handles)
    ]
  ]
  | inr e ↦ simp (e, handles)
]

module _ (k : Kernel) (i : ℕ) (name : List ℕ) (o : Objects) (h : IsFresh o) where
  fresh : has (o.next + 1 + 1 + 1) o.live ≡ false
  fresh = has-fresh o.next (o.next + 1 + 1 + 1) o.live (omega arith) h

  macvlan-left :
      (mac : List ℕ)
      → left (add_macvlan_interface k i mac name o)
        ≡ (if k.connected && refuses k then none else some o.live)
  unfolding add_macvlan_interface add_interface create_socket
  macvlan-left mac = elim (Bool-cases k.connected) [
    | inl e ↦ elim (Bool-cases (refuses k)) [
      | inl r ↦ simp (e, r, fresh, handles)
      | inr r ↦ elim (Bool-cases (no_cache k)) [
        | inl n ↦ simp (e, r, n, handles)
        | inr n ↦ simp (e, r, n, handles)
      ]
    ]
    | inr e ↦ simp (e, handles)
  ]

  vlan-left :
      (vlan : ℕ)
      → left (add_vlan_interface k i vlan name o)
        ≡ (if k.connected && refuses k then none else some o.live)
  unfolding add_vlan_interface add_interface create_socket
  vlan-left vlan = elim (Bool-cases k.connected) [
    | inl e ↦ elim (Bool-cases (refuses k)) [
      | inl r ↦ simp (e, r, fresh, handles)
      | inr r ↦ elim (Bool-cases (no_cache k)) [
        | inl n ↦ simp (e, r, n, handles)
        | inr n ↦ simp (e, r, n, handles)
      ]
    ]
    | inr e ↦ simp (e, handles)
  ]

-- The change uses an object that was freed, or a pointer to none.
abbrev pub mistaken : Kernel → Change → Bool
mistaken k (modifies_address interface ip add) = false
mistaken k (adds_macvlan interface mac name) = k.connected && refuses k
mistaken k (adds_vlan interface vlan name) = k.connected && refuses k
mistaken k (removes interface) = not k.connected
mistaken k (sets_mac interface mac) = false
mistaken k (toggles interface up) = false

abbrev pub faults : Kernel → Operation → Bool
faults k (changes c) = mistaken k c
faults k _ = k.connected && no_cache k

-- What an operation leaves behind, where its first object is number `h`.
abbrev pub leaks : Kernel → Operation → ℕ → List ℕ
leaks k (gets_primary interface family) h = if k.connected then h ∷ [] else []
leaks k lists_all h = []
leaks k (asks_up interface) h =
    if k.connected then reference (k.link_get interface) (h + 1 + 1) else []
leaks k (changes c) h = []

-- Where no live object has a number yet to be given: an operation uses an object that was freed, or a
-- pointer to none, exactly where `faults` says it, and otherwise all that it leaves of its objects is
-- what `leaks` says, which is nothing but for a socket and the reference to a link.
pub live_after-leaks :
    (k : Kernel) (op : Operation) (o : Objects)
    → IsFresh o
    → live_after k op o ≡ (if faults k op then none else some (leaks k op o.next ++ o.live))
live_after-leaks k (gets_primary interface family) o h =
    rw (primary-left k interface family o)
      (elim (Bool-cases k.connected) [ inl e ↦ simp (e) | inr e ↦ simp (e) ])
live_after-leaks k (changes (modifies_address interface ip add)) o h =
    modify-left k interface ip add o
live_after-leaks k (changes (adds_macvlan interface mac name)) o h =
    macvlan-left k interface name o h mac
live_after-leaks k (changes (adds_vlan interface vlan name)) o h =
    vlan-left k interface name o h vlan
live_after-leaks k (changes (removes interface)) o h =
    rw (remove-left k interface o)
      (elim (Bool-cases k.connected) [ inl e ↦ simp (e) | inr e ↦ simp (e) ])
live_after-leaks k lists_all o h = interfaces-left k o
live_after-leaks k (asks_up interface) o h = up-left k interface o
live_after-leaks k (changes (sets_mac interface mac)) o h = mac-left k interface mac o
live_after-leaks k (changes (toggles interface up)) o h = toggle-left k interface up o
