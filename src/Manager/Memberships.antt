-- ===== src/Manager/Memberships.antt =====
-- What a new service does to the multicast memberships of its socket.
use open_vrrp.Prelude.{
  ℕ, ◌-◌, ◌+◌, ◌^◌, ◌<◌, ◌≤◌, ◌==◌, if◌then◌else◌, Bool, true, false, List, [], ◌∷◌, Option, none,
  some, ◌≡◌, refl, arith, Option-cases, Bool-cases, inl, inr, ap, sym, ◌∙◌,
}
use open_vrrp.Address.{Family, number}
use open_vrrp.Service.{Call, socket_add_interface, socket_remove_interface}
use open_vrrp.Service.Lifecycle.{Host, construct, destruct}
use open_vrrp.Service.Transitions.{shutdown}
use open_vrrp.Manager.{VrrpServiceMap, find_service, get_service}
use open_vrrp.Socket.{InterfaceMap, add_interface, remove_interface}
use open_vrrp.Socket.Memberships.{users, users-remove_interface, users-add_interface}

-- The calls of a service on its socket's memberships, where the kernel refuses none.
abbrev pub join : Call → InterfaceMap → InterfaceMap
join (socket_add_interface i) counts = (add_interface true i counts).1
join (socket_remove_interface i) counts = (remove_interface true i counts).1
join _ counts = counts

abbrev pub join_all : List Call → InterfaceMap → InterfaceMap
join_all [] counts = counts
join_all (c ∷ calls) counts = join_all calls (join c counts)

-- The interface whose memberships a new service raises.
abbrev pub joins : ℕ → Bool → Option ℕ → Option ℕ
joins interface true vlan_interface = some interface
joins interface false vlan_interface = vlan_interface

-- The users of an interface then.
abbrev pub expected : ℕ → InterfaceMap → Option ℕ → ℕ → ℕ
expected interface counts none j = if j == interface then users j counts - 1 else users j counts
expected interface counts (some i) j = if j == i then users j counts + 1 else users j counts

module _ (host : Host) (interface vrid vlan : ℕ) (family : Family) (services : VrrpServiceMap)
    (counts : InterfaceMap) (free : find_service interface vrid (number family) services ≡ none)
    (socket : host.has_socket ≡ true) where
  abbrev joined : InterfaceMap
  joined = join_all (get_service host interface vrid vlan family true services).calls counts

  refused-calls :
      (vlan == 0) ≡ false
      → host.vlan_interface ≡ none
      → joined ≡ (remove_interface true interface counts).1
  unfolding get_service construct destruct shutdown
  refused-calls asked refused = elim (Option-cases host.macvlan_interface) [
    | inl e ↦ elim (Option-cases host.hardware_mac) [
      | inl m ↦ rw (get_service, free, construct, socket, e, m) (rw asked (rw refused refl))
      | inr (mac, m) ↦ rw (get_service, free, construct, socket, e, m) (rw asked (rw refused refl))
    ]
    | inr (i, e) ↦ rw (get_service, free, construct, socket, e) (rw asked (rw refused refl))
  ]

  vlan-calls :
      (k : ℕ)
      → (vlan == 0) ≡ false
      → host.vlan_interface ≡ some k
      → joined ≡ (add_interface true k counts).1
  unfolding get_service construct
  vlan-calls k asked given = elim (Option-cases host.macvlan_interface) [
    | inl e ↦ elim (Option-cases host.hardware_mac) [
      | inl m ↦ rw (get_service, free, construct, socket, e, m) (rw asked (rw given refl))
      | inr (mac, m) ↦ rw (get_service, free, construct, socket, e, m) (rw asked (rw given refl))
    ]
    | inr (i, e) ↦ rw (get_service, free, construct, socket, e) (rw asked (rw given refl))
  ]

  plain-calls : (vlan == 0) ≡ true → joined ≡ (add_interface true interface counts).1
  unfolding get_service construct
  plain-calls unasked = elim (Option-cases host.macvlan_interface) [
    | inl e ↦ elim (Option-cases host.hardware_mac) [
      | inl m ↦ rw (get_service, free, construct, socket, e, m) (rw unasked refl)
      | inr (mac, m) ↦ rw (get_service, free, construct, socket, e, m) (rw unasked refl)
    ]
    | inr (i, e) ↦ rw (get_service, free, construct, socket, e) (rw unasked refl)
  ]

  -- getService of a service that is not there yet, with a socket whose interface has a user, where no
  -- interface has 2^32 - 1: the interface of the new service, which is its VLAN interface if it has
  -- one, gets one user more, and the others keep theirs; but if the VLAN interface cannot be made, the
  -- interface that was asked for has one user less, although the service never was one.
  pub get_service-users :
      1 ≤ users interface counts
      → ((j : ℕ) → users j counts < 2 ^ 32 - 1)
      → (j : ℕ)
      → users j joined
        ≡ expected interface counts (joins interface (vlan == 0) host.vlan_interface) j
  get_service-users used small j =
      let seen : (o : Option ℕ)
          → joins interface (vlan == 0) host.vlan_interface ≡ o
          → expected interface counts o j
            ≡ expected interface counts (joins interface (vlan == 0) host.vlan_interface) j =
        λ o e. sym (ap (λ x. expected interface counts x j) e) in
      let choice : (b : Bool)
          → (vlan == 0) ≡ b
          → joins interface (vlan == 0) host.vlan_interface
            ≡ joins interface b host.vlan_interface =
        λ b e. ap (λ x. joins interface x host.vlan_interface) e in
      elim (Bool-cases (vlan == 0)) [
        | inl unasked ↦
            ap (λ c. users j c) (plain-calls unasked)
            ∙ users-add_interface interface j counts (small interface)
            ∙ seen (some interface) (choice true unasked)
        | inr asked ↦ elim (Option-cases host.vlan_interface) [
          | inl refused ↦
              ap (λ c. users j c) (refused-calls asked refused)
              ∙ (users-remove_interface interface j counts used (omega (arith, small interface))).1
              ∙ seen none (choice false asked ∙ refused)
          | inr (k, given) ↦
              ap (λ c. users j c) (vlan-calls k asked given)
              ∙ users-add_interface k j counts (small k)
              ∙ seen (some k) (choice false asked ∙ given)
        ]
      ]
