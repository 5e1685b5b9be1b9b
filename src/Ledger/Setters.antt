-- ===== src/Ledger/Setters.antt =====
-- The ledger through the setters that move addresses.
use open_vrrp.Prelude.{
  ℕ, ◌==◌, Bool, true, false, not, ◌&&◌, ◌||◌, List, [], ◌∷◌, ◌≡◌, ◌⊎◌, refl, ap, append-nil, arith,
  if◌then◌else◌, Bool-cases, inl, inr,
}
use open_vrrp.Address.{number, inet6, IpAddress, IpSubnet, subnet_less}
use open_vrrp.Address.Order.{subnet_less-IsStrictOrder}
use open_vrrp.Containers.{set_contains, set_insert}
use open_vrrp.Containers.Laws.{set_contains-insert, set_contains-erase}
use open_vrrp.Service.{
  Service, netlink_add, netlink_remove, add_fake_arp, remove_fake_arp, master, is_state,
}
use open_vrrp.Service.Actions.{on_interface}
use open_vrrp.Service.Config.{
  to_interface, to_arp_service, move_addresses, set_priority, set_accept_mode, add_ip_address,
  remove_ip_address, same,
}
use open_vrrp.Ledger.{Ledger, Holds, replay, apply, has_address, same_address}

module _ (s : Service) where
  assigned-to_interface :
      (xs : List IpSubnet) (l : Ledger) (j : ℕ) (y : IpSubnet)
      → (replay (to_interface s xs) l).assigned j y
        ≡ ((j == s.output_interface && set_contains subnet_less y xs) || l.assigned j y)
  unfolding to_interface set_contains
  assigned-to_interface [] l j y = ground arith
  assigned-to_interface (x ∷ xs) l j y = ground (
    arith,
    assigned-to_interface xs
        (apply (remove_fake_arp s.interface x.address) (apply (netlink_add s.output_interface x) l))
        j y,
  )

  answered-to_interface :
      (xs : List IpSubnet) (l : Ledger) (j : ℕ) (b : IpAddress)
      → (replay (to_interface s xs) l).answered j b
        ≡ (not (j == s.interface && has_address b xs) && l.answered j b)
  unfolding to_interface
  answered-to_interface [] l j b = ground arith
  answered-to_interface (x ∷ xs) l j b = ground (
    arith,
    answered-to_interface xs
        (apply (remove_fake_arp s.interface x.address) (apply (netlink_add s.output_interface x) l))
        j b,
  )

  assigned-to_arp_service :
      (xs : List IpSubnet) (l : Ledger) (j : ℕ) (y : IpSubnet)
      → (replay (to_arp_service s xs) l).assigned j y
        ≡ (not (j == s.output_interface && set_contains subnet_less y xs) && l.assigned j y)
  unfolding to_arp_service set_contains
  assigned-to_arp_service [] l j y = ground arith
  assigned-to_arp_service (x ∷ xs) l j y = ground (
    arith,
    assigned-to_arp_service xs
        (apply (netlink_remove s.output_interface x)
          (apply (add_fake_arp s.interface x.address s.mac) l))
        j y,
  )

  answered-to_arp_service :
      (xs : List IpSubnet) (l : Ledger) (j : ℕ) (b : IpAddress)
      → (replay (to_arp_service s xs) l).answered j b
        ≡ ((j == s.interface && has_address b xs) || l.answered j b)
  unfolding to_arp_service
  answered-to_arp_service [] l j b = ground arith
  answered-to_arp_service (x ∷ xs) l j b = ground (
    arith,
    answered-to_arp_service xs
        (apply (netlink_remove s.output_interface x)
          (apply (add_fake_arp s.interface x.address s.mac) l))
        j b,
  )

module _ (s : Service) (l : Ledger) (accept : Bool) (prio : ℕ) (h : Holds s l) where
  -- A master that moves its addresses to the interface may change to a mode that wants them there.
  to_interface-Holds :
      is_state s.state master ≡ true
      → (accept || prio == 255) ≡ true
      → Holds
          (record s { accept_mode = accept; priority = prio })
          (replay (to_interface s s.subnets) l)
  to_interface-Holds m on = record {
    assigned_right =
        λ j y. ground (arith, m, on, h.assigned_right j y, assigned-to_interface s s.subnets l j y);
    answered_right =
        λ j b. ground (arith, m, on, h.answered_right j b, answered-to_interface s s.subnets l j b);
  }

  -- So for the move to the ARP service.
  to_arp_service-Holds :
      is_state s.state master ≡ true
      → (accept || prio == 255) ≡ false
      → Holds
          (record s { accept_mode = accept; priority = prio })
          (replay (to_arp_service s s.subnets) l)
  to_arp_service-Holds m off = record {
    assigned_right = λ j y.
        ground (arith, m, off, h.assigned_right j y, assigned-to_arp_service s s.subnets l j y);
    answered_right = λ j b.
        ground (arith, m, off, h.answered_right j b, answered-to_arp_service s s.subnets l j b);
  }

  -- A change that keeps the addresses in their place, or of a service that is not master.
  unmoved-Holds :
      (is_state s.state master ≡ false) ⊎ ((accept || prio == 255) ≡ on_interface s)
      → Holds (record s { accept_mode = accept; priority = prio }) l
  unmoved-Holds c = record {
    assigned_right = λ j y. ground (arith, h.assigned_right j y);
    answered_right = λ j b. ground (arith, h.answered_right j b);
  }

move_addresses-Holds :
    (prio : ℕ) (s : Service) (l : Ledger)
    → Holds s l
    → Holds (record s { priority = prio }) (replay (move_addresses prio s) l)
unfolding move_addresses
move_addresses-Holds prio s l h = elim (Bool-cases (is_state s.state master && not s.accept_mode)) [
  | inr keep ↦ rw keep (unmoved-Holds s l s.accept_mode prio h (ground arith))
  | inl moves ↦ rw moves (elim (Bool-cases (not (s.priority == 255) && prio == 255)) [
    | inl up ↦ rw up (to_interface-Holds s l s.accept_mode prio h (ground arith) (ground arith))
    | inr other ↦ rw other (elim (Bool-cases (s.priority == 255 && not (prio == 255))) [
      | inl down ↦
          rw down (to_arp_service-Holds s l s.accept_mode prio h (ground arith) (ground arith))
      | inr level ↦ rw level (unmoved-Holds s l s.accept_mode prio h (ground arith))
    ])
  ])
]

-- `setPriority` keeps the host in step with the service: from a host that holds what the service
-- means it to hold, its calls lead to one that holds what the service means afterwards.
pub set_priority-Holds :
    (prio : ℕ) (s : Service) (l : Ledger)
    → Holds s l
    → Holds (set_priority prio s).service (replay (set_priority prio s).calls l)
unfolding set_priority
set_priority-Holds prio s l h = elim (Bool-cases (prio == 0)) [
  | inl e ↦ rw e h
  | inr e ↦ rw (e, append-nil) (move_addresses-Holds prio s l h)
]

accept_calls-Holds :
    (on : Bool) (s : Service) (l : Ledger)
    → Holds s l
    → is_state s.state master ≡ true
    → (on || not (s.priority == 255)) ≡ true
    → Holds
        (record s { accept_mode = on })
        (replay (if on then to_interface s s.subnets else to_arp_service s s.subnets) l)
accept_calls-Holds true s l h m c = to_interface-Holds s l true s.priority h m refl
accept_calls-Holds false s l h m c = to_arp_service-Holds s l false s.priority h m (ground arith)

-- `setAcceptMode` keeps the host in step with the service, unless a master with priority 255 turns
-- the mode off.
pub set_accept_mode-Holds :
    (on : Bool) (s : Service) (l : Ledger)
    → Holds s l
    → (is_state s.state master ≡ false) ⊎ ((on || not (s.priority == 255)) ≡ true)
    → Holds (set_accept_mode on s).service (replay (set_accept_mode on s).calls l)
unfolding set_accept_mode
set_accept_mode-Holds on s l h c = elim (Bool-cases (same s.accept_mode on)) [
  | inl e ↦ rw e h
  | inr e ↦ rw e (elim (Bool-cases (number s.family == number inet6 || not (s.vlan_id == 0))) [
    | inl fixed ↦ rw fixed h
    | inr free ↦ rw free (elim (Bool-cases (is_state s.state master)) [
      | inl m ↦ rw (m, append-nil) (accept_calls-Holds on s l h m (ground arith))
      | inr m ↦ rw m (unmoved-Holds s l on s.priority h (inl m))
    ])
  ])
]

has_address-insert :
    (b : IpAddress) (x : IpSubnet) (xs : List IpSubnet)
    → has_address b (set_insert subnet_less x xs) ≡ (same_address b x.address || has_address b xs)
unfolding set_insert
has_address-insert b x [] = ground arith
has_address-insert b x (z ∷ xs) = elim (Bool-cases (subnet_less x z)) [
  | inl e ↦ rw e refl
  | inr e ↦ rw e (elim (Bool-cases (subnet_less z x)) [
    | inl f ↦ rw f (ground (arith, has_address-insert b x xs))
    | inr f ↦ rw f (
        ground (
          arith,
          ap (λ (w : IpSubnet). same_address b w.address)
              (subnet_less-IsStrictOrder.connected x z e f),
        ))
  ])
]

-- `addIpAddress` keeps the host in step with the service, unless the service is a master that
-- leaves its addresses to the ARP service and has another output interface than its own.
pub add_ip_address-Holds :
    (x : IpSubnet) (s : Service) (l : Ledger)
    → Holds s l
    → (is_state s.state master ≡ false)
      ⊎ (on_interface s ≡ true)
      ⊎ (s.output_interface ≡ s.interface)
    → Holds (add_ip_address x s).service (replay (add_ip_address x s).calls l)
unfolding add_ip_address
add_ip_address-Holds x s l h c = elim (Bool-cases (number x.address.family == number s.family)) [
  | inr other ↦ rw other h
  | inl fits ↦ rw fits (elim (Bool-cases (is_state s.state master)) [
    | inr m ↦ rw m (record {
      assigned_right = λ j y. ground (arith, h.assigned_right j y, m);
      answered_right = λ j b. ground (arith, h.answered_right j b, m);
    })
    | inl m ↦ rw m (elim (Bool-cases (on_interface s)) [
      | inl on ↦ rw on (record {
        assigned_right = λ j y. ground (
          arith,
          h.assigned_right j y,
          m,
          on,
          set_contains-insert subnet_less subnet_less-IsStrictOrder y x s.subnets,
        );
        answered_right = λ j b. ground (arith, h.answered_right j b, m, on);
      })
      | inr off ↦ rw off (record {
        assigned_right = λ j y. ground (arith, h.assigned_right j y, m, off);
        answered_right =
            λ j b. ground (arith, h.answered_right j b, m, off, has_address-insert b x s.subnets);
      })
    ])
  ])
]

-- `removeIpAddress` keeps the host in step with the service, unless the service is a master that
-- leaves its addresses to the ARP service.
pub remove_ip_address-Holds :
    (x : IpSubnet) (s : Service) (l : Ledger)
    → Holds s l
    → (is_state s.state master ≡ false) ⊎ (on_interface s ≡ true)
    → Holds (remove_ip_address x s).service (replay (remove_ip_address x s).calls l)
unfolding remove_ip_address
remove_ip_address-Holds x s l h c = elim (Bool-cases (is_state s.state master)) [
  | inr m ↦ rw m (record {
    assigned_right = λ j y. ground (arith, h.assigned_right j y, m);
    answered_right = λ j b. ground (arith, h.answered_right j b, m);
  })
  | inl m ↦
      let on : on_interface s ≡ true = ground arith in
      rw (m, on)
        (record {
          assigned_right = λ j y. ground (
            arith,
            h.assigned_right j y,
            m,
            on,
            set_contains-erase subnet_less subnet_less-IsStrictOrder y x s.subnets,
          );
          answered_right = λ j b. ground (arith, h.answered_right j b, m, on);
        })
]
