-- ===== src/Ledger/Replay.antt =====
-- The ledger after the loops over the subnets, and after calls that touch neither table.
use open_vrrp.Prelude.{
  ℕ, ◌==◌, Bool, not, ◌&&◌, ◌||◌, List, [], ◌∷◌, ◌++◌, map, ◌≡◌, refl, Option, none, some, arith,
}
use open_vrrp.Address.{IpAddress, IpSubnet, subnet_less}
use open_vrrp.Containers.{set_contains}
use open_vrrp.Service.{
  Call, netlink_add, netlink_remove, add_fake_arp, remove_fake_arp, gratuitous_arp,
}
use open_vrrp.Service.Actions.{toggle_if_any, script_if_any}
use open_vrrp.Ledger.{Ledger, apply, replay, has_address}

pub replay-append : (cs ds : List Call) (l : Ledger) → replay (cs ++ ds) l ≡ replay ds (replay cs l)
replay-append [] ds l = refl
replay-append (c ∷ cs) ds l = replay-append cs ds (apply c l)

pub replay-toggles : (o : Option ℕ) (up : Bool) (l : Ledger) → replay (toggle_if_any o up) l ≡ l
replay-toggles none up l = refl
replay-toggles (some i) up l = refl

pub replay-script : (c : List ℕ) (l : Ledger) → replay (script_if_any c) l ≡ l
replay-script [] l = refl
replay-script (c ∷ cs) l = refl

pub replay-arps :
    (i : ℕ) (others : List IpAddress) (l : Ledger) → replay (map (gratuitous_arp i) others) l ≡ l
replay-arps i [] l = refl
replay-arps i (a ∷ others) l = replay-arps i others l

module _ (i : ℕ) where
  pub assigned-add_all :
      (xs : List IpSubnet) (l : Ledger) (j : ℕ) (y : IpSubnet)
      → (replay (map (netlink_add i) xs) l).assigned j y
        ≡ ((j == i && set_contains subnet_less y xs) || l.assigned j y)
  unfolding set_contains
  assigned-add_all [] l j y = ground arith
  assigned-add_all (x ∷ xs) l j y =
      ground (arith, assigned-add_all xs (apply (netlink_add i x) l) j y)

  pub answered-add_all :
      (xs : List IpSubnet) (l : Ledger) (j : ℕ) (b : IpAddress)
      → (replay (map (netlink_add i) xs) l).answered j b ≡ l.answered j b
  answered-add_all [] l j b = refl
  answered-add_all (x ∷ xs) l j b = answered-add_all xs (apply (netlink_add i x) l) j b

  pub assigned-remove_all :
      (xs : List IpSubnet) (l : Ledger) (j : ℕ) (y : IpSubnet)
      → (replay (map (netlink_remove i) xs) l).assigned j y
        ≡ (not (j == i && set_contains subnet_less y xs) && l.assigned j y)
  unfolding set_contains
  assigned-remove_all [] l j y = ground arith
  assigned-remove_all (x ∷ xs) l j y =
      ground (arith, assigned-remove_all xs (apply (netlink_remove i x) l) j y)

  pub answered-remove_all :
      (xs : List IpSubnet) (l : Ledger) (j : ℕ) (b : IpAddress)
      → (replay (map (netlink_remove i) xs) l).answered j b ≡ l.answered j b
  answered-remove_all [] l j b = refl
  answered-remove_all (x ∷ xs) l j b = answered-remove_all xs (apply (netlink_remove i x) l) j b

  module _ (mac : List ℕ) where
    abbrev pub fake_all : List IpSubnet → List Call
    fake_all = map (λ subnet. add_fake_arp i subnet.address mac)

    pub answered-fake_all :
        (xs : List IpSubnet) (l : Ledger) (j : ℕ) (b : IpAddress)
        → (replay (fake_all xs) l).answered j b ≡ ((j == i && has_address b xs) || l.answered j b)
    answered-fake_all [] l j b = ground arith
    answered-fake_all (x ∷ xs) l j b =
        ground (arith, answered-fake_all xs (apply (add_fake_arp i x.address mac) l) j b)

    pub assigned-fake_all :
        (xs : List IpSubnet) (l : Ledger) (j : ℕ) (y : IpSubnet)
        → (replay (fake_all xs) l).assigned j y ≡ l.assigned j y
    assigned-fake_all [] l j y = refl
    assigned-fake_all (x ∷ xs) l j y =
        assigned-fake_all xs (apply (add_fake_arp i x.address mac) l) j y

  abbrev pub unfake_all : List IpSubnet → List Call
  unfake_all = map (λ subnet. remove_fake_arp i subnet.address)

  pub answered-unfake_all :
      (xs : List IpSubnet) (l : Ledger) (j : ℕ) (b : IpAddress)
      → (replay (unfake_all xs) l).answered j b
        ≡ (not (j == i && has_address b xs) && l.answered j b)
  answered-unfake_all [] l j b = ground arith
  answered-unfake_all (x ∷ xs) l j b =
      ground (arith, answered-unfake_all xs (apply (remove_fake_arp i x.address) l) j b)

  pub assigned-unfake_all :
      (xs : List IpSubnet) (l : Ledger) (j : ℕ) (y : IpSubnet)
      → (replay (unfake_all xs) l).assigned j y ≡ l.assigned j y
  assigned-unfake_all [] l j y = refl
  assigned-unfake_all (x ∷ xs) l j y =
      assigned-unfake_all xs (apply (remove_fake_arp i x.address) l) j y
