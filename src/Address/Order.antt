-- ===== src/Address/Order.antt =====
-- The order of addresses and subnets, by which the program's sets are kept.
use open_vrrp.Prelude.{
  ℕ, ◌≡◌, refl, ap, Bool, true, false, List, [], ◌∷◌, ◌↔◌, ◌≢◌, Ordering, arith,
}
use open_vrrp.Address.{
  Family, number, IpAddress, IpSubnet, memcmp, less, greater, equal, subnet_less,
}

-- What std::set and std::map ask of a comparison, and that no two keys are equivalent.
pub record IsStrictOrder {ℓ} {A : Type ℓ} (lt : A → A → Bool) : Type ℓ where
  pub irreflexive : (a : A) → lt a a ≡ false
  pub transitive : (a b c : A) → lt a b ≡ true → lt b c ≡ true → lt a c ≡ true
  pub connected : (a b : A) → lt a b ≡ false → lt b a ≡ false → a ≡ b

memcmp_refl : (xs : List ℕ) → memcmp xs xs ≡ Ordering.eq
unfolding memcmp
memcmp_refl [] = refl
memcmp_refl (x ∷ xs) = ground (arith, memcmp_refl xs)

memcmp_eq : (xs ys : List ℕ) → memcmp xs ys ≡ Ordering.eq → xs ≡ ys
unfolding memcmp
memcmp_eq [] [] e = refl
memcmp_eq [] (y ∷ ys) e = cc
memcmp_eq (x ∷ xs) [] e = cc
memcmp_eq (x ∷ xs) (y ∷ ys) e = ground (arith, memcmp_eq xs ys)

memcmp_flip : (xs ys : List ℕ) → memcmp xs ys ≡ Ordering.lt → memcmp ys xs ≡ Ordering.gt
unfolding memcmp
memcmp_flip [] [] e = cc
memcmp_flip [] (y ∷ ys) e = refl
memcmp_flip (x ∷ xs) [] e = cc
memcmp_flip (x ∷ xs) (y ∷ ys) e = ground (arith, memcmp_flip xs ys)

memcmp_flip_gt : (xs ys : List ℕ) → memcmp xs ys ≡ Ordering.gt → memcmp ys xs ≡ Ordering.lt
unfolding memcmp
memcmp_flip_gt [] [] e = cc
memcmp_flip_gt [] (y ∷ ys) e = cc
memcmp_flip_gt (x ∷ xs) [] e = refl
memcmp_flip_gt (x ∷ xs) (y ∷ ys) e = ground (arith, memcmp_flip_gt xs ys)

memcmp_trans :
    (xs ys zs : List ℕ)
    → memcmp xs ys ≡ Ordering.lt
    → memcmp ys zs ≡ Ordering.lt
    → memcmp xs zs ≡ Ordering.lt
unfolding memcmp
memcmp_trans [] [] zs e f = cc
memcmp_trans [] (y ∷ ys) [] e f = cc
memcmp_trans [] (y ∷ ys) (z ∷ zs) e f = refl
memcmp_trans (x ∷ xs) [] zs e f = cc
memcmp_trans (x ∷ xs) (y ∷ ys) [] e f = cc
memcmp_trans (x ∷ xs) (y ∷ ys) (z ∷ zs) e f = ground (arith, memcmp_trans xs ys zs)

pub number-injective : (f g : Family) → number f ≡ number g → f ≡ g
number-injective f g e = ground arith

-- `greater` is `less` the other way round.
pub greater-less : (a b : IpAddress) → greater a b ≡ less b a
unfolding greater less
greater-less a b = ground (
  arith,
  memcmp_flip a.bytes b.bytes,
  memcmp_flip b.bytes a.bytes,
  memcmp_flip_gt a.bytes b.bytes,
  memcmp_flip_gt b.bytes a.bytes,
  memcmp_eq a.bytes b.bytes,
  memcmp_eq b.bytes a.bytes,
)

less_refl : (a : IpAddress) → less a a ≡ false
unfolding less
less_refl a = ground (arith, memcmp_refl a.bytes)

less_trans : (a b c : IpAddress) → less a b ≡ true → less b c ≡ true → less a c ≡ true
unfolding less
less_trans a b c h k = ground (arith, memcmp_trans a.bytes b.bytes c.bytes)

less_connected : (a b : IpAddress) → less a b ≡ false → less b a ≡ false → a ≡ b
unfolding less
less_connected a b h k = ground (
  arith,
  memcmp_eq a.bytes b.bytes,
  memcmp_flip_gt a.bytes b.bytes,
  number-injective a.family b.family,
)

-- `operator <` is a strict total order of addresses.
pub less-IsStrictOrder : IsStrictOrder less
less-IsStrictOrder = record {
  irreflexive = less_refl;
  transitive = less_trans;
  connected = less_connected;
}

subnet_less_trans :
    (a b c : IpSubnet) → subnet_less a b ≡ true → subnet_less b c ≡ true → subnet_less a c ≡ true
unfolding subnet_less
subnet_less_trans a b c h k = ground (
  arith,
  greater-less a.address b.address,
  greater-less b.address c.address,
  greater-less a.address c.address,
  less_connected a.address b.address,
  less_connected b.address c.address,
  less_trans a.address b.address c.address,
  less_trans b.address c.address a.address,
  less_trans c.address a.address b.address,
  less_refl a.address,
)

subnet_less_connected : (a b : IpSubnet) → subnet_less a b ≡ false → subnet_less b a ≡ false → a ≡ b
unfolding subnet_less
subnet_less_connected a b h k = ground (
  arith,
  greater-less a.address b.address,
  greater-less b.address a.address,
  less_connected a.address b.address,
)

subnet_less_refl : (a : IpSubnet) → subnet_less a a ≡ false
unfolding subnet_less
subnet_less_refl a = ground (arith, less_refl a.address, greater-less a.address a.address)

-- `operator <` is a strict total order of subnets.
pub subnet_less-IsStrictOrder : IsStrictOrder subnet_less
subnet_less-IsStrictOrder = record {
  irreflexive = subnet_less_refl;
  transitive = subnet_less_trans;
  connected = subnet_less_connected;
}

-- `operator ==` holds exactly of two different addresses of one family.
pub equal_differs : (a b : IpAddress) → (equal a b ≡ true) ↔ ((a.family ≡ b.family) × (a ≢ b))
unfolding equal
equal_differs a b = (
  λ h. (
    number-injective a.family b.family (ground arith),
    λ e. ground (arith, e, ap (λ (c : IpAddress). memcmp a.bytes c.bytes) e, memcmp_refl a.bytes),
  ),
  λ h. ground (arith, h.0, h.1, memcmp_eq a.bytes b.bytes),
)
