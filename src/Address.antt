-- ===== src/Address.antt =====
-- src/ipaddress.h, src/ipaddress.cpp, src/ipsubnet.h and src/ipsubnet.cpp: addresses, subnets and
-- their order. The text forms and the port of a socket address are left out.
pub mod Order
pub mod Parse
use open_vrrp.Prelude.{
  ℕ, suc, ◌*◌, Ordering, compare, ltb, ◌==◌, if◌then◌else◌, Bool, true, false, not, ◌&&◌, List, [],
  ◌∷◌, length, ◌≡◌,
}

-- `sa_family` of the union: AF_UNSPEC, AF_INET or AF_INET6.
pub data Family : Type 0 where
  unspec inet inet6 : Family

-- The value of the constant.
abbrev pub number : Family → ℕ
number unspec = 0
number inet = 2
number inet6 = 10

-- `bytes` is what `data()` points at, in network order.
pub record IpAddress : Type 0 where
  pub family : Family
  pub bytes : List ℕ

unfoldable pub family_size : Family → ℕ
family_size inet = 4
family_size inet6 = 16
family_size unspec = 0

unfoldable pub size : IpAddress → ℕ
unfolding family_size
size a = family_size a.family

-- The default constructor.
abbrev pub no_address : IpAddress
no_address = record { family = unspec; bytes = [] }

-- As many bytes as the family says.
abbrev pub IsSized : IpAddress → Type 0
IsSized a = length a.bytes ≡ family_size a.family

-- The sign of `memcmp` on two buffers of one size.
pub memcmp : List ℕ → List ℕ → Ordering
memcmp [] [] = Ordering.eq
memcmp [] (y ∷ ys) = Ordering.lt
memcmp (x ∷ xs) [] = Ordering.gt
memcmp (x ∷ xs) (y ∷ ys) =
    let rest = memcmp xs ys in
    elim (compare x y) [
      | Ordering.lt ↦ Ordering.lt
      | Ordering.eq ↦ rest
      | Ordering.gt ↦ Ordering.gt
    ]

abbrev is_lt : Ordering → Bool
is_lt Ordering.lt = true
is_lt _ = false

abbrev is_gt : Ordering → Bool
is_gt Ordering.gt = true
is_gt _ = false

abbrev is_eq : Ordering → Bool
is_eq Ordering.eq = true
is_eq _ = false

-- `operator <`
unfoldable pub less : IpAddress → IpAddress → Bool
unfolding memcmp
less a b =
    if ltb (number a.family) (number b.family)
    then true
    else if ltb (number b.family) (number a.family)
    then false
    else is_lt (memcmp a.bytes b.bytes)

-- `operator >`
unfoldable pub greater : IpAddress → IpAddress → Bool
unfolding memcmp
greater a b =
    if ltb (number b.family) (number a.family)
    then true
    else if ltb (number a.family) (number b.family)
    then false
    else is_gt (memcmp a.bytes b.bytes)

-- `operator ==`, with the result of `memcmp` read as a truth value.
unfoldable pub equal : IpAddress → IpAddress → Bool
unfolding memcmp
equal a b = (number a.family == number b.family) && not (is_eq (memcmp a.bytes b.bytes))

pub record IpSubnet : Type 0 where
  pub address : IpAddress
  pub cidr : ℕ

-- The constructor from an address alone.
unfoldable pub host_subnet : IpAddress → IpSubnet
host_subnet a = record { address = a; cidr = size a * 8 }

-- `operator <` of IpSubnet
unfoldable pub subnet_less : IpSubnet → IpSubnet → Bool
subnet_less s t =
    if less s.address t.address
    then true
    else if greater s.address t.address
    then false
    else if ltb s.cidr t.cidr
    then true
    else false
