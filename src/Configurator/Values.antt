-- ===== src/Configurator/Values.antt =====
-- The values of the configuration file, written and read.
use Prim.{tt, absurd}
use open_vrrp.Prelude.{
  ℕ, ◌+◌, ◌*◌, ◌/◌, ◌%◌, ◌^◌, ◌<◌, ◌≤◌, ltb, Bool, true, false, List, [], ◌∷◌, ◌++◌, some, length,
  take, u32, ℤ, pos, negsuc, word_of, int_of, IsInt, int_of-word_of, word_of-int_of, ◌≡◌, refl,
  arith, length-append, take-append, drop-append, append_assoc, ap, All, subst, ◌∙◌, int_of-IsInt,
  append-nil,
}
use open_vrrp.Address.{
  Family, unspec, inet, inet6, number, family_size, IpAddress, IpSubnet, subnet_less, IsSized,
}
use open_vrrp.Containers.{set_insert}
use open_vrrp.Configurator.{
  read_some, read_int, write_int, read_boolean, write_boolean, read_string, write_string, read_ip,
  write_ip, read_subnet, write_subnet, read_subnets, write_subnets, family_of, read_bytes,
}

bytes_of_word :
    (w : ℕ)
    → w < 2 ^ 32
    → w / 2 ^ 24 % 256 * 2 ^ 24 + w / 2 ^ 16 % 256 * 2 ^ 16 + w / 256 % 256 * 256 + w % 256 ≡ w
bytes_of_word w h = omega arith

word_of-lt : (z : ℤ) → word_of z < 2 ^ 32
word_of-lt (pos a) = omega arith
word_of-lt (negsuc a) = omega arith

pub read-write_int :
    (z : ℤ) (rest : List ℕ) → IsInt z → read_int (write_int z ++ rest) ≡ some (z, rest)
unfolding read_int write_int
read-write_int z rest h = rw (bytes_of_word (word_of z) (word_of-lt z), int_of-word_of z h) refl

pub read-write_word :
    (n : ℕ) (rest : List ℕ)
    → n < 2 ^ 32
    → read_int (write_int (int_of (u32 n)) ++ rest) ≡ some (int_of n, rest)
read-write_word n rest h =
    let same : u32 n ≡ n = omega arith in
    rw same (read-write_int (int_of n) rest (int_of-IsInt n h))

pub read-write_boolean :
    (b : Bool) (rest : List ℕ) → read_boolean (write_boolean b ++ rest) ≡ some (b, rest)
unfolding read_boolean write_boolean
read-write_boolean true rest = refl
read-write_boolean false rest = refl

read_some-append :
    (xs rest : List ℕ) (n : ℕ) → length xs ≡ n → read_some n (xs ++ rest) ≡ some (xs, rest)
unfolding read_some
read_some-append xs rest n e =
    let enough : ltb (length (xs ++ rest)) (length xs) ≡ false =
      ground (arith, length-append xs rest) in
    subst (λ k. read_some k (xs ++ rest) ≡ some (xs, rest)) e
      (rw (enough, take-append xs rest, drop-append xs rest) refl)

take-length : (xs : List ℕ) → take (length xs) xs ≡ xs
take-length [] = refl
take-length (x ∷ xs) = cc (take-length xs)

pub read-write_string :
    (s rest : List ℕ) → length s ≤ 255 → read_string (write_string s ++ rest) ≡ some (s, rest)
unfolding read_string write_string
read-write_string s rest h =
    let short : ltb 255 (length s) ≡ false = ground arith in
    rw (short, take-length s) (read_some-append s rest (length s) refl)

family_of-number : (f : Family) → family_of (pos (number f)) ≡ f
family_of-number unspec = refl
family_of-number inet = refl
family_of-number inet6 = refl

take-sized : (a : IpAddress) → IsSized a → take (family_size a.family) a.bytes ≡ a.bytes
take-sized a e = subst (λ k. take k a.bytes ≡ a.bytes) e (take-length a.bytes)

number-IsInt : (f : Family) → IsInt (pos (number f))
number-IsInt f = ground arith

read_bytes-append :
    (f : Family) (bytes rest : List ℕ)
    → length bytes ≡ family_size f
    → read_bytes f (bytes ++ rest) ≡ some (record { family = f; bytes = bytes }, rest)
unfolding family_size
read_bytes-append unspec [] rest e = refl
read_bytes-append unspec (b ∷ bytes) rest e = absurd (omega (arith, e))
read_bytes-append inet bytes rest e = rw (read_some-append bytes rest 4 e) refl
read_bytes-append inet6 bytes rest e = rw (read_some-append bytes rest 16 e) refl

pub read-write_ip :
    (a : IpAddress) (rest : List ℕ) → IsSized a → read_ip (write_ip a ++ rest) ≡ some (a, rest)
unfolding read_ip write_ip
read-write_ip a rest e =
    rw
      (
        append_assoc,
        read-write_int (pos (number a.family)) (take (family_size a.family) a.bytes ++ rest)
            (number-IsInt a.family),
        family_of-number a.family,
        take-sized a e,
      )
      (read_bytes-append a.family a.bytes rest e)

-- A subnet that the file can hold.
abbrev pub IsStorable : IpSubnet → Type 0
IsStorable x = IsSized x.address × (x.cidr < 2 ^ 32)

pub read-write_subnet :
    (x : IpSubnet) (rest : List ℕ)
    → IsStorable x
    → read_subnet (write_subnet x ++ rest) ≡ some (x, rest)
unfolding read_subnet write_subnet
read-write_subnet x rest (sized, small) =
    rw
      (
        append_assoc,
        read-write_ip x.address (write_int (int_of (u32 x.cidr)) ++ rest) sized,
        read-write_word x.cidr rest small,
        word_of-int_of x.cidr small,
      )
      refl

-- Each subnet comes after those before it in the order of the set.
abbrev pub IsAfter : IpSubnet → List IpSubnet → Type 0
IsAfter x = All (λ y. (subnet_less y x ≡ true) × (subnet_less x y ≡ false))

abbrev pub IsIncreasing : List IpSubnet → Type 0
IsIncreasing [] = Unit {0}
IsIncreasing (x ∷ xs) =
    All (λ y. (subnet_less x y ≡ true) × (subnet_less y x ≡ false)) xs × IsIncreasing xs

pub insert_last :
    (x : IpSubnet) (xs : List IpSubnet) → IsAfter x xs → set_insert subnet_less x xs ≡ xs ++ x ∷ []
unfolding set_insert
insert_last x [] h = refl
insert_last x (y ∷ ys) ((less, not_less), h) =
    rw (not_less, less) (ap (λ zs. y ∷ zs) (insert_last x ys h))

IsAfter-append :
    (x y : IpSubnet) (xs : List IpSubnet)
    → IsAfter x xs
    → (subnet_less y x ≡ true) × (subnet_less x y ≡ false)
    → IsAfter x (xs ++ y ∷ [])
IsAfter-append x y [] h k = (k, tt)
IsAfter-append x y (z ∷ xs) (k', h) k = (k', IsAfter-append x y xs h k)

-- Every subnet of the second list comes after all of the first.
abbrev pub IsBeyond : List IpSubnet → List IpSubnet → Type 0
IsBeyond xs = All (λ x. IsAfter x xs)

pub IsBeyond-append :
    (xs : List IpSubnet) (y : IpSubnet) (ys : List IpSubnet)
    → IsBeyond xs ys
    → All (λ z. (subnet_less y z ≡ true) × (subnet_less z y ≡ false)) ys
    → IsBeyond (xs ++ y ∷ []) ys
IsBeyond-append xs y [] h k = tt
IsBeyond-append xs y (z ∷ ys) (h, hs) (k, ks) =
    (IsAfter-append z y xs h k, IsBeyond-append xs y ys hs ks)

read-write_subnets_onto :
    (xs ys : List IpSubnet) (rest : List ℕ)
    → All IsStorable ys
    → IsIncreasing ys
    → IsBeyond xs ys
    → read_subnets (length ys) xs (write_subnets ys ++ rest) ≡ some (xs ++ ys, rest)
unfolding read_subnets write_subnets
read-write_subnets_onto xs [] rest stored up beyond = rw append-nil refl
read-write_subnets_onto xs (y ∷ ys) rest (s, stored) (u, up) (b, beyond) =
    rw (append_assoc, read-write_subnet y (write_subnets ys ++ rest) s, insert_last y xs b)
      (read-write_subnets_onto (xs ++ y ∷ []) ys rest stored up (IsBeyond-append xs y ys beyond u)
        ∙ ap (λ (zs : List IpSubnet). some (zs, rest)) (append_assoc xs (y ∷ []) ys))

pub empty-IsBeyond : (ys : List IpSubnet) → IsBeyond [] ys
empty-IsBeyond [] = tt
empty-IsBeyond (y ∷ ys) = (tt, empty-IsBeyond ys)

-- A set of subnets in its order, written and read.
pub read-write_subnets :
    (ys : List IpSubnet) (rest : List ℕ)
    → All IsStorable ys
    → IsIncreasing ys
    → read_subnets (length ys) [] (write_subnets ys ++ rest) ≡ some (ys, rest)
read-write_subnets ys rest stored up =
    read-write_subnets_onto [] ys rest stored up (empty-IsBeyond ys)
