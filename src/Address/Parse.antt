-- ===== src/Address/Parse.antt =====
-- The constructors of addresses and subnets from texts. inet_pton, of the system, is an argument:
-- the bytes of an address of a family, or `none`. Ports are left out.
use open_vrrp.Prelude.{
  ℕ, ◌≤◌, ◌==◌, leb, if◌then◌else◌, List, [], ◌∷◌, ◌++◌, Option, none, some, length, word_of, ◌≡◌,
  arith, All, ◌≢◌,
}
use open_vrrp.Address.{Family, inet, inet6, IpAddress, no_address, IpSubnet, host_subnet}
use open_vrrp.Text.{split_at, atoi}

abbrev pub Pton : Type 0
Pton = Family → List ℕ → Option (List ℕ)

module _ (inet_pton : Pton) where
  abbrev convert : Family → List ℕ → IpAddress
  convert family text = elim (inet_pton family text) [
    | none ↦ no_address
    | some bytes ↦ record { family = family; bytes = bytes }
  ]

  -- Behind an opening bracket; `sizeof(INET6_ADDRSTRLEN)` is the size of an int.
  abbrev parse_bracketed : List ℕ → IpAddress
  parse_bracketed text = elim (split_at b']' text) [
    | none ↦ no_address
    | some (inside, port) ↦ if leb (length inside) 4 then convert inet6 inside else no_address
  ]

  abbrev parse_plain : List ℕ → IpAddress
  parse_plain text = elim (inet_pton inet6 text) [
    | some bytes ↦ record { family = inet6; bytes = bytes }
    | none ↦ elim (split_at b':' text) [
      | some (address, port) ↦ if leb (length address) 16 then convert inet address else no_address
      | none ↦ convert inet text
    ]
  ]

  unfoldable pub parse_address : List ℕ → IpAddress
  parse_address [] = parse_plain []
  parse_address (c ∷ text) = if c == b'[' then parse_bracketed text else parse_plain (c ∷ text)

  unfoldable pub parse_subnet : List ℕ → IpSubnet
  parse_subnet text = elim (split_at b'/' text) [
    | none ↦ host_subnet (parse_address text)
    | some (address, mask) ↦ record { address = parse_address address; cidr = word_of (atoi mask) }
  ]

split_at-append :
    (c : ℕ) (xs ys : List ℕ) → All (λ x. x ≢ c) xs → split_at c (xs ++ c ∷ ys) ≡ some (xs, ys)
unfolding split_at
split_at-append c [] ys h = ground arith
split_at-append c (x ∷ xs) ys (n, h) = ground (arith, split_at-append c xs ys h)

-- An IPv6 address in brackets is refused if it has more than four characters, whatever inet_pton
-- says of it and whatever follows the brackets.
pub bracketed_refused :
    (inet_pton : Pton) (inside port : List ℕ)
    → All (λ x. x ≢ b']') inside
    → 5 ≤ length inside
    → parse_address inet_pton (b'[' ∷ (inside ++ b']' ∷ port)) ≡ no_address
unfolding parse_address
bracketed_refused inet_pton inside port h long = ground (arith, split_at-append b']' inside port h)
