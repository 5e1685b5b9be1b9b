-- ===== src/Checksum.antt =====
-- src/util.cpp: Util::checksum, the checksum of RFC 1071 over a pseudo header and a packet. A
-- buffer is a list of bytes; `none` is a read past its end. The result is the number before its
-- last `htons`, so its high byte is the first in memory.
pub mod Fold
pub mod Sum
pub mod Verify
use open_vrrp.Prelude.{
  ℕ, zero, suc, ◌+◌, ◌-◌, ◌*◌, ◌/◌, ◌%◌, ◌^◌, ◌==◌, if◌then◌else◌, List, [], ◌∷◌, ◌++◌, Option,
  none, some, length, u32,
}
use open_vrrp.Address.{Family, unspec, inet, inet6, IpAddress}

-- `htons` and `htonl` of a number, as the bytes in memory.
abbrev pub be16 : ℕ → List ℕ
be16 n = (n / 256 % 256) ∷ (n % 256) ∷ []

abbrev pub be32 : ℕ → List ℕ
be32 n = (n / 2 ^ 24 % 256) ∷ (n / 2 ^ 16 % 256) ∷ (n / 256 % 256) ∷ (n % 256) ∷ []

-- The pseudo header, by the families of the addresses; `none` is the early return of 0.
abbrev pub pseudo_header_of : Family → Family → List ℕ → List ℕ → ℕ → ℕ → Option (List ℕ)
pseudo_header_of inet inet src dst size protocol =
    some (src ++ (dst ++ (0 ∷ (protocol % 256) ∷ be16 size)))
pseudo_header_of inet6 inet6 src dst size protocol =
    some (src ++ (dst ++ (be32 size ++ be32 protocol)))
pseudo_header_of _ _ src dst size protocol = none

unfoldable pub pseudo_header : IpAddress → IpAddress → ℕ → ℕ → Option (List ℕ)
pseudo_header src dst = pseudo_header_of src.family dst.family src.bytes dst.bytes

-- `for (i = 0; i != count; ++i, ++ptr) sum += ntohs(*ptr)`
unfoldable pub add_words : ℕ → List ℕ → ℕ → Option ℕ
add_words zero bytes sum = some sum
add_words (suc count) [] sum = none
add_words (suc count) (a ∷ []) sum = none
add_words (suc count) (a ∷ b ∷ bytes) sum = add_words count bytes (u32 (sum + (a * 256 + b)))

-- `while (sum >> 16) sum = (sum & 0xFFFF) + (sum >> 16)`, with fuel.
unfoldable pub fold : ℕ → ℕ → Option ℕ
fold zero sum = none
fold (suc fuel) sum =
    let rest = fold fuel (u32 (sum % 2 ^ 16 + sum / 2 ^ 16)) in
    if sum / 2 ^ 16 == 0 then some sum else rest

-- `~sum & 0xFFFF`
abbrev pub complement : ℕ → ℕ
complement sum = (2 ^ 32 - 1 - sum) % 2 ^ 16

infixl 5 ◌>>=◌
abbrev pub ◌>>=◌ {ℓ κ} : {A : Type ℓ} {B : Type κ} → Option A → (A → Option B) → Option B
none >>= f = none
some a >>= f = f a

-- Three rounds are enough for the loop: see Fold.
unfoldable pub checksum_with : List ℕ → List ℕ → ℕ → Option ℕ
unfolding add_words fold
checksum_with pseudo packet size = do
  head ← add_words (length pseudo / 2) pseudo 0
  sum ← add_words (size / 2) packet head
  folded ← fold 3 sum
  some (complement folded)

unfoldable pub checksum : List ℕ → ℕ → IpAddress → IpAddress → ℕ → Option ℕ
unfolding checksum_with pseudo_header
checksum packet size src dst protocol = elim (pseudo_header src dst size protocol) [
  | none ↦ some 0
  | some pseudo ↦ checksum_with pseudo packet size
]
