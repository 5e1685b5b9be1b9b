-- ===== src/Socket/Sums.antt =====
-- The bytes of a packet that sendPacket builds, and its checksum.
use Prim.{tt}
use open_vrrp.Prelude.{
  ℕ, ◌+◌, ◌*◌, ◌/◌, ◌%◌, ◌^◌, ◌<◌, ◌≤◌, ◌==◌, ltb, true, false, List, [], ◌∷◌, ◌++◌, some, length,
  All, IsByte, ◌≡◌, ◌≢◌, refl, arith, ◌∙◌, length-append, append-nil,
}
use open_vrrp.Address.{Family, unspec, inet, inet6, number, family_size, IpAddress}
use open_vrrp.Checksum.{be16, be32, pseudo_header, checksum, checksum_with, complement}
use open_vrrp.Checksum.Fold.{folded}
use open_vrrp.Checksum.Sum.{word_sum, word_sum-le}
use open_vrrp.Checksum.Verify.{checksum_with_lem, checksum_verifies}
use open_vrrp.Socket.{multicast_address}
use open_vrrp.Socket.Send.{built, copy_addresses, header}

-- An address of a family: it has its size, and its bytes are bytes.
pub record IsOf (family : Family) (a : IpAddress) : Type 0 where
  pub of : a.family ≡ family
  pub sized : length a.bytes ≡ family_size family
  pub bytes : All IsByte a.bytes

-- The bytes of addresses one after the other.
abbrev pub joined : List IpAddress → List ℕ
joined [] = []
joined (a ∷ more) = a.bytes ++ joined more

pub All-append : (xs ys : List ℕ) → All IsByte xs → All IsByte ys → All IsByte (xs ++ ys)
All-append [] ys h k = k
All-append (x ∷ xs) ys (p, h) k = (p, All-append xs ys h k)

pub joined-IsByte :
    (family : Family) (xs : List IpAddress) → All (IsOf family) xs → All IsByte (joined xs)
joined-IsByte family [] h = tt
joined-IsByte family (a ∷ xs) (p, h) =
    All-append a.bytes (joined xs) p.bytes (joined-IsByte family xs h)

pub length-joined :
    (family : Family) (xs : List IpAddress)
    → All (IsOf family) xs
    → length (joined xs) ≡ length xs * family_size family
length-joined family [] h = omega arith
length-joined family (a ∷ xs) (p, h) =
    rw (length-append, p.sized, length-joined family xs h) (omega arith)

pub copied_all :
    (family : Family) (offset : ℕ) (xs : List IpAddress)
    → All (IsOf family) xs
    → offset + length xs * family_size family ≤ 2048
    → copy_addresses family offset xs ≡ built (joined xs)
unfolding copy_addresses
copied_all family offset [] h le = refl
copied_all family offset (a ∷ xs) (p, h) le =
    let rest : copy_addresses family (offset + family_size family) xs ≡ built (joined xs) =
      copied_all family (offset + family_size family) xs h (omega arith) in
    let fits : ltb 2048 (offset + family_size family) ≡ false = ground arith in
    let same : (number a.family == number family) ≡ true = rw p.of (ground arith) in
    rw (same, fits, rest) refl

-- The 16-bit words of an address.
abbrev pub words : Family → ℕ
words inet = 2
words inet6 = 8
words unspec = 0

pub family_size-words : (family : Family) → family_size family ≡ 2 * words family
unfolding family_size
family_size-words inet = refl
family_size-words inet6 = refl
family_size-words unspec = refl

-- The pseudo header of a packet: it has an even number of bytes, 40 at most.
pub record IsHeader (pseudo : List ℕ) : Type 0 where
  count : ℕ
  even : length pseudo ≡ 2 * count
  few : count ≤ 20
  bytes : All IsByte pseudo

be16-IsByte : (n : ℕ) → All IsByte (be16 n)
be16-IsByte n = (omega arith, (omega arith, tt))

be32-IsByte : (n : ℕ) → All IsByte (be32 n)
be32-IsByte n = (omega arith, (omega arith, (omega arith, (omega arith, tt))))

headed :
    (family : Family) (a : IpAddress) (tail : List ℕ) (n : ℕ)
    → IsOf family a
    → length tail ≡ 2 * n
    → words family + n ≤ 20
    → All IsByte tail
    → IsHeader (a.bytes ++ tail)
headed family a tail n h e le bytes = record {
  count = words family + n;
  even = omega (arith, length-append a.bytes tail, h.sized, family_size-words family, e);
  few = le;
  bytes = All-append a.bytes tail h.bytes bytes;
}

pseudo_header-IsHeader :
    (family : Family) (a : IpAddress) (size : ℕ)
    → family ≢ unspec
    → IsOf family a
    → (pseudo : List ℕ) × (pseudo_header a (multicast_address family) size 112 ≡ some pseudo)
      × IsHeader pseudo
unfolding pseudo_header
pseudo_header-IsHeader unspec a size f h = absurd (f refl)
pseudo_header-IsHeader inet a size f h =
    let tail : List ℕ = (224 ∷ 0 ∷ 0 ∷ 18 ∷ []) ++ (0 ∷ (112 % 256) ∷ be16 size) in
    (a.bytes ++ tail, rw h.of refl, headed inet a tail 4 h refl (omega arith) (ground arith))
pseudo_header-IsHeader inet6 a size f h =
    let multicast : List ℕ = (multicast_address inet6).bytes in
    let tail : List ℕ = multicast ++ (be32 size ++ be32 112) in
    (
      a.bytes ++ tail,
      rw h.of refl,
      headed inet6 a tail 12 h refl (omega arith) (
          All-append multicast (be32 size ++ be32 112) (ground arith)
            (All-append (be32 size) (be32 112) (be32-IsByte size) (be32-IsByte 112))),
    )

pub header-IsByte : (vrid prio count interval : ℕ) → All IsByte (header vrid prio count interval)
header-IsByte vrid prio count interval = ground arith

-- A packet with an empty checksum, and with the checksum that sendPacket writes.
abbrev pub empty : List ℕ → List ℕ → List ℕ
empty front body = front ++ 0 ∷ 0 ∷ body

abbrev pub filled : List ℕ → ℕ → List ℕ → List ℕ
filled front c body = front ++ (c / 256) ∷ (c % 256) ∷ body

checksum-some :
    (a m : IpAddress) (packet pseudo : List ℕ) (size : ℕ)
    → pseudo_header a m size 112 ≡ some pseudo
    → checksum packet size a m 112 ≡ checksum_with pseudo packet size
unfolding checksum
checksum-some a m packet pseudo size e = rw (e, checksum) refl

pub checksum-filled :
    (family : Family) (a : IpAddress) (n : ℕ) (front body rest : List ℕ)
    → family ≢ unspec
    → IsOf family a
    → length front ≡ 2 * 3
    → length (empty front body) ≡ 2 * n
    → n ≤ 1024
    → All IsByte (empty front body)
    → (c : ℕ) × (checksum
          (empty front body)
          (length (empty front body))
          a
          (multicast_address family)
          112
        ≡ some c)
      × (checksum
            (filled front c body ++ rest)
            (length (filled front c body))
            a
            (multicast_address family)
            112
          ≡ some 0)
checksum-filled family a n front body rest f h six e le bytes =
    let (pseudo, made, header) = pseudo_header-IsHeader family a (2 * n) f h in
    let small : word_sum pseudo + word_sum (empty front body) < 2 ^ 31 = omega (
      arith,
      word_sum-le header.count pseudo (omega (arith, header.even)) header.bytes,
      word_sum-le n (empty front body) (omega (arith, e)) bytes,
      header.few,
    ) in
    let c : ℕ = complement (folded (word_sum pseudo + word_sum (empty front body))) in
    let sum : checksum_with pseudo (empty front body) (2 * n) ≡ some c =
      rw append-nil at (
        checksum_with_lem header.count n pseudo (empty front body) [] header.even e
          (omega arith)) in
    let same : length (filled front c body) ≡ 2 * n = omega (
      arith,
      e,
      length-append front (0 ∷ 0 ∷ body),
      length-append front ((c / 256) ∷ (c % 256) ∷ body),
    ) in
    let m : IpAddress = multicast_address family in
    (
      c,
      rw e (checksum-some a m (empty front body) pseudo (2 * n) made ∙ sum),
      rw same (
          checksum-some a m (filled front c body ++ rest) pseudo (2 * n) made
          ∙ checksum_verifies header.count 3 n c pseudo front body rest header.even six e small
              sum),
    )
