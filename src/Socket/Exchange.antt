-- ===== src/Socket/Exchange.antt =====
-- A packet of sendPacket, as onSocketPacket receives it.
use Prim.{tt}
use open_vrrp.Prelude.{
  ℕ, ◌+◌, ◌*◌, ◌/◌, ◌%◌, ◌<◌, ◌≤◌, ◌==◌, ltb, true, false, List, [], ◌∷◌, ◌++◌, some, length, All,
  IsByte, ◌≡◌, ◌≢◌, refl, arith, ap,
}
use open_vrrp.Address.{Family, unspec, inet, inet6, number, family_size, IpAddress, IsSized}
use open_vrrp.Checksum.{checksum}
use open_vrrp.Containers.{map_find}
use open_vrrp.Socket.{multicast_address}
use open_vrrp.Socket.Send.{built, Datagram, send_packet, header}
use open_vrrp.Socket.Receive.{
  Notice, advertised, Counters, Input, read_addresses, handle_packet, handle_type, deliver,
  checksum_passes,
}
use open_vrrp.Socket.RoundTrip.{read-copy_addresses}
use open_vrrp.Socket.Sums.{
  IsOf, joined, joined-IsByte, length-joined, copied_all, words, family_size-words, All-append,
  header-IsByte, empty, filled, checksum-filled,
}

-- The values that fit a packet.
pub record IsSendable (family : Family) (vrid prio interval : ℕ) (source : IpAddress)
    (addresses : List IpAddress) : Type 0 where
  pub versioned : family ≢ unspec
  pub vrid_fits : vrid < 256
  pub prio_fits : prio < 256
  pub interval_fits : interval < 4096
  pub count_fits : length addresses < 256
  pub room : 8 + length addresses * family_size family ≤ 2048
  pub from : IsOf family source
  pub all : All (IsOf family) addresses

-- What a listener is told.
abbrev pub as_sent : ℕ → ℕ → ℕ → ℕ → IpAddress → List IpAddress → Notice
as_sent listener vrid prio interval source addresses = advertised listener vrid (record {
  source = source;
  prio = prio;
  max_advertisement_interval = interval;
  addresses = addresses;
})

-- The packet as recvmsg gives it, with anything behind it in the buffer.
abbrev pub received : Datagram → List ℕ → Input
received d rest = record {
  source = d.source;
  destination = d.destination;
  packet = d.bytes ++ rest;
  size = length d.bytes;
  ttl = 255;
}

all-IsSized : (family : Family) (xs : List IpAddress) → All (IsOf family) xs → All IsSized xs
all-IsSized family [] h = tt
all-IsSized family (a ∷ xs) (p, h) = (rw p.of p.sized, all-IsSized family xs h)

known : (family : Family) → (number (multicast_address family).family == number unspec) ≡ false
known inet = refl
known inet6 = refl
known unspec = refl

module _ (family : Family) (interface vrid prio interval : ℕ) (source : IpAddress)
    (addresses : List IpAddress) (h : IsSendable family vrid prio interval source addresses) where
  abbrev front : List ℕ
  front = header vrid prio (length addresses) interval

  abbrev half : ℕ
  half = 4 + length addresses * words family

  length-empty : length (empty front (joined addresses)) ≡ 2 * half
  length-empty = omega (
    arith,
    length-joined family addresses h.all,
    family_size-words family,
    ap (λ n. length addresses * n) (family_size-words family),
  )

  few : half ≤ 1024
  few = omega (arith, h.room, ap (λ n. length addresses * n) (family_size-words family))

  -- sendPacket builds a packet.
  sent :
      (c : ℕ)
      → checksum
          (empty front (joined addresses))
          (length (empty front (joined addresses)))
          source
          (multicast_address family)
          112
        ≡ some c
      → send_packet family (multicast_address family) interface source vrid prio interval addresses
        ≡ built (record {
          interface = interface;
          source = source;
          destination = multicast_address family;
          bytes = filled front c (joined addresses);
        })
  unfolding send_packet
  sent c e =
      let same : (number source.family == number family) ≡ true = rw h.from.of (ground arith) in
      rw (same, copied_all family 8 addresses h.all h.room) (rw e refl)

  handled :
      (c : ℕ) (rest : List ℕ) (listeners : List (ℕ × ℕ)) (listener : ℕ) (counters : Counters)
      → checksum
          (filled front c (joined addresses) ++ rest)
          (length (filled front c (joined addresses)))
          source
          (multicast_address family)
          112
        ≡ some 0
      → map_find ltb vrid listeners ≡ some listener
      → handle_packet family listeners
          (received
            (record {
              interface = interface;
              source = source;
              destination = multicast_address family;
              bytes = filled front c (joined addresses);
            })
            rest)
          counters
        ≡ some (record {
          accepted = true;
          notices = as_sent listener vrid prio interval source addresses ∷ [];
          counters = counters;
        })
  unfolding handle_packet handle_type deliver checksum_passes
  handled c rest listeners listener counters e found =
      let big : ltb (length (filled front c (joined addresses))) 8 ≡ false = ground arith in
      let versioned : (number (multicast_address family).family == number unspec) ≡ false =
        known family in
      let room : ltb (length (filled front c (joined addresses)))
            (8 + length addresses * family_size family)
          ≡ false =
        ground (arith, length-joined family addresses h.all) in
      let v : vrid % 256 ≡ vrid = omega (arith, h.vrid_fits) in
      let n : length addresses % 256 ≡ length addresses = omega (arith, h.count_fits) in
      let t : interval / 256 % 16 % 16 * 256 + interval % 256 ≡ interval =
        omega (arith, h.interval_fits) in
      let read : read_addresses (length addresses) family (joined addresses ++ rest)
          ≡ some addresses =
        read-copy_addresses family 8 addresses (joined addresses) rest
          (all-IsSized family addresses h.all) (copied_all family 8 addresses h.all h.room) in
      let p : prio % 256 ≡ prio = omega (arith, h.prio_fits) in
      rw
        (handle_packet, big, checksum_passes, versioned, e, handle_type, v, found, deliver, n, room)
        (rw (read, v, p, t) refl)

  -- With values that fit a packet and addresses of its family: sendPacket builds a datagram, to the
  -- multicast address; and onSocketPacket, given it with a time to live of 255, whatever is behind it
  -- in the buffer, on an interface where the router id has a listener, accepts it, tells that
  -- listener, and no other, the source, priority, interval and addresses that were sent, and counts
  -- no error.
  pub send-handle_packet :
      (rest : List ℕ) (listeners : List (ℕ × ℕ)) (listener : ℕ) (counters : Counters)
      → map_find ltb vrid listeners ≡ some listener
      → (d : Datagram) × (send_packet family
            (multicast_address family)
            interface
            source
            vrid
            prio
            interval
            addresses
          ≡ built d)
        × (handle_packet family listeners (received d rest) counters
            ≡ some (record {
              accepted = true;
              notices = as_sent listener vrid prio interval source addresses ∷ [];
              counters = counters;
            }))
  send-handle_packet rest listeners listener counters found =
      let bytes : All IsByte (empty front (joined addresses)) =
        All-append front (0 ∷ 0 ∷ joined addresses)
          (header-IsByte vrid prio (length addresses) interval)
          (omega arith, (omega arith, joined-IsByte family addresses h.all)) in
      let (c, sum, verified) =
        checksum-filled family source half front (joined addresses) rest h.versioned h.from refl
          length-empty few bytes in
      (_, sent c sum, handled c rest listeners listener counters verified found)
