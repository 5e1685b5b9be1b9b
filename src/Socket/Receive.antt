-- ===== src/Socket/Receive.antt =====
-- VrrpSocket::onSocketPacket, from the buffer that recvmsg has filled and the answer of the control
-- message. `none` is a read past the end of `m_buffer`. A negative `size` is 0 here: the code only
-- asks whether it is below 8.
use open_vrrp.Prelude.{
  ℕ, zero, suc, ◌+◌, ◌-◌, ◌*◌, ◌/◌, ◌%◌, ◌==◌, ltb, not, if◌then◌else◌, Bool, true, false, List, [],
  ◌∷◌, map, Option, none, some, length, take, drop, get_elem?, u64,
}
use open_vrrp.Address.{Family, unspec, inet, number, family_size, IpAddress}
use open_vrrp.Checksum.{checksum, ◌>>=◌}
use open_vrrp.Containers.{map_find}
use open_vrrp.Service.Advertisements.{
  Advertisement, Error, version_error, vr_id_error, ip_ttl_error, invalid_type_error,
  packet_length_error,
}
use open_vrrp.Socket.{EventListenerMap}

-- A call of a listener: onIncomingVrrpError or onIncomingVrrpPacket.
pub data Notice : Type 0 where
  bad : ℕ → ℕ → Error → Notice
  advertised : ℕ → ℕ → Advertisement → Notice

-- `m_routerVersionErrors`, `m_routerChecksumErrors` and `m_routerVrIdErrors`.
pub record Counters : Type 0 where
  pub router_version_errors : ℕ
  pub router_checksum_errors : ℕ
  pub router_vr_id_errors : ℕ

-- The result, the calls of listeners in their order, and the counters after it.
pub record Outcome : Type 0 where
  pub accepted : Bool
  pub notices : List Notice
  pub counters : Counters

-- The loops that tell every listener of the interface; each has its own router id.
abbrev pub tell_all : Error → List (ℕ × ℕ) → List Notice
tell_all e = map (λ l. bad l.1 l.0 e)

abbrev pub tell_if_any : Option ℕ → ℕ → Error → List Notice
tell_if_any none vrid e = []
tell_if_any (some listener) vrid e = bad listener vrid e ∷ []

-- The packet behind the IP header, and what the handler knows of it.
pub record Input : Type 0 where
  pub source : IpAddress
  pub destination : IpAddress
  pub packet : List ℕ
  pub size : ℕ
  pub ttl : ℕ

-- The loop that makes the address list.
unfoldable pub read_addresses : ℕ → Family → List ℕ → Option (List IpAddress)
read_addresses zero family bytes = some []
read_addresses (suc count) family bytes =
    let rest = read_addresses count family (drop (family_size family) bytes) in
    if ltb (length bytes) (family_size family) then none else (do
      more ← rest
      some (record { family = family; bytes = take (family_size family) bytes } ∷ more))

abbrev dropped : List Notice → Counters → Option Outcome
dropped ns c = some (record { accepted = false; notices = ns; counters = c })

-- From the time to live on, for the listener that was found.
unfoldable pub deliver : Family → Input → ℕ → ℕ → ℕ → ℕ → ℕ → Counters → Option Outcome
unfolding read_addresses
deliver family i listener vrid prio count interval c =
    if not (i.ttl == 255)
    then dropped (bad listener vrid ip_ttl_error ∷ []) c
    else if ltb i.size (8 + count * family_size family)
    then dropped (bad listener vrid packet_length_error ∷ []) c
    else (do
      addresses ← read_addresses count family (drop 8 i.packet)
      some (record {
        accepted = true;
        notices =
            advertised listener vrid (record {
              source = i.source;
              prio = prio;
              max_advertisement_interval = interval;
              addresses = addresses;
            })
            ∷ [];
        counters = c;
      }))

-- The checksum test: `none` is a read past the buffer, `some true` a packet to go on with.
unfoldable pub checksum_passes : Input → Option Bool
unfolding checksum
checksum_passes i =
    if number i.destination.family == number unspec
    then some true
    else (do sum ← checksum i.packet i.size i.source i.destination 112; some (sum == 0))

-- From the type of the packet on.
unfoldable pub handle_type :
    Family → List (ℕ × ℕ) → Input → ℕ → ℕ → ℕ → ℕ → ℕ → ℕ → Counters → Option Outcome
unfolding deliver
handle_type family listeners i b0 b1 b2 b3 b4 b5 c =
    if not (b0 % 16 == 1)
    then dropped (tell_all invalid_type_error listeners) c
    else elim (map_find ltb b1 listeners) [
      | none ↦
          dropped (tell_all vr_id_error listeners)
            (record c { router_vr_id_errors = u64 (c.router_vr_id_errors + 1) })
      | some listener ↦ deliver family i listener b1 b2 b3 (b4 % 16 * 256 + b5) c
    ]

-- From the test of the size on.
unfoldable pub handle_packet : Family → List (ℕ × ℕ) → Input → Counters → Option Outcome
unfolding handle_type checksum_passes
handle_packet family listeners i c =
    if ltb i.size 8 then dropped (tell_all packet_length_error listeners) c else (do
      b0 ← get_elem? i.packet 0
      b1 ← get_elem? i.packet 1
      if not (b0 / 16 == 3)
          then dropped
              (if b0 == 0x21 then tell_if_any (map_find ltb b1 listeners) b1 version_error else [])
              (record c { router_version_errors = u64 (c.router_version_errors + 1) })
          else (do
            passes ← checksum_passes i
            if not passes
                then dropped []
                    (record c { router_checksum_errors = u64 (c.router_checksum_errors + 1) })
                else (do
                  b2 ← get_elem? i.packet 2
                  b3 ← get_elem? i.packet 3
                  b4 ← get_elem? i.packet 4
                  b5 ← get_elem? i.packet 5
                  handle_type family listeners i b0 b1 b2 b3 b4 b5 c)))

-- The loop over the extension headers: the packet and the size where it ends. Each round moves on
-- by two bytes at least, so the length of the buffer is fuel enough.
unfoldable pub skip_extensions : ℕ → List ℕ → ℕ → Option (List ℕ × ℕ)
skip_extensions zero packet size = none
skip_extensions (suc fuel) [] size = none
skip_extensions (suc fuel) (next ∷ []) size = none
skip_extensions (suc fuel) (next ∷ len ∷ body) size =
    let rest = skip_extensions fuel (drop len body) (size - (len + 2)) in
    if next == 112 then some (next ∷ len ∷ body, size) else rest

-- The packet, its size and its time to live behind the IP header.
abbrev behind_header : Family → List ℕ → Option (List ℕ × ℕ × ℕ)
behind_header inet buffer = do
  b0 ← get_elem? buffer 0
  b2 ← get_elem? buffer 2
  b3 ← get_elem? buffer 3
  ttl ← get_elem? buffer 8
  let ihl = b0 % 16 * 4
  some (drop ihl buffer, (b2 * 256 + b3) - ihl, ttl)
behind_header _ buffer = do
  b4 ← get_elem? buffer 4
  b5 ← get_elem? buffer 5
  next ← get_elem? buffer 6
  ttl ← get_elem? buffer 7
  let packet = drop 40 buffer
  let size = b4 * 256 + b5
  if next == 112
      then some (packet, size, ttl)
      else (do at ← skip_extensions (length buffer) packet size; some (at.0, at.1, ttl))

unfoldable pub on_socket_packet :
    Family → EventListenerMap → ℕ → IpAddress → IpAddress → List ℕ → Counters → Option Outcome
unfolding handle_packet skip_extensions
on_socket_packet family ls interface source destination buffer c =
    elim (map_find ltb interface ls) [
      | none ↦ dropped [] c
      | some listeners ↦ (do
        at ← behind_header family buffer
        handle_packet family listeners
            (record {
              source = source;
              destination = destination;
              packet = at.0;
              size = at.1;
              ttl = at.2;
            })
            c)
    ]
