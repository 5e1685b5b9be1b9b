-- ===== src/Socket/Send.antt =====
-- VrrpSocket::sendPacket: the packet that it builds in `m_buffer`.
use open_vrrp.Prelude.{
  ℕ, ◌+◌, ◌/◌, ◌%◌, ◌==◌, ltb, not, if◌then◌else◌, List, [], ◌∷◌, ◌++◌, Option, none, some, length,
}
use open_vrrp.Address.{Family, number, family_size, IpAddress}
use open_vrrp.Checksum.{checksum}

-- `refused` is an early `return false`; `overrun` is a write past the 2048 bytes of `m_buffer`.
pub data Built (A : Type 0) : Type 0 where
  built : A → Built A
  refused : Built A
  overrun : Built A

abbrev pub buffer_size : ℕ
buffer_size = 2048

-- The loop over the addresses, at an offset into the buffer. An address is tested, then copied.
unfoldable pub copy_addresses : Family → ℕ → List IpAddress → Built (List ℕ)
copy_addresses family offset [] = built []
copy_addresses family offset (a ∷ more) =
    let rest = copy_addresses family (offset + family_size family) more in
    if not (number a.family == number family)
    then refused
    else if ltb buffer_size (offset + family_size family)
    then overrun
    else elim rest [
      | built bytes ↦ built (a.bytes ++ bytes)
      | refused ↦ refused
      | overrun ↦ overrun
    ]

-- What sendmsg is given.
pub record Datagram : Type 0 where
  pub interface : ℕ
  pub source : IpAddress
  pub destination : IpAddress
  pub bytes : List ℕ

-- The header with a checksum.
abbrev pub header : ℕ → ℕ → ℕ → ℕ → List ℕ
header vrid prio count interval =
    0x31
    ∷ (vrid % 256)
    ∷ (prio % 256)
    ∷ (count % 256)
    ∷ (interval / 256 % 16)
    ∷ (interval % 256)
    ∷ []

abbrev with_checksum : List ℕ → ℕ → List ℕ → List ℕ
with_checksum front c back = front ++ (c / 256) ∷ (c % 256) ∷ back

-- The datagram with the checksum in its place; a checksum over the buffer reads what was written.
abbrev with_sum : ℕ → IpAddress → IpAddress → List ℕ → List ℕ → Option ℕ → Built Datagram
with_sum interface address multicast front body none = overrun
with_sum interface address multicast front body (some c) = built (record {
  interface = interface;
  source = address;
  destination = multicast;
  bytes = with_checksum front c body;
})

-- The buffer's first `packetSize` bytes.
abbrev finish : ℕ → IpAddress → IpAddress → List ℕ → List ℕ → Built Datagram
finish interface address multicast front body =
    let bytes : List ℕ = front ++ 0 ∷ 0 ∷ body in
    with_sum interface address multicast front body
      (checksum bytes (length bytes) address multicast 112)

unfoldable pub send_packet :
    Family → IpAddress → ℕ → IpAddress → ℕ → ℕ → ℕ → List IpAddress → Built Datagram
unfolding copy_addresses checksum
send_packet family multicast interface address vrid prio interval addresses =
    if not (number address.family == number family)
    then refused
    else elim (copy_addresses family 8 addresses) [
      | refused ↦ refused
      | overrun ↦ overrun
      | built body ↦
          finish interface address multicast (header vrid prio (length addresses) interval) body
    ]
