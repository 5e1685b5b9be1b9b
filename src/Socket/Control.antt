-- ===== src/Socket/Control.antt =====
-- VrrpSocket::decodeControlMessage: the interface and the destination that recvmsg gives.
use open_vrrp.Prelude.{
  ℕ, zero, suc, ◌-◌, ltb, leb, ◌&&◌, ◌||◌, if◌then◌else◌, Bool, true, false, List, Option, none,
  some,
}
use open_vrrp.Address.{Family, inet, inet6, IpAddress}

-- The level and type of a control message: SOL_IP and IP_PKTINFO, SOL_IPV6 and IPV6_PKTINFO, or
-- others.
pub data Kind : Type 0 where
  ip_pktinfo ipv6_pktinfo other : Kind

-- The control message at the start of the buffer, with the interface and the address that its data
-- hold where it is a pktinfo.
pub record ControlMessage : Type 0 where
  pub len : ℕ
  pub kind : Kind
  pub interface : ℕ
  pub address : List ℕ

-- sizeof(cmsghdr) where a size_t has 64 bits, and with it sizeof(in_pktinfo).
abbrev pub header_size : ℕ
header_size = 16

abbrev pub pktinfo_size : ℕ
pktinfo_size = 28

abbrev pub is_pktinfo : Family → Kind → Bool
is_pktinfo inet ip_pktinfo = true
is_pktinfo inet6 ipv6_pktinfo = true
is_pktinfo _ _ = false

abbrev pub Decoded : Type 0
Decoded = ℕ × IpAddress

abbrev pub decode_one : Family → ControlMessage → Decoded → Decoded
decode_one family m d =
    if is_pktinfo family m.kind && leb pktinfo_size m.len
    then (m.interface, record { family = family; bytes = m.address })
    else d

-- The loop, on fuel: `ptr` stays where it is, so each round reads the same message.
unfoldable pub decode_control_message : ℕ → Family → ControlMessage → ℕ → Decoded → Option Decoded
decode_control_message zero family m remaining d = none
decode_control_message (suc fuel) family m remaining d =
    let rest = decode_control_message fuel family m (remaining - m.len) (decode_one family m d) in
    if ltb remaining header_size
    then some d
    else if ltb m.len header_size || ltb remaining m.len
    then some d
    else rest
