-- ===== src/Socket.antt =====
-- src/vrrpsocket.h and src/vrrpsocket.cpp: the raw socket of one address family, its multicast
-- memberships and its listeners. A setsockopt call's answer is an argument.
pub mod Send
pub mod Receive
pub mod Listeners
pub mod Memberships
pub mod RoundTrip
pub mod Safety
pub mod Sums
pub mod Exchange
pub mod Instances
pub mod Control
use open_vrrp.Prelude.{
  ℕ, ◌+◌, ◌-◌, ◌^◌, ◌==◌, ltb, if◌then◌else◌, Bool, true, false, List, [], ◌∷◌, Option, none, some,
  u32,
}
use open_vrrp.Address.{Family, unspec, inet, inet6, IpAddress}
use open_vrrp.Containers.{map_set, map_find, map_erase}
use open_vrrp.Containers.Nested.{inner, is_empty}

-- The constructor's multicast address: 224.0.0.18 or FF12::12.
abbrev pub multicast_address : Family → IpAddress
multicast_address inet = record { family = inet; bytes = 224 ∷ 0 ∷ 0 ∷ 18 ∷ [] }
multicast_address inet6 = record {
  family = inet6;
  bytes = 0xff ∷ 0x12 ∷ 0 ∷ 0 ∷ 0 ∷ 0 ∷ 0 ∷ 0 ∷ 0 ∷ 0 ∷ 0 ∷ 0 ∷ 0 ∷ 0 ∷ 0 ∷ 0x12 ∷ [];
}
multicast_address unspec = record {
  family = inet6;
  bytes = 0xff ∷ 0x12 ∷ 0 ∷ 0 ∷ 0 ∷ 0 ∷ 0 ∷ 0 ∷ 0 ∷ 0 ∷ 0 ∷ 0 ∷ 0 ∷ 0 ∷ 0 ∷ 0x12 ∷ [];
}

-- `m_interfaceCount`
abbrev pub InterfaceMap : Type 0
InterfaceMap = List (ℕ × ℕ)

-- `m_listeners`: the listeners of an interface by virtual router id. A listener is its pointer.
abbrev pub EventListenerMap : Type 0
EventListenerMap = List (ℕ × List (ℕ × ℕ))

-- `joined` is the answer of the IP_ADD_MEMBERSHIP or IPV6_ADD_MEMBERSHIP call. The result is the
-- method's, then the counts, then whether the call was made.
unfoldable pub add_interface : Bool → ℕ → InterfaceMap → Bool × InterfaceMap × Bool
add_interface joined interface counts = elim (map_find ltb interface counts) [
  | some n ↦ (true, map_set ltb interface (u32 (n + 1)) counts, false)
  | none ↦ if joined then (true, map_set ltb interface 1 counts, true) else (false, counts, true)
]

-- `dropped` is the answer of the IP_DROP_MEMBERSHIP or IPV6_DROP_MEMBERSHIP call.
unfoldable pub remove_interface : Bool → ℕ → InterfaceMap → Bool × InterfaceMap × Bool
remove_interface dropped interface counts = elim (map_find ltb interface counts) [
  | none ↦ (false, counts, false)
  | some n ↦
      if n == 1
      then (if dropped then (true, map_erase ltb interface counts, true) else (false, counts, true))
      else (true, map_set ltb interface (u32 (n + 2 ^ 32 - 1)) counts, false)
]

unfoldable pub add_event_listener : ℕ → ℕ → ℕ → EventListenerMap → EventListenerMap
add_event_listener interface vrid listener ls =
    map_set ltb interface (map_set ltb vrid listener (inner (map_find ltb interface ls))) ls

unfoldable pub remove_event_listener : ℕ → ℕ → EventListenerMap → EventListenerMap
remove_event_listener interface vrid ls = elim (map_find ltb interface ls) [
  | none ↦ ls
  | some m ↦
      let rest = map_erase ltb vrid m in
      if is_empty rest then map_erase ltb interface ls else map_set ltb interface rest ls
]

-- The listener of a virtual router on an interface.
unfoldable pub find_listener : ℕ → ℕ → EventListenerMap → Option ℕ
find_listener interface vrid ls = map_find ltb vrid (inner (map_find ltb interface ls))
