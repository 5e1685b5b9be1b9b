-- ===== src/Socket/Instances.antt =====
-- The two instances of VrrpSocket: their constructor with its calls of the system, and their end.
pub mod Owned
pub mod Runs
use open_vrrp.Prelude.{
  ℕ, ◌==◌, ltb, not, if◌then◌else◌, Bool, true, false, List, [], ◌∷◌, Option, none, some,
}
use open_vrrp.Address.{Family, unspec, inet, inet6}
use open_vrrp.Containers.{set_insert, set_erase}

pub data SocketOption : Type 0 where
  ip_multicast_loop ip_multicast_ttl ip_pktinfo : SocketOption
  ipv6_recvpktinfo ipv6_multicast_loop ipv6_multicast_hops : SocketOption

-- What the system answers: a descriptor, or the error of `socket`; and of each setsockopt call its
-- error, 0 for none.
pub record Answers : Type 0 where
  pub descriptor : Option ℕ
  pub socket_error : ℕ
  pub option_error : SocketOption → ℕ

-- `m_error`, `m_socket` (`none` is -1), and the options of the socket, the last set first.
pub record VrrpSocket : Type 0 where
  pub error : ℕ
  pub socket : Option ℕ
  pub options : List (SocketOption × ℕ)

-- The calls of setsockopt, in their order.
abbrev pub options_of : Family → List (SocketOption × ℕ)
options_of inet = (ip_multicast_loop, 0) ∷ (ip_multicast_ttl, 255) ∷ (ip_pktinfo, 1) ∷ []
options_of _ = (ipv6_recvpktinfo, 1) ∷ (ipv6_multicast_loop, 0) ∷ (ipv6_multicast_hops, 255) ∷ []

-- Each call, with the early return where it fails.
unfoldable pub set_options : Answers → List (SocketOption × ℕ) → VrrpSocket → Bool × VrrpSocket
set_options a [] s = (true, s)
set_options a (o ∷ more) s =
    let rest = set_options a more (record s { options = o ∷ s.options }) in
    if a.option_error o.0 == 0 then rest else (false, record s { error = a.option_error o.0 })

unfoldable pub create_socket : Family → Answers → Bool × VrrpSocket
unfolding set_options
create_socket family a = elim a.descriptor [
  | none ↦ (false, record { error = a.socket_error; socket = none; options = [] })
  | some fd ↦
      set_options a (options_of family) (record { error = 0; socket = some fd; options = [] })
]

-- `m_ipv4Instance` and `m_ipv6Instance`; the descriptors of these sockets that the system has open,
-- and those that were given to the main loop, whose answer the constructor drops.
pub record Instances : Type 0 where
  pub ipv4 : Option VrrpSocket
  pub ipv6 : Option VrrpSocket
  pub opened : List ℕ
  pub watched : List ℕ

abbrev pub open_socket : Option ℕ → Instances → Instances
open_socket none w = w
open_socket (some fd) w = record w { opened = set_insert ltb fd w.opened }

abbrev pub close_socket : Option ℕ → Instances → Instances
close_socket none w = w
close_socket (some fd) w = record w { opened = set_erase ltb fd w.opened }

abbrev pub watch : Option ℕ → Instances → Instances
watch none w = w
watch (some fd) w = record w { watched = set_insert ltb fd w.watched }

-- The constructor.
unfoldable pub construct : Family → Answers → Instances → VrrpSocket × Instances
unfolding create_socket
construct family a w =
    let (made, s) = create_socket family a in
    let w' = open_socket s.socket w in
    if made then (s, watch s.socket w') else (record s { socket = none }, close_socket s.socket w')

-- The pointer of a family, if there is one.
abbrev pub slot : Family → Instances → Option VrrpSocket
slot inet w = w.ipv4
slot inet6 w = w.ipv6
slot unspec w = none

abbrev pub fill : Family → Option VrrpSocket → Instances → Instances
fill inet s w = record w { ipv4 = s }
fill inet6 s w = record w { ipv6 = s }
fill unspec s w = w

abbrev make : Family → Answers → Instances → Option VrrpSocket × Instances
make family a w =
    let (s, w') = construct family a w in
    if not (s.error == 0)
    then (none, close_socket s.socket w')
    else (some s, fill family (some s) w')

unfoldable pub instance_of : Family → Answers → Instances → Option VrrpSocket × Instances
unfolding construct
instance_of unspec a w = (none, w)
instance_of family a w = elim (slot family w) [ some s ↦ (some s, w) | none ↦ make family a w ]

-- The destructor, and the pointer set to 0.
abbrev destroy : Family → Option VrrpSocket → Instances → Instances
destroy family none w = w
destroy family (some s) w = fill family none (close_socket s.socket w)

unfoldable pub cleanup : Instances → Instances
cleanup w = let w' = destroy inet w.ipv4 w in destroy inet6 w'.ipv6 w'
