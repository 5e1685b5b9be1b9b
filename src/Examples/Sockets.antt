-- ===== src/Examples/Sockets.antt =====
-- The sockets of VrrpSocket and their control messages.
use Prim.{tt}
use open_vrrp.Prelude.{ℕ, List, [], ◌∷◌, none, some, refl, arith}
use open_vrrp.Address.{inet, inet6}
use open_vrrp.Containers.{set_contains, set_insert, set_erase}
use open_vrrp.Socket.Control.{ControlMessage, other}
use open_vrrp.Socket.Instances.{
  SocketOption, ip_multicast_ttl, Answers, set_options, create_socket, construct, instance_of,
  cleanup,
}
use open_vrrp.Socket.Instances.Owned.{IsSound}
use open_vrrp.Socket.Instances.Runs.{
  Operation, asks, cleans_up, perform_all, no_instances, instances-IsSound,
}

-- A message that is no pktinfo comes first.
abbrev timestamp : ControlMessage
timestamp = record { len = 32; kind = other; interface = 0; address = [] }

-- The call for the time to live fails.
abbrev refused : SocketOption → ℕ
refused ip_multicast_ttl = 22
refused _ = 0

abbrev no_ttl : Answers
no_ttl = record { descriptor = some 7; socket_error = 0; option_error = refused }

abbrev agreed : ℕ → Answers
agreed fd = record { descriptor = some fd; socket_error = 0; option_error = λ o. 0 }

abbrev no_socket : Answers
no_socket = record { descriptor = none; socket_error = 1; option_error = λ o. 0 }

abbrev calls : List Operation
calls =
    asks inet no_socket
    ∷ asks inet no_ttl
    ∷ asks inet (agreed 7)
    ∷ asks inet6 (agreed 8)
    ∷ cleans_up
    ∷ asks inet (agreed 7)
    ∷ []

instances-IsSound_example : IsSound (perform_all calls no_instances)
unfolding instance_of construct create_socket set_options cleanup set_contains set_insert set_erase
instances-IsSound_example =
    instances-IsSound calls (omega arith, (refl, (refl, (refl, (refl, tt)))))
