-- ===== src/Telnet/Daemon.antt =====
-- A session over time: the lines of a client, and between them what happens to the services.
use open_vrrp.Prelude.{ℕ, Bool, true, false, List, [], ◌∷◌}
use open_vrrp.Service.Run.{Event}
use open_vrrp.Manager.{find_service}
use open_vrrp.Telnet.{Environment, T, ◌>>=◌, ◌>>◌, pure, get_services, invoke}
use open_vrrp.Telnet.Lookup.{use_if_any}
use open_vrrp.Telnet.Commands.{handle_command}

-- A line, with the answers of the system at its time, or an event of the service with these numbers:
-- a timer, a packet, a change of the link.
pub data Input : Type 0 where
  line : Environment → List ℕ → Input
  happens : ℕ → ℕ → ℕ → Event → Input

-- One turn of the daemon's loop.
unfoldable pub turn : Input → T Bool
turn (line env text) = handle_command env text
turn (happens i v f e) = do
  services ← get_services
  use_if_any (invoke e) (find_service i v f services)
  pure true

-- The turns up to the line that ends the session.
abbrev pub unless_ended : T Bool → Bool → T Bool
unless_ended m true = m
unless_ended m false = pure false

unfoldable pub run : List Input → T Bool
run [] = pure true
run (x ∷ xs) = do going_on ← turn x; unless_ended (run xs) going_on
