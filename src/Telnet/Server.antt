-- ===== src/Telnet/Server.antt =====
-- src/telnetserver.h and src/telnetserver.cpp: the listening socket and the sessions. A session is its
-- descriptor. The constructor and destructor of TelnetSession are here too.
pub mod Sockets
pub mod Runs
use open_vrrp.Prelude.{
  ℕ, zero, suc, ◌+◌, ltb, not, ◌&&◌, if◌then◌else◌, Bool, true, false, List, [], ◌∷◌, Option, none,
  some, length,
}
use open_vrrp.Containers.{set_insert, set_erase}

-- `m_socket` (`none` is -1) and `m_sessions`; the descriptors of these that are open, and those that
-- the main loop watches.
pub record Server : Type 0 where
  pub socket : Option ℕ
  pub sessions : List ℕ
  pub opened : List ℕ
  pub watched : List ℕ

unfoldable pub remove_session : ℕ → Server → Server
remove_session fd s = record s { sessions = set_erase ltb fd s.sessions }

-- TelnetSession::~TelnetSession
unfoldable pub delete_session : ℕ → Server → Server
unfolding remove_session
delete_session fd s =
    remove_session fd
      (record s { opened = set_erase ltb fd s.opened; watched = set_erase ltb fd s.watched })

-- The loop of `stop`, on fuel.
unfoldable pub delete_all : ℕ → Server → Option Server
unfolding delete_session
delete_all zero s = none
delete_all (suc fuel) s = elim s.sessions [
  | [] ↦ some s
  | fd ∷ more ↦ delete_all fuel (delete_session fd s)
]

abbrev close_socket : Option ℕ → Server → Server
close_socket none s = s
close_socket (some fd) s = record s {
  socket = none;
  opened = set_erase ltb fd s.opened;
  watched = set_erase ltb fd s.watched;
}

-- One round more than there are sessions is enough.
unfoldable pub stop : Server → Option Server
unfolding delete_all
stop s = delete_all (length s.sessions + 1) (close_socket s.socket s)

-- What the system answers to `start`: a descriptor; whether bind and listen succeed; whether the main
-- loop takes the descriptor.
pub record StartAnswers : Type 0 where
  pub descriptor : Option ℕ
  pub listens : Bool
  pub monitored : Bool

abbrev with_result : Bool → Option Server → Option (Bool × Server)
with_result b none = none
with_result b (some s) = some (b, s)

unfoldable pub start : StartAnswers → Server → Option (Bool × Server)
unfolding stop
start a s = elim a.descriptor [
  | none ↦ some (false, record s { socket = none })
  | some fd ↦
      let s' : Server = record s { socket = some fd; opened = set_insert ltb fd s.opened } in
      if not a.listens
      then with_result false (stop s')
      else if not a.monitored
      then with_result false (stop s')
      else some (true, record s' { watched = set_insert ltb fd s.watched })
]

-- What `accept` gives, and the constructor of the session.
unfoldable pub on_incoming_connection : Option ℕ → Server → Server
on_incoming_connection none s = s
on_incoming_connection (some fd) s = record s {
  sessions = set_insert ltb fd s.sessions;
  opened = set_insert ltb fd s.opened;
  watched = set_insert ltb fd s.watched;
}
