-- ===== src/Telnet/Server/Runs.antt =====
-- The server and its sessions over time.
use open_vrrp.Prelude.{
  ℕ, ltb, Bool, true, false, List, [], ◌∷◌, Option, none, some, ◌≡◌, refl, arith, inl, inr,
  Bool-cases, Option-cases, subst,
}
use open_vrrp.Containers.{set_insert, set_contains}
use open_vrrp.Telnet.Server.{
  Server, delete_session, stop, StartAnswers, start, on_incoming_connection,
}
use open_vrrp.Telnet.Server.Sockets.{
  IsSound, IsStopped, stop-IsStopped, accepts-IsSound, opened-IsSound, delete_session-IsSound,
}

-- A call of `start` with the system's answers, what `accept` gives, the end of a session, and `stop`.
pub data Operation : Type 0 where
  starts : StartAnswers → Operation
  accepts : Option ℕ → Operation
  ends : ℕ → Operation
  stops : Operation

abbrev second : Option (Bool × Server) → Option Server
second none = none
second (some (b, s)) = some s

abbrev pub perform : Operation → Server → Option Server
perform (starts a) s = second (start a s)
perform (accepts fd) s = some (on_incoming_connection fd s)
perform (ends fd) s = some (delete_session fd s)
perform stops s = stop s

-- A new descriptor is none that is open; a server that has a socket is not started again; and what ends
-- is a session.
abbrev IsNew : Option ℕ → Server → Type 0
IsNew none s = Unit {0}
IsNew (some fd) s = set_contains ltb fd s.opened ≡ false

abbrev pub IsPossible : Operation → Server → Type 0
IsPossible (starts a) s = (s.socket ≡ none) × IsNew a.descriptor s
IsPossible (accepts fd) s = IsNew fd s
IsPossible (ends fd) s = set_contains ltb fd s.sessions ≡ true
IsPossible stops s = Unit {0}

start-IsSound :
    (a : StartAnswers) (s : Server)
    → s.socket ≡ none
    → IsNew a.descriptor s
    → IsSound s
    → (t : Server) × (second (start a s) ≡ some t) × IsSound t
unfolding start
start-IsSound a s closed fresh h = elim (Option-cases a.descriptor) [
  | inl e ↦ (
    record s { socket = none },
    rw e refl,
    record { owned = λ g. ground (arith, h.owned g, closed); apart = λ g. refl },
  )
  | inr (fd, e) ↦
      let free : set_contains ltb fd s.opened ≡ false = subst (λ d. IsNew d s) e fresh in
      let s' : Server = record s { socket = some fd; opened = set_insert ltb fd s.opened } in
      let sound : IsSound s' = opened-IsSound fd s.watched s closed free h in
      let (t, stopped, done) = stop-IsStopped s' sound in
      elim (Bool-cases a.listens) [
        | inr l ↦ (t, rw (e, l, stopped) refl, done.sound)
        | inl l ↦ elim (Bool-cases a.monitored) [
          | inr m ↦ (t, rw (e, l, m, stopped) refl, done.sound)
          | inl m ↦ (
            _,
            rw (e, l, m) refl,
            opened-IsSound fd (set_insert ltb fd s.watched) s closed free h,
          )
        ]
      ]
]

nothing_accepted : (s : Server) → IsSound s → IsSound (on_incoming_connection none s)
unfolding on_incoming_connection
nothing_accepted s h = h

-- Every operation that is possible comes to an end, `stop` with its loop included, and after it the open
-- descriptors are again those of the server and of its sessions.
pub perform-IsSound :
    (op : Operation) (s : Server)
    → IsPossible op s
    → IsSound s
    → (t : Server) × (perform op s ≡ some t) × IsSound t
perform-IsSound (starts a) s (closed, fresh) h = start-IsSound a s closed fresh h
perform-IsSound (accepts none) s fresh h =
    (on_incoming_connection none s, refl, nothing_accepted s h)
perform-IsSound (accepts (some fd)) s fresh h = (_, refl, accepts-IsSound fd s fresh h)
perform-IsSound (ends fd) s member h = (_, refl, delete_session-IsSound fd s member h)
perform-IsSound stops s _ h = let (t, ran, stopped) = stop-IsStopped s h in (t, ran, stopped.sound)

abbrev and_then : Option Server → (Server → Option Server) → Option Server
and_then none next = none
and_then (some s) next = next s

abbrev pub run : List Operation → Server → Option Server
run [] s = some s
run (op ∷ ops) s = and_then (perform op s) (run ops)

abbrev pub ArePossible : List Operation → Server → Type 0
ArePossible [] s = Unit {0}
ArePossible (op ∷ ops) s =
    IsPossible op s × ((t : Server) → perform op s ≡ some t → ArePossible ops t)

-- Before `start`.
abbrev pub unstarted : Server
unstarted = record { socket = none; sessions = []; opened = []; watched = [] }

unstarted-IsSound : IsSound unstarted
unfolding set_contains
unstarted-IsSound = record { owned = λ fd. refl; apart = λ fd. refl }

run-IsSound :
    (ops : List Operation) (s : Server)
    → ArePossible ops s
    → IsSound s
    → (t : Server) × (run ops s ≡ some t) × IsSound t
run-IsSound [] s _ h = (s, refl, h)
run-IsSound (op ∷ ops) s (possible, others) h =
    let (t, ran, sound) = perform-IsSound op s possible h in
    let (u, rest, done) = run-IsSound ops t (others t ran) sound in (u, rw ran rest, done)

none_open : (s : Server) → IsStopped s → (fd : ℕ) → set_contains ltb fd s.opened ≡ false
unfolding set_contains
none_open s h fd = ground (arith, h.sound.owned fd, h.no_socket, h.no_sessions)

-- Calls of `start`, connections, ends of sessions and calls of `stop` come to an end, where the system
-- gives descriptors that are not open and a server with a socket is not started again: the open
-- descriptors are then those of the server and of its sessions, one each, and after one more `stop`,
-- which comes to an end too, there is no open descriptor, no session and no socket.
pub run-IsStopped :
    (ops : List Operation)
    → ArePossible ops unstarted
    → (t : Server) × (u : Server) × (run ops unstarted ≡ some t)
      × IsSound t
      × (stop t ≡ some u)
      × IsStopped u
      × ((fd : ℕ) → set_contains ltb fd u.opened ≡ false)
run-IsStopped ops possible =
    let (t, ran, sound) = run-IsSound ops unstarted possible unstarted-IsSound in
    let (u, stopped, done) = stop-IsStopped t sound in
    (t, u, ran, sound, stopped, done, none_open u done)
