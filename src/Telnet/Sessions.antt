-- ===== src/Telnet/Sessions.antt =====
-- What a session, and the events between its lines, leave of the services.
use open_vrrp.Prelude.{Bool, List, [], Option, none, some, ◌≡◌, ◌≢◌, refl, sym, subst}
use open_vrrp.Manager.Sound.{AreSound, empty-AreSound}
use open_vrrp.Telnet.{Session}
use open_vrrp.Telnet.Daemon.{Input, run}
use open_vrrp.Telnet.Alive.{After, ArePossible, run-IsOrderly}
use open_vrrp.Telnet.Answers.{AreComplete, run-Answers}

at_end :
    (o : Option (Bool × Session))
    → o ≢ none
    → After (λ (b : Bool). Unit {0}) o
    → (going_on : Bool) × (end : Session) × (o ≡ some (going_on, end)) × AreSound end.services
at_end none ends h = absurd (ends refl)
at_end (some (going_on, end)) ends h = (going_on, end, refl, h.0)

-- After any turns of a daemon that starts without routers, command lines of which none reads past
-- its arguments and events of the services with numbers in range: the turns come to an end, and
-- every service that a lookup finds at that end is in order. Its numbers are in range, its timers
-- are armed as its state wants them, and a master's timer will expire.
pub run-IsSound :
    (xs : List Input) (start : Session)
    → ArePossible xs
    → AreComplete xs
    → start.services ≡ []
    → (going_on : Bool) × (end : Session) × (run xs start ≡ some (going_on, end))
      × AreSound end.services
run-IsSound xs start possible complete empty =
    let orderly =
      (run-IsOrderly xs possible).run start (subst AreSound (sym empty) empty-AreSound) in
    at_end (run xs start) ((run-Answers xs complete).run start) orderly
