-- ===== src/Examples/Sessions.antt =====
-- The input of a session, and the server's sockets.
use Prim.{tt}
use open_vrrp.Prelude.{
  ℕ, zero, suc, length, ltb, Bool, true, false, List, [], ◌∷◌, ◌++◌, Option, none, some, ◌≡◌, refl,
  arith, ap, subst,
}
use open_vrrp.Containers.{set_contains, set_insert}
use open_vrrp.Text.{codes}
use open_vrrp.Telnet.Receive.{Input, overruns, find_newline, receive_chunk}
use open_vrrp.Telnet.Receive.Lines.{Read, part, ends, receive_all, receive_all-lines}
use open_vrrp.Telnet.Receive.Overrun.{two_lines}
use open_vrrp.Telnet.Server.{Server, start, stop}
use open_vrrp.Telnet.Server.Sockets.{IsSound, IsStopped}
use open_vrrp.Telnet.Server.Runs.{Operation, starts, accepts, ends, run, unstarted, run-IsStopped}

-- A session that writes its lines down, and ends at an empty one.
abbrev note : List ℕ → List (List ℕ) → Bool × List (List ℕ)
note [] log = (false, log)
note (b ∷ more) log = (true, log ++ (b ∷ more) ∷ [])

-- It leaves the buffer as it is.
abbrev in_place : List ℕ → List (List ℕ) → List ℕ
in_place buffer log = buffer

abbrev zeros : ℕ → List ℕ
zeros zero = []
zeros (suc n) = 0 ∷ zeros n

abbrev fresh : Input
fresh = record { used = []; behind = zeros 1024; overflow = false }

length-zeros : (n : ℕ) → length (zeros n) ≡ n
length-zeros zero = refl
length-zeros (suc n) = ap suc (length-zeros n)

abbrev help : List ℕ
help = codes "help"

abbrev reads : List Read
reads = part (codes "he") ∷ ends (codes "lp") ∷ ends [] ∷ ends help ∷ []

receive_all-lines_example : receive_all note in_place 1 reads fresh [] ≡ some (false, help ∷ [])
unfolding find_newline
receive_all-lines_example = receive_all-lines note in_place 0 reads fresh [] refl (
  refl,
  (λ e. cc),
  omega arith,
  (refl, omega arith, (refl, omega arith, (refl, omega arith, tt))),
)

two_lines_example : receive_chunk note in_place 9 (help ++ 10 ∷ help) fresh [] ≡ overruns
unfolding find_newline
two_lines_example =
    two_lines note in_place 8 help 104 (codes "elp") fresh [] refl (length-zeros 1024) refl refl
      (omega arith) refl (λ buffer. refl)

abbrev opened_by : Option Server → List ℕ
opened_by none = []
opened_by (some s) = s.opened

-- A server with one session.
abbrev operations : List Operation
operations =
    starts (record { descriptor = some 3; listens = true; monitored = true })
    ∷ accepts (some 4)
    ∷ []

run-IsStopped_example :
    (t : Server) × (u : Server) × (run operations unstarted ≡ some t)
    × IsSound t
    × (stop t ≡ some u)
    × IsStopped u
    × ((fd : ℕ) → set_contains ltb fd u.opened ≡ false)
unfolding set_contains start set_insert
run-IsStopped_example = run-IsStopped operations (
  (refl, refl),
  λ t e. (subst (λ o. set_contains ltb 4 o ≡ false) (ap opened_by e) refl, λ u f. tt),
)
