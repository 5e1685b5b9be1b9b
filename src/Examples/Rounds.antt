-- ===== src/Examples/Rounds.antt =====
-- The table of the main loop, and a round of it.
use Prim.{tt}
use open_vrrp.Prelude.{ℕ, ◌==◌, if◌then◌else◌, true, List, [], ◌∷◌, refl}
use open_vrrp.Containers.{map_find, map_set, map_erase}
use open_vrrp.MainLoop.{MainLoop, add_monitor, remove_monitor}
use open_vrrp.MainLoop.Pointers.{
  IsLive, Operation, adds, removes, perform_all, empty_loop, perform_all-IsLive,
}

-- The address of a deleted monitor is given again, for a descriptor that was opened anew.
abbrev operations : List Operation
operations = adds true 100 5 1 ∷ adds true 101 6 2 ∷ removes 5 ∷ adds true 100 6 3 ∷ []

perform_all-IsLive_example : IsLive (perform_all operations empty_loop) 6 100
unfolding add_monitor remove_monitor map_find map_set map_erase
perform_all-IsLive_example =
    perform_all-IsLive operations 6 100 (refl, (refl, (tt, (refl, tt)))) refl

abbrev two : MainLoop
two = perform_all (adds true 100 5 1 ∷ adds true 101 6 2 ∷ []) empty_loop

-- The callback 1 removes the monitor of the descriptor 6.
abbrev removing : ℕ → ℕ → MainLoop → MainLoop
removing callback fd l = if callback == 1 then (remove_monitor 6 l).1 else l
