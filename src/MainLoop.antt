-- ===== src/MainLoop.antt =====
-- src/mainloop.h and src/mainloop.cpp: the table of the monitored descriptors, and the rounds of the
-- loop. A pointer to a monitor is its address, which `new` gives; the heap has the monitors that are
-- not deleted. The answers of epoll_ctl and epoll_wait are arguments.
pub mod Pointers
use open_vrrp.Prelude.{
  ℕ, ltb, if◌then◌else◌, not, ◌||◌, Bool, true, false, List, [], ◌∷◌, Option, none, some,
}
use open_vrrp.Containers.{map_find, map_set, map_erase}
use open_vrrp.Containers.Nested.{is_empty}

-- The callback and its userData are one number.
pub record Monitor : Type 0 where
  pub callback : ℕ
  pub fd : ℕ

pub record MainLoop : Type 0 where
  pub monitors : List (ℕ × ℕ)
  pub heap : List (ℕ × Monitor)
  pub aborted : Bool

unfoldable pub add_monitor : Bool → ℕ → ℕ → ℕ → MainLoop → Bool × MainLoop
add_monitor accepted address fd callback l =
    if not accepted
    then (false, l)
    else let heap = map_set ltb address (record { callback = callback; fd = fd }) l.heap in
      (
        true,
        record l {
          monitors = map_set ltb fd address l.monitors;
          heap = elim (map_find ltb fd l.monitors) [
            | none ↦ heap
            | some old ↦ map_erase ltb old heap
          ];
        },
      )

unfoldable pub remove_monitor : ℕ → MainLoop → Bool × MainLoop
remove_monitor fd l = elim (map_find ltb fd l.monitors) [
  | none ↦ (false, l)
  | some address ↦ (
    true,
    record l { monitors = map_erase ltb fd l.monitors; heap = map_erase ltb address l.heap },
  )
]

-- What epoll_wait comes to: an error, a signal, which may be one that aborts the loop, or events.
pub data Wait : Type 0 where
  failed : Wait
  interrupted : Bool → Wait
  ready : List ℕ → Wait

module _ (call : ℕ → ℕ → MainLoop → MainLoop) where
  -- The callbacks of a round; `none` is the use of a monitor that was deleted.
  unfoldable pub dispatch : List ℕ → MainLoop → Option MainLoop
  dispatch [] l = some l
  dispatch (address ∷ rest) l = elim (map_find ltb address l.heap) [
    | none ↦ none
    | some monitor ↦ dispatch rest (call monitor.callback monitor.fd l)
  ]

  -- One round of the loop: the result is none in the first part if the loop goes on.
  abbrev pub round : Wait → MainLoop → Option (Option Bool × MainLoop)
  round failed l = some (some false, l)
  round (interrupted abort) l = some (none, record l { aborted = l.aborted || abort })
  round (ready events) l = elim (dispatch events l) [
    | none ↦ none
    | some after ↦ some (none, after)
  ]

  abbrev go_on :
      (MainLoop → Option (Option Bool × MainLoop))
      → Option (Option Bool × MainLoop)
      → Option (Option Bool × MainLoop)
  go_on k none = none
  go_on k (some (none, l)) = k l
  go_on k (some (some b, l)) = some (some b, l)

  -- The loop through some waits; the result is none in the first part if it waits for more.
  unfoldable pub run : List Wait → MainLoop → Option (Option Bool × MainLoop)
  unfolding dispatch
  run [] l = if is_empty l.monitors || l.aborted then some (some true, l) else some (none, l)
  run (w ∷ ws) l =
      if is_empty l.monitors || l.aborted then some (some true, l) else go_on (run ws) (round w l)

  -- MainLoop::run
  abbrev pub run_loop : List Wait → MainLoop → Option (Option Bool × MainLoop)
  run_loop ws l = run ws (record l { aborted = false })
