-- ===== src/Netlink/Monitors/Watched.antt =====
-- Who is told of what: the callbacks that were added and not removed.
use open_vrrp.Prelude.{
  ℕ, ◌==◌, ltb, not, ◌&&◌, ◌||◌, Bool, true, false, List, [], ◌∷◌, ◌≡◌, refl, arith, Option-cases,
  inl, inr,
}
use open_vrrp.Containers.{set_contains, map_find}
use open_vrrp.Containers.Nested.{is_empty}
use open_vrrp.Netlink.Monitors.{
  CallbackData, CallbackMap, is_closed, closed, Monitors, add_interface_monitor,
  remove_interface_monitor, is_closed,
}
use open_vrrp.Netlink.Monitors.Sets.{
  is_monitored, same_data, Full, find-is_empty, set-set, erase-set, insert-seen, remove-seen,
  drop-seen, same-seen, here, erase-seen,
}
use open_vrrp.Netlink.Monitors.Sound.{IsSound, add-IsSound, remove-IsSound, is_watched}

pub add_interface_monitor-seen :
    (connected : Bool) (j i : ℕ) (c d : CallbackData) (m : Monitors)
    → IsSound m
    → ((add_interface_monitor connected i d m).0
        ≡ (not (is_monitored i d m.callbacks) && (connected || not (is_closed m.sock))))
      × (is_monitored j c (add_interface_monitor connected i d m).1.callbacks ≡ (
          (add_interface_monitor connected i d m).0 && (j == i && same_data c d)
          || is_monitored j c m.callbacks))
unfolding add_interface_monitor set_contains
add_interface_monitor-seen connected j i c d m h =
    elim (Option-cases (map_find ltb i m.callbacks)) [
      | inl e ↦
          rw (e, add_interface_monitor, set-set, erase-set)
            (ground (
              arith,
              e,
              insert-seen j i c d [] m.callbacks,
              erase-seen j i c m.callbacks,
              same-seen j i c d m.callbacks,
              here j i c m.callbacks,
            ))
      | inr (set, e) ↦
          rw (e, add_interface_monitor)
            (ground (
              arith,
              e,
              insert-seen j i c d set m.callbacks,
              h.held,
              find-is_empty i m.callbacks set e,
            ))
    ]

pub remove_interface_monitor-seen :
    (j i : ℕ) (c d : CallbackData) (m : Monitors)
    → ((remove_interface_monitor i d m).0 ≡ is_monitored i d m.callbacks)
      × (is_monitored j c (remove_interface_monitor i d m).1.callbacks
          ≡ (not (j == i && same_data c d) && is_monitored j c m.callbacks))
unfolding remove_interface_monitor set_contains
remove_interface_monitor-seen j i c d m = elim (Option-cases (map_find ltb i m.callbacks)) [
  | inl e ↦ rw (e, remove_interface_monitor) (ground (arith, e, same-seen j i c d m.callbacks))
  | inr (set, e) ↦
      rw (e, remove_interface_monitor)
        (ground (
          arith,
          e,
          remove-seen j i c d set m.callbacks,
          drop-seen j i c d set m.callbacks,
          same-seen j i c d m.callbacks,
        ))
]

-- addInterfaceMonitor, with what nl_connect answers, and removeInterfaceMonitor.
pub data Operation : Type 0 where
  adds : Bool → ℕ → CallbackData → Operation
  removes : ℕ → CallbackData → Operation

abbrev pub perform : Operation → Monitors → Bool × Monitors
perform (adds connected i d) m = add_interface_monitor connected i d m
perform (removes i d) m = remove_interface_monitor i d m

abbrev pub perform_all : List Operation → Monitors → Monitors
perform_all [] m = m
perform_all (op ∷ ops) m = perform_all ops (perform op m).1

-- Before the first call.
abbrev pub unmonitored : Monitors
unmonitored = record { callbacks = []; sock = closed }

perform_all-IsSound :
    (ops : List Operation) (m : Monitors) → IsSound m → IsSound (perform_all ops m)
perform_all-IsSound [] m h = h
perform_all-IsSound (adds connected i d ∷ ops) m h =
    perform_all-IsSound ops (add_interface_monitor connected i d m).1
      (add-IsSound connected i d m h)
perform_all-IsSound (removes i d ∷ ops) m h =
    perform_all-IsSound ops (remove_interface_monitor i d m).1 (remove-IsSound i d m h)

pub unmonitored-IsSound : IsSound unmonitored
unmonitored-IsSound = record { full = tt; held = λ _. refl; needed = λ e. cc }

some_monitored :
    (m : CallbackMap)
    → Full m
    → is_empty m ≡ false
    → (i : ℕ) × (d : CallbackData) × (is_monitored i d m ≡ true)
unfolding map_find set_contains
some_monitored [] h e = cc
some_monitored ((i, []) ∷ m) h e = cc
some_monitored ((i, d ∷ set) ∷ m) h e = (i, d, ground arith)

none_monitored :
    (i : ℕ) (d : CallbackData) (m : CallbackMap) → is_monitored i d m ≡ true → is_empty m ≡ false
unfolding map_find set_contains
none_monitored i d [] e = cc
none_monitored i d (x ∷ m) e = refl

-- After any calls of addInterfaceMonitor and removeInterfaceMonitor, whatever nl_connect answers: there
-- is a socket while any callback is in a set, and while one that was given to the main loop is there some
-- callback is in a set.
pub perform_all-sock :
    (ops : List Operation)
    → ((i : ℕ) (d : CallbackData)
        → is_monitored i d (perform_all ops unmonitored).callbacks ≡ true
        → is_closed (perform_all ops unmonitored).sock ≡ false)
      × (is_watched (perform_all ops unmonitored).sock ≡ true
          → (i : ℕ) × (d : CallbackData) × (is_monitored i d (perform_all ops unmonitored).callbacks
              ≡ true))
perform_all-sock ops =
    let m : Monitors = perform_all ops unmonitored in
    let h : IsSound m = perform_all-IsSound ops unmonitored unmonitored-IsSound in
    (
      λ i d e. ground (arith, h.held, none_monitored i d m.callbacks e),
      λ e. some_monitored m.callbacks h.full (h.needed e),
    )
