-- ===== src/Netlink/Monitors/Sound.antt =====
-- The socket that watches links is there exactly while it is needed.
use open_vrrp.Prelude.{
  ℕ, ltb, Bool, true, false, List, [], ◌≡◌, arith, Option-cases, Bool-cases, inl, inr,
}
use open_vrrp.Containers.{set_insert, set_erase, set_contains, map_set, map_find, map_erase}
use open_vrrp.Containers.Nested.{is_empty}
use open_vrrp.Netlink.Monitors.{
  CallbackData, data_less, MonitorSocket, is_closed, watched, Monitors, add_interface_monitor,
  remove_interface_monitor,
}
use open_vrrp.Netlink.Monitors.Sets.{
  Full, set-Full, erase-Full, set-is_empty, insert-is_empty, find-is_empty, set-set, erase-set,
}

abbrev pub is_watched : MonitorSocket → Bool
is_watched watched = true
is_watched _ = false

-- No set is empty; a socket is there while there are sets, and one in the main loop only then.
pub record IsSound (m : Monitors) : Type 0 where
  pub full : Full m.callbacks
  pub held : is_closed m.sock ≡ true → is_empty m.callbacks ≡ true
  pub needed : is_watched m.sock ≡ true → is_empty m.callbacks ≡ false

pub add-IsSound :
    (connected : Bool) (i : ℕ) (d : CallbackData) (m : Monitors)
    → IsSound m
    → IsSound (add_interface_monitor connected i d m).1
unfolding add_interface_monitor
add-IsSound connected i d m h =
    let full : (set : List CallbackData)
        → Full (map_set ltb i (set_insert data_less d set) m.callbacks) =
      λ set. set-Full i (set_insert data_less d set) m.callbacks (insert-is_empty d set) h.full in
    let more : (set : List CallbackData)
        → is_empty (map_set ltb i (set_insert data_less d set) m.callbacks) ≡ false =
      λ set. set-is_empty i (set_insert data_less d set) m.callbacks in
    elim (Option-cases (map_find ltb i m.callbacks)) [
      | inl e ↦
          rw (e, add_interface_monitor, set-set, erase-set)
            (elim (Bool-cases (is_closed m.sock)) [
              | inl c ↦ rw c (elim (Bool-cases connected) [
                | inl k ↦ rw k (record { full = full []; held = λ c. cc; needed = λ _. more [] })
                | inr k ↦ rw k (record {
                  full = erase-Full i m.callbacks h.full;
                  held = λ c. cc;
                  needed = λ c. cc;
                })
              ])
              | inr c ↦ rw c (record { full = full []; held = λ c'. cc; needed = λ _. more [] })
            ])
      | inr (set, e) ↦
          rw (e, add_interface_monitor)
            (elim (Bool-cases (set_contains data_less d set)) [
              | inl c ↦ rw c h
              | inr c ↦ rw c (record {
                full = full set;
                held = λ o. ground (arith, h.held o, find-is_empty i m.callbacks set e);
                needed = λ _. more set;
              })
            ])
    ]

pub remove-IsSound :
    (i : ℕ) (d : CallbackData) (m : Monitors)
    → IsSound m
    → IsSound (remove_interface_monitor i d m).1
unfolding remove_interface_monitor
remove-IsSound i d m h = elim (Option-cases (map_find ltb i m.callbacks)) [
  | inl e ↦ rw (e, remove_interface_monitor) h
  | inr (set, e) ↦
      rw (e, remove_interface_monitor)
        (elim (Bool-cases (set_contains data_less d set)) [
          | inr c ↦ rw c h
          | inl c ↦ rw c (elim (Bool-cases (is_empty (set_erase data_less d set))) [
            | inl l ↦ rw l (elim (Bool-cases (is_empty (map_erase ltb i m.callbacks))) [
              | inl l' ↦ rw l' (record {
                full = erase-Full i m.callbacks h.full;
                held = λ _. l';
                needed = λ c. cc;
              })
              | inr l' ↦ rw l' (record {
                full = erase-Full i m.callbacks h.full;
                held = λ o. ground (arith, h.held o, find-is_empty i m.callbacks set e);
                needed = λ _. l';
              })
            ])
            | inr l ↦ rw l (record {
              full = set-Full i (set_erase data_less d set) m.callbacks l h.full;
              held = λ o. ground (arith, h.held o, find-is_empty i m.callbacks set e);
              needed = λ _. set-is_empty i (set_erase data_less d set) m.callbacks;
            })
          ])
        ])
]
