-- ===== src/Netlink/Monitors/Delivered.antt =====
-- Which callbacks hear of a message of the kernel.
use open_vrrp.Prelude.{
  ℕ, ◌%◌, ◌==◌, ltb, not, ◌&&◌, ◌||◌, Bool, true, false, List, [], ◌∷◌, map, ◌≡◌, refl, arith,
  Option-cases, inl, inr, if◌then◌else◌, ap, ◌∙◌,
}
use open_vrrp.Containers.{set_contains, map_find}
use open_vrrp.Netlink.Monitors.{
  CallbackData, data_less, MonitorSocket, is_closed, Monitors, add_interface_monitor,
  remove_interface_monitor, LinkMessage, Notice, nl_message_callback, is_newlink, is_closed,
}
use open_vrrp.Netlink.Monitors.Sets.{is_monitored, same_data, here}
use open_vrrp.Netlink.Monitors.Sound.{IsSound, add-IsSound, remove-IsSound, is_watched}
use open_vrrp.Netlink.Monitors.Watched.{
  Operation, adds, removes, perform, perform_all, unmonitored, unmonitored-IsSound,
  perform_all-sock, add_interface_monitor-seen, remove_interface_monitor-seen,
}

-- The callbacks whose addInterfaceMonitor answered true, and that were not removed since.
abbrev pub wanted : List Operation → Monitors → (ℕ → CallbackData → Bool) → ℕ → CallbackData → Bool
wanted [] m w = w
wanted (adds connected i d ∷ ops) m w =
    let (answer, m') = add_interface_monitor connected i d m in
    wanted ops m' (λ j c. answer && (j == i && same_data c d) || w j c)
wanted (removes i d ∷ ops) m w =
    wanted ops (remove_interface_monitor i d m).1 (λ j c. not (j == i && same_data c d) && w j c)

wanted-seen :
    (ops : List Operation) (m : Monitors) (w : ℕ → CallbackData → Bool)
    → IsSound m
    → ((j : ℕ) (c : CallbackData) → is_monitored j c m.callbacks ≡ w j c)
    → (j : ℕ) (c : CallbackData)
    → is_monitored j c (perform_all ops m).callbacks ≡ wanted ops m w j c
wanted-seen [] m w h e = e
wanted-seen (adds connected i d ∷ ops) m w h e =
    wanted-seen ops (add_interface_monitor connected i d m).1
      (λ j c. (add_interface_monitor connected i d m).0 && (j == i && same_data c d) || w j c)
      (add-IsSound connected i d m h)
      (λ j c. rw (← e j c) ((add_interface_monitor-seen connected j i c d m h).1))
wanted-seen (removes i d ∷ ops) m w h e =
    wanted-seen ops (remove_interface_monitor i d m).1
      (λ j c. not (j == i && same_data c d) && w j c) (remove-IsSound i d m h)
      (λ j c. rw (← e j c) ((remove_interface_monitor-seen j i c d m).1))

abbrev same_bool : Bool → Bool → Bool
same_bool true b = b
same_bool false b = not b

-- A callback is called for an interface with this `isUp`.
abbrev pub is_called : ℕ → Bool → CallbackData → List Notice → Bool
is_called i up d [] = false
is_called i up d (n ∷ ns) =
    i == n.interface && (same_bool up n.is_up && same_data d n.target) || is_called i up d ns

notices-called :
    (j i : ℕ) (b up : Bool) (c : CallbackData) (set : List CallbackData)
    → is_called j b c (map (λ d. record { interface = i; is_up = up; target = d }) set)
      ≡ (j == i && (same_bool b up && set_contains data_less c set))
unfolding set_contains
notices-called j i b up c [] = ground arith
notices-called j i b up c (d ∷ set) = ground (arith, notices-called j i b up c set)

notified :
    (ops : List Operation) (msg : LinkMessage) (j : ℕ) (b : Bool) (c : CallbackData)
    → is_called j b c (nl_message_callback msg (perform_all ops unmonitored)) ≡ (
        is_newlink msg.type
        && (j == msg.index
            && (same_bool b (msg.flags % 2 == 1) && wanted ops unmonitored (λ _ _. false) j c)))
unfolding nl_message_callback map_find set_contains
notified ops msg j b c =
    let m : Monitors = perform_all ops unmonitored in
    rw (← wanted-seen ops unmonitored (λ _ _. false) unmonitored-IsSound (λ _ _. refl) j c)
      (elim (Option-cases (map_find ltb msg.index m.callbacks)) [
        | inl e ↦ rw e (ground (arith, here j msg.index c m.callbacks, e))
        | inr (set, e) ↦ rw e (
            ground (
              arith,
              here j msg.index c m.callbacks,
              e,
              notices-called j msg.index b (msg.flags % 2 == 1) c set,
            ))
      ])

-- What the callbacks hear of a message that the kernel sends: the main loop calls nlSocketCallback only
-- for the socket that was given to it.
abbrev pub delivered : LinkMessage → Monitors → List Notice
delivered msg m = if is_watched m.sock then nl_message_callback msg m else []

called_if :
    (i : ℕ) (up w : Bool) (d : CallbackData) (ns : List Notice)
    → is_called i up d (if w then ns else []) ≡ (w && is_called i up d ns)
called_if i up true d ns = refl
called_if i up false d ns = refl

-- nl_connect succeeds in all calls.
abbrev pub are_connected : List Operation → Bool
are_connected [] = true
are_connected (adds connected i d ∷ ops) = connected && are_connected ops
are_connected (removes i d ∷ ops) = are_connected ops

-- The socket is closed or given to the main loop.
abbrev is_settled : MonitorSocket → Bool
is_settled sock = is_closed sock || is_watched sock

perform-settled :
    (op : Operation) (m : Monitors)
    → are_connected (op ∷ []) ≡ true
    → is_settled m.sock ≡ true
    → is_settled (perform op m).1.sock ≡ true
unfolding add_interface_monitor remove_interface_monitor
perform-settled (adds true i d) m c h = elim (Option-cases (map_find ltb i m.callbacks)) [
  | inl e ↦ rw (e, add_interface_monitor) (ground arith)
  | inr (set, e) ↦ rw (e, add_interface_monitor) (ground arith)
]
perform-settled (adds false i d) m c h = cc
perform-settled (removes i d) m c h = elim (Option-cases (map_find ltb i m.callbacks)) [
  | inl e ↦ rw (e, remove_interface_monitor) (ground arith)
  | inr (set, e) ↦ rw (e, remove_interface_monitor) (ground arith)
]

perform_all-settled :
    (ops : List Operation) (m : Monitors)
    → are_connected ops ≡ true
    → is_settled m.sock ≡ true
    → is_settled (perform_all ops m).sock ≡ true
perform_all-settled [] m c h = h
perform_all-settled (adds connected i d ∷ ops) m c h =
    perform_all-settled ops (perform (adds connected i d) m).1 (ground arith)
      (perform-settled (adds connected i d) m (ground arith) h)
perform_all-settled (removes i d ∷ ops) m c h =
    perform_all-settled ops (perform (removes i d) m).1 c (perform-settled (removes i d) m refl h)

watched_if :
    (connected there : Bool) (sock : MonitorSocket)
    → (connected ≡ true → is_settled sock ≡ true)
    → (there ≡ true → is_closed sock ≡ false)
    → (connected && there) ≡ (connected && (there && is_watched sock))
watched_if false there sock h k = refl
watched_if true false sock h k = refl
watched_if true true sock h k = ground (arith, h refl, k refl)

-- After any calls of addInterfaceMonitor and removeInterfaceMonitor, whatever nl_connect answers, a
-- message that the kernel sends calls a callback for an interface exactly if the main loop watches the
-- socket, the message is an RTM_NEWLINK of that interface, the callback was added for it with the answer
-- true and not removed since, and `isUp` is the flag IFF_UP. And the main loop watches the socket while
-- there is such a callback, if nl_connect succeeds in all calls.
pub delivered-wanted :
    (ops : List Operation) (msg : LinkMessage) (j : ℕ) (b : Bool) (c : CallbackData)
    → (is_called j b c (delivered msg (perform_all ops unmonitored)) ≡ (
        is_watched (perform_all ops unmonitored).sock
        && (is_newlink msg.type
            && (j == msg.index
                && (same_bool b (msg.flags % 2 == 1)
                    && wanted ops unmonitored (λ _ _. false) j c)))))
      × ((are_connected ops && wanted ops unmonitored (λ _ _. false) j c) ≡ (
          are_connected ops
          && (wanted ops unmonitored (λ _ _. false) j c
              && is_watched (perform_all ops unmonitored).sock)))
unfolding set_contains map_find
delivered-wanted ops msg j b c =
    let m : Monitors = perform_all ops unmonitored in
    (
      called_if j b (is_watched m.sock) c (nl_message_callback msg m)
          ∙ ap (λ (x : Bool). is_watched m.sock && x) (notified ops msg j b c),
      watched_if (are_connected ops) (wanted ops unmonitored (λ _ _. false) j c) m.sock
          (λ e. perform_all-settled ops unmonitored e refl)
          (λ e.
            (perform_all-sock ops).0 j c (
              wanted-seen ops unmonitored (λ _ _. false) unmonitored-IsSound (λ _ _. refl) j c
              ∙ e)),
    )
