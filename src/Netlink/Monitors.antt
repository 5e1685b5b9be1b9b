-- ===== src/Netlink/Monitors.antt =====
-- The part of src/netlink.cpp that watches links: the callbacks of each interface, and the one
-- socket that is open while there are any.
pub mod Sets
pub mod Sound
pub mod Watched
pub mod Delivered
use open_vrrp.Prelude.{
  ℕ, ◌+◌, ◌%◌, ◌==◌, ltb, if◌then◌else◌, not, ◌&&◌, ◌||◌, Bool, true, false, List, [], ◌∷◌, ◌++◌,
  Option, none, some, map, ℤ, pos, less_int,
}
use open_vrrp.Containers.{set_insert, set_erase, set_contains, map_set, map_find, map_erase}
use open_vrrp.Containers.Nested.{is_empty}
use open_vrrp.Netlink.{MessageType, newlink, dellink, setlink}

-- `CallbackData`: the addresses of the function and of its user data.
pub record CallbackData : Type 0 where
  pub callback : ℕ
  pub user_data : ℕ

-- `operator<` of a pair
abbrev pub data_less : CallbackData → CallbackData → Bool
data_less a b =
    ltb a.callback b.callback || (a.callback == b.callback && ltb a.user_data b.user_data)

abbrev pub CallbackMap : Type 0
CallbackMap = List (ℕ × List CallbackData)

-- `sock`: 0; connected and given to the main loop, whose answer is dropped; or allocated, after
-- nl_connect failed.
pub data MonitorSocket : Type 0 where
  closed watched unconnected : MonitorSocket

pub record Monitors : Type 0 where
  pub callbacks : CallbackMap
  pub sock : MonitorSocket

abbrev pub is_closed : MonitorSocket → Bool
is_closed closed = true
is_closed _ = false

-- `connected` tells whether nl_connect gives 0.
unfoldable pub add_interface_monitor : Bool → ℕ → CallbackData → Monitors → Bool × Monitors
add_interface_monitor connected interface d m = elim (map_find ltb interface m.callbacks) [
  | some set ↦ if set_contains data_less d set then (false, m) else (
    true,
    record m { callbacks = map_set ltb interface (set_insert data_less d set) m.callbacks },
  )
  | none ↦
      let callbacks : CallbackMap = map_set ltb interface [] m.callbacks in
      let inserted : CallbackMap = map_set ltb interface (set_insert data_less d []) callbacks in
      if is_closed m.sock
      then (if connected then (true, record { callbacks = inserted; sock = watched }) else (
        false,
        record { callbacks = map_erase ltb interface callbacks; sock = unconnected },
      ))
      else (true, record m { callbacks = inserted })
]

unfoldable pub remove_interface_monitor : ℕ → CallbackData → Monitors → Bool × Monitors
remove_interface_monitor interface d m = elim (map_find ltb interface m.callbacks) [
  | none ↦ (false, m)
  | some set ↦
      if not (set_contains data_less d set)
      then (false, m)
      else (let rest : List CallbackData = set_erase data_less d set in
          let others : CallbackMap = map_erase ltb interface m.callbacks in
          if is_empty rest
          then (if is_empty others
              then (true, record { callbacks = others; sock = closed })
              else (true, record m { callbacks = others }))
          else (true, record m { callbacks = map_set ltb interface rest m.callbacks }))
]

-- A message of the kernel about a link.
pub record LinkMessage : Type 0 where
  pub type : MessageType
  pub index : ℕ
  pub flags : ℕ

-- A call of an InterfaceCallback: the interface, `isUp`, and whom it is for.
pub record Notice : Type 0 where
  pub interface : ℕ
  pub is_up : Bool
  pub target : CallbackData

abbrev pub is_newlink : MessageType → Bool
is_newlink newlink = true
is_newlink _ = false

-- The calls, in their order; the callbacks leave the set as it is. IFF_UP is 1.
unfoldable pub nl_message_callback : LinkMessage → Monitors → List Notice
nl_message_callback msg m =
    if is_newlink msg.type
    then (elim (map_find ltb msg.index m.callbacks) [
      | none ↦ []
      | some set ↦
          map (λ d. record { interface = msg.index; is_up = msg.flags % 2 == 1; target = d }) set
    ])
    else []

abbrev all_notices : List LinkMessage → Monitors → List Notice
all_notices [] m = []
all_notices (msg ∷ msgs) m = nl_message_callback msg m ++ all_notices msgs m

-- The callback of the main loop: each call of nl_recvmsgs_default gives messages and its result, and
-- the loop ends at one that is not positive. Where the results end before, so does this.
unfoldable pub nl_socket_callback : List (List LinkMessage × ℤ) → Monitors → List Notice
unfolding nl_message_callback
nl_socket_callback [] m = []
nl_socket_callback ((msgs, err) ∷ received) m =
    let later = nl_socket_callback received m in
    all_notices msgs m ++ (if less_int (pos 0) err then later else [])
