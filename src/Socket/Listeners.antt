-- ===== src/Socket/Listeners.antt =====
-- The listener table.
use open_vrrp.Prelude.{ℕ, ◌==◌, ltb, ◌&&◌, if◌then◌else◌, none, some, ◌≡◌}
use open_vrrp.Containers.Nested.{
  ltb-IsStrictOrder, equivalent-==, nested_find, nested_set, nested_erase, nested_find-set,
  nested_find-erase,
}
use open_vrrp.Socket.{EventListenerMap, add_event_listener, remove_event_listener, find_listener}

-- After addEventListener a lookup finds the listener for its interface and router id, and finds
-- for any others what it found before.
pub find_listener-add :
    (i v i' v' l : ℕ) (ls : EventListenerMap)
    → find_listener i v (add_event_listener i' v' l ls)
      ≡ (if i == i' && v == v' then some l else find_listener i v ls)
unfolding find_listener add_event_listener nested_find nested_set
find_listener-add i v i' v' l ls =
    rw (← equivalent-== v v') (nested_find-set ltb ltb-IsStrictOrder i i' v v' l ls)

-- After removeEventListener a lookup finds no listener for its interface and router id, and finds
-- for any others what it found before.
pub find_listener-remove :
    (i v i' v' : ℕ) (ls : EventListenerMap)
    → find_listener i v (remove_event_listener i' v' ls)
      ≡ (if i == i' && v == v' then none else find_listener i v ls)
unfolding find_listener remove_event_listener nested_find nested_erase
find_listener-remove i v i' v' ls =
    rw (← equivalent-== v v') (nested_find-erase ltb ltb-IsStrictOrder i i' v v' ls)
