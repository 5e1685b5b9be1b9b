-- ===== src/Netlink/Requests.antt =====
-- The functions that ask the kernel for something.
use Prim.{tt}
use open_vrrp.Prelude.{
  ℕ, ◌==◌, ltb, if◌then◌else◌, not, ◌&&◌, ◌||◌, Bool, false, List, [], ◌∷◌, Option, none, some, ℤ,
  pos, negsuc, less_int,
}
use open_vrrp.Address.{Family, number, IpAddress, no_address, IpSubnet}
use open_vrrp.Containers.{map_set}
use open_vrrp.Text.{codes}
use open_vrrp.Netlink.{
  Attribute, ifname, address, operstate, link, linkinfo, macvlan_mode, vlan_id, newlink, dellink,
  setlink, Message, message, modifies, M, ◌>>=◌, ◌>>◌, pure, Pointer, is_null, alloc, use_object,
  free, send, Entry, Link, Kernel,
}

-- `none` is the result 0.
unfoldable pub create_socket : Kernel → M Pointer
create_socket k = do
  sock ← alloc
  use_object sock
  if k.connected then pure sock else (do free sock; pure none)

-- rtnl_addr_alloc_cache and rtnl_link_alloc_cache; where one fails, `cache` is not set.
abbrev pub alloc_cache : Kernel → Pointer → M Pointer
alloc_cache k sock = do use_object sock; if less_int k.caching (pos 0) then pure none else alloc

-- The loop of getPrimaryIpAddress.
unfoldable pub first_address : ℕ → Family → List Entry → IpAddress
first_address interface family [] = no_address
first_address interface family (e ∷ rest) =
    let more = first_address interface family rest in
    if e.ifindex == interface && e.permanent
    then (if not (e.family == number family)
        then more
        else record { family = family; bytes = e.local })
    else more

unfoldable pub get_primary_ip_address : Kernel → ℕ → Family → M IpAddress
unfolding first_address create_socket
get_primary_ip_address k interface family = do
  sock ← create_socket k
  if is_null sock then pure no_address else (do
    cache ← alloc_cache k sock
    use_object cache
    free cache
    pure (first_address interface family k.entries))

unfoldable pub modify_ip_address : Kernel → ℕ → IpSubnet → Bool → M Bool
unfolding create_socket
modify_ip_address k interface ip add = do
  sock ← create_socket k
  if is_null sock then pure false else (do
    local ← alloc
    addr ← alloc
    use_object addr
    use_object local
    use_object sock
    send (modifies add interface ip)
    free addr
    free local
    free sock
    pure k.modified)

-- nl_send_auto_complete and nl_wait_for_ack.
abbrev pub exchange : Kernel → Pointer → Pointer → Message → M Bool
exchange k sock msg m = do
  use_object sock
  use_object msg
  send (message m)
  pure (less_int k.sending (pos 0) || less_int k.acknowledged (pos 0))

-- After an error of the exchange the socket is freed, and the function goes on.
unfoldable pub add_interface : Kernel → Pointer → Message → List ℕ → M ℤ
unfolding create_socket
add_interface k msg m name = do
  sock ← create_socket k
  if is_null sock then pure (negsuc 0) else (do
    failed ← exchange k sock msg m
    if failed then free sock else pure tt
    cache ← alloc_cache k sock
    if is_null cache
        then (do free sock; pure (negsuc 0))
        else (do free sock; use_object cache; free cache; pure (pos (k.name2i name))))

-- The message with its attribute IFLA_LINKINFO, which is nested.
abbrev nest : Pointer → M (Unit {0})
nest msg = do
  info ← alloc
  content ← alloc
  use_object info
  use_object content
  free content
  use_object msg
  use_object info
  free info

-- NLM_F_CREATE | NLM_F_EXCL
abbrev new_interface : List Attribute → Message
new_interface attributes = record {
  type = newlink;
  flags = 0x600;
  index = 0;
  change = 0;
  link_flags = 0;
  attributes = attributes;
}

-- MACVLAN_MODE_VEPA is 2.
abbrev pub macvlan_message : ℕ → List ℕ → List ℕ → Message
macvlan_message interface mac name = new_interface (
    ifname name
    ∷ address mac
    ∷ operstate 6
    ∷ link interface
    ∷ linkinfo (codes "macvlan") (macvlan_mode 2)
    ∷ [])

unfoldable pub add_macvlan_interface : Kernel → ℕ → List ℕ → List ℕ → M ℤ
unfolding add_interface
add_macvlan_interface k interface mac name = do
  msg ← alloc
  nest msg
  ret ← add_interface k msg (macvlan_message interface mac name) name
  free msg
  pure ret

abbrev pub vlan_message : ℕ → ℕ → List ℕ → Message
vlan_message interface vlan name =
    new_interface (ifname name ∷ link interface ∷ linkinfo (codes "vlan") (vlan_id vlan) ∷ [])

unfoldable pub add_vlan_interface : Kernel → ℕ → ℕ → List ℕ → M ℤ
unfolding add_interface
add_vlan_interface k interface vlan name = do
  msg ← alloc
  nest msg
  ret ← add_interface k msg (vlan_message interface vlan name) name
  free msg
  pure ret

-- There is no test on the socket. NLM_F_REQUEST is 1.
unfoldable pub remove_interface : Kernel → ℕ → M Bool
unfolding create_socket
remove_interface k interface = do
  sock ← create_socket k
  msg ← alloc
  failed ← exchange k sock msg (record {
    type = dellink;
    flags = 1;
    index = interface;
    change = 0;
    link_flags = 0;
    attributes = [];
  })
  free msg
  free sock
  pure (not failed)

-- `list[rtnl_link_get_ifindex(link)] = rtnl_link_get_name(link)`
unfoldable pub list_links : List Link → List (ℕ × List ℕ) → List (ℕ × List ℕ)
list_links [] list = list
list_links (l ∷ ls) list = list_links ls (map_set ltb l.ifindex l.name list)

unfoldable pub interfaces : Kernel → M (List (ℕ × List ℕ))
unfolding create_socket list_links
interfaces k = do
  sock ← create_socket k
  if is_null sock then pure [] else (do
    cache ← alloc_cache k sock
    use_object cache
    free cache
    free sock
    pure (list_links k.links []))

abbrev set_link : Kernel → Message → M Bool
set_link k m = do
  sock ← create_socket k
  if is_null sock
      then pure false
      else (do msg ← alloc; failed ← exchange k sock msg m; free msg; free sock; pure (not failed))

unfoldable pub set_mac : Kernel → ℕ → List ℕ → M Bool
unfolding create_socket
set_mac k interface mac = set_link k (record {
  type = setlink;
  flags = 0;
  index = interface;
  change = 0;
  link_flags = 0;
  attributes = address mac ∷ [];
})

-- IFF_UP is 1.
unfoldable pub toggle_interface : Kernel → ℕ → Bool → M Bool
unfolding create_socket
toggle_interface k interface up = set_link k (record {
  type = setlink;
  flags = 0;
  index = interface;
  change = 1;
  link_flags = if up then 1 else 0;
  attributes = [];
})

-- The reference to a link that is found. IF_OPER_UP is 6.
abbrev is_up : Option Link → M Bool
is_up none = pure false
is_up (some l) = do reference ← alloc; use_object reference; pure (l.operstate == 6)

unfoldable pub is_interface_up : Kernel → ℕ → M Bool
unfolding create_socket
is_interface_up k interface = do
  sock ← create_socket k
  if is_null sock then pure false else (do
    cache ← alloc_cache k sock
    use_object cache
    up ← is_up (k.link_get interface)
    free cache
    free sock
    pure up)
