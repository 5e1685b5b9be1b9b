-- ===== src/Netlink.antt =====
-- src/netlink.h and src/netlink.cpp: what the program asks of the kernel by libnl, and which of
-- libnl's objects it holds. This file has the objects, the requests and the answers.
pub mod Requests
pub mod Numbers
pub mod Balance
pub mod Answers
pub mod Monitors
use open_vrrp.Prelude.{
  ℕ, ◌+◌, ◌==◌, ltb, leb, if◌then◌else◌, not, ◌||◌, ◌&&◌, Bool, true, false, List, [], ◌∷◌, ◌++◌,
  Option, none, some, ℤ,
}
use Prim.{tt}
use open_vrrp.Address.{IpAddress, IpSubnet}

-- The data of IFLA_LINKINFO.
pub data LinkInfo : Type 0 where
  macvlan_mode vlan_id : ℕ → LinkInfo

pub data Attribute : Type 0 where
  ifname address : List ℕ → Attribute
  operstate link : ℕ → Attribute
  linkinfo : List ℕ → LinkInfo → Attribute

pub data MessageType : Type 0 where
  newlink dellink setlink : MessageType

-- A message with its `ifinfomsg`, whose family is AF_UNSPEC and whose type is ARPHRD_ETHER.
pub record Message : Type 0 where
  pub type : MessageType
  pub flags : ℕ
  pub index : ℕ
  pub change : ℕ
  pub link_flags : ℕ
  pub attributes : List Attribute

-- What is sent: a message, or by rtnl_addr_add (`true`) and rtnl_addr_delete an address.
pub data Request : Type 0 where
  message : Message → Request
  modifies : Bool → ℕ → IpSubnet → Request

-- The sockets, messages, caches and other objects of libnl that are not freed, by number; and what
-- was sent, in its order.
pub record Objects : Type 0 where
  pub next : ℕ
  pub live : List ℕ
  pub sent : List Request

-- `none` is the use of an object that was freed, or of a pointer to none.
abbrev pub M : Type 0 → Type 0
M A = Objects → Option (A × Objects)

abbrev pub continue : {A B : Type 0} → Option (A × Objects) → (A → M B) → Option (B × Objects)
continue none f = none
continue (some (a, o)) f = f a o

infixl 5 ◌>>=◌ ◌>>◌
abbrev pub ◌>>=◌ : {A B : Type 0} → M A → (A → M B) → M B
m >>= f = λ o. continue (m o) f

abbrev pub ◌>>◌ : {B : Type 0} → M (Unit {0}) → M B → M B
m >> k = m >>= λ _. k

abbrev pub pure : {A : Type 0} → A → M A
pure a o = some (a, o)

abbrev pub has : ℕ → List ℕ → Bool
has h [] = false
has h (x ∷ xs) = h == x || has h xs

abbrev pub without : ℕ → List ℕ → List ℕ
without h [] = []
without h (x ∷ xs) = if h == x then xs else x ∷ without h xs

-- A pointer; `none` is 0, or one that was never set.
abbrev pub Pointer : Type 0
Pointer = Option ℕ

abbrev pub is_null : Pointer → Bool
is_null none = true
is_null (some h) = false

-- Any of the functions that make an object.
abbrev pub alloc : M Pointer
alloc o = some (some o.next, record o { next = o.next + 1; live = o.next ∷ o.live })

-- Any call with an object.
abbrev pub use_object : Pointer → M (Unit {0})
use_object none o = none
use_object (some h) o = if has h o.live then some (tt, o) else none

-- nl_socket_free, nlmsg_free, nl_cache_free, nl_addr_put and rtnl_addr_put.
abbrev pub free : Pointer → M (Unit {0})
free none o = none
free (some h) o = if has h o.live then some (tt, record o { live = without h o.live }) else none

abbrev pub send : Request → M (Unit {0})
send r o = some (tt, record o { sent = o.sent ++ r ∷ [] })

-- An entry of the cache of addresses.
pub record Entry : Type 0 where
  pub ifindex : ℕ
  pub family : ℕ
  -- The flag IFA_F_PERMANENT.
  pub permanent : Bool
  pub local : List ℕ

-- An entry of the cache of links.
pub record Link : Type 0 where
  pub ifindex : ℕ
  pub name : List ℕ
  pub operstate : ℕ

-- What the kernel and libnl answer to the calls of one function.
pub record Kernel : Type 0 where
  -- nl_connect gives 0.
  pub connected : Bool
  -- nl_send_auto_complete, nl_wait_for_ack, and the allocation of a cache.
  pub sending : ℤ
  pub acknowledged : ℤ
  pub caching : ℤ
  -- rtnl_addr_add or rtnl_addr_delete gives 0.
  pub modified : Bool
  pub entries : List Entry
  pub links : List Link
  -- rtnl_link_name2i
  pub name2i : List ℕ → ℕ
  -- rtnl_link_get
  pub link_get : ℕ → Option Link
