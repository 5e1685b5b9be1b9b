-- ===== src/Netlink/Monitors/Sets.antt =====
-- The sets of callbacks, as the insertions and removals of a callback change them.
use open_vrrp.Prelude.{
  ℕ, ◌==◌, ==_iff, ltb, if◌then◌else◌, not, ◌&&◌, ◌||◌, Bool, true, false, List, [], ◌∷◌, Option,
  none, some, ◌≡◌, refl, arith, ap, ◌∙◌, All,
}
use open_vrrp.Address.Order.{IsStrictOrder}
use open_vrrp.Containers.{
  equivalent, set_insert, set_erase, set_contains, map_set, map_find, map_erase,
}
use open_vrrp.Containers.Laws.{set_contains-insert, set_contains-erase, eq_of_equivalent}
use open_vrrp.Containers.Nested.{is_empty, find-set, find-erase}
use open_vrrp.Netlink.Monitors.{CallbackData, data_less, CallbackMap}

pub data_less-IsStrictOrder : IsStrictOrder data_less
data_less-IsStrictOrder = record {
  irreflexive = λ a. ground arith;
  transitive = λ a b c. ground arith;
  connected = λ a b. ground arith;
}

abbrev pub same_data : CallbackData → CallbackData → Bool
same_data a b = equivalent data_less a b

abbrev pub set_of : Option (List CallbackData) → List CallbackData
set_of none = []
set_of (some set) = set

-- Whether a callback is in the set of an interface.
abbrev pub is_monitored : ℕ → CallbackData → CallbackMap → Bool
is_monitored i d callbacks = set_contains data_less d (set_of (map_find ltb i callbacks))

pub set-seen :
    (j i : ℕ) (c : CallbackData) (n : List CallbackData) (m : CallbackMap)
    → is_monitored j c (map_set ltb i n m)
      ≡ (if j == i then set_contains data_less c n else is_monitored j c m)
set-seen j i c n m = ground (arith, find-set {0} j i n m)

pub empty-seen :
    (c : CallbackData) (n : List CallbackData)
    → is_empty n ≡ true
    → set_contains data_less c n ≡ false
unfolding set_contains
empty-seen c [] e = refl
empty-seen c (x ∷ n) e = cc

pub erase-seen :
    (j i : ℕ) (c : CallbackData) (m : CallbackMap)
    → is_monitored j c (map_erase ltb i m) ≡ (not (j == i) && is_monitored j c m)
unfolding set_contains
erase-seen j i c m = ground (arith, find-erase {0} j i m)

-- The set of one interface, as another name of it sees it.
pub here :
    (j i : ℕ) (c : CallbackData) (m : CallbackMap)
    → (j == i) ≡ true
    → is_monitored j c m ≡ is_monitored i c m
here j i c m e = ap (λ k. is_monitored k c m) ((==_iff j i).0 e)

pub insert-seen :
    (j i : ℕ) (c d : CallbackData) (set : List CallbackData) (m : CallbackMap)
    → set_of (map_find ltb i m) ≡ set
    → is_monitored j c (map_set ltb i (set_insert data_less d set) m)
      ≡ (j == i && same_data c d || is_monitored j c m)
insert-seen j i c d set m e = ground (
  arith,
  set-seen j i c (set_insert data_less d set) m,
  set_contains-insert data_less data_less-IsStrictOrder c d set,
  here j i c m,
  e,
)

pub remove-seen :
    (j i : ℕ) (c d : CallbackData) (set : List CallbackData) (m : CallbackMap)
    → set_of (map_find ltb i m) ≡ set
    → is_monitored j c (map_set ltb i (set_erase data_less d set) m)
      ≡ (not (j == i && same_data c d) && is_monitored j c m)
remove-seen j i c d set m e = ground (
  arith,
  set-seen j i c (set_erase data_less d set) m,
  set_contains-erase data_less data_less-IsStrictOrder c d set,
  here j i c m,
  e,
)

pub drop-seen :
    (j i : ℕ) (c d : CallbackData) (set : List CallbackData) (m : CallbackMap)
    → set_of (map_find ltb i m) ≡ set
    → is_empty (set_erase data_less d set) ≡ true
    → is_monitored j c (map_erase ltb i m) ≡ (not (j == i && same_data c d) && is_monitored j c m)
drop-seen j i c d set m e empty = ground (
  arith,
  erase-seen j i c m,
  set_contains-erase data_less data_less-IsStrictOrder c d set,
  empty-seen c (set_erase data_less d set) empty,
  here j i c m,
  e,
)

-- Two callbacks that are the same are in the same sets.
pub same-seen :
    (j i : ℕ) (c d : CallbackData) (m : CallbackMap)
    → (j == i && same_data c d) ≡ true
    → is_monitored j c m ≡ is_monitored i d m
same-seen j i c d m e =
    here j i c m (ground arith)
    ∙ ap (λ x. is_monitored i x m)
        (eq_of_equivalent data_less data_less-IsStrictOrder c d (ground arith))

abbrev pub Full : CallbackMap → Type 0
Full m = All (λ (e : ℕ × List CallbackData). is_empty e.1 ≡ false) m

pub set-Full :
    (i : ℕ) (n : List CallbackData) (m : CallbackMap)
    → is_empty n ≡ false
    → Full m
    → Full (map_set ltb i n m)
unfolding map_set
set-Full i n [] e h = (e, h)
set-Full i n ((j, w) ∷ m) e (p, h) = ground (arith, set-Full i n m e h)

pub erase-Full : (i : ℕ) (m : CallbackMap) → Full m → Full (map_erase ltb i m)
unfolding map_erase
erase-Full i [] h = h
erase-Full i ((j, w) ∷ m) (p, h) = ground (arith, erase-Full i m h)

pub set-is_empty :
    {V : Type 0} (i : ℕ) (n : V) (m : List (ℕ × V)) → is_empty (map_set ltb i n m) ≡ false
unfolding map_set
set-is_empty i n [] = refl
set-is_empty i n ((j, w) ∷ m) = ground arith

pub insert-is_empty :
    (d : CallbackData) (set : List CallbackData) → is_empty (set_insert data_less d set) ≡ false
unfolding set_insert
insert-is_empty d [] = refl
insert-is_empty d (x ∷ set) = ground arith

pub find-is_empty :
    (i : ℕ) (m : CallbackMap) (set : List CallbackData)
    → map_find ltb i m ≡ some set
    → is_empty m ≡ false
unfolding map_find
find-is_empty i [] set e = cc
find-is_empty i (x ∷ m) set e = refl

pub set-set :
    {V : Type 0} (i : ℕ) (n v : V) (m : List (ℕ × V))
    → map_set ltb i n (map_set ltb i v m) ≡ map_set ltb i n m
unfolding map_set
set-set i n v [] = ground arith
set-set i n v ((j, w) ∷ m) = ground (arith, set-set i n v m)

pub erase-set :
    {V : Type 0} (i : ℕ) (v : V) (m : List (ℕ × V))
    → map_erase ltb i (map_set ltb i v m) ≡ map_erase ltb i m
unfolding map_set map_erase
erase-set i v [] = ground arith
erase-set i v ((j, w) ∷ m) = ground (arith, erase-set i v m)
