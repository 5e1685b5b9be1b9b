-- ===== src/Configurator/Registry.antt =====
-- Configurator::services, the order in which a registry is saved.
use Prim.{tt}
use open_vrrp.Prelude.{ℕ, ◌==◌, false, List, [], ◌∷◌, ◌++◌, ◌≡◌, arith, All}
use open_vrrp.Address.{number}
use open_vrrp.Service.{Service}
use open_vrrp.Manager.{VrrpServiceMap}
use open_vrrp.Configurator.Reload.{IsApart, AreApart}

abbrev pub FamilyMap : Type 0
FamilyMap = List (ℕ × Service)

abbrev pub RouterMap : Type 0
RouterMap = List (ℕ × FamilyMap)

-- The three loops, from the inside.
unfoldable pub services_of_router : FamilyMap → List Service
services_of_router [] = []
services_of_router ((f, s) ∷ services) = s ∷ services_of_router services

unfoldable pub services_of_interface : RouterMap → List Service
unfolding services_of_router
services_of_interface [] = []
services_of_interface ((v, router) ∷ routers) =
    services_of_router router ++ services_of_interface routers

unfoldable pub services_of : VrrpServiceMap → List Service
unfolding services_of_interface
services_of [] = []
services_of ((i, interface) ∷ interfaces) =
    services_of_interface interface ++ services_of interfaces

-- A key that no entry has.
abbrev IsNew : {V : Type 0} → ℕ → List (ℕ × V) → Type 0
IsNew {V} k m = All (λ (e : ℕ × V). (k == e.0) ≡ false) m

-- Every service stands under its own interface, router id and family, and no key stands twice.
abbrev pub IsPlacedFamily : ℕ → ℕ → FamilyMap → Type 0
IsPlacedFamily i v [] = Unit {0}
IsPlacedFamily i v ((f, s) ∷ m) =
    (s.interface ≡ i)
    × (s.virtual_router_id ≡ v)
    × (number s.family ≡ f)
    × IsNew f m
    × IsPlacedFamily i v m

abbrev pub IsPlacedRouter : ℕ → RouterMap → Type 0
IsPlacedRouter i [] = Unit {0}
IsPlacedRouter i ((v, router) ∷ m) = IsPlacedFamily i v router × IsNew v m × IsPlacedRouter i m

abbrev pub IsPlaced : VrrpServiceMap → Type 0
IsPlaced [] = Unit {0}
IsPlaced ((i, interface) ∷ m) = IsPlacedRouter i interface × IsNew i m × IsPlaced m

All-append : {A : Type 0} (P : A → Type 0) (xs ys : List A) → All P xs → All P ys → All P (xs ++ ys)
All-append P [] ys h k = k
All-append P (x ∷ xs) ys (p, h) k = (p, All-append P xs ys h k)

append-AreApart :
    (xs ys : List Service)
    → AreApart xs
    → AreApart ys
    → All (λ s. All (IsApart s) ys) xs
    → AreApart (xs ++ ys)
append-AreApart [] ys h k a = k
append-AreApart (x ∷ xs) ys (p, h) k (q, a) =
    (All-append (IsApart x) xs ys p q, append-AreApart xs ys h k a)

-- Services with one member in common, and those that differ from it there.
abbrev AllHave : (Service → ℕ) → ℕ → List Service → Type 0
AllHave member n = All (λ s. member s ≡ n)

abbrev NoneHas : (Service → ℕ) → ℕ → List Service → Type 0
NoneHas member n = All (λ s. (n == member s) ≡ false)

all_family :
    (member : Service → ℕ) (n i v : ℕ) (m : FamilyMap)
    → ((s : Service) → s.interface ≡ i → s.virtual_router_id ≡ v → member s ≡ n)
    → IsPlacedFamily i v m
    → AllHave member n (services_of_router m)
unfolding services_of_router
all_family member n i v [] h p = tt
all_family member n i v ((f, s) ∷ m) h (a, b, c, new, p) = (h s a b, all_family member n i v m h p)

all_router :
    (i : ℕ) (m : RouterMap)
    → IsPlacedRouter i m
    → AllHave (λ s. s.interface) i (services_of_interface m)
unfolding services_of_interface
all_router i [] p = tt
all_router i ((v, r) ∷ m) (h, new, p) =
    All-append (λ s. s.interface ≡ i) (services_of_router r) (services_of_interface m)
      (all_family (λ s. s.interface) i i v r (λ s a b. a) h) (all_router i m p)

none_of_all :
    (member : Service → ℕ) (n k : ℕ) (xs : List Service)
    → (n == k) ≡ false
    → AllHave member k xs
    → NoneHas member n xs
none_of_all member n k [] d h = tt
none_of_all member n k (s ∷ xs) d (e, h) = (rw e d, none_of_all member n k xs d h)

new_family :
    (f i v : ℕ) (m : FamilyMap)
    → IsNew f m
    → IsPlacedFamily i v m
    → NoneHas (λ s. number s.family) f (services_of_router m)
unfolding services_of_router
new_family f i v [] d p = tt
new_family f i v ((g, s) ∷ m) (e, d) (a, b, c, new, p) = (rw c e, new_family f i v m d p)

new_router :
    (v i : ℕ) (m : RouterMap)
    → IsNew v m
    → IsPlacedRouter i m
    → NoneHas (λ s. s.virtual_router_id) v (services_of_interface m)
unfolding services_of_interface
new_router v i [] d p = tt
new_router v i ((w, r) ∷ m) (e, d) (h, new, p) =
    All-append (λ s. (v == s.virtual_router_id) ≡ false) (services_of_router r)
      (services_of_interface m)
      (none_of_all (λ s. s.virtual_router_id) v w (services_of_router r) e
        (all_family (λ s. s.virtual_router_id) w i w r (λ s a b. b) h))
      (new_router v i m d p)

new_interface :
    (i : ℕ) (m : VrrpServiceMap)
    → IsNew i m
    → IsPlaced m
    → NoneHas (λ s. s.interface) i (services_of m)
unfolding services_of
new_interface i [] d p = tt
new_interface i ((j, r) ∷ m) (e, d) (h, new, p) =
    All-append (λ s. (i == s.interface) ≡ false) (services_of_interface r) (services_of m)
      (none_of_all (λ s. s.interface) i j (services_of_interface r) e (all_router j r h))
      (new_interface i m d p)

-- Services that differ in one of the three members are apart.
differs-IsApart :
    (member : Service → ℕ) (n : ℕ) (s : Service) (ys : List Service)
    → ((t : Service) → (member s == member t) ≡ false → IsApart s t)
    → member s ≡ n
    → NoneHas member n ys
    → All (IsApart s) ys
differs-IsApart member n s [] h e d = tt
differs-IsApart member n s (t ∷ ys) h e (a, d) = (h t (rw e a), differs-IsApart member n s ys h e d)

differ-IsApart :
    (member : Service → ℕ) (n : ℕ) (xs ys : List Service)
    → ((s t : Service) → (member s == member t) ≡ false → IsApart s t)
    → AllHave member n xs
    → NoneHas member n ys
    → All (λ s. All (IsApart s) ys) xs
differ-IsApart member n [] ys h all none_has = tt
differ-IsApart member n (s ∷ xs) ys h (e, all) none_has =
    (differs-IsApart member n s ys (h s) e none_has, differ-IsApart member n xs ys h all none_has)

other_interface : (s t : Service) → (s.interface == t.interface) ≡ false → IsApart s t
other_interface s t h = ground arith

other_router : (s t : Service) → (s.virtual_router_id == t.virtual_router_id) ≡ false → IsApart s t
other_router s t h = ground arith

other_family : (s t : Service) → (number s.family == number t.family) ≡ false → IsApart s t
other_family s t h = ground arith

family-AreApart : (i v : ℕ) (m : FamilyMap) → IsPlacedFamily i v m → AreApart (services_of_router m)
unfolding services_of_router
family-AreApart i v [] p = tt
family-AreApart i v ((f, s) ∷ m) (a, b, c, new, p) = (
  differs-IsApart (λ s. number s.family) f s (services_of_router m) (other_family s) c
      (new_family f i v m new p),
  family-AreApart i v m p,
)

router-AreApart : (i : ℕ) (m : RouterMap) → IsPlacedRouter i m → AreApart (services_of_interface m)
unfolding services_of_interface
router-AreApart i [] p = tt
router-AreApart i ((v, r) ∷ m) (h, new, p) =
    append-AreApart (services_of_router r) (services_of_interface m) (family-AreApart i v r h)
      (router-AreApart i m p)
      (differ-IsApart (λ s. s.virtual_router_id) v (services_of_router r) (services_of_interface m)
        other_router (all_family (λ s. s.virtual_router_id) v i v r (λ s a b. b) h)
        (new_router v i m new p))

pub services_of-AreApart : (m : VrrpServiceMap) → IsPlaced m → AreApart (services_of m)
unfolding services_of
services_of-AreApart [] p = tt
services_of-AreApart ((i, r) ∷ m) (h, new, p) =
    append-AreApart (services_of_interface r) (services_of m) (router-AreApart i r h)
      (services_of-AreApart m p)
      (differ-IsApart (λ s. s.interface) i (services_of_interface r) (services_of m) other_interface
        (all_router i r h) (new_interface i m new p))
