-- ===== src/Netlink/Numbers.antt =====
-- The numbers of libnl's objects: a new one is none of those that are live.
use open_vrrp.Prelude.{ℕ, ◌+◌, ◌==◌, ◌<◌, ◌≤◌, true, false, List, [], ◌∷◌, ◌≡◌, All, refl, arith}
use open_vrrp.Netlink.{Objects, has}

pub same : (n : ℕ) → (n == n) ≡ true
same n = ground arith

pub before : (n : ℕ) → (n == n + 1) ≡ false
before n = ground arith

pub before_2 : (n : ℕ) → (n == n + 1 + 1) ≡ false
before_2 n = ground arith

pub before_3 : (n : ℕ) → (n == n + 1 + 1 + 1) ≡ false
before_3 n = ground arith

pub after : (n : ℕ) → (n + 1 == n) ≡ false
after n = ground arith

pub after_3 : (n : ℕ) → (n + 1 + 1 + 1 == n) ≡ false
after_3 n = ground arith

abbrev pub IsFresh : Objects → Type 0
IsFresh o = All (λ h. h < o.next) o.live

pub has-fresh : (n m : ℕ) (hs : List ℕ) → n ≤ m → All (λ h. h < n) hs → has m hs ≡ false
has-fresh n m [] _ _ = refl
has-fresh n m (h ∷ hs) le (p, q) = rw (has-fresh n m hs le q) (ground arith)
