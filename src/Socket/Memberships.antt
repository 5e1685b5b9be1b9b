-- ===== src/Socket/Memberships.antt =====
-- The multicast memberships are counted.
use open_vrrp.Prelude.{
  ℕ, ◌+◌, ◌-◌, ◌^◌, ◌<◌, ◌≤◌, ◌==◌, ltb, if◌then◌else◌, true, Option, none, some, ◌≡◌, refl, arith,
  Option-cases, Bool-cases, inl, inr, u32,
}
use open_vrrp.Containers.{map_find}
use open_vrrp.Socket.{InterfaceMap, add_interface, remove_interface}
use open_vrrp.Containers.Nested.{find-set, find-erase}

-- `m_interfaceCount` of an interface, 0 without an entry.
abbrev count_of : Option ℕ → ℕ
count_of none = 0
count_of (some n) = n

abbrev pub users : ℕ → InterfaceMap → ℕ
users i counts = count_of (map_find ltb i counts)

-- addInterface of an interface with fewer than 2^32 - 1 users, if the kernel does not refuse: the
-- interface has one user more, and any other the same.
pub users-add_interface :
    (i j : ℕ) (counts : InterfaceMap)
    → users i counts < 2 ^ 32 - 1
    → users j (add_interface true i counts).1
      ≡ (if j == i then users j counts + 1 else users j counts)
unfolding add_interface
users-add_interface i j counts h = elim (Option-cases (map_find ltb i counts)) [
  | inl e ↦ rw (e, add_interface) (ground (arith, find-set {0} j i 1 counts))
  | inr (n, e) ↦ rw (e, add_interface) (ground (arith, find-set {0} j i (u32 (n + 1)) counts))
]

-- removeInterface of an interface with at least one user and fewer than 2^32, if the kernel does
-- not refuse: it succeeds, the interface has one user less and any other the same, and the group
-- is left exactly if it was the last.
pub users-remove_interface :
    (i j : ℕ) (counts : InterfaceMap)
    → 1 ≤ users i counts
    → users i counts < 2 ^ 32
    → ((remove_interface true i counts).0 ≡ true)
      × (users j (remove_interface true i counts).1
          ≡ (if j == i then users j counts - 1 else users j counts))
      × ((remove_interface true i counts).2 ≡ (users i counts == 1))
unfolding remove_interface
users-remove_interface i j counts l h = elim (Option-cases (map_find ltb i counts)) [
  | inl e ↦ ground (arith, e)
  | inr (n, e) ↦
      rw (e, remove_interface)
        (elim (Bool-cases (n == 1)) [
          | inl last ↦ rw last (refl, ground (arith, find-erase {0} j i counts), refl)
          | inr more ↦
              rw more (refl, ground (arith, find-set {0} j i (u32 (n + 2 ^ 32 - 1)) counts), refl)
        ])
]
