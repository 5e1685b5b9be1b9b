-- ===== src/ArpService/Tables.antt =====
-- The tables, and that the calls of a service fill them as the ledger says.
use open_vrrp.Prelude.{
  ℕ, ◌==◌, ltb, ◌&&◌, if◌then◌else◌, Bool, true, false, List, [], ◌∷◌, Option, none, some, take,
  ◌≡◌, refl, arith, ap, ◌⊎◌, Option-cases, Bool-cases, inl, inr, ◌∙◌,
}
use open_vrrp.Address.{IpAddress, less}
use open_vrrp.Address.Order.{less-IsStrictOrder}
use open_vrrp.Containers.{map_find}
use open_vrrp.Containers.Laws.{eq_of_equivalent}
use open_vrrp.Containers.Nested.{
  nested_find, nested_set, nested_erase, nested_find-set, nested_find-erase,
}
use open_vrrp.ArpService.{ServiceMap, arp_add, arp_remove, find_mac}
use open_vrrp.Service.{Call, add_fake_arp, remove_fake_arp}
use open_vrrp.Ledger.{Ledger, apply, replay, same_address}

-- addFakeArp is an assignment in a map of maps.
arp_add-nested :
    (i : ℕ) (a : IpAddress) (mac : List ℕ) (ms : ServiceMap)
    → (arp_add true i a mac ms).1 ≡ nested_set less i a (take 6 mac) ms
unfolding arp_add nested_set
arp_add-nested i a mac ms = elim (Option-cases (map_find ltb i ms)) [
  | inl e ↦ rw (e, arp_add, nested_set) refl
  | inr (m, e) ↦ rw (e, arp_add, nested_set) refl
]

pub find_mac-add :
    (j i : ℕ) (b a : IpAddress) (mac : List ℕ) (ms : ServiceMap)
    → find_mac j b (arp_add true i a mac ms).1
      ≡ (if j == i && same_address b a then some (take 6 mac) else find_mac j b ms)
find_mac-add j i b a mac ms =
    rw (arp_add-nested i a mac ms) (nested_find-set less less-IsStrictOrder j i b a (take 6 mac) ms)

-- removeFakeArp is a removal from a map of maps, if there is something to remove.
arp_remove-nested :
    (i : ℕ) (a : IpAddress) (ms : ServiceMap)
    → ((arp_remove i a ms).1 ≡ nested_erase less i a ms)
      ⊎ (((arp_remove i a ms).1 ≡ ms) × (find_mac i a ms ≡ none))
unfolding arp_remove nested_erase nested_find
arp_remove-nested i a ms = elim (Option-cases (map_find ltb i ms)) [
  | inl e ↦ inl (rw (e, arp_remove, nested_erase) refl)
  | inr (m, e) ↦ elim (Option-cases (map_find less a m)) [
    | inl f ↦ inr (rw (e, f, arp_remove) refl, rw e f)
    | inr (mac, f) ↦ inl (rw (e, f, arp_remove, nested_erase) refl)
  ]
]

absent :
    (j i : ℕ) (b a : IpAddress) (ms : ServiceMap)
    → find_mac i a ms ≡ none
    → find_mac j b ms ≡ (if j == i && same_address b a then none else find_mac j b ms)
absent j i b a ms e = elim (Bool-cases (j == i && same_address b a)) [
  | inr f ↦ rw f refl
  | inl f ↦
      let same : j ≡ i = ground arith in
      let address : b ≡ a = eq_of_equivalent less less-IsStrictOrder b a (ground arith) in
      rw f (ap (λ k. find_mac k b ms) same ∙ ap (λ c. find_mac i c ms) address ∙ e)
]

pub find_mac-remove :
    (j i : ℕ) (b a : IpAddress) (ms : ServiceMap)
    → find_mac j b (arp_remove i a ms).1
      ≡ (if j == i && same_address b a then none else find_mac j b ms)
find_mac-remove j i b a ms = elim (arp_remove-nested i a ms) [
  | inl e ↦ rw e (nested_find-erase less less-IsStrictOrder j i b a ms)
  | inr (e, f) ↦ rw e (absent j i b a ms f)
]

-- The calls of a service as the ARP service performs them, if each addFakeArp gets its socket.
unfoldable pub perform : Call → ServiceMap → ServiceMap
perform (add_fake_arp i a mac) ms = (arp_add true i a mac ms).1
perform (remove_fake_arp i a) ms = (arp_remove i a ms).1
perform _ ms = ms

unfoldable pub perform_all : List Call → ServiceMap → ServiceMap
perform_all [] ms = ms
perform_all (c ∷ cs) ms = perform_all cs (perform c ms)

abbrev pub is_some {ℓ} : {A : Type ℓ} → Option A → Bool
is_some none = false
is_some (some a) = true

-- The tables answer for what the ledger says.
abbrev pub Agrees : ServiceMap → Ledger → Type 0
Agrees ms l = (j : ℕ) (b : IpAddress) → is_some (find_mac j b ms) ≡ l.answered j b

perform-Agrees :
    (c : Call) (ms : ServiceMap) (l : Ledger) → Agrees ms l → Agrees (perform c ms) (apply c l)
unfolding perform
perform-Agrees (add_fake_arp i a mac) ms l h j b =
    ground (arith, find_mac-add j i b a mac ms, h j b)
perform-Agrees (remove_fake_arp i a) ms l h j b = ground (arith, find_mac-remove j i b a ms, h j b)
perform-Agrees _ ms l h j b = h j b

pub perform_all-Agrees :
    (cs : List Call) (ms : ServiceMap) (l : Ledger)
    → Agrees ms l
    → Agrees (perform_all cs ms) (replay cs l)
unfolding perform_all
perform_all-Agrees [] ms l h = h
perform_all-Agrees (c ∷ cs) ms l h =
    perform_all-Agrees cs (perform c ms) (apply c l) (perform-Agrees c ms l h)
