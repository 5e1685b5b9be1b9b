-- ===== src/Socket/RoundTrip.antt =====
-- The addresses of a packet, from sendPacket to onSocketPacket.
use open_vrrp.Prelude.{
  ℕ, suc, subst, sym, append_assoc, ◌⊎◌, ◌+◌, ltb, false, List, [], ◌∷◌, ◌++◌, some, length, take,
  drop, All, ◌≡◌, refl, arith, take-append, drop-append, length-append, inl, inr,
}
use open_vrrp.Address.{Family, family_size, IpAddress, IsSized}
use open_vrrp.Address.Order.{number-injective}
use open_vrrp.Socket.Send.{Built, built, refused, overrun, copy_addresses}
use open_vrrp.Socket.Receive.{read_addresses}

drop-drop_append : (xs ys : List ℕ) (n : ℕ) → length xs ≡ n → drop n (xs ++ ys) ≡ ys
drop-drop_append xs ys n e = subst (λ k. drop k (xs ++ ys) ≡ ys) e (drop-append xs ys)

take-take_append : (xs ys : List ℕ) (n : ℕ) → length xs ≡ n → take n (xs ++ ys) ≡ xs
take-take_append xs ys n e = subst (λ k. take k (xs ++ ys) ≡ xs) e (take-append xs ys)

read_one :
    (a : IpAddress) (count : ℕ) (tail : List ℕ) (more : List IpAddress)
    → IsSized a
    → read_addresses count a.family tail ≡ some more
    → read_addresses (suc count) a.family (a.bytes ++ tail) ≡ some (a ∷ more)
unfolding read_addresses
read_one a count tail more sized e =
    let enough : ltb (length (a.bytes ++ tail)) (family_size a.family) ≡ false =
      ground (arith, length-append a.bytes tail, sized) in
    rw
      (
        enough,
        drop-drop_append a.bytes tail (family_size a.family) sized,
        e,
        take-take_append a.bytes tail (family_size a.family) sized,
      )
      refl

Built-cases : {A : Type 0} (o : Built A) → ((a : A) × (o ≡ built a)) ⊎ (o ≡ refused) ⊎ (o ≡ overrun)
Built-cases (built a) = inl (a, refl)
Built-cases refused = inr (inl refl)
Built-cases overrun = inr (inr refl)

copied :
    (family : Family) (offset : ℕ) (a : IpAddress) (more : List IpAddress) (bytes : List ℕ)
    → copy_addresses family offset (a ∷ more) ≡ built bytes
    → (tail : List ℕ) × (a.family ≡ family)
      × (bytes ≡ a.bytes ++ tail)
      × (copy_addresses family (offset + family_size family) more ≡ built tail)
unfolding copy_addresses
copied family offset a more bytes e =
    elim (Built-cases (copy_addresses family (offset + family_size family) more)) [
      | inl (tail, r) ↦ (tail, number-injective a.family family (ground arith), ground arith, r)
      | inr (inl r) ↦ absurd (ground arith)
      | inr (inr r) ↦ absurd (ground arith)
    ]

-- If sendPacket copies a list of addresses into the buffer without refusing one or running over,
-- and each has the size of its family, then onSocketPacket reads the same list from the bytes,
-- whatever follows them.
pub read-copy_addresses :
    (family : Family) (offset : ℕ) (addresses : List IpAddress) (bytes rest : List ℕ)
    → All IsSized addresses
    → copy_addresses family offset addresses ≡ built bytes
    → read_addresses (length addresses) family (bytes ++ rest) ≡ some addresses
unfolding copy_addresses read_addresses
read-copy_addresses family offset [] bytes rest sized e = refl
read-copy_addresses family offset (a ∷ more) bytes rest sized e =
    let (tail, fits, joined, copy) = copied family offset a more bytes e in
    let rest_read : read_addresses (length more) family (tail ++ rest) ≡ some more =
      read-copy_addresses family (offset + family_size family) more tail rest sized.1 copy in
    rw (joined, append_assoc, ← fits)
      (read_one a (length more) (tail ++ rest) more sized.0 (
        subst (λ f. read_addresses (length more) f (tail ++ rest) ≡ some more) (sym fits)
          rest_read))
