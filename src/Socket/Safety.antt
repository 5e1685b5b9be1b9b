-- ===== src/Socket/Safety.antt =====
-- What a packet must be to reach a listener.
use open_vrrp.Prelude.{
  ℕ, ◌∙◌, ◌+◌, ◌*◌, ◌/◌, ◌%◌, ◌≤◌, ◌==◌, ltb, not, if◌then◌else◌, Bool, true, false, List, [], ◌∷◌,
  Option, some, none, drop, get_elem?, ◌≡◌, refl, sym, arith, ap, Option-cases, inl, inr, ◌⊎◌,
}
use open_vrrp.Address.{Family, unspec, inet, inet6, number, family_size, IpAddress}
use open_vrrp.Checksum.{pseudo_header_of, pseudo_header, checksum_with, checksum, ◌>>=◌}
use open_vrrp.Containers.{map_find}
use open_vrrp.Socket.Receive.{
  Notice, advertised, Input, Outcome, Counters, read_addresses, deliver, handle_type, handle_packet,
  checksum_passes,
}

accepted-handle_type :
    (family : Family) (listeners : List (ℕ × ℕ)) (i : Input) (b0 b1 b2 b3 b4 b5 : ℕ) (c : Counters)
    (o : Outcome)
    → handle_type family listeners i b0 b1 b2 b3 b4 b5 c ≡ some o
    → o.accepted ≡ true
    → (b0 % 16 ≡ 1)
      × (i.ttl ≡ 255)
      × (8 + b3 * family_size family ≤ i.size)
      × (o.counters ≡ c)
      × (listener : ℕ) × (addresses : List IpAddress) × (map_find ltb b1 listeners ≡ some listener)
      × (read_addresses b3 family (drop 8 i.packet) ≡ some addresses)
      × (o.notices
          ≡ advertised listener b1 (record {
            source = i.source;
            prio = b2;
            max_advertisement_interval = b4 % 16 * 256 + b5;
            addresses = addresses;
          })
            ∷ [])
unfolding handle_type deliver
accepted-handle_type family listeners i b0 b1 b2 b3 b4 b5 c o e a =
    elim (Option-cases (map_find ltb b1 listeners)) [
      | inl f ↦ absurd (ground (arith, f))
      | inr (listener, f) ↦ elim (Option-cases (read_addresses b3 family (drop 8 i.packet))) [
        | inl r ↦ absurd (ground (arith, f, r))
        | inr (addresses, r) ↦ (
          ground arith,
          ground arith,
          ground arith,
          ground arith,
          listener,
          addresses,
          f,
          r,
          ground arith,
        )
      ]
    ]

bind_some :
    {A : Type 0} {B : Type 0} (m : Option A) (f : A → Option B) (y : B)
    → (m >>= f) ≡ some y
    → (a : A) × (m ≡ some a) × (f a ≡ some y)
bind_some none f y e = cc
bind_some (some a) f y e = (a, refl, e)

passed :
    (b : Bool) (ns : List Notice) (c : Counters) (m : Option Outcome) (o : Outcome)
    → (if b then some (record { accepted = false; notices = ns; counters = c }) else m) ≡ some o
    → o.accepted ≡ true
    → (b ≡ false) × (m ≡ some o)
passed true ns c m o e a = absurd (ground arith)
passed false ns c m o e a = (refl, e)

-- The checksum over the pseudo header and the packet is 0, or the addresses have no pseudo header:
-- the destination is unknown, and nothing is verified, or the families differ, which Util::checksum
-- answers with 0.
abbrev pub IsVerified : Input → Type 0
IsVerified i =
    (pseudo_header i.source i.destination i.size 112 ≡ none)
    ⊎ ((pseudo : List ℕ) × (pseudo_header i.source i.destination i.size 112 ≡ some pseudo)
        × (checksum_with pseudo i.packet i.size ≡ some 0))

has_pseudo :
    (f g : Family) (src dst : List ℕ) (size : ℕ) (pseudo : List ℕ)
    → pseudo_header_of f g src dst size 112 ≡ some pseudo
    → (number g == number unspec) ≡ false
has_pseudo inet inet src dst size pseudo e = refl
has_pseudo inet6 inet6 src dst size pseudo e = refl
has_pseudo inet inet6 src dst size pseudo e = refl
has_pseudo inet6 inet src dst size pseudo e = refl
has_pseudo inet unspec src dst size pseudo e = cc
has_pseudo inet6 unspec src dst size pseudo e = cc
has_pseudo unspec g src dst size pseudo e = cc

is_known :
    (src dst : IpAddress) (size : ℕ) (pseudo : List ℕ)
    → pseudo_header src dst size 112 ≡ some pseudo
    → (number dst.family == number unspec) ≡ false
unfolding pseudo_header
is_known src dst size pseudo e = has_pseudo src.family dst.family src.bytes dst.bytes size pseudo e

over_pseudo :
    (src dst : IpAddress) (size : ℕ) (packet pseudo : List ℕ)
    → pseudo_header src dst size 112 ≡ some pseudo
    → checksum packet size src dst 112 ≡ checksum_with pseudo packet size
unfolding checksum
over_pseudo src dst size packet pseudo e = rw (e, checksum) refl

checksum_passes-IsVerified : (i : Input) → checksum_passes i ≡ some true → IsVerified i
unfolding checksum_passes
checksum_passes-IsVerified i e =
    elim (Option-cases (pseudo_header i.source i.destination i.size 112)) [
      | inl n ↦ inl n
      | inr (pseudo, p) ↦
          let known : (number i.destination.family == number unspec) ≡ false =
            has_pseudo i.source.family i.destination.family i.source.bytes i.destination.bytes
              i.size pseudo (p) in
          let (sum, made, zero) =
            bind_some (checksum i.packet i.size i.source i.destination 112) (λ sum. some (sum == 0))
              true (rw known at e) in
          let none_left : sum ≡ 0 = ground arith in
          inr (
            pseudo,
            p,
            sym (over_pseudo i.source i.destination i.size i.packet pseudo p)
                ∙ made
                ∙ ap some none_left,
          )
    ]

-- A packet that a listener is told of: version 3 and type 1, enough bytes, a checksum that is
-- verified where it can be, the time to live, a registered router id; and what it is told, and no one else is, is what the packet
-- says.
pub record IsDelivered (family : Family) (listeners : List (ℕ × ℕ)) (i : Input) (c : Counters)
    (o : Outcome) : Type 0 where
  pub vrid : ℕ
  pub prio : ℕ
  pub count : ℕ
  pub high : ℕ
  pub low : ℕ
  pub listener : ℕ
  pub addresses : List IpAddress
  pub byte_0 : get_elem? i.packet 0 ≡ some 0x31
  pub byte_1 : get_elem? i.packet 1 ≡ some vrid
  pub byte_2 : get_elem? i.packet 2 ≡ some prio
  pub byte_3 : get_elem? i.packet 3 ≡ some count
  pub byte_4 : get_elem? i.packet 4 ≡ some high
  pub byte_5 : get_elem? i.packet 5 ≡ some low
  pub verified : IsVerified i
  pub ttl : i.ttl ≡ 255
  pub long_enough : 8 + count * family_size family ≤ i.size
  pub registered : map_find ltb vrid listeners ≡ some listener
  pub read : read_addresses count family (drop 8 i.packet) ≡ some addresses
  pub told :
      o.notices
      ≡ advertised listener vrid (record {
        source = i.source;
        prio = prio;
        max_advertisement_interval = high % 16 * 256 + low;
        addresses = addresses;
      })
        ∷ []
  pub uncounted : o.counters ≡ c

-- If onSocketPacket accepts a packet, its version is 3 and its type 1; its checksum, over the pseudo
-- header of its addresses, is 0, unless they have no pseudo header, since the destination is unknown,
-- and the code does not verify it, or their families differ; its time to live is 255, it is long
-- enough for its addresses, and its router id has a listener; that listener, and no other, is told
-- of the source and of the priority, interval and addresses that the packet's bytes hold; and no
-- error is counted.
pub accepted-handle_packet :
    (family : Family) (listeners : List (ℕ × ℕ)) (i : Input) (c : Counters) (o : Outcome)
    → handle_packet family listeners i c ≡ some o
    → o.accepted ≡ true
    → IsDelivered family listeners i c o
unfolding handle_packet
accepted-handle_packet family listeners i c o e a =
    let (small, e1) = passed (ltb i.size 8) _ _ _ o e a in
    let (b0, g0, e2) = bind_some (get_elem? i.packet 0) _ o e1 in
    let (b1, g1, e3) = bind_some (get_elem? i.packet 1) _ o e2 in
    let (version, e4) = passed (not (b0 / 16 == 3)) _ _ _ o e3 a in
    let (sum, checks, e5) = bind_some (checksum_passes i) _ o e4 in
    let (good, e6) = passed (not sum) _ _ _ o e5 a in
    let (b2, g2, e7) = bind_some (get_elem? i.packet 2) _ o e6 in
    let (b3, g3, e8) = bind_some (get_elem? i.packet 3) _ o e7 in
    let (b4, g4, e9) = bind_some (get_elem? i.packet 4) _ o e8 in
    let (b5, g5, e10) = bind_some (get_elem? i.packet 5) _ o e9 in
    let (type, ttl, long, counters, listener, addresses, found, read, told) =
      accepted-handle_type family listeners i b0 b1 b2 b3 b4 b5 c o e10 a in
    let is_31 : b0 ≡ 0x31 = ground arith in
    let is_true : sum ≡ true = ground arith in
    record {
      vrid = b1;
      prio = b2;
      count = b3;
      high = b4;
      low = b5;
      listener = listener;
      addresses = addresses;
      byte_0 = g0 ∙ ap some is_31;
      byte_1 = g1;
      byte_2 = g2;
      byte_3 = g3;
      byte_4 = g4;
      byte_5 = g5;
      verified = checksum_passes-IsVerified i (checks ∙ ap some is_true);
      ttl = ttl;
      long_enough = long;
      registered = found;
      read = read;
      told = told;
      uncounted = counters;
    }
