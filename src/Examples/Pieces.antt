-- ===== src/Examples/Pieces.antt =====
-- Timers, checksums, listeners and memberships.
use open_vrrp.Prelude.{ℕ, true, List, [], ◌∷◌, ◌++◌, some, ◌≡◌, ◌≢◌, ◌↔◌, refl, arith}
use open_vrrp.Address.{equal, inet, family_size}
use open_vrrp.Address.Order.{equal_differs}
use open_vrrp.Containers.{map_find}
use open_vrrp.Checksum.{fold}
use open_vrrp.Checksum.Fold.{fold-folded}
use open_vrrp.Socket.{multicast_address}
use open_vrrp.Socket.Receive.{Input, Outcome, Counters, advertised, handle_packet}
use open_vrrp.Socket.Safety.{IsDelivered, accepted-handle_packet}
use open_vrrp.Examples.{address, advertisement}

equal_differs_example :
    (equal (address 2) (address 3) ≡ true)
    ↔ (((address 2).family ≡ (address 3).family) × (address 2 ≢ address 3))
equal_differs_example = equal_differs (address 2) (address 3)

fold-folded_example : fold 3 0x2fffd ≡ some 0xffff
fold-folded_example = fold-folded 0x2fffd (omega arith)

-- The front of a header, an empty checksum and one address, behind a pseudo header.
abbrev front : List ℕ
front = 0x31 ∷ 7 ∷ 100 ∷ 1 ∷ 0 ∷ 100 ∷ []

abbrev back : List ℕ
back = 192 ∷ 168 ∷ 1 ∷ 100 ∷ []

abbrev input : Input
input = record {
  source = address 2;
  destination = multicast_address inet;
  packet = (front ++ 0x06 ∷ 0x4d ∷ back) ++ 0xff ∷ [];
  size = 12;
  ttl = 255;
}

abbrev uncounted : Counters
uncounted = record {
  router_version_errors = 0;
  router_checksum_errors = 0;
  router_vr_id_errors = 0;
}

abbrev outcome : Outcome
outcome = record {
  accepted = true;
  notices = advertised 40 7 (advertisement 2 100 100) ∷ [];
  counters = uncounted;
}

accepted-handle_packet_example : IsDelivered inet ((7, 40) ∷ []) input uncounted outcome
unfolding handle_packet map_find family_size
accepted-handle_packet_example =
    accepted-handle_packet inet ((7, 40) ∷ []) input uncounted outcome refl refl
