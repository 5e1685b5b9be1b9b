-- ===== src/Socket/Instances/Owned.antt =====
-- Every descriptor that is open belongs to an instance, and every instance has its options.
use Prim.{tt}
use open_vrrp.Prelude.{
  ℕ, ◌==◌, ◌≤◌, ltb, ◌&&◌, ◌||◌, Bool, true, false, List, [], ◌∷◌, Option, none, some, ◌≡◌, ◌≢◌,
  ◌⊎◌, refl, arith, inl, inr, Bool-cases, Option-cases, sym, subst, ◌∙◌,
}
use open_vrrp.Address.{Family, unspec, inet, inet6}
use open_vrrp.Containers.{set_insert, set_contains}
use open_vrrp.Containers.Numbers.{has_insert, has_erase}
use open_vrrp.Socket.Instances.{
  SocketOption, Answers, VrrpSocket, options_of, set_options, create_socket, Instances, open_socket,
  close_socket, watch, construct, slot, fill, make, destroy, instance_of, cleanup,
}

abbrev is_fd : ℕ → Option ℕ → Bool
is_fd fd none = false
is_fd fd (some g) = fd == g

abbrev holds : ℕ → Option VrrpSocket → Bool
holds fd none = false
holds fd (some s) = is_fd fd s.socket

-- The options with the last set first.
abbrev all_set : List (SocketOption × ℕ) → List (SocketOption × ℕ) → List (SocketOption × ℕ)
all_set [] set = set
all_set (o ∷ more) set = all_set more (o ∷ set)

-- A socket without an error, with all options of its family, that the main loop watches.
abbrev IsReady : Family → List ℕ → Option VrrpSocket → Type 0
IsReady family watched none = Unit {0}
IsReady family watched (some s) =
    (s.error ≡ 0)
    × (s.options ≡ all_set (options_of family) [])
    × (fd : ℕ) × (s.socket ≡ some fd)
    × (set_contains ltb fd watched ≡ true)

-- The open descriptors are those of the instances, which have one each, and the instances are ready.
pub record IsSound (w : Instances) : Type 0 where
  pub owned : (fd : ℕ) → set_contains ltb fd w.opened ≡ (holds fd w.ipv4 || holds fd w.ipv6)
  pub apart : (fd : ℕ) → (holds fd w.ipv4 && holds fd w.ipv6) ≡ false
  pub ready_4 : IsReady inet w.watched w.ipv4
  pub ready_6 : IsReady inet6 w.watched w.ipv6

-- A new descriptor is none that is open, and a call that fails has an error.
abbrev IsAnswer : Option ℕ → ℕ → Instances → Type 0
IsAnswer none error w = 1 ≤ error
IsAnswer (some fd) error w = set_contains ltb fd w.opened ≡ false

abbrev pub IsHonest : Answers → Instances → Type 0
IsHonest a w = IsAnswer a.descriptor a.socket_error w

-- All options are set, or a call failed and its error is kept.
abbrev IsConfigured : Answers → List (SocketOption × ℕ) → VrrpSocket → Type 0
IsConfigured a os s =
    (set_options a os s ≡ (true, record s { options = all_set os s.options }))
    ⊎ ((r : VrrpSocket) × (set_options a os s ≡ (false, r)) × (1 ≤ r.error) × (r.socket ≡ s.socket))

set_options-IsConfigured :
    (a : Answers) (os : List (SocketOption × ℕ)) (s : VrrpSocket) → IsConfigured a os s
unfolding set_options
set_options-IsConfigured a [] s = inl refl
set_options-IsConfigured a (o ∷ os) s = elim (Bool-cases (a.option_error o.0 == 0)) [
  | inl e ↦ rw e (set_options-IsConfigured a os (record s { options = o ∷ s.options }))
  | inr e ↦ rw e (inr (record s { error = a.option_error o.0 }, refl, ground arith, refl))
]

-- More descriptors in the main loop do no harm.
watch-IsReady :
    (family : Family) (fd : ℕ) (watched : List ℕ) (s : Option VrrpSocket)
    → IsReady family watched s
    → IsReady family (set_insert ltb fd watched) s
watch-IsReady family fd watched none h = tt
watch-IsReady family fd watched (some s) (e, o, g, q, h) =
    (e, o, g, q, has_insert g fd watched ∙ ground (arith, h))

-- A new instance, with a descriptor that no one has.
added-IsSound :
    (family : Family) (fd : ℕ) (s : VrrpSocket) (w : Instances)
    → family ≢ unspec
    → slot family w ≡ none
    → s.socket ≡ some fd
    → s.error ≡ 0
    → s.options ≡ all_set (options_of family) []
    → set_contains ltb fd w.opened ≡ false
    → IsSound w
    → IsSound (fill family (some s) (watch (some fd) (open_socket (some fd) w)))
added-IsSound inet fd s w f empty q e o fresh h = record {
  owned = λ g. has_insert g fd w.opened ∙ ground (arith, h.owned g, empty, q);
  apart = λ g. ground (arith, h.owned g, fresh, q);
  ready_4 = (e, o, fd, q, has_insert fd fd w.watched ∙ ground arith);
  ready_6 = watch-IsReady inet6 fd w.watched w.ipv6 h.ready_6;
}
added-IsSound inet6 fd s w f empty q e o fresh h = record {
  owned = λ g. has_insert g fd w.opened ∙ ground (arith, h.owned g, empty, q);
  apart = λ g. ground (arith, h.owned g, fresh, q);
  ready_4 = watch-IsReady inet fd w.watched w.ipv4 h.ready_4;
  ready_6 = (e, o, fd, q, has_insert fd fd w.watched ∙ ground arith);
}
added-IsSound unspec fd s w f empty q e o fresh h = absurd (f refl)

-- A descriptor that was opened and closed again.
closed-IsSound :
    (fd : ℕ) (w : Instances)
    → set_contains ltb fd w.opened ≡ false
    → IsSound w
    → IsSound (close_socket (some fd) (open_socket (some fd) w))
closed-IsSound fd w fresh h = record {
  owned = λ g. ground (
    arith,
    has_erase g fd (set_insert ltb fd w.opened),
    has_insert g fd w.opened,
    fresh,
    h.owned g,
  );
  apart = h.apart;
  ready_4 = h.ready_4;
  ready_6 = h.ready_6;
}

make-IsSound :
    (family : Family) (a : Answers) (w : Instances)
    → family ≢ unspec
    → slot family w ≡ none
    → IsHonest a w
    → IsSound w
    → IsSound (make family a w).1
unfolding construct create_socket
make-IsSound family a w f empty honest h = elim (Option-cases a.descriptor) [
  | inl e ↦
      let failed : (a.socket_error == 0) ≡ false =
        ground (arith, subst (λ d. IsAnswer d a.socket_error w) e honest) in
      rw (e, failed) h
  | inr (fd, e) ↦
      let fresh : set_contains ltb fd w.opened ≡ false =
        subst (λ d. IsAnswer d a.socket_error w) e honest in
      elim (set_options-IsConfigured a (options_of family)
        (record { error = 0; socket = some fd; options = [] })) [
          | inl set ↦ rw (e, set) (added-IsSound family fd _ w f empty refl refl refl fresh h)
          | inr (r, set, bad, same) ↦
              let failed : (r.error == 0) ≡ false = ground arith in
              rw (e, set, failed, same) (closed-IsSound fd w fresh h)
        ]
]

pub instance_of-IsSound :
    (family : Family) (a : Answers) (w : Instances)
    → IsHonest a w
    → IsSound w
    → IsSound (instance_of family a w).1
unfolding instance_of
instance_of-IsSound unspec a w honest h = h
instance_of-IsSound inet a w honest h = elim (Option-cases w.ipv4) [
  | inl e ↦ rw (instance_of, e) (make-IsSound inet a w (λ q. cc) e honest h)
  | inr (s, e) ↦ rw (instance_of, e) h
]
instance_of-IsSound inet6 a w honest h = elim (Option-cases w.ipv6) [
  | inl e ↦ rw (instance_of, e) (make-IsSound inet6 a w (λ q. cc) e honest h)
  | inr (s, e) ↦ rw (instance_of, e) h
]

deleted-IsSound :
    (family : Family) (fd : ℕ) (s : VrrpSocket) (w : Instances)
    → slot family w ≡ some s
    → s.socket ≡ some fd
    → IsSound w
    → IsSound (fill family none (close_socket (some fd) w))
deleted-IsSound unspec fd s w e q h = cc
deleted-IsSound inet fd s w e q h = record {
  owned = λ g. ground (arith, has_erase g fd w.opened, h.owned g, h.apart g, e, q);
  apart = λ g. refl;
  ready_4 = tt;
  ready_6 = h.ready_6;
}
deleted-IsSound inet6 fd s w e q h = record {
  owned = λ g. ground (arith, has_erase g fd w.opened, h.owned g, h.apart g, e, q);
  apart = λ g. ground (arith, h.apart g);
  ready_4 = h.ready_4;
  ready_6 = tt;
}

destroy-IsSound :
    (family : Family) (w : Instances) → IsSound w → IsSound (destroy family (slot family w) w)
destroy-IsSound unspec w h = h
destroy-IsSound inet w h = elim (Option-cases w.ipv4) [
  | inl e ↦ subst (λ o. IsSound (destroy inet o w)) (sym e) h
  | inr (s, e) ↦
      let (error, options, fd, q, watched) = subst (IsReady inet w.watched) e h.ready_4 in
      rw (e, q) (deleted-IsSound inet fd s w e q h)
]
destroy-IsSound inet6 w h = elim (Option-cases w.ipv6) [
  | inl e ↦ subst (λ o. IsSound (destroy inet6 o w)) (sym e) h
  | inr (s, e) ↦
      let (error, options, fd, q, watched) = subst (IsReady inet6 w.watched) e h.ready_6 in
      rw (e, q) (deleted-IsSound inet6 fd s w e q h)
]

pub cleanup-IsSound : (w : Instances) → IsSound w → IsSound (cleanup w)
unfolding cleanup
cleanup-IsSound w h =
    let w' : Instances = destroy inet w.ipv4 w in
    destroy-IsSound inet6 w' (destroy-IsSound inet w h)
