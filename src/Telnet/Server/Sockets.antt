-- ===== src/Telnet/Server/Sockets.antt =====
-- Every descriptor that is open belongs to the server or to one of its sessions, and none is open after
-- the server has stopped.
use open_vrrp.Prelude.{
  ℕ, zero, suc, ◌+◌, ◌<◌, ◌==◌, ==_iff, ◌≤◌, ltb, ◌&&◌, ◌||◌, Bool, true, false, List, [], ◌∷◌,
  Option, none, some, length, ◌≡◌, ◌⊎◌, refl, arith, inl, inr, Option-cases, sym, ap, subst, ◌∙◌,
}
use open_vrrp.Containers.{set_insert, set_erase, set_contains}
use open_vrrp.Containers.Numbers.{has_insert, has_erase, length-erase}
use open_vrrp.Telnet.Server.{
  Server, remove_session, delete_session, delete_all, close_socket, stop, on_incoming_connection,
}

abbrev pub is_fd : ℕ → Option ℕ → Bool
is_fd fd none = false
is_fd fd (some g) = fd == g

-- The open descriptors are those of the server and of its sessions, which have one each.
pub record IsSound (s : Server) : Type 0 where
  pub owned :
      (fd : ℕ)
      → set_contains ltb fd s.opened ≡ (is_fd fd s.socket || set_contains ltb fd s.sessions)
  pub apart : (fd : ℕ) → (is_fd fd s.socket && set_contains ltb fd s.sessions) ≡ false

same_fd : (g fd : ℕ) (o : Option ℕ) → (g == fd) ≡ true → is_fd g o ≡ is_fd fd o
same_fd g fd o e = ap (λ k. is_fd k o) ((==_iff g fd).0 e)

pub delete_session-IsSound :
    (fd : ℕ) (s : Server)
    → set_contains ltb fd s.sessions ≡ true
    → IsSound s
    → IsSound (delete_session fd s)
unfolding delete_session remove_session
delete_session-IsSound fd s e h = record {
  owned = λ g. ground (
    arith,
    has_erase g fd s.opened,
    has_erase g fd s.sessions,
    h.owned g,
    h.apart fd,
    e,
    same_fd g fd s.socket,
  );
  apart = λ g. ground (arith, has_erase g fd s.sessions, h.apart g);
}

list_cases : (l : List ℕ) → (l ≡ []) ⊎ ((x : ℕ) × (more : List ℕ) × (l ≡ x ∷ more))
list_cases [] = inl refl
list_cases (x ∷ more) = inr (x, more, refl)

first_member : (fd : ℕ) (more : List ℕ) → set_contains ltb fd (fd ∷ more) ≡ true
unfolding set_contains
first_member fd more = ground arith

fewer : (fd : ℕ) (more : List ℕ) → length (set_erase ltb fd (fd ∷ more)) ≤ length more
unfolding set_erase
fewer fd more = ground (arith, length-erase fd more)

-- What `stop` leaves: nothing.
pub record IsStopped (s : Server) : Type 0 where
  pub no_socket : s.socket ≡ none
  pub no_sessions : s.sessions ≡ []
  pub sound : IsSound s

one_deleted :
    (fuel fd : ℕ) (more : List ℕ) (s : Server)
    → s.sessions ≡ fd ∷ more
    → delete_all (suc fuel) s ≡ delete_all fuel (delete_session fd s)
unfolding delete_all
one_deleted fuel fd more s e =
    ap
      (λ (l : List ℕ). elim l as (λ x. Option Server) [
        | [] ↦ some s
        | x ∷ xs ↦ delete_all fuel (delete_session x s)
      ])
      e

delete_all-IsStopped :
    (fuel : ℕ) (s : Server)
    → length s.sessions < fuel
    → s.socket ≡ none
    → IsSound s
    → (t : Server) × (delete_all fuel s ≡ some t) × IsStopped t
unfolding delete_all delete_session remove_session
delete_all-IsStopped zero s le none_left h = absurd (omega arith)
delete_all-IsStopped (suc fuel) s le none_left h = elim (list_cases s.sessions) [
  | inl e ↦ (s, rw e refl, record { no_socket = none_left; no_sessions = e; sound = h })
  | inr (fd, more, e) ↦
      let member : set_contains ltb fd s.sessions ≡ true = rw e (first_member fd more) in
      let less : length (set_erase ltb fd s.sessions) < fuel = omega (
        arith,
        subst (λ l. length (set_erase ltb fd l) ≤ length more) (sym e) (fewer fd more),
        ap (λ (l : List ℕ). length l) e,
      ) in
      let (t, ran, stopped) =
        delete_all-IsStopped fuel (delete_session fd s) less none_left
          (delete_session-IsSound fd s member h) in
      (t, one_deleted fuel fd more s e ∙ ran, stopped)
]

close_socket-IsSound :
    (s : Server)
    → IsSound s
    → IsSound (close_socket s.socket s)
      × ((close_socket s.socket s).socket ≡ none)
      × ((close_socket s.socket s).sessions ≡ s.sessions)
close_socket-IsSound s h = elim (Option-cases s.socket) [
  | inl e ↦
      subst
        (λ o.
          IsSound (close_socket o s)
          × ((close_socket o s).socket ≡ none)
          × ((close_socket o s).sessions ≡ s.sessions))
        (sym e) (h, e, refl)
  | inr (fd, e) ↦ rw e (
    record {
      owned = λ g. ground (arith, has_erase g fd s.opened, h.owned g, h.apart g, e);
      apart = λ g. refl;
    },
    refl,
    refl,
  )
]

pub stop-IsStopped : (s : Server) → IsSound s → (t : Server) × (stop s ≡ some t) × IsStopped t
unfolding stop
stop-IsStopped s h =
    let (sound, closed, same) = close_socket-IsSound s h in
    delete_all-IsStopped (length s.sessions + 1) (close_socket s.socket s) (rw same (omega arith))
      closed sound

pub accepts-IsSound :
    (fd : ℕ) (s : Server)
    → set_contains ltb fd s.opened ≡ false
    → IsSound s
    → IsSound (on_incoming_connection (some fd) s)
unfolding on_incoming_connection
accepts-IsSound fd s fresh h = record {
  owned = λ g. ground (arith, has_insert g fd s.opened, has_insert g fd s.sessions, h.owned g);
  apart = λ g.
      ground
        (arith, has_insert g fd s.sessions, h.apart g, h.owned fd, fresh, same_fd g fd s.socket);
}

pub opened-IsSound :
    (fd : ℕ) (watched : List ℕ) (s : Server)
    → s.socket ≡ none
    → set_contains ltb fd s.opened ≡ false
    → IsSound s
    → IsSound
        (record s { socket = some fd; opened = set_insert ltb fd s.opened; watched = watched })
opened-IsSound fd watched s closed fresh h = record {
  owned = λ g. ground (arith, has_insert g fd s.opened, h.owned g, closed);
  apart = λ g. ground (arith, h.owned g, closed, fresh);
}
