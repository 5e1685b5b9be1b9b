-- ===== src/Ledger/Keeps.antt =====
-- Methods that keep the host in step with the service, and the rules by which they compose.
use open_vrrp.Prelude.{
  Bool, true, false, ◌≡◌, refl, ◌==◌, Bool-cases, inl, inr, subst, if◌then◌else◌,
}
use open_vrrp.Address.{Family, inet, inet6, unspec}
use open_vrrp.Service.{Service, State, disabled, link_down, backup, master, is_state, M, skip}
use open_vrrp.Service.Actions.{send_advertisement, send_arps}
use open_vrrp.Service.Timing.{start_master_down_timer, start_advertisement_timer}
use open_vrrp.Service.Transitions.{
  set_state, announce, become_master, startup, shutdown, shutdown_from, on_master_down_timer,
}
use open_vrrp.Service.Transitions.Members.{announce-service}
use open_vrrp.Ledger.{Ledger, Holds, held, replay}
use open_vrrp.Ledger.Replay.{replay-append, replay-toggles, replay-arps}
use open_vrrp.Ledger.Transitions.{set_state-Holds}

-- From a host in step a method leads to a host in step.
abbrev pub Keeps {ℓ} : {A : Type ℓ} → M A → Type 0
Keeps m = (s : Service) (l : Ledger) → Holds s l → Holds (m s).service (replay (m s).calls l)

pub Holds-eq : (s t : Service) (l : Ledger) → held s ≡ held t → Holds s l → Holds t l
Holds-eq s t l e h = record {
  assigned_right =
      λ j y. subst (λ (k : Ledger). l.assigned j y ≡ k.assigned j y) e (h.assigned_right j y);
  answered_right =
      λ j b. subst (λ (k : Ledger). l.answered j b ≡ k.answered j b) e (h.answered_right j b);
}

announce-replay : (f : Family) (s : Service) (l : Ledger) → replay (announce f s).calls l ≡ l
unfolding send_arps
announce-replay inet s l = replay-arps s.output_interface s.addresses l
announce-replay inet6 s l = refl
announce-replay unspec s l = refl

ruleset untouched = (replay-append, replay-toggles, announce-replay, announce-service)

pub Keeps-if {ℓ} :
    {A : Type ℓ} (b : Bool) (m k : M A) → Keeps m → Keeps k → Keeps (λ s. (if b then m else k) s)
Keeps-if true m k hm hk = hm
Keeps-if false m k hm hk = hk

pub Keeps-skip : Keeps skip
Keeps-skip s l h = h

-- A change of state with assignments round it that leave alone what the service means to hold.
pub through_set_state :
    (new : State) (s t t' : Service) (l : Ledger)
    → held s ≡ held t
    → held (set_state new t).service ≡ held t'
    → Holds s l
    → Holds t' (replay (set_state new t).calls l)
through_set_state new s t t' l before after h =
    Holds-eq (set_state new t).service t' _ after
      (set_state-Holds new t l (Holds-eq s t l before h))

pub startup-Keeps : Keeps startup
unfolding startup become_master start_advertisement_timer start_master_down_timer
startup-Keeps s l h = elim (Bool-cases (s.priority == 255)) [
  | inl e ↦ rw e (simp untouched (through_set_state master s s _ l refl refl h))
  | inr e ↦ rw e (simp untouched (through_set_state backup s _ _ l refl refl h))
]

shutdown_from-Keeps : (old new : State) → Keeps (shutdown_from old new)
unfolding send_advertisement
shutdown_from-Keeps disabled new s l h = h
shutdown_from-Keeps link_down new s l h = h
shutdown_from-Keeps backup new s l h = through_set_state new s _ _ l refl refl h
shutdown_from-Keeps master new s l h = simp untouched (through_set_state new s _ _ l refl refl h)

pub shutdown-Keeps : (new : State) → Keeps (shutdown new)
unfolding shutdown
shutdown-Keeps new s l h = shutdown_from-Keeps s.state new s l h

pub on_master_down_timer-Keeps : Keeps on_master_down_timer
unfolding on_master_down_timer become_master start_advertisement_timer
on_master_down_timer-Keeps s l h = elim (Bool-cases (is_state s.state backup)) [
  | inl e ↦ rw e (simp untouched (through_set_state master s s _ l refl refl h))
  | inr e ↦ rw e h
]
