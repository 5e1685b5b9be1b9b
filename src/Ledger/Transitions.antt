-- ===== src/Ledger/Transitions.antt =====
-- The ledger through the changes of state.
use open_vrrp.Prelude.{
  ℕ, Bool, true, false, List, [], ◌≡◌, refl, subst, arith, if◌then◌else◌, Bool-cases, inl, inr,
}
use open_vrrp.Address.{IpAddress, IpSubnet}
use open_vrrp.Service.{
  Service, Call, State, disabled, link_down, backup, master, is_state, Method, skip, ◌>>◌,
}
use open_vrrp.Service.Actions.{
  send_advertisement, set_virtual_mac, set_default_mac, add_ip_addresses, remove_ip_addresses,
  run_master_command, run_backup_command, on_interface,
}
use open_vrrp.Service.Transitions.{enter, set_state}
use open_vrrp.Service.Transitions.Members.{set_state-service, eq_of_is_state}
use open_vrrp.Ledger.{Ledger, Holds, replay}
use open_vrrp.Ledger.Replay.{
  replay-append, replay-toggles, replay-script, assigned-add_all, answered-add_all,
  assigned-remove_all, answered-remove_all, assigned-fake_all, answered-fake_all,
  assigned-unfake_all, answered-unfake_all,
}

pub record IsBlank (l : Ledger) : Type 0 where
  pub unassigned : (j : ℕ) (y : IpSubnet) → l.assigned j y ≡ false
  pub unanswered : (j : ℕ) (b : IpAddress) → l.answered j b ≡ false

ruleset untouched = (replay-append, replay-toggles, replay-script)

enter_master-replay :
    (old : State) (s : Service) (l : Ledger)
    → replay (enter master old s).calls l ≡ replay (add_ip_addresses s).calls l
unfolding enter set_virtual_mac send_advertisement run_master_command
enter_master-replay old s l = simp untouched

abbrev pub leave_calls : Bool → Service → List Call
leave_calls true s = (remove_ip_addresses s).calls
leave_calls false s = []

abbrev leave : Bool → Method
leave b = if b then remove_ip_addresses else skip

leave-replay :
    (b : Bool) (s : Service) (l : Ledger)
    → replay ((do leave b; set_default_mac) s).calls l ≡ replay (leave_calls b s) l
unfolding set_default_mac remove_ip_addresses
leave-replay true s l = simp untouched
leave-replay false s l = simp untouched

leave_script-replay :
    (b : Bool) (s : Service) (l : Ledger)
    → replay ((do leave b; set_default_mac; run_backup_command) s).calls l
      ≡ replay (leave_calls b s) l
unfolding set_default_mac run_backup_command remove_ip_addresses
leave_script-replay true s l = simp untouched
leave_script-replay false s l = simp untouched

pub enter_other-replay :
    (new old : State) (s : Service) (l : Ledger)
    → is_state new master ≡ false
    → replay (enter new old s).calls l ≡ replay (leave_calls (is_state old master) s) l
unfolding enter
enter_other-replay backup old s l e = leave_script-replay (is_state old master) s l
enter_other-replay disabled old s l e = leave-replay (is_state old master) s l
enter_other-replay link_down old s l e = leave-replay (is_state old master) s l
enter_other-replay master old s l e = cc

add_ip_addresses-Holds :
    (s : Service) (l : Ledger)
    → s.state ≡ master
    → IsBlank l
    → Holds s (replay (add_ip_addresses s).calls l)
unfolding add_ip_addresses
add_ip_addresses-Holds s l e b = elim (Bool-cases (on_interface s)) [
  | inl on ↦ rw on (record {
    assigned_right = λ j y.
        ground (arith, assigned-add_all s.output_interface s.subnets l j y, b.unassigned j y, on);
    answered_right = λ j y.
        ground (arith, answered-add_all s.output_interface s.subnets l j y, b.unanswered j y, on);
  })
  | inr off ↦ rw off (record {
    assigned_right = λ j y.
        ground (arith, assigned-fake_all s.interface s.mac s.subnets l j y, b.unassigned j y, off);
    answered_right = λ j y.
        ground (arith, answered-fake_all s.interface s.mac s.subnets l j y, b.unanswered j y, off);
  })
]

remove_ip_addresses-IsBlank :
    (s : Service) (l : Ledger) → Holds s l → IsBlank (replay (remove_ip_addresses s).calls l)
unfolding remove_ip_addresses
remove_ip_addresses-IsBlank s l h = elim (Bool-cases (on_interface s)) [
  | inl on ↦ rw on (record {
    unassigned = λ j y.
        ground
          (arith, assigned-remove_all s.output_interface s.subnets l j y, h.assigned_right j y, on);
    unanswered = λ j y.
        ground
          (arith, answered-remove_all s.output_interface s.subnets l j y, h.answered_right j y, on);
  })
  | inr off ↦ rw off (record {
    unassigned = λ j y.
        ground (arith, assigned-unfake_all s.interface s.subnets l j y, h.assigned_right j y, off);
    unanswered = λ j y.
        ground (arith, answered-unfake_all s.interface s.subnets l j y, h.answered_right j y, off);
  })
]

pub Holds-master :
    (s : Service) (l : Ledger) → is_state s.state master ≡ false → IsBlank l → Holds s l
Holds-master s l e b = record {
  assigned_right = λ j y. ground (arith, b.unassigned j y);
  answered_right = λ j y. ground (arith, b.unanswered j y);
}

IsBlank-master :
    (s : Service) (l : Ledger) → is_state s.state master ≡ false → Holds s l → IsBlank l
IsBlank-master s l e h = record {
  unassigned = λ j y. ground (arith, h.assigned_right j y);
  unanswered = λ j y. ground (arith, h.answered_right j y);
}

pub set_state-replay :
    (new : State) (s : Service) (l : Ledger)
    → replay (set_state new s).calls l ≡ (
        if is_state s.state new
        then l
        else replay (enter new s.state (record s { state = new })).calls l)
unfolding set_state
set_state-replay new s l = elim (Bool-cases (is_state s.state new)) [
  | inl e ↦ rw e refl
  | inr e ↦ rw e refl
]

leave_calls-IsBlank :
    (b : Bool) (t : Service) (old : State) (l : Ledger)
    → is_state old master ≡ b
    → Holds (record t { state = old }) l
    → IsBlank (replay (leave_calls b t) l)
unfolding remove_ip_addresses
leave_calls-IsBlank true t old l e h = remove_ip_addresses-IsBlank (record t { state = old }) l h
leave_calls-IsBlank false t old l e h = IsBlank-master (record t { state = old }) l e h

enter_other-Holds :
    (new old : State) (t : Service) (l : Ledger)
    → t.state ≡ new
    → is_state new master ≡ false
    → Holds (record t { state = old }) l
    → Holds t (replay (enter new old t).calls l)
enter_other-Holds new old t l e m h =
    rw (enter_other-replay new old t l m)
      (Holds-master t _ (ground arith) (leave_calls-IsBlank (is_state old master) t old l refl h))

enter-Holds :
    (new old : State) (t : Service) (l : Ledger)
    → t.state ≡ new
    → is_state old new ≡ false
    → Holds (record t { state = old }) l
    → Holds t (replay (enter new old t).calls l)
enter-Holds master old t l e n h =
    rw (enter_master-replay old t l)
      (add_ip_addresses-Holds t l e (IsBlank-master (record t { state = old }) l n h))
enter-Holds backup old t l e n h = enter_other-Holds backup old t l e refl h
enter-Holds disabled old t l e n h = enter_other-Holds disabled old t l e refl h
enter-Holds link_down old t l e n h = enter_other-Holds link_down old t l e refl h

-- `setState` keeps the host in step: from a host that holds what the service means it to hold, its
-- calls lead to one that holds what the service means afterwards.
pub set_state-Holds :
    (new : State) (s : Service) (l : Ledger)
    → Holds s l
    → Holds (set_state new s).service (replay (set_state new s).calls l)
set_state-Holds new s l h = elim (Bool-cases (is_state s.state new)) [
  | inl e ↦
      rw (set_state-service new s, set_state-replay new s l, e)
        (subst (λ st. Holds (record s { state = st }) l) (eq_of_is_state s.state new e) h)
  | inr e ↦
      rw (set_state-service new s, set_state-replay new s l, e)
        (enter-Holds new s.state (record s { state = new }) l refl e h)
]
