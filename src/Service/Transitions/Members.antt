-- ===== src/Service/Transitions/Members.antt =====
-- What setState, startup and shutdown leave in the members, apart from their calls.
use open_vrrp.Prelude.{
  ◌==◌, ◌*◌, u32, if◌then◌else◌, Bool, true, ◌≡◌, refl, arith, ap, ◌∙◌, inl, inr, Bool-cases,
}
use open_vrrp.Address.{Family, unspec, inet, inet6}
use open_vrrp.Timer.{start, stop}
use open_vrrp.Service.{
  Service, State, disabled, link_down, backup, master, is_state, next, preempted, not_master,
}
use open_vrrp.Service.Timing.{
  start_master_down_timer, start_advertisement_timer, master_down_interval,
}
use open_vrrp.Service.Actions.{
  send_advertisement, send_arps, set_virtual_mac, set_default_mac, add_ip_addresses,
  remove_ip_addresses, run_master_command, run_backup_command,
}
use open_vrrp.Service.Transitions.{
  enter, set_state, become_master, startup, shutdown, shutdown_from, announce, on_master_down_timer,
  master_down_timer_expires,
}

ruleset actions = (
  send_advertisement, send_arps, set_virtual_mac, set_default_mac, add_ip_addresses,
  remove_ip_addresses, run_master_command, run_backup_command,
)

enter-service : (new old : State) (s : Service) → (enter new old s).service ≡ s
unfolding enter send_advertisement set_virtual_mac set_default_mac add_ip_addresses
    remove_ip_addresses run_master_command run_backup_command
enter-service master old s = refl
enter-service backup old s = ground arith
enter-service disabled old s = ground arith
enter-service link_down old s = ground arith

pub eq_of_is_state : (a b : State) → is_state a b ≡ true → a ≡ b
eq_of_is_state a b e = ground arith

-- `setState` assigns the state and no other member.
pub set_state-service :
    (new : State) (s : Service) → (set_state new s).service ≡ record s { state = new }
unfolding set_state
set_state-service new s = elim (Bool-cases (is_state s.state new)) [
  | inl e ↦ rw e (ap (λ (t : State). record s { state = t }) (eq_of_is_state s.state new e))
  | inr e ↦ rw e (enter-service new s.state (record s { state = new }))
]

pub announce-service : (f : Family) (s : Service) → (announce f s).service ≡ s
unfolding send_arps
announce-service inet s = refl
announce-service inet6 s = refl
announce-service unspec s = refl

-- A router that starts as the owner of the addresses is master, and any other is backup.
pub startup-service :
    (s : Service)
    → (startup s).service ≡ (
        if s.priority == 255
        then record s {
          state = master;
          advertisement_timer = start (u32 (s.advertisement_interval * 10)) s.advertisement_timer;
          stats = record s.stats {
            master_transitions = next s.stats.master_transitions;
            new_master_reason = preempted;
          };
          master_ip_address = s.primary_ip_address;
        }
        else record s {
          state = backup;
          master_advertisement_interval = s.advertisement_interval;
          master_down_timer =
              start
                (u32 (
                  master_down_interval
                    (record s { master_advertisement_interval = s.advertisement_interval })
                  * 10))
                s.master_down_timer;
          stats = record s.stats { new_master_reason = not_master };
        })
unfolding startup become_master start_advertisement_timer start_master_down_timer
startup-service s = elim (Bool-cases (s.priority == 255)) [
  | inl e ↦ rw (e, set_state-service master s, announce-service s.family) refl
  | inr e ↦ rw (e, set_state-service backup) refl
]

-- The members after `shutdown`, by the state before.
abbrev pub stopped : State → State → Service → Service
stopped disabled target s = s
stopped link_down target s = s
stopped backup target s = record s { state = target; master_down_timer = stop s.master_down_timer }
stopped master target s = record s {
  state = target;
  advertisement_timer = stop s.advertisement_timer;
  stats = record s.stats { sent_pri_zero_packets = next s.stats.sent_pri_zero_packets };
}

shutdown_from-service :
    (old target : State) (s : Service) → (shutdown_from old target s).service ≡ stopped old target s
unfolding send_advertisement
shutdown_from-service disabled target s = refl
shutdown_from-service link_down target s = refl
shutdown_from-service backup target s = set_state-service target _
shutdown_from-service master target s = rw (set_state-service target)

-- `shutdown` stops the timer of a backup or a master and moves it to the new state. A service in
-- any other state stays as it is.
pub shutdown-service :
    (target : State) (s : Service) → (shutdown target s).service ≡ stopped s.state target s
unfolding shutdown
shutdown-service target s = shutdown_from-service s.state target s

-- The master-down timer makes a backup the master, and leaves any other service alone.
pub on_master_down_timer-service :
    (s : Service)
    → (on_master_down_timer s).service ≡ (
        if is_state s.state backup
        then record s {
          state = master;
          advertisement_timer = start (u32 (s.advertisement_interval * 10)) s.advertisement_timer;
          stats = record s.stats {
            master_transitions = next s.stats.master_transitions;
            new_master_reason = s.pending_new_master_reason;
          };
          master_ip_address = s.primary_ip_address;
        }
        else s)
unfolding on_master_down_timer become_master start_advertisement_timer
on_master_down_timer-service s = elim (Bool-cases (is_state s.state backup)) [
  | inl e ↦ rw (e, set_state-service master s, announce-service s.family) refl
  | inr e ↦ rw e refl
]

-- A backup whose armed timer expires takes over.
abbrev pub taken_over : Service → Service
taken_over s = record s {
  state = master;
  master_down_timer = stop s.master_down_timer;
  advertisement_timer = start (u32 (s.advertisement_interval * 10)) s.advertisement_timer;
  stats = record s.stats {
    master_transitions = next s.stats.master_transitions;
    new_master_reason = s.pending_new_master_reason;
  };
  master_ip_address = s.primary_ip_address;
}

if_taken {ℓ} : {A : Type ℓ} (b : Bool) (x y : A) → b ≡ true → (if b then x else y) ≡ x
if_taken b x y e = rw e

pub master_down_timer_expires-service :
    (s : Service)
    → s.state ≡ backup
    → s.master_down_timer.armed ≡ true
    → (master_down_timer_expires s).service ≡ taken_over s
unfolding master_down_timer_expires
master_down_timer_expires-service s e a =
    let t : Service = record s { master_down_timer = stop s.master_down_timer } in
    rw (if_taken _ _ _ a)
      (on_master_down_timer-service t ∙ if_taken (is_state s.state backup) _ _ (ground arith))
