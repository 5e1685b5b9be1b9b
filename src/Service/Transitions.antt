-- ===== src/Service/Transitions.antt =====
-- VrrpService::setState, startup, shutdown, the two timers, interfaceCallback, enable and disable.
pub mod Members
pub mod Timers
use open_vrrp.Prelude.{◌==◌, if◌then◌else◌, Bool, true, false, not}
use open_vrrp.Address.{Family, unspec, inet, inet6}
use open_vrrp.Timer.{stop}
use open_vrrp.Service.{
  Service, State, disabled, link_down, backup, master, is_state, NewMasterReason, not_master,
  preempted, Method, ◌>>=◌, ◌>>◌, get, modify, skip, count, next,
}
use open_vrrp.Service.Timing.{start_master_down_timer, start_advertisement_timer}
use open_vrrp.Service.Actions.{
  send_advertisement, send_arps, set_virtual_mac, set_default_mac, add_ip_addresses,
  remove_ip_addresses, run_master_command, run_backup_command,
}

-- What setState does once `m_state` is assigned: `old` is the state before.
unfoldable pub enter : State → State → Method
enter master old = do
  set_virtual_mac
  add_ip_addresses
  s ← get
  send_advertisement s.priority
  run_master_command
enter backup old = do
  if is_state old master then remove_ip_addresses else skip
  set_default_mac
  run_backup_command
enter disabled old = do if is_state old master then remove_ip_addresses else skip; set_default_mac
enter link_down old = do if is_state old master then remove_ip_addresses else skip; set_default_mac

unfoldable pub set_state : State → Method
unfolding enter
set_state state = do
  s ← get
  if is_state s.state state
      then skip
      else (do modify (λ t. record t { state = state }); enter state s.state)

-- `if (m_family == AF_INET) sendARPs();`
abbrev pub announce : Family → Method
announce inet = send_arps
announce inet6 = skip
announce unspec = skip

-- The assignments that follow a change to master.
unfoldable pub become_master : NewMasterReason → Method
become_master reason = do
  start_advertisement_timer
  count
      (λ n. record n { master_transitions = next n.master_transitions; new_master_reason = reason })
  modify (λ s. record s { master_ip_address = s.primary_ip_address })

unfoldable pub startup : Method
unfolding become_master start_master_down_timer
startup = do
  s ← get
  if s.priority == 255
      then (do set_state master; announce s.family; become_master preempted)
      else (do
        modify (λ t. record t { master_advertisement_interval = t.advertisement_interval })
        start_master_down_timer
        set_state backup
        count (λ n. record n { new_master_reason = not_master }))

abbrev pub stop_master_down_timer : Method
stop_master_down_timer = modify λ s. record s { master_down_timer = stop s.master_down_timer }

abbrev pub stop_advertisement_timer : Method
stop_advertisement_timer = modify λ s. record s { advertisement_timer = stop s.advertisement_timer }

-- `shutdown`, by the state it finds.
abbrev pub shutdown_from : State → State → Method
shutdown_from backup target = do stop_master_down_timer; set_state target
shutdown_from master target = do
  stop_advertisement_timer
  send_advertisement 0
  set_state target
  count (λ n. record n { sent_pri_zero_packets = next n.sent_pri_zero_packets })
shutdown_from disabled target = skip
shutdown_from link_down target = skip

unfoldable pub shutdown : State → Method
shutdown target = do s ← get; shutdown_from s.state target

unfoldable pub on_master_down_timer : Method
unfolding become_master
on_master_down_timer = do
  s ← get
  if is_state s.state backup
      then (do set_state master; announce s.family; become_master s.pending_new_master_reason)
      else skip

unfoldable pub on_advertisement_timer : Method
on_advertisement_timer = do
  s ← get
  if is_state s.state master
      then (do send_advertisement s.priority; start_advertisement_timer)
      else skip

-- Timer::callback followed by VrrpService::timerCallback: an armed timer is stopped, then handled.
unfoldable pub master_down_timer_expires : Method
unfolding on_master_down_timer stop
master_down_timer_expires = do
  s ← get
  if s.master_down_timer.armed then (do stop_master_down_timer; on_master_down_timer) else skip

unfoldable pub advertisement_timer_expires : Method
unfolding on_advertisement_timer stop
advertisement_timer_expires = do
  s ← get
  if s.advertisement_timer.armed
      then (do stop_advertisement_timer; on_advertisement_timer)
      else skip

unfoldable pub interface_callback : Bool → Method
unfolding startup shutdown
interface_callback true = do s ← get; if is_state s.state link_down then startup else skip
interface_callback false = do
  s ← get
  if is_state s.state disabled then skip else shutdown link_down

-- `up` is the answer of Netlink::isInterfaceUp.
unfoldable pub enable : Bool → Method
unfolding startup
enable up = do
  s ← get
  if is_state s.state disabled then (if up then startup else set_state link_down) else skip

unfoldable pub disable : Method
unfolding shutdown
disable = do s ← get; if is_state s.state disabled then skip else shutdown disabled

unfoldable pub enabled : Service → Bool
enabled s = not (is_state s.state disabled)
