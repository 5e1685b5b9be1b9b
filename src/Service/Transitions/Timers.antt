-- ===== src/Service/Transitions/Timers.antt =====
-- The timers through the changes of state.
use open_vrrp.Prelude.{Bool, true, false, ◌≡◌, arith}
use open_vrrp.Timer.{start, stop}
use open_vrrp.Service.{Service, State, disabled, link_down, backup, master, is_state}
use open_vrrp.Service.Timing.{start_advertisement_timer}
use open_vrrp.Service.Actions.{send_advertisement}
use open_vrrp.Service.Transitions.{
  set_state, startup, shutdown, on_advertisement_timer, master_down_timer_expires,
  advertisement_timer_expires, interface_callback, enable, disable,
}
use open_vrrp.Service.Transitions.Members.{
  set_state-service, startup-service, shutdown-service, on_master_down_timer-service,
}

-- A backup waits on its master-down timer and a master on its advertisement timer; no other timer
-- is armed.
pub record TimersMatch (s : Service) : Type 0 where
  pub waits : s.master_down_timer.armed ≡ is_state s.state backup
  pub advertises : s.advertisement_timer.armed ≡ is_state s.state master

pub startup-TimersMatch :
    (s : Service)
    → s.master_down_timer.armed ≡ false
    → s.advertisement_timer.armed ≡ false
    → TimersMatch (startup s).service
unfolding start
startup-TimersMatch s d a = ground (arith, startup-service s)

pub shutdown-TimersMatch :
    (target : State) (s : Service)
    → is_state target backup ≡ false
    → is_state target master ≡ false
    → TimersMatch s
    → TimersMatch (shutdown target s).service
unfolding stop
shutdown-TimersMatch target s nb nm t = ground (arith, shutdown-service target s)

pub set_state-TimersMatch :
    (target : State) (s : Service)
    → s.master_down_timer.armed ≡ is_state target backup
    → s.advertisement_timer.armed ≡ is_state target master
    → TimersMatch (set_state target s).service
set_state-TimersMatch target s d a = ground (arith, set_state-service target s)

-- The expiry of the master-down timer keeps the timers right.
pub master_down-TimersMatch :
    (s : Service) → TimersMatch s → TimersMatch (master_down_timer_expires s).service
unfolding master_down_timer_expires stop start
master_down-TimersMatch s t = ground (
  arith,
  on_master_down_timer-service (record s { master_down_timer = stop s.master_down_timer }),
)

pub advertise-TimersMatch :
    (s : Service) → TimersMatch s → TimersMatch (advertisement_timer_expires s).service
unfolding advertisement_timer_expires on_advertisement_timer stop start send_advertisement
    start_advertisement_timer
advertise-TimersMatch s t = ground arith

pub interface_callback-TimersMatch :
    (up : Bool) (s : Service) → TimersMatch s → TimersMatch (interface_callback up s).service
unfolding interface_callback
interface_callback-TimersMatch true s t = ground (arith, startup-TimersMatch s)
interface_callback-TimersMatch false s t = ground (arith, shutdown-TimersMatch link_down s)

pub enable-TimersMatch :
    (up : Bool) (s : Service) → TimersMatch s → TimersMatch (enable up s).service
unfolding enable
enable-TimersMatch up s t = ground (arith, startup-TimersMatch s, set_state-TimersMatch link_down s)

pub disable-TimersMatch : (s : Service) → TimersMatch s → TimersMatch (disable s).service
unfolding disable
disable-TimersMatch s t = ground (arith, shutdown-TimersMatch disabled s)
