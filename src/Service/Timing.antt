-- ===== src/Service/Timing.antt =====
-- VrrpService::skewTime and masterDownInterval, in units of 10 ms.
pub mod Bounds
use open_vrrp.Prelude.{ℕ, ◌+◌, ◌-◌, ◌*◌, ◌/◌, u32}
use open_vrrp.Timer.{start}
use open_vrrp.Service.{Service, modify, Method}

unfoldable pub skew_time : Service → ℕ
skew_time s = u32 ((256 - s.priority) * s.master_advertisement_interval) / 256

unfoldable pub master_down_interval : Service → ℕ
unfolding skew_time
master_down_interval s = u32 (3 * s.master_advertisement_interval + skew_time s)

-- `m_masterDownTimer.start(masterDownInterval() * 10)`
unfoldable pub start_master_down_timer : Method
unfolding start
start_master_down_timer = modify λ s. record s {
  master_down_timer = start (u32 (master_down_interval s * 10)) s.master_down_timer;
}

-- `m_advertisementTimer.start(m_advertisementInterval * 10)`
unfoldable pub start_advertisement_timer : Method
unfolding start
start_advertisement_timer = modify λ s. record s {
  advertisement_timer = start (u32 (s.advertisement_interval * 10)) s.advertisement_timer;
}
