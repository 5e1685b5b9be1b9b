-- ===== src/Service/Timing/Bounds.antt =====
-- The intervals: no wrap-around, the range of the master-down interval, and when a timer that is
-- set from them can expire.
use open_vrrp.Prelude.{ℕ, ◌+◌, ◌-◌, ◌*◌, ◌/◌, ◌≤◌, ◌≡◌, ◌==◌, not, ap, u32, arith}
use open_vrrp.Timer.{Timer, is_pending, start}
use open_vrrp.Service.{Service}
use open_vrrp.Service.Timing.{skew_time, master_down_interval}

-- What the setters and the packet format keep the numbers to.
pub record InRange (s : Service) : Type 0 where
  pub positive : 1 ≤ s.priority
  pub byte : s.priority ≤ 255
  pub interval_min : 1 ≤ s.advertisement_interval
  pub interval_max : s.advertisement_interval ≤ 4095
  pub master_max : s.master_advertisement_interval ≤ 4095

mul_mono : (a b m : ℕ) → a ≤ b → a * m ≤ b * m
mul_mono a b m h = grind arith

pub product_le : (p m : ℕ) → (256 - p) * m ≤ 256 * m
product_le p m = mul_mono (256 - p) 256 m (omega arith)

pub skew_time_exact :
    (s : Service)
    → InRange s
    → skew_time s ≡ (256 - s.priority) * s.master_advertisement_interval / 256
unfolding skew_time
skew_time_exact s r = omega (arith, product_le s.priority s.master_advertisement_interval)

-- With the members in range the 32-bit arithmetic of the master-down interval does not wrap, nor
-- does its product with 10; and the interval is three to four times the master's.
pub master_down_interval_bounds :
    (s : Service)
    → InRange s
    → (master_down_interval s
        ≡ 3 * s.master_advertisement_interval
          + (256 - s.priority) * s.master_advertisement_interval / 256)
      × (3 * s.master_advertisement_interval ≤ master_down_interval s)
      × (master_down_interval s ≤ 4 * s.master_advertisement_interval)
      × (u32 (master_down_interval s * 10) ≡ master_down_interval s * 10)
unfolding master_down_interval
master_down_interval_bounds s r =
    omega (arith, skew_time_exact s r, product_le s.priority s.master_advertisement_interval)

product_mono : (p q m : ℕ) → p ≤ q → (256 - q) * m ≤ (256 - p) * m
product_mono p q m h = mul_mono (256 - q) (256 - p) m (omega arith)

-- Of two services with members in range and one master's interval, the one with the higher
-- priority has the master-down interval that is no longer.
pub master_down_interval_mono :
    (s t : Service)
    → InRange s
    → InRange t
    → s.master_advertisement_interval ≡ t.master_advertisement_interval
    → t.priority ≤ s.priority
    → master_down_interval s ≤ master_down_interval t
master_down_interval_mono s t r q e h =
    let n = s.master_advertisement_interval in
    let same : (256 - t.priority) * n ≡ (256 - t.priority) * t.master_advertisement_interval =
      ap (λ (m : ℕ). (256 - t.priority) * m) e in
    omega (
      arith,
      same,
      product_mono t.priority s.priority n h,
      (master_down_interval_bounds s r).0,
      (master_down_interval_bounds t q).0,
    )

-- A timer set to a number of units of 10 ms is pending exactly if the number is not zero.
pub start-is_pending :
    (n : ℕ) (t : Timer) → n ≤ 16380 → is_pending (start (u32 (n * 10)) t) ≡ not (n == 0)
unfolding start
start-is_pending n t h = ground arith
