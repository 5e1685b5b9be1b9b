-- ===== src/Timer.antt =====
-- src/timer.cpp: a one-shot timer over a timerfd. The fields `tv_sec` and `tv_nsec` are what the
-- last timerfd_settime wrote; both zero disarm the descriptor, as timerfd_settime documents. The
-- main loop's entry of the descriptor goes with `armed`.
use open_vrrp.Prelude.{
  ℕ, ◌+◌, ◌*◌, ◌/◌, ◌%◌, ◌<◌, ◌≡◌, ◌==◌, if◌then◌else◌, Bool, true, false, not, ◌&&◌, arith,
}

pub record Timer : Type 0 where
  pub armed : Bool
  pub tv_sec : ℕ
  pub tv_nsec : ℕ

abbrev pub new : Timer
new = record { armed = false; tv_sec = 0; tv_nsec = 0 }

-- `msec` is an unsigned int, so `(msec % 1000) * 1000000` does not wrap.
unfoldable pub start : ℕ → Timer → Timer
start msec t = record { armed = true; tv_sec = msec / 1000; tv_nsec = (msec % 1000) * 1000000 }

unfoldable pub stop : Timer → Timer
stop t = if t.armed then record { armed = false; tv_sec = 0; tv_nsec = 0 } else t

-- The descriptor becomes readable some time, and the main loop watches it.
abbrev pub is_pending : Timer → Bool
is_pending t = t.armed && not ((t.tv_sec == 0) && (t.tv_nsec == 0))

-- Timer::start writes a time of `msec` milliseconds, with fewer than 10^9 nanoseconds beside the
-- seconds, as timerfd_settime asks; and the timer is pending exactly if `msec` is not 0.
pub start_lem :
    (msec : ℕ) (t : Timer)
    → ((start msec t).tv_sec * 1000000000 + (start msec t).tv_nsec ≡ msec * 1000000)
      × ((start msec t).tv_nsec < 1000000000)
      × (is_pending (start msec t) ≡ not (msec == 0))
unfolding start
start_lem msec t = (omega arith, omega arith, ground arith)
