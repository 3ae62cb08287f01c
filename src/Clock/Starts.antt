-- ===== src/Clock/Starts.antt =====
-- What utils/date_time.h says of a moment.
use iqoption_test_task.Prelude.{ℕ, ◌+◌, ◌-◌, ◌*◌, ◌%◌, ◌≤◌, ◌<◌, ◌≡◌, arith}
use iqoption_test_task.Clock.{
  seconds, days, weeks, current_week_start, current_second_index, next_full_second,
}

-- A moment after the first Monday lies in the week that begins at its week start, which is a Monday
-- at midnight.
pub current_week_start-bounds :
    (now : ℕ)
    → 4 * days ≤ now
    → (current_week_start now ≤ now)
      × (now < current_week_start now + weeks)
      × ((current_week_start now - 4 * days) % weeks ≡ 0)
unfolding current_week_start
current_week_start-bounds now h = (omega arith, omega arith, omega arith)

-- Of a moment within the second i, below 60, of a minute, the index is i.
pub current_second_index_lem :
    (minute i rest : ℕ)
    → i < 60
    → rest < seconds
    → current_second_index ((minute * 60 + i) * seconds + rest) ≡ i
unfolding current_second_index
current_second_index_lem minute i rest small short = omega arith

-- The next full second is the first whole second that is not before the moment.
pub next_full_second-bounds :
    (now : ℕ)
    → (now ≤ next_full_second now)
      × (next_full_second now < now + seconds)
      × (next_full_second now % seconds ≡ 0)
unfolding next_full_second
next_full_second-bounds now = (ground arith, ground arith, ground arith)
