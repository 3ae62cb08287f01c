-- ===== src/Clock.antt =====
-- utils/date_time.h: moments of the system clock, in ticks since the epoch (a Thursday). A tick of
-- `std::chrono::system_clock` is a nanosecond. The clock's reading is an argument, and not before the
-- first Monday.
pub mod Starts
use iqoption_test_task.Prelude.{ℕ, ◌+◌, ◌-◌, ◌*◌, ◌/◌, ◌==◌, if◌then◌else◌}

-- seconds, minutes, days and weeks
abbrev pub seconds : ℕ
seconds = 1000000000

abbrev pub minutes : ℕ
minutes = 60 * seconds

abbrev pub days : ℕ
days = 86400 * seconds

abbrev pub weeks : ℕ
weeks = 7 * days

-- std::chrono::floor and ceil to a unit.
abbrev pub floor_to : ℕ → ℕ → ℕ
floor_to unit now = unit * (now / unit)

abbrev pub ceil_to : ℕ → ℕ → ℕ
ceil_to unit now = if floor_to unit now == now then now else floor_to unit now + unit

unfoldable pub current_week_start : ℕ → ℕ
current_week_start now = floor_to weeks (now - 4 * days) + 4 * days

unfoldable pub next_full_minute : ℕ → ℕ
next_full_minute now = ceil_to minutes now

unfoldable pub next_full_second : ℕ → ℕ
next_full_second now = ceil_to seconds now

-- duration_cast<seconds> divides by the ticks of a second.
unfoldable pub current_second_index : ℕ → ℕ
current_second_index now = (floor_to seconds now - floor_to minutes now) / seconds
