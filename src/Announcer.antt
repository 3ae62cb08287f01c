-- ===== src/Announcer.antt =====
-- service/rating_announcer.cpp: once a minute the rating is recalculated, and second by second those
-- who were connected at it are told of their place. Readings of the clock and of the stop flag are
-- arguments; the sleeps have no effect on the state.
pub mod Weeks
use iqoption_test_task.Prelude.{
  ℕ, suc, Bool, true, false, some, List, [], ◌∷◌, ltb, ◌==◌, if◌then◌else◌, not, zero, ◌&&◌, get_or,
}
use iqoption_test_task.Core.{ChronoSet, IterationData}
use iqoption_test_task.Queue.{QueuePack, enqueue_user_data, next_index}

-- The variables of doWork, and the expiration date that it holds by reference.
pub record Announcer : Type 0 where
  pub drop_old_rating : Bool
  pub week_just_turned : Bool
  pub chrono_set_index : ℕ
  pub rating_expiration_date : ℕ

-- Before the loop.
unfoldable pub begin_work : ℕ → ℕ → ℕ → Announcer
begin_work week_start second expiration =
    if expiration == 0
    then record {
      drop_old_rating = false;
      week_just_turned = false;
      chrono_set_index = second;
      rating_expiration_date = week_start;
    }
    else record {
      drop_old_rating = not (expiration == week_start);
      week_just_turned = false;
      chrono_set_index = second;
      rating_expiration_date = expiration;
    }

-- After recalculate(dropOldRating).
unfoldable pub after_recalculate : ℕ → Announcer → Announcer
after_recalculate week_start a =
    if a.drop_old_rating
    then record a { drop_old_rating = false; rating_expiration_date = week_start }
    else a

-- The jobs of one thread: its index and the queues.
pub record Jobs : Type 0 where
  pub index : ℕ
  pub queues : List QueuePack

-- announce
unfoldable pub announce : ChronoSet → Jobs → Jobs
announce [] j = j
announce (user_data ∷ users) j = announce users (record {
  index = next_index j.index j.queues;
  queues = enqueue_user_data (some user_data) j.index j.queues;
})

-- The loop over the seconds that are left of the minute, with the second at which it ends. The fuel of
-- 60 turns is enough, since the index is below 60 before each.
unfoldable pub announce_seconds : (ℕ → Bool) → IterationData → ℕ → ℕ → Jobs → ℕ × Jobs
announce_seconds bad_flag it zero second j = (second, j)
announce_seconds bad_flag it (suc fuel) second j =
    let next =
      announce_seconds bad_flag it fuel (suc second)
        (announce (get_or it.users_online second []) j) in
    if ltb second 60 && not (bad_flag second) then next else (second, j)

unfoldable pub announce_minute : (ℕ → Bool) → IterationData → Announcer → Jobs → ℕ × Jobs
announce_minute bad_flag it a j = announce_seconds bad_flag it 60 a.chrono_set_index j

-- The end of a full minute.
unfoldable pub finish_minute : ℕ → ℕ → Announcer → Announcer
finish_minute week_start second a =
    if a.week_just_turned
    then record a { drop_old_rating = true; week_just_turned = false; chrono_set_index = second }
    else record a {
      week_just_turned = ltb a.rating_expiration_date week_start;
      chrono_set_index = 0;
    }

-- A turn of the loop, as far as the rating's week goes: the week start is read after recalculate and
-- at the end of the minute.
unfoldable pub minute : ℕ → ℕ → ℕ → Announcer → Announcer
minute week_start week_start_later second a =
    finish_minute week_start_later second (after_recalculate week_start a)
