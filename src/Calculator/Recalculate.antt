-- ===== src/Calculator/Recalculate.antt =====
-- RatingCalculatorImpl::recalculate of service/rating_calculator.cpp.
use iqoption_test_task.Prelude.{◌+◌, Bool, none, [], if◌then◌else◌, length, resize}
use iqoption_test_task.Failures.{Result, ok, ◌>>=◌}
use iqoption_test_task.Core.{CoreRatingData, IterationData, IncomingDataBuffer}
use iqoption_test_task.Calculator.Users.{
  Impl, drop_rating, process_registrations, process_renames, process_connection_changes,
  process_deals,
}
use iqoption_test_task.Calculator.Moves.{LoopState, apply_patches, refresh_from}

-- RatingCalculatorImpl(...): no patches, no fresh ratings.
unfoldable pub start : CoreRatingData → IterationData → IncomingDataBuffer → Impl
start d it b = record {
  silent_users = d.silent_users;
  active_users = d.active_users;
  rating = d.rating;
  users_online = it.users_online;
  buffer = b;
  errors = [];
  patches = [];
  fresh_ratings = 0;
}

-- What the loop over the patches starts from.
unfoldable pub loop_start : Impl → LoopState
loop_start s = record {
  rating = resize none (length s.rating + s.fresh_ratings) s.rating;
  users = s.active_users;
  offset = s.fresh_ratings;
  old_positions = 0;
  length_done = 0;
}

-- From the resize of the vector to the refresh of the positions.
unfoldable pub rebuild_rating : Impl → Result Impl
rebuild_rating s = do
  l ← apply_patches (length s.rating) s.patches (loop_start s)
  ok (record s { rating = l.rating; active_users = refresh_from 0 l.rating l.users })

-- The state after the incoming data was processed.
unfoldable pub process_buffer : Bool → Impl → Result Impl
process_buffer drop_old_rating s = do
  let kept = if drop_old_rating then drop_rating s else s
  connected ← process_connection_changes (process_renames (process_registrations kept))
  ok (process_deals connected)

unfoldable pub recalculate : Bool → Impl → Result Impl
recalculate drop_old_rating s = do
  processed ← process_buffer drop_old_rating s
  rebuild_rating processed
