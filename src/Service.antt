-- ===== src/Service.antt =====
-- A minute of the service: service/message_dispatcher.cpp fills the incoming data, then
-- service/rating_calculator.cpp takes it in.
use iqoption_test_task.Prelude.{ℕ, ◌+◌, ◌^◌, ◌<◌, ◌≡◌, refl, Bool, List, length, Every}
use iqoption_test_task.Failures.{ok}
use iqoption_test_task.Core.{CoreRatingData, IterationData, IncomingDataBuffer, empty_buffer}
use iqoption_test_task.Protocol.Client.{UserMsg}
use iqoption_test_task.Queue.{QueuePack}
use iqoption_test_task.Dispatcher.{dispatch_all}
use iqoption_test_task.Dispatcher.Fits.{dispatch_all-Fits}
use iqoption_test_task.Calculator.Users.{Impl}
use iqoption_test_task.Calculator.Recalculate.{start, recalculate}
use iqoption_test_task.Calculator.Rated.{IsRated}
use iqoption_test_task.Calculator.Minute.{Raises, recalculate-IsRated}

-- What the dispatcher collects in a minute from an empty buffer.
abbrev pub collected : List (ℕ × UserMsg) → List QueuePack → ℕ → IncomingDataBuffer
collected ms queues index =
    (dispatch_all ms
      (record { queues = queues; queue_index = index; buffer = empty_buffer })).buffer

-- Whatever clients send in a minute: if each user's winnings of the minute raise what he has, and the
-- rating and the winners together are fewer than 2 ^ 31, then the recalculation that follows, whether
-- it drops the old rating or not, fails no assertion and leaves a correct rating.
pub recalculate-dispatch_all :
    (drop : Bool) (d : CoreRatingData) (it : IterationData) (ms : List (ℕ × UserMsg))
    (queues : List QueuePack) (index : ℕ)
    → IsRated d.active_users d.rating
    → Every (λ m. m.0 < 60) ms
    → Every (Raises d.active_users) (collected ms queues index).deals_won
    → length d.rating + length (collected ms queues index).deals_won < 2 ^ 31
    → (s : Impl) × (recalculate drop (start d it (collected ms queues index)) ≡ ok s)
      × IsRated s.active_users s.rating
unfolding start
recalculate-dispatch_all drop d it ms queues index rated seconds raises small =
    let fits =
      dispatch_all-Fits ms (record { queues = queues; queue_index = index; buffer = empty_buffer })
        seconds (record { distinct = tt; valid_seconds = tt }) in
    recalculate-IsRated drop (start d it (collected ms queues index))
      (record {
        rated = rated;
        no_patches = refl;
        none_fresh = refl;
        distinct = fits.distinct;
        raises = raises;
        small = small;
      })
      fits.valid_seconds
