-- ===== src/Examples/Answers.antt =====
-- What the client makes of a worker's messages, at concrete inputs: service/worker_pool.cpp and
-- test/message_interpreter.h.
use iqoption_test_task.Prelude.{ℕ, ◌≡◌, refl, false, some, List, [], ◌∷◌, ◌++◌, length, arith}
use iqoption_test_task.Failures.{ok}
use iqoption_test_task.Binary.{BinaryOStream}
use iqoption_test_task.Binary.Bytes.{to_bytes}
use iqoption_test_task.Binary.Laws.{ended, facing}
use iqoption_test_task.Maps.{find}
use iqoption_test_task.Core.{CoreRatingData, FullUserData, deref}
use iqoption_test_task.Protocol.Service.{user_unrecognized_error}
use iqoption_test_task.Protocol.RoundTrip.{received}
use iqoption_test_task.Protocol.Rating.{init_rating}
use iqoption_test_task.Protocol.RatingTrip.{pack_bytes}
use iqoption_test_task.Transport.{write_message, send}
use iqoption_test_task.Transport.Framing.{framed}
use iqoption_test_task.Workers.{
  entry_of, process_error, RatingBufferData, process_rating_impl, cache_top_ratings,
}
use iqoption_test_task.Workers.Answers.{
  DataFits, IsCached, answer, message_bytes, init_rating-answer,
}
use iqoption_test_task.Workers.Sending.{process_rating_impl-sends, cache_top_ratings-IsCached}
use iqoption_test_task.Workers.Turn.{Worker, process_errors}
use iqoption_test_task.Workers.Drained.{write_errors, any_jobs, process_errors-all}
use iqoption_test_task.Queue.{new_pack, new_queue, push}
use iqoption_test_task.Queue.Fifo.{Holds, new_queue-Holds, push-Holds}
use iqoption_test_task.Workers.Errors.{error_bytes, process_error-sends}
use iqoption_test_task.Interpreter.{interpret_incoming_data, an_error, a_rating}
use iqoption_test_task.Interpreter.Reading.{
  interpret_incoming_data-answer, interpret_incoming_data-error,
}
use iqoption_test_task.Examples.Messages.{pipe, Pipe}

abbrev winner : FullUserData
winner = record {
  basic = record { second_connected = 60; name = 65 ∷ [] };
  id = 7;
  amount_won = 500;
  rating = 0;
}

abbrev one_winner : CoreRatingData
one_winner = record {
  silent_users = [];
  active_users = (7, winner) ∷ [];
  rating = some 7 ∷ [];
  expiration_date = 0;
}

abbrev fresh_buffer : RatingBufferData
fresh_buffer = record {
  buffer = ended (((0 ∷ 0 ∷ []) ++ to_bytes 1 2) ++ []);
  base = 3;
  top_ratings_end = 0;
}

one_winner_fits : DataFits one_winner
unfolding entry_of deref find
one_winner_fits = ((omega arith, omega arith, omega arith), tt)

cache_top_ratings-IsCached_example :
    (bd : RatingBufferData) × (cache_top_ratings one_winner fresh_buffer ≡ ok bd)
    × IsCached one_winner bd
cache_top_ratings-IsCached_example =
    cache_top_ratings-IsCached one_winner fresh_buffer (0 ∷ 0 ∷ []) [] one_winner_fits (omega arith)
      refl refl refl

init_rating-answer_example :
    init_rating (facing [] (pack_bytes (answer one_winner 7 0) ++ []))
    ≡ ok (answer one_winner 7 0, facing ([] ++ pack_bytes (answer one_winner 7 0)) [])
init_rating-answer_example =
    init_rating-answer one_winner 7 0 [] [] one_winner_fits (omega arith) (omega arith)
      (omega arith)

abbrev cached : RatingBufferData
cached =
    (cache_top_ratings-IsCached one_winner fresh_buffer (0 ∷ 0 ∷ []) [] one_winner_fits
      (omega arith) refl refl refl).0

cached_lem : IsCached one_winner cached
cached_lem =
    (cache_top_ratings-IsCached one_winner fresh_buffer (0 ∷ 0 ∷ []) [] one_winner_fits
      (omega arith) refl refl refl).2

process_rating_impl-sends_example :
    (bd : RatingBufferData) × (process_rating_impl pipe one_winner 7 0 cached ([], [])
      ≡ ok (bd, ([], framed (message_bytes (answer one_winner 7 0)))))
    × IsCached one_winner bd
process_rating_impl-sends_example =
    process_rating_impl-sends pipe one_winner 7 0 cached ([], [])
      ([], framed (message_bytes (answer one_winner 7 0))) cached_lem one_winner_fits (omega arith)
      (omega arith) refl

abbrev one_error : Worker pipe
one_error = record {
  pack = record new_pack { error_queue = push (user_unrecognized_error 7) new_queue };
  ratings = fresh_buffer;
  errors = ended (0 ∷ 0 ∷ 1 ∷ []);
  errors_base = 3;
  socket = ([], []);
}

errors_written :
    (r : BinaryOStream × Pipe) × (write_errors pipe one_winner
        (user_unrecognized_error 7 ∷ [])
        3
        one_error.errors
        one_error.socket
      ≡ ok r)
unfolding write_errors process_error write_message send
errors_written = (_, refl)

process_errors-all_example :
    (w : Worker pipe) × (process_errors pipe one_winner 2 false one_error
      ≡ ok (any_jobs pipe one_winner (user_unrecognized_error 7 ∷ []) false, w))
    × (w.errors ≡ errors_written.0.0)
    × (w.socket ≡ errors_written.0.1)
    × Holds w.pack.error_queue []
process_errors-all_example =
    process_errors-all pipe one_winner (user_unrecognized_error 7 ∷ []) 2 false one_error
      errors_written.0.0 errors_written.0.1 (omega arith)
      (push-Holds new_queue [] (user_unrecognized_error 7) new_queue-Holds) errors_written.1

process_error-sends_example :
    (size : List ℕ) × (length size ≡ 2)
    × (process_error pipe
          (user_unrecognized_error 7)
          3
          (ended ((0 ∷ 0 ∷ []) ++ to_bytes 1 1))
          ([], [])
        ≡ ok (ended (size ++ to_bytes 1 1), ([], framed (error_bytes (user_unrecognized_error 7)))))
process_error-sends_example =
    process_error-sends pipe (user_unrecognized_error 7) (0 ∷ 0 ∷ []) ([], [])
      ([], framed (error_bytes (user_unrecognized_error 7))) refl refl

interpret_incoming_data-error_example :
    interpret_incoming_data (facing [] (error_bytes (user_unrecognized_error 7)))
    ≡ ok (an_error (received (user_unrecognized_error 7)))
interpret_incoming_data-error_example =
    interpret_incoming_data-error (user_unrecognized_error 7) (omega arith)

interpret_incoming_data-answer_example :
    interpret_incoming_data (facing [] (message_bytes (answer one_winner 7 0)))
    ≡ ok (a_rating (answer one_winner 7 0))
interpret_incoming_data-answer_example =
    interpret_incoming_data-answer one_winner 7 0 one_winner_fits (omega arith) (omega arith)
      (omega arith)
