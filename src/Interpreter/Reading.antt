-- ===== src/Interpreter/Reading.antt =====
-- What a worker sends (service/worker_pool.cpp) as the client reads it (test/message_interpreter.h).
use iqoption_test_task.Prelude.{
  ℕ, ◌^◌, ◌≤◌, ◌<◌, ◌≡◌, refl, subst, [], ◌++◌, length, arith, append-nil,
}
use iqoption_test_task.Failures.{ok, ◌>>=◌}
use iqoption_test_task.Binary.Bytes.{to_bytes}
use iqoption_test_task.Binary.Laws.{facing, read_pod-facing}
use iqoption_test_task.Core.{CoreRatingData}
use iqoption_test_task.Protocol.Constants.{
  ProtocolError, error_code, protocol_version_unsupported, user_unrecognized, multiple_registration,
}
use iqoption_test_task.Protocol.Service.{
  GenericProtocolError, get_error_code, stored_field, init_error,
}
use iqoption_test_task.Protocol.RoundTrip.{received, init_error-facing}
use iqoption_test_task.Protocol.RatingTrip.{pack_bytes}
use iqoption_test_task.Workers.Answers.{DataFits, answer, message_bytes, init_rating-answer}
use iqoption_test_task.Workers.Errors.{error_bytes}
use iqoption_test_task.Interpreter.{
  interpret_incoming_data, interpret_rating, interpret_error, interpret_code, error_of_code,
  an_error, a_rating,
}

-- The body of the message that a worker sends about a place is read by the client as a rating message:
-- the answer about that place.
pub interpret_incoming_data-answer :
    (d : CoreRatingData) (id pos : ℕ)
    → DataFits d
    → length d.rating < 2 ^ 31
    → id < 2 ^ 32
    → pos ≤ length d.rating
    → interpret_incoming_data (facing [] (message_bytes (answer d id pos)))
      ≡ ok (a_rating (answer d id pos))
unfolding interpret_incoming_data interpret_code interpret_rating
interpret_incoming_data-answer d id pos fits small i p =
    let body = pack_bytes (answer d id pos) in
    let code = to_bytes 1 2 in
    let read : interpret_rating (facing code body) ≡ ok (a_rating (answer d id pos)) =
      subst (λ b. interpret_rating (facing code b) ≡ ok (a_rating (answer d id pos)))
        (append-nil body) (rw (init_rating-answer d id pos code [] fits small i p) refl) in
    rw (read_pod-facing 1 2 [] body (omega arith)) read

error_of_code_lem : (c : ProtocolError) → error_of_code (error_code c) ≡ ok c
unfolding error_of_code
error_of_code_lem protocol_version_unsupported = refl
error_of_code_lem user_unrecognized = refl
error_of_code_lem multiple_registration = refl

error_code_small : (c : ProtocolError) → error_code c < 256 ^ 4
error_code_small protocol_version_unsupported = omega arith
error_code_small user_unrecognized = omega arith
error_code_small multiple_registration = omega arith

-- The body of the message that a worker sends for an error is read by the client as that error, whose
-- field is the stored one.
pub interpret_incoming_data-error :
    (e : GenericProtocolError)
    → stored_field e < 2 ^ 32
    → interpret_incoming_data (facing [] (error_bytes e)) ≡ ok (an_error (received e))
unfolding interpret_incoming_data interpret_code interpret_error
interpret_incoming_data-error e small =
    let c = get_error_code e in
    let code = to_bytes 4 (error_code c) in
    let field = to_bytes 4 (stored_field e) in
    let front = to_bytes 1 1 in
    let read : (init_error c (facing (front ++ code) field) >>= λ r. ok (an_error r.0))
        ≡ ok (an_error (received e)) =
      subst
        (λ b.
          (init_error c (facing (front ++ code) b) >>= λ r. ok (an_error r.0))
          ≡ ok (an_error (received e)))
        (append-nil field)
        (rw (init_error-facing c (stored_field e) (front ++ code) [] small) refl) in
    rw
      (
        read_pod-facing 1 1 [] (code ++ field) (omega arith),
        read_pod-facing 4 (error_code c) front field (error_code_small c),
        error_of_code_lem c,
      )
      read
