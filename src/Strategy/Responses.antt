-- ===== src/Strategy/Responses.antt =====
-- test/strategy.cpp, processResponses: the client reads what the service sends, and checks it against
-- the storage of the previous minute.
use iqoption_test_task.Prelude.{ℕ, zero, suc, Bool, true, false, ◌==◌, if◌then◌else◌}
use iqoption_test_task.Failures.{Result, ok, throws, thrown_text, ◌>>=◌}
use iqoption_test_task.Binary.{BinaryIStream, read_pod}
use iqoption_test_task.Protocol.Constants.{
  size_of_code, size_of_int, service_code, protocol_error, user_rating, ProtocolError,
  protocol_version_unsupported, user_unrecognized, multiple_registration,
}
use iqoption_test_task.Protocol.Service.{GenericProtocolError, init_error}
use iqoption_test_task.Protocol.Rating.{init_rating}
use iqoption_test_task.Interpreter.{error_of_code}
use iqoption_test_task.Transport.{Asio, receive}
use iqoption_test_task.Storage.{Impl}
use iqoption_test_task.Storage.Checks.{validate_error, validate_rating}

-- What follows the reading of an error: one about the version ends the client.
unfoldable pub judge_error : ProtocolError → GenericProtocolError → Impl → Result Impl
judge_error protocol_version_unsupported e s = throws thrown_text
judge_error user_unrecognized e s = validate_error e s
judge_error multiple_registration e s = validate_error e s

-- The inner switch has the cases of `error_of_code`, and asserts that there is no other.
unfoldable pub process_protocol_error : BinaryIStream → Impl → Result Impl
process_protocol_error buffer s = do
  (ec, body) ← read_pod size_of_int buffer
  c ← error_of_code ec
  (error, _) ← init_error c body
  judge_error c error s

unfoldable pub process_user_rating : BinaryIStream → Impl → Result Impl
process_user_rating buffer s = do (rating, _) ← init_rating buffer; ok (validate_rating rating s)

-- The outer switch, which passes over any other code.
unfoldable pub process_code : ℕ → BinaryIStream → Impl → Result Impl
process_code mc body s =
    if mc == service_code user_rating
    then process_user_rating body s
    else if mc == service_code protocol_error
    then process_protocol_error body s
    else ok s

unfoldable pub process_response : BinaryIStream → Impl → Result Impl
process_response buffer s = do (mc, body) ← read_pod size_of_code buffer; process_code mc body s

-- A turn of the loop.
unfoldable pub receive_response : (a : Asio) → Impl × a.Socket → Result (Impl × a.Socket)
receive_response a (s, socket) = do
  (buffer, socket') ← receive a socket
  s' ← process_response buffer s
  ok (s', socket')

-- The loop, for as many turns as the flag lets it make, and the flag that the handlers set: the storage
-- is as it was when the exception was thrown.
unfoldable pub process_responses : (a : Asio) → ℕ → Impl × a.Socket → Bool × (Impl × a.Socket)
process_responses a zero x = (false, x)
process_responses a (suc turns) x = elim (receive_response a x) [
  | throws e ↦ (true, x)
  | ok x' ↦ process_responses a turns x'
]
