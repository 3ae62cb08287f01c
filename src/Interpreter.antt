-- ===== src/Interpreter.antt =====
-- test/message_interpreter.h: the client reads what kind of message the service sent, and the message.
pub mod Reading
use iqoption_test_task.Prelude.{ℕ, Option, none, some, ◌==◌, if◌then◌else◌}
use iqoption_test_task.Failures.{Result, ok, throws, assertion_failed, ◌>>=◌}
use iqoption_test_task.Binary.{BinaryIStream, read_pod}
use iqoption_test_task.Protocol.Constants.{
  size_of_code, size_of_int, ServiceMessageCode, service_code, protocol_error, user_rating,
  ProtocolError, error_code, protocol_version_unsupported, user_unrecognized, multiple_registration,
}
use iqoption_test_task.Protocol.Service.{GenericProtocolError, init_error}
use iqoption_test_task.Protocol.Rating.{RatingPackMessage, init_rating}

-- The code that is returned, with the object that was filled.
pub data Interpretation : Type 0 where
  an_error : GenericProtocolError → Interpretation
  a_rating : RatingPackMessage → Interpretation

-- The cases of the inner switch; `assert(false)` in all others.
unfoldable pub error_of_code : ℕ → Result ProtocolError
error_of_code ec =
    if ec == error_code protocol_version_unsupported
    then ok protocol_version_unsupported
    else if ec == error_code user_unrecognized
    then ok user_unrecognized
    else if ec == error_code multiple_registration
    then ok multiple_registration
    else throws assertion_failed

unfoldable pub interpret_error : BinaryIStream → Result Interpretation
interpret_error incoming = do
  (ec, body) ← read_pod size_of_int incoming
  c ← error_of_code ec
  (error, _) ← init_error c body
  ok (an_error error)

unfoldable pub interpret_rating : BinaryIStream → Result Interpretation
interpret_rating incoming = do (rating, _) ← init_rating incoming; ok (a_rating rating)

-- The outer switch.
unfoldable pub interpret_code : ℕ → BinaryIStream → Result Interpretation
interpret_code mc body =
    if mc == service_code protocol_error
    then interpret_error body
    else if mc == service_code user_rating
    then interpret_rating body
    else throws assertion_failed

-- interpretIncomingData
unfoldable pub interpret_incoming_data : BinaryIStream → Result Interpretation
interpret_incoming_data incoming = do
  (mc, body) ← read_pod size_of_code incoming
  interpret_code mc body
