-- ===== src/Protocol/Service.antt =====
-- The error messages of ipc/protocol.h. `store` writes the error code first; whoever reads an error
-- reads its code, makes an object of the class, and calls that object's `init`.
use iqoption_test_task.Prelude.{ℕ}
use iqoption_test_task.Failures.{ok, ◌>>=◌}
use iqoption_test_task.Binary.{Reader, BinaryOStream, read_pod, write_pod}
use iqoption_test_task.Protocol.Constants.{
  version, size_of_int, ProtocolError, error_code, protocol_version_unsupported, user_unrecognized,
  multiple_registration,
}

-- GenericProtocolError, with a constructor for each class: a user id, or the expected version.
pub data GenericProtocolError : Type 0 where
  user_unrecognized_error multiple_registration_error : ℕ → GenericProtocolError
  unsupported_protocol_version_error : ℕ → GenericProtocolError

abbrev pub get_error_code : GenericProtocolError → ProtocolError
get_error_code (user_unrecognized_error i) = user_unrecognized
get_error_code (multiple_registration_error i) = multiple_registration
get_error_code (unsupported_protocol_version_error v) = protocol_version_unsupported

-- What is written behind the code. The version error writes the version of this build, whatever it
-- holds.
abbrev pub stored_field : GenericProtocolError → ℕ
stored_field (user_unrecognized_error i) = i
stored_field (multiple_registration_error i) = i
stored_field (unsupported_protocol_version_error v) = version

unfoldable pub store_error : GenericProtocolError → BinaryOStream → BinaryOStream
store_error e o =
    write_pod size_of_int (stored_field e) (write_pod size_of_int (error_code (get_error_code e)) o)

-- An object of the class with this code, with its field read.
abbrev pub made : ProtocolError → ℕ → GenericProtocolError
made user_unrecognized v = user_unrecognized_error v
made multiple_registration v = multiple_registration_error v
made protocol_version_unsupported v = unsupported_protocol_version_error v

-- `init` of the class with this code.
unfoldable pub init_error : ProtocolError → Reader GenericProtocolError
init_error c s = do (v, s') ← read_pod size_of_int s; ok (made c v, s')
