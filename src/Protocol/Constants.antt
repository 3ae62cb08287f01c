-- ===== src/Protocol/Constants.antt =====
-- ProtocolConstants of ipc/protocol.h. The types: an id and a position are `int`, money is a 64-bit
-- `long`, codes of errors and versions are `unsigned int`, all as bit patterns.
use iqoption_test_task.Prelude.{ℕ, ◌-◌, ◌^◌}

abbrev pub version : ℕ
version = 1

abbrev pub invalid_version : ℕ
invalid_version = 0

-- -1
abbrev pub invalid_user_id : ℕ
invalid_user_id = 2 ^ 32 - 1

abbrev pub invalid_message_code : ℕ
invalid_message_code = 255

abbrev pub top_positions : ℕ
top_positions = 10

abbrev pub competition_distance : ℕ
competition_distance = 10

-- Sizes of the plain types on the wire.
abbrev pub size_of_message_size : ℕ
size_of_message_size = 2

abbrev pub size_of_code : ℕ
size_of_code = 1

abbrev pub size_of_int : ℕ
size_of_int = 4

abbrev pub size_of_money : ℕ
size_of_money = 8

pub data ClientMessageCode : Type 0 where
  handshake user_registered user_renamed user_deal_won user_connected user_disconnected :
      ClientMessageCode

abbrev pub client_code : ClientMessageCode → ℕ
client_code handshake = 111
client_code user_registered = 1
client_code user_renamed = 2
client_code user_deal_won = 3
client_code user_connected = 4
client_code user_disconnected = 5

pub data ServiceMessageCode : Type 0 where
  protocol_error user_rating : ServiceMessageCode

abbrev pub service_code : ServiceMessageCode → ℕ
service_code protocol_error = 1
service_code user_rating = 2

pub data ProtocolError : Type 0 where
  protocol_version_unsupported user_unrecognized multiple_registration : ProtocolError

abbrev pub error_code : ProtocolError → ℕ
error_code protocol_version_unsupported = 1
error_code user_unrecognized = 2
error_code multiple_registration = 3
