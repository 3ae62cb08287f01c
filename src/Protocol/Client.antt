-- ===== src/Protocol/Client.antt =====
-- The incoming (client-to-service) messages of ipc/protocol.h. `init` reads what `store` writes;
-- the message code in front is the business of `prefix` and of the message builder.
use iqoption_test_task.Prelude.{ℕ, List, []}
use iqoption_test_task.Failures.{Result, ok, ◌>>=◌}
use iqoption_test_task.Binary.{
  Reader, BinaryOStream, read_pod, read_buffer, write_pod, write_buffer,
}
use iqoption_test_task.Protocol.Constants.{
  invalid_user_id, size_of_int, size_of_money, size_of_code, ClientMessageCode, client_code,
  user_registered, user_renamed, user_deal_won, user_connected, user_disconnected,
}

pub record HandshakeMsg : Type 0 where
  pub proto_version : ℕ

-- UserConnectedMsg and UserDisconnectedMsg are such messages.
pub record GenericIdMsg : Type 0 where
  pub user_id : ℕ

-- UserRegisteredMsg and UserRenamedMsg.
pub record GenericIdNameMsg : Type 0 where
  pub user_id : ℕ
  pub user_name : List ℕ

pub record UserDealWonMsg : Type 0 where
  pub user_id : ℕ
  pub winnings : ℕ

unfoldable pub init_handshake : Reader HandshakeMsg
init_handshake s = do (v, s') ← read_pod size_of_int s; ok (record { proto_version = v }, s')

unfoldable pub store_handshake : HandshakeMsg → BinaryOStream → BinaryOStream
store_handshake m = write_pod size_of_int m.proto_version

unfoldable pub init_id : Reader GenericIdMsg
init_id s = do (i, s') ← read_pod size_of_int s; ok (record { user_id = i }, s')

unfoldable pub store_id : GenericIdMsg → BinaryOStream → BinaryOStream
store_id m = write_pod size_of_int m.user_id

unfoldable pub init_id_name : Reader GenericIdNameMsg
init_id_name s = do
  (i, s') ← read_pod size_of_int s
  (n, s'') ← read_buffer s'
  ok (record { user_id = i; user_name = n }, s'')

unfoldable pub store_id_name : GenericIdNameMsg → BinaryOStream → Result BinaryOStream
store_id_name m o = write_buffer m.user_name (write_pod size_of_int m.user_id o)

unfoldable pub init_deal_won : Reader UserDealWonMsg
init_deal_won s = do
  (i, s') ← read_pod size_of_int s
  (w, s'') ← read_pod size_of_money s'
  ok (record { user_id = i; winnings = w }, s'')

unfoldable pub store_deal_won : UserDealWonMsg → BinaryOStream → BinaryOStream
store_deal_won m o = write_pod size_of_money m.winnings (write_pod size_of_int m.user_id o)

-- UserMsgCodePrefixer<M>::prefix, by the code that its specialization writes.
unfoldable pub prefix : ClientMessageCode → BinaryOStream → BinaryOStream
prefix c = write_pod size_of_code (client_code c)

-- The five messages that a client sends after its handshake.
pub data UserMsg : Type 0 where
  registered renamed : GenericIdNameMsg → UserMsg
  connected disconnected : GenericIdMsg → UserMsg
  deal_won : UserDealWonMsg → UserMsg

abbrev pub code_of : UserMsg → ClientMessageCode
code_of (registered m) = user_registered
code_of (renamed m) = user_renamed
code_of (connected m) = user_connected
code_of (disconnected m) = user_disconnected
code_of (deal_won m) = user_deal_won

unfoldable pub store_body : UserMsg → BinaryOStream → Result BinaryOStream
store_body (registered m) o = store_id_name m o
store_body (renamed m) o = store_id_name m o
store_body (connected m) o = ok (store_id m o)
store_body (disconnected m) o = ok (store_id m o)
store_body (deal_won m) o = ok (store_deal_won m o)

-- A default-constructed message.
abbrev pub blank_id : GenericIdMsg
blank_id = record { user_id = invalid_user_id }

abbrev pub blank_id_name : GenericIdNameMsg
blank_id_name = record { user_id = invalid_user_id; user_name = [] }

abbrev pub blank_deal : UserDealWonMsg
blank_deal = record { user_id = invalid_user_id; winnings = 0 }
