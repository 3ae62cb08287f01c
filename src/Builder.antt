-- ===== src/Builder.antt =====
-- service/message_builder.h: a message of a client is received and read into the battery of message
-- objects that are used again and again.
pub mod Delivery
use iqoption_test_task.Prelude.{ℕ, Option, none, some, ◌==◌, if◌then◌else◌}
use iqoption_test_task.Failures.{Result, ok, throws, message_code_unrecognized, ◌>>=◌}
use iqoption_test_task.Binary.{BinaryIStream, read_pod}
use iqoption_test_task.Protocol.Constants.{
  size_of_code, handshake, client_code, ClientMessageCode, user_registered, user_renamed,
  user_deal_won, user_connected, user_disconnected,
}
use iqoption_test_task.Protocol.Client.{
  GenericIdMsg, GenericIdNameMsg, UserDealWonMsg, init_id, init_id_name, init_deal_won, UserMsg,
  registered, renamed, connected, disconnected, deal_won, blank_id, blank_id_name, blank_deal,
}
use iqoption_test_task.Transport.{Asio, receive}

pub record MessageBattery : Type 0 where
  pub user_registered_msg : GenericIdNameMsg
  pub user_renamed_msg : GenericIdNameMsg
  pub user_connected_msg : GenericIdMsg
  pub user_disconnected_msg : GenericIdMsg
  pub user_deal_won_msg : UserDealWonMsg

abbrev pub new_battery : MessageBattery
new_battery = record {
  user_registered_msg = blank_id_name;
  user_renamed_msg = blank_id_name;
  user_connected_msg = blank_id;
  user_disconnected_msg = blank_id;
  user_deal_won_msg = blank_deal;
}

-- The case of the switch for a code, if there is one.
unfoldable pub switch_code : ℕ → Option ClientMessageCode
switch_code code =
    if code == client_code user_registered
    then some user_registered
    else if code == client_code user_renamed
    then some user_renamed
    else if code == client_code user_connected
    then some user_connected
    else if code == client_code user_disconnected
    then some user_disconnected
    else if code == client_code user_deal_won
    then some user_deal_won
    else none

-- The case itself. A handshake has none: its code is not among those of the switch.
unfoldable pub init_message :
    ℕ
    → Option ClientMessageCode
    → BinaryIStream
    → MessageBattery
    → Result (ClientMessageCode × MessageBattery)
init_message code (some user_registered) s b = do
  (m, _) ← init_id_name s
  ok (user_registered, record b { user_registered_msg = m })
init_message code (some user_renamed) s b = do
  (m, _) ← init_id_name s
  ok (user_renamed, record b { user_renamed_msg = m })
init_message code (some user_connected) s b = do
  (m, _) ← init_id s
  ok (user_connected, record b { user_connected_msg = m })
init_message code (some user_disconnected) s b = do
  (m, _) ← init_id s
  ok (user_disconnected, record b { user_disconnected_msg = m })
init_message code (some user_deal_won) s b = do
  (m, _) ← init_deal_won s
  ok (user_deal_won, record b { user_deal_won_msg = m })
init_message code (some handshake) s b = throws (message_code_unrecognized code)
init_message code none s b = throws (message_code_unrecognized code)

unfoldable pub build :
    (a : Asio) → MessageBattery → a.Socket → Result (ClientMessageCode × MessageBattery × a.Socket)
build a b s = do
  (message_data, s') ← receive a s
  (code, rest) ← read_pod size_of_code message_data
  (c, b') ← init_message code (switch_code code) rest b
  ok (c, b', s')
