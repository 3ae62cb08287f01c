-- ===== src/Transport.antt =====
-- ipc/transport.h: messages over a stream socket. Each message has its size, itself included, in two
-- bytes in front. The socket is asio's: its reads and writes are parameters, and an error is `none`.
pub mod Framing
pub mod Launch
use iqoption_test_task.Prelude.{
  ℕ, ◌-◌, Option, none, some, Bool, List, [], length, ltb, ◌==◌, if◌then◌else◌, not,
}
use iqoption_test_task.Failures.{
  Result, ok, throws, transport_error_recoverable, length_error, ◌>>=◌,
}
use iqoption_test_task.Binary.{
  BinaryIStream, BinaryOStream, empty_stream, set_pos, read_pod, write_pod,
}
use iqoption_test_task.Binary.Bytes.{from_bytes}
use iqoption_test_task.Protocol.Constants.{
  version, invalid_version, size_of_message_size, size_of_code, handshake, client_code,
  ServiceMessageCode, service_code, protocol_error, user_rating,
}
use iqoption_test_task.Protocol.Client.{
  HandshakeMsg, init_handshake, store_handshake, prefix, UserMsg, code_of, store_body,
}
use iqoption_test_task.Protocol.Service.{unsupported_protocol_version_error, store_error}

-- asio::read of n bytes and asio::write, with the socket that they leave.
pub record Asio : Type 1 where
  pub Socket : Type 0
  pub read : ℕ → Socket → Option (List ℕ × Socket)
  pub write : List ℕ → Socket → Option Socket

abbrev pub or_error {ℓ} : {A : Type ℓ} → Option A → Result A
or_error none = throws transport_error_recoverable
or_error (some a) = ok a

-- GenericMessageLayer::send
unfoldable pub send : (a : Asio) → BinaryOStream → a.Socket → Result a.Socket
send a buffer s = or_error (a.write buffer.storage s)

-- GenericMessageLayer::receive. A size below two wraps around in the subtraction, and no vector is
-- that long.
unfoldable pub receive : (a : Asio) → a.Socket → Result (BinaryIStream × a.Socket)
receive a s = do
  (size_bytes, s₁) ← or_error (a.read size_of_message_size s)
  let ms = from_bytes size_bytes
  let body = or_error (a.read (ms - size_of_message_size) s₁)
  (storage, s₂) ← if ltb ms size_of_message_size then throws length_error else body
  ok (record { cur_pos = 0; storage = storage }, s₂)

-- createAdaptedRatingBuffer, createAdaptedErrorBuffer and, at the client, createAdaptedMessageBuffer.
unfoldable pub create_adapted_buffer : ServiceMessageCode → BinaryOStream
create_adapted_buffer code =
    write_pod size_of_code (service_code code) (write_pod size_of_message_size 0 empty_stream)

abbrev pub create_adapted_rating_buffer : BinaryOStream
create_adapted_rating_buffer = create_adapted_buffer user_rating

abbrev pub create_adapted_error_buffer : BinaryOStream
create_adapted_error_buffer = create_adapted_buffer protocol_error

unfoldable pub create_adapted_message_buffer : BinaryOStream
create_adapted_message_buffer = write_pod size_of_message_size 0 empty_stream

-- The buffer with its size in front: writeMessage of both sides, before it sends.
unfoldable pub sized : BinaryOStream → BinaryOStream
sized buffer = write_pod size_of_message_size (length buffer.storage) (set_pos 0 buffer).1

unfoldable pub write_message :
    (a : Asio) → BinaryOStream → a.Socket → Result (BinaryOStream × a.Socket)
write_message a buffer s = do s' ← send a (sized buffer) s; ok (sized buffer, s')

-- What a client sends for one message.
unfoldable pub client_message : UserMsg → Result BinaryOStream
client_message m = do
  stored ← store_body m (prefix (code_of m) create_adapted_message_buffer)
  ok (sized stored)

-- ClientSideTransport::launch, once the socket is connected.
unfoldable pub launch_client : (a : Asio) → a.Socket → Result a.Socket
launch_client a s = do
  let msg : HandshakeMsg = record { proto_version = version }
  (_, s') ← write_message a (store_handshake msg (prefix handshake create_adapted_message_buffer)) s
  ok s'

-- The `try` block of ServerSideTransport::launch: does the handshake hold, and if it does not, is the
-- version to be reported? A failure of a read leads to no report.
pub data Handshake : Type 0 where
  accepted refused unsupported : Handshake

abbrev pub judged : Result Handshake → Handshake
judged (ok h) = h
judged (throws e) = refused

unfoldable pub check_handshake : BinaryIStream → Handshake
check_handshake buffer = judged (do
  (mc, b₁) ← read_pod size_of_code buffer
  if mc == client_code handshake
      then (do
        (msg, b₂) ← init_handshake b₁
        ok (if msg.proto_version == version then accepted else unsupported))
      else ok refused)

abbrev pub socket_of : {S : Type 0} → S → Result (BinaryOStream × S) → S
socket_of s (ok (b, s')) = s'
socket_of s (throws e) = s

-- ServerSideTransport::launch, once the socket is connected: its outcome, and the socket after it.
unfoldable pub conclude : (a : Asio) → Handshake → a.Socket → Result (Unit {0}) × a.Socket
conclude a accepted s = (ok tt, s)
conclude a refused s = (throws transport_error_recoverable, s)
conclude a unsupported s =
    let error =
      store_error (unsupported_protocol_version_error invalid_version)
        create_adapted_error_buffer in
    (throws transport_error_recoverable, socket_of s (write_message a error s))

abbrev pub concluded :
    (a : Asio) → a.Socket → Result (BinaryIStream × a.Socket) → Result (Unit {0}) × a.Socket
concluded a s (ok (buffer, s')) = conclude a (check_handshake buffer) s'
concluded a s (throws e) = (throws e, s)

unfoldable pub launch_server : (a : Asio) → a.Socket → Result (Unit {0}) × a.Socket
launch_server a s = concluded a s (receive a s)
