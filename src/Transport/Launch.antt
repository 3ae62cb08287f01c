-- ===== src/Transport/Launch.antt =====
-- The handshake (ipc/transport.h): what a client sends first, and what the service makes of it.
use iqoption_test_task.Prelude.{
  ℕ, ◌+◌, ◌^◌, ◌<◌, ◌≡◌, refl, subst, List, [], ◌++◌, length, arith, Option, none, some, Bool-cases,
  Option-cases, inl, inr, append_assoc, append-nil, length-append, ◌==◌, if◌then◌else◌,
}
use iqoption_test_task.Failures.{ok, throws, transport_error_recoverable}
use iqoption_test_task.Protocol.Constants.{invalid_version, error_code}
use iqoption_test_task.Protocol.Service.{
  unsupported_protocol_version_error, get_error_code, stored_field,
}
use iqoption_test_task.Protocol.RoundTrip.{store_error_end}
use iqoption_test_task.Workers.Errors.{error_bytes}
use iqoption_test_task.Transport.{create_adapted_buffer}
use iqoption_test_task.Binary.Bytes.{to_bytes, length-to_bytes}
use iqoption_test_task.Binary.Laws.{ended, facing, write_pod_end, read_pod-facing}
use iqoption_test_task.Protocol.Constants.{version, handshake, client_code}
use iqoption_test_task.Protocol.Client.{init_handshake, store_handshake, prefix}
use iqoption_test_task.Transport.{
  Asio, launch_client, launch_server, check_handshake, conclude, accepted, unsupported,
  write_message, send, create_adapted_message_buffer,
}
use iqoption_test_task.Transport.Framing.{framed, sized-framed, IsStream, receive-framed}

-- A handshake of a version.
abbrev pub handshake_bytes : ℕ → List ℕ
handshake_bytes v = to_bytes 1 (client_code handshake) ++ to_bytes 4 v

-- A client begins with the handshake of its version, with its size in front.
pub launch_client-sends :
    (a : Asio) (s s' : a.Socket)
    → a.write (framed (handshake_bytes version)) s ≡ some s'
    → launch_client a s ≡ ok s'
unfolding launch_client write_message send create_adapted_message_buffer prefix store_handshake
launch_client-sends a s s' sent =
    let front = to_bytes 2 0 in
    let code = to_bytes 1 (client_code handshake) in
    rw
      (
        write_pod_end 2 0 [],
        write_pod_end 1 (client_code handshake) front,
        write_pod_end 4 version (front ++ code),
        sized-framed front (handshake_bytes version) (ended ((front ++ code) ++ to_bytes 4 version))
            (length-to_bytes 2 0) (append_assoc front code (to_bytes 4 version)),
        sent,
      )
      refl

check_handshake_lem :
    (v : ℕ)
    → v < 2 ^ 32
    → check_handshake (facing [] (handshake_bytes v))
      ≡ (if v == version then accepted else unsupported)
unfolding check_handshake init_handshake
check_handshake_lem v small =
    let code = to_bytes 1 (client_code handshake) in
    let field : init_handshake (facing code (to_bytes 4 v))
        ≡ ok (record { proto_version = v }, facing (code ++ to_bytes 4 v) []) =
      subst
        (λ b.
          init_handshake (facing code b)
          ≡ ok (record { proto_version = v }, facing (code ++ to_bytes 4 v) []))
        (append-nil (to_bytes 4 v)) (rw (read_pod-facing 4 v code [] (omega arith)) refl) in
    rw (read_pod-facing 1 (client_code handshake) [] (to_bytes 4 v) (omega arith), field) refl

abbrev pub or_same : {S : Type 0} → Option S → S → S
or_same none s = s
or_same (some s') s = s'

-- What a client of another version is sent.
abbrev pub version_error : List ℕ
version_error = framed (error_bytes (unsupported_protocol_version_error invalid_version))

refuse_lem :
    (a : Asio) (s : a.Socket)
    → conclude a unsupported s
      ≡ (throws transport_error_recoverable, or_same (a.write version_error s) s)
unfolding conclude write_message send create_adapted_buffer
refuse_lem a s =
    let e = unsupported_protocol_version_error invalid_version in
    let front = to_bytes 2 0 in
    let code = to_bytes 1 1 in
    let body = to_bytes 4 (error_code (get_error_code e)) ++ to_bytes 4 (stored_field e) in
    rw
      (
        write_pod_end 2 0 [],
        write_pod_end 1 1 front,
        store_error_end e (front ++ code),
        sized-framed front (error_bytes e) (ended ((front ++ code) ++ body)) (length-to_bytes 2 0)
            (append_assoc front code body),
      )
      (elim (Option-cases (a.write version_error s)) [ inl n ↦ rw n refl | inr (w, y) ↦ rw y refl ])

-- Over a stream, the service accepts a handshake of its own version. A client of another version is
-- sent the version error, in a frame, if the socket takes it, and the launch fails with a recoverable
-- transport error. Either way the handshake is read and nothing more.
pub launch_server-handshake :
    (a : Asio) (incoming : a.Socket → List ℕ)
    → IsStream a incoming
    → (v : ℕ) (rest : List ℕ) (s : a.Socket) → v < 2 ^ 32
    → incoming s ≡ framed (handshake_bytes v) ++ rest
    → (s' : a.Socket) × (incoming s' ≡ rest)
      × (launch_server a s ≡ (
          if v == version
          then (ok tt, s')
          else (throws transport_error_recoverable, or_same (a.write version_error s') s')))
unfolding launch_server conclude
launch_server-handshake a incoming stream v rest s small h =
    let short : length (handshake_bytes v) + 2 < 2 ^ 16 = omega (
      arith,
      length-append (to_bytes 1 (client_code handshake)) (to_bytes 4 v),
      length-to_bytes 1 (client_code handshake),
      length-to_bytes 4 v,
    ) in
    let (s', got, left) = receive-framed a incoming stream (handshake_bytes v) rest s short h in
    (
      s',
      left,
      rw (got, check_handshake_lem v small)
          (elim (Bool-cases (v == version)) [ inl y ↦ rw y refl | inr y ↦ rw y (refuse_lem a s') ]),
    )
