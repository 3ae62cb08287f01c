-- ===== src/Builder/Delivery.antt =====
-- From a client's message to the battery of the service: ipc/protocol.h, ipc/transport.h and
-- service/message_builder.h together.
use iqoption_test_task.Prelude.{
  ℕ, ◌+◌, ◌^◌, ◌≤◌, ◌<◌, ◌≡◌, refl, sym, ap, subst, ◌∙◌, some, List, [], ◌++◌, length, arith,
  length-append, append-nil,
}
use iqoption_test_task.Failures.{ok}
use iqoption_test_task.Binary.{BinaryOStream}
use iqoption_test_task.Binary.Bytes.{to_bytes, length-to_bytes}
use iqoption_test_task.Binary.Laws.{facing, read_pod-facing, buffer_bytes}
use iqoption_test_task.Protocol.Constants.{client_code}
use iqoption_test_task.Protocol.Client.{
  GenericIdNameMsg, UserMsg, registered, renamed, connected, disconnected, deal_won, code_of,
}
use iqoption_test_task.Protocol.RoundTrip.{
  MsgFits, IdNameFits, body_bytes, id_name_bytes, init_id-facing, init_id_name-facing,
  init_deal_won-facing,
}
use iqoption_test_task.Transport.{Asio, client_message}
use iqoption_test_task.Transport.Framing.{
  framed, coded_bytes, IsStream, receive-framed, client_message-framed,
}
use iqoption_test_task.Builder.{MessageBattery, build, init_message, switch_code}

-- The battery with one message.
abbrev pub with_message : UserMsg → MessageBattery → MessageBattery
with_message (registered m) b = record b { user_registered_msg = m }
with_message (renamed m) b = record b { user_renamed_msg = m }
with_message (connected m) b = record b { user_connected_msg = m }
with_message (disconnected m) b = record b { user_disconnected_msg = m }
with_message (deal_won m) b = record b { user_deal_won_msg = m }

coded_bytes-small : (m : UserMsg) → MsgFits m → length (coded_bytes m) + 2 < 2 ^ 16
coded_bytes-small m fits = omega (
  arith,
  length-append (to_bytes 1 (client_code (code_of m))) (body_bytes m),
  length-to_bytes 1 (client_code (code_of m)),
  body_small m fits,
)
  where
    name_small : (n : GenericIdNameMsg) → IdNameFits n → length (id_name_bytes n) ≤ 260
    name_small n h = omega (
      arith,
      h.1,
      length-append (to_bytes 4 n.user_id) (buffer_bytes n.user_name),
      length-to_bytes 4 n.user_id,
      length-append (to_bytes 1 (length n.user_name)) n.user_name,
      length-to_bytes 1 (length n.user_name),
    )

    body_small : (n : UserMsg) → MsgFits n → length (body_bytes n) ≤ 260
    body_small (registered n) h = name_small n h
    body_small (renamed n) h = name_small n h
    body_small (connected n) h = omega (arith, length-to_bytes 4 n.user_id)
    body_small (disconnected n) h = omega (arith, length-to_bytes 4 n.user_id)
    body_small (deal_won n) h = omega (
      arith,
      length-append (to_bytes 4 n.user_id) (to_bytes 8 n.winnings),
      length-to_bytes 4 n.user_id,
      length-to_bytes 8 n.winnings,
    )

at_code : (m : UserMsg) → switch_code (client_code (code_of m)) ≡ some (code_of m)
unfolding switch_code
at_code (registered m) = refl
at_code (renamed m) = refl
at_code (connected m) = refl
at_code (disconnected m) = refl
at_code (deal_won m) = refl

code_small : (m : UserMsg) → client_code (code_of m) < 256 ^ 1
code_small (registered m) = omega arith
code_small (renamed m) = omega arith
code_small (connected m) = omega arith
code_small (disconnected m) = omega arith
code_small (deal_won m) = omega arith

init_at_end :
    (m : UserMsg) (pre : List ℕ) (b : MessageBattery)
    → MsgFits m
    → init_message (client_code (code_of m)) (some (code_of m)) (facing pre (body_bytes m ++ [])) b
      ≡ ok (code_of m, with_message m b)
unfolding init_message
init_at_end (registered m) pre b h = rw (init_id_name-facing m pre [] h) refl
init_at_end (renamed m) pre b h = rw (init_id_name-facing m pre [] h) refl
init_at_end (connected m) pre b h = rw (init_id-facing m pre [] h) refl
init_at_end (disconnected m) pre b h = rw (init_id-facing m pre [] h) refl
init_at_end (deal_won m) pre b h = rw (init_deal_won-facing m pre [] h) refl

-- Over a stream, what a client sends for a message (of any of the five kinds that follow the handshake,
-- with values that fit their types and a name of at most 255 bytes) is built by the service into that
-- very message, the other messages of the battery stay, and the bytes behind it stay for the next one.
pub build-client_message :
    (a : Asio) (incoming : a.Socket → List ℕ)
    → IsStream a incoming
    → (m : UserMsg) (o : BinaryOStream) (rest : List ℕ) (b : MessageBattery) (s : a.Socket)
    → MsgFits m
    → client_message m ≡ ok o
    → incoming s ≡ o.storage ++ rest
    → (s' : a.Socket) × (build a b s ≡ ok (code_of m, with_message m b, s')) × (incoming s' ≡ rest)
unfolding build
build-client_message a incoming stream m o rest b s fits sent h =
    let (o', sent', bytes) = client_message-framed m fits in
    let same : o ≡ o' = ok_same (sym sent ∙ sent') in
    let wire : incoming s ≡ framed (coded_bytes m) ++ rest =
      h ∙ ap (λ (p : BinaryOStream). p.storage ++ rest) same ∙ ap (λ x. x ++ rest) bytes in
    let (s', got, left) =
      receive-framed a incoming stream (coded_bytes m) rest s (coded_bytes-small m fits) wire in
    let code = to_bytes 1 (client_code (code_of m)) in
    (
      s',
      rw
          (
            got,
            read_pod-facing 1 (client_code (code_of m)) [] (body_bytes m) (code_small m),
            at_code m,
            subst
                (λ x.
                  init_message (client_code (code_of m)) (some (code_of m)) (facing code x) b
                  ≡ ok (code_of m, with_message m b))
                (append-nil (body_bytes m)) (init_at_end m code b fits),
          )
          refl,
      left,
    )
  where
    ok_same : {x y : BinaryOStream} → ok x ≡ ok y → x ≡ y
    ok_same e = cc
