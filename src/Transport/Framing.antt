-- ===== src/Transport/Framing.antt =====
-- Messages on the wire (ipc/transport.h): what is sent for a message, and that it is received.
use iqoption_test_task.Prelude.{
  ℕ, ◌+◌, ◌-◌, ◌^◌, ◌≤◌, ◌<◌, ◌≡◌, refl, sym, ap, ◌∙◌, some, List, [], ◌++◌, length, take, drop,
  arith, append_assoc, length-append, take-append_eq, drop-append_eq, le→ltb_false,
}
use iqoption_test_task.Failures.{ok}
use iqoption_test_task.Binary.{BinaryOStream, set_pos}
use iqoption_test_task.Binary.Bytes.{to_bytes, length-to_bytes, from_bytes-to_bytes}
use iqoption_test_task.Binary.Laws.{ended, facing, write_pod_end, write_pod_room}
use iqoption_test_task.Protocol.Constants.{client_code}
use iqoption_test_task.Protocol.Client.{UserMsg, code_of, prefix}
use iqoption_test_task.Protocol.RoundTrip.{MsgFits, body_bytes, store_body_end}
use iqoption_test_task.Transport.{
  Asio, receive, sized, client_message, create_adapted_message_buffer,
}

-- A body with its size, in two bytes, in front.
abbrev pub framed : List ℕ → List ℕ
framed body = to_bytes 2 (length body + 2) ++ body

-- What a client's message looks like behind its size.
abbrev pub coded_bytes : UserMsg → List ℕ
coded_bytes m = to_bytes 1 (client_code (code_of m)) ++ body_bytes m

-- A buffer with two bytes kept free in front gets its size there, and nothing else changes.
pub sized-framed :
    (old body : List ℕ) (o : BinaryOStream)
    → length old ≡ 2
    → o.storage ≡ old ++ body
    → sized o ≡ record { cur_pos = 2; storage = framed body }
unfolding sized set_pos
sized-framed old body o e h =
    let size : length (old ++ body) ≡ length body + 2 = omega (arith, length-append old body) in
    let two : 0 + 2 ≡ 2 = omega arith in
    rw (h, size, le→ltb_false (length body + 2) 0 (omega arith))
      (write_pod_room 2 (length body + 2) [] old body e)

-- A client sends a message as its code and its fields, with the size of it all in front.
pub client_message-framed :
    (m : UserMsg)
    → MsgFits m
    → (o : BinaryOStream) × (client_message m ≡ ok o) × (o.storage ≡ framed (coded_bytes m))
unfolding client_message create_adapted_message_buffer prefix
client_message-framed m fits =
    let code = to_bytes 1 (client_code (code_of m)) in
    let front = to_bytes 2 0 in
    (
      sized (ended (front ++ coded_bytes m)),
      rw
          (
            write_pod_end 2 0 [],
            write_pod_end 1 (client_code (code_of m)) front,
            store_body_end m (front ++ code) fits,
            append_assoc front code (body_bytes m),
          )
          refl,
      ap (λ (o : BinaryOStream). o.storage)
          (sized-framed front (coded_bytes m) (ended (front ++ coded_bytes m)) (length-to_bytes 2 0)
            refl),
    )

-- asio::read on a stream: it gives the next bytes that come in, and keeps those behind them.
pub record IsStream (a : Asio) (incoming : a.Socket → List ℕ) : Type 0 where
  pub read_lem :
      (n : ℕ) (s : a.Socket)
      → n ≤ length (incoming s)
      → (s' : a.Socket) × (a.read n s ≡ some (take n (incoming s), s'))
        × (incoming s' ≡ drop n (incoming s))

module _ (a : Asio) (incoming : a.Socket → List ℕ) (stream : IsStream a incoming) where
  read_exact :
      (n : ℕ) (xs rest : List ℕ) (s : a.Socket)
      → n ≡ length xs
      → incoming s ≡ xs ++ rest
      → (s' : a.Socket) × (a.read n s ≡ some (xs, s')) × (incoming s' ≡ rest)
  read_exact n xs rest s e h =
      let (s', got, left) =
        stream.read_lem n s (omega (arith, ap length h, length-append xs rest)) in
      (
        s',
        got ∙ ap (λ b. some (b, s')) (ap (take n) h ∙ take-append_eq n xs rest e),
        left ∙ ap (drop n) h ∙ drop-append_eq n xs rest e,
      )

  -- Over a stream, a message of less than 2 ^ 16 bytes is received as it was framed, and the bytes
  -- behind it stay for the next one.
  pub receive-framed :
      (body rest : List ℕ) (s : a.Socket)
      → length body + 2 < 2 ^ 16
      → incoming s ≡ framed body ++ rest
      → (s' : a.Socket) × (receive a s ≡ ok (facing [] body, s')) × (incoming s' ≡ rest)
  unfolding receive
  receive-framed body rest s small h =
      let size = to_bytes 2 (length body + 2) in
      let (s₁, head, more) =
        read_exact 2 size (body ++ rest) s (sym (length-to_bytes 2 (length body + 2)))
          (h ∙ append_assoc size body rest) in
      let (s₂, tail, left) = read_exact (length body) body rest s₁ refl more in
      let whole : length body + 2 - 2 ≡ length body = omega arith in
      (
        s₂,
        rw
            (
              head,
              from_bytes-to_bytes 2 (length body + 2) (omega arith),
              le→ltb_false (length body + 2) 2 (omega arith),
              whole,
              tail,
            )
            refl,
        left,
      )
