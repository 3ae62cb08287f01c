-- ===== src/Workers/Errors.antt =====
-- A worker sends an error and keeps his buffer for the next (service/worker_pool.cpp).
use iqoption_test_task.Prelude.{
  ℕ, ◌+◌, ◌≡◌, refl, sym, List, ◌++◌, length, arith, length-append, append_assoc, some,
}
use iqoption_test_task.Failures.{ok}
use iqoption_test_task.Binary.Bytes.{to_bytes, length-to_bytes}
use iqoption_test_task.Binary.Laws.{ended}
use iqoption_test_task.Protocol.Constants.{error_code}
use iqoption_test_task.Protocol.Service.{GenericProtocolError, get_error_code, stored_field}
use iqoption_test_task.Protocol.RoundTrip.{store_error_end}
use iqoption_test_task.Transport.{Asio, write_message, send, sized}
use iqoption_test_task.Transport.Framing.{framed, sized-framed}
use iqoption_test_task.Workers.{process_error}
use iqoption_test_task.Workers.Overwrite.{rewind_end}

-- The body of an error message: the message code, the error code and its field.
abbrev pub error_bytes : GenericProtocolError → List ℕ
error_bytes e =
    to_bytes 1 1 ++ (to_bytes 4 (error_code (get_error_code e)) ++ to_bytes 4 (stored_field e))

-- A worker whose error buffer holds room for a size and the message code sends an error as one message
-- with its size in front, if the socket takes it, and his buffer holds as much as before.
pub process_error-sends :
    (a : Asio) (e : GenericProtocolError) (size : List ℕ) (s s' : a.Socket)
    → length size ≡ 2
    → a.write (framed (error_bytes e)) s ≡ some s'
    → (size' : List ℕ) × (length size' ≡ 2)
      × (process_error a e 3 (ended (size ++ to_bytes 1 1)) s
          ≡ ok (ended (size' ++ to_bytes 1 1), s'))
unfolding process_error write_message send
process_error-sends a e size s s' two sent =
    let code = to_bytes 1 1 in
    let body = to_bytes 4 (error_code (get_error_code e)) ++ to_bytes 4 (stored_field e) in
    let n = to_bytes 2 (length (error_bytes e) + 2) in
    let whole : sized (ended ((size ++ code) ++ body))
        ≡ record { cur_pos = 2; storage = framed (error_bytes e) } =
      sized-framed size (error_bytes e) (ended ((size ++ code) ++ body)) two
        (append_assoc size code body) in
    let stand : 3 ≡ length (n ++ code) = omega (
      arith,
      length-append n code,
      length-to_bytes 2 (length (error_bytes e) + 2),
      length-to_bytes 1 1,
    ) in
    (
      n,
      length-to_bytes 2 (length (error_bytes e) + 2),
      rw
          (
            store_error_end e (size ++ code),
            whole,
            sent,
            sym (append_assoc n code body),
            rewind_end (n ++ code) body 2 3 stand,
          )
          refl,
    )
