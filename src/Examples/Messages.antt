-- ===== src/Examples/Messages.antt =====
-- Messages at concrete inputs: ipc/protocol.h, ipc/transport.h, service/message_builder.h and
-- service/worker_pool.cpp.
use iqoption_test_task.Prelude.{
  ℕ, ◌≡◌, refl, Option, none, some, List, [], ◌∷◌, ◌++◌, length, take, drop, overwrite, resize, leb,
  le→leb, arith, if◌then◌else◌, ◌==◌,
}
use iqoption_test_task.Failures.{ok, throws, transport_error_recoverable}
use iqoption_test_task.Binary.{write_pod, grown, set_pos, BinaryOStream, write_buffer, read_buffer}
use iqoption_test_task.Binary.Bytes.{to_bytes}
use iqoption_test_task.Binary.Laws.{ended, facing, read_buffer-write_buffer}
use iqoption_test_task.Protocol.Constants.{version}
use iqoption_test_task.Protocol.Client.{
  prefix, store_body, store_deal_won, UserMsg, deal_won, code_of,
}
use iqoption_test_task.Protocol.Service.{
  user_unrecognized_error, get_error_code, store_error, init_error,
}
use iqoption_test_task.Protocol.RoundTrip.{received, init_error-store_error}
use iqoption_test_task.Protocol.Rating.{RatingPackMessage, init_rating, rating_entry_count}
use iqoption_test_task.Protocol.RatingTrip.{PackFits, pack_bytes, init_rating-pack_bytes}
use iqoption_test_task.Transport.{
  create_adapted_message_buffer, sized, Asio, receive, client_message, launch_client, launch_server,
}
use iqoption_test_task.Transport.Framing.{framed, coded_bytes, IsStream, receive-framed}
use iqoption_test_task.Transport.Launch.{
  handshake_bytes, or_same, version_error, launch_client-sends, launch_server-handshake,
}
use iqoption_test_task.Builder.{new_battery, build}
use iqoption_test_task.Builder.Delivery.{with_message, build-client_message}

-- A socket: the bytes that come in, and those that went out.
abbrev pub Pipe : Type 0
Pipe = List ℕ × List ℕ

unfoldable pub pipe_read : ℕ → Pipe → Option (List ℕ × Pipe)
pipe_read n s = if leb n (length s.0) then some (take n s.0, (drop n s.0, s.1)) else none

abbrev pub pipe : Asio
pipe = record { Socket = Pipe; read = pipe_read; write = λ bytes s. some (s.0, s.1 ++ bytes) }

abbrev pub incoming_bytes : Pipe → List ℕ
incoming_bytes s = s.0

pub pipe-IsStream : IsStream pipe incoming_bytes
unfolding pipe_read
pipe-IsStream = record {
  read_lem = λ n s h. ((drop n s.0, s.1), rw (le→leb n (length s.0) h) refl, refl);
}

abbrev deal : UserMsg
deal = deal_won (record { user_id = 7; winnings = 500 })

read_buffer-write_buffer_example :
    (o : BinaryOStream) × (write_buffer (65 ∷ 66 ∷ []) (ended (1 ∷ [])) ≡ ok o)
    × (read_buffer (record { cur_pos = 1; storage = o.storage })
        ≡ ok (65 ∷ 66 ∷ [], record { cur_pos = o.cur_pos; storage = o.storage }))
read_buffer-write_buffer_example = read_buffer-write_buffer (65 ∷ 66 ∷ []) (1 ∷ []) (omega arith)

init_error-store_error_example :
    init_error (get_error_code (user_unrecognized_error 7)) (record {
      cur_pos = 5;
      storage = (store_error (user_unrecognized_error 7) (ended (1 ∷ []))).storage;
    })
    ≡ ok (
      received (user_unrecognized_error 7),
      record {
        cur_pos = (store_error (user_unrecognized_error 7) (ended (1 ∷ []))).cur_pos;
        storage = (store_error (user_unrecognized_error 7) (ended (1 ∷ []))).storage;
      },
    )
init_error-store_error_example =
    init_error-store_error (user_unrecognized_error 7) (1 ∷ []) (omega arith)

abbrev first_place : RatingPackMessage
first_place = record {
  user_id = 7;
  rating_length = 1;
  rating_pos = 0;
  ratings = record { id = 7; name = 65 ∷ []; winnings = 500 } ∷ [];
}

first_place_fits : PackFits first_place
unfolding rating_entry_count
first_place_fits = record {
  id_fits = omega arith;
  size_fits = omega arith;
  pos_fits = omega arith;
  entries_fit = ((omega arith, omega arith, omega arith), tt);
  counted = refl;
}

init_rating-pack_bytes_example :
    init_rating (facing [] (pack_bytes first_place ++ []))
    ≡ ok (first_place, facing ([] ++ pack_bytes first_place) [])
init_rating-pack_bytes_example = init_rating-pack_bytes first_place [] [] first_place_fits

receive-framed_example :
    (s' : Pipe) × (receive pipe (framed (1 ∷ 2 ∷ []) ++ (9 ∷ []), [])
      ≡ ok (facing [] (1 ∷ 2 ∷ []), s'))
    × (s'.0 ≡ 9 ∷ [])
receive-framed_example =
    receive-framed pipe incoming_bytes pipe-IsStream (1 ∷ 2 ∷ []) (9 ∷ [])
      (framed (1 ∷ 2 ∷ []) ++ (9 ∷ []), []) (omega arith) refl

abbrev deal_stream : BinaryOStream
deal_stream = record { cur_pos = 2; storage = framed (coded_bytes deal) }

deal_sent : client_message deal ≡ ok deal_stream
unfolding client_message create_adapted_message_buffer prefix store_body store_deal_won write_pod
    grown overwrite resize to_bytes sized set_pos
deal_sent = refl

build-client_message_example :
    (s' : Pipe) × (build pipe new_battery (framed (coded_bytes deal) ++ (9 ∷ []), [])
      ≡ ok (code_of deal, with_message deal new_battery, s'))
    × (s'.0 ≡ 9 ∷ [])
build-client_message_example =
    build-client_message pipe incoming_bytes pipe-IsStream deal deal_stream (9 ∷ []) new_battery
      (framed (coded_bytes deal) ++ (9 ∷ []), []) (omega arith, omega arith) deal_sent refl

launch_client-sends_example :
    launch_client pipe ([], []) ≡ ok ([], framed (handshake_bytes version))
launch_client-sends_example =
    launch_client-sends pipe ([], []) ([], framed (handshake_bytes version)) refl

launch_server-handshake_example :
    (s' : Pipe) × (s'.0 ≡ [])
    × (launch_server pipe (framed (handshake_bytes 2) ++ [], []) ≡ (
        if 2 == version
        then (ok tt, s')
        else (throws transport_error_recoverable, or_same (pipe.write version_error s') s')))
launch_server-handshake_example =
    launch_server-handshake pipe incoming_bytes pipe-IsStream 2 []
      (framed (handshake_bytes 2) ++ [], []) (omega arith) refl
