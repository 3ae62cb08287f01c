-- ===== src/Examples/Lives.antt =====
-- The life of the service (service/overseer.cpp) at a concrete input: a client registers a user, who wins,
-- and goes.
use iqoption_test_task.Prelude.{
  ◌≡◌, refl, Bool, true, false, none, [], ◌∷◌, ◌++◌, length, leb, arith,
}
use iqoption_test_task.Failures.{ok, transport_error_recoverable}
use iqoption_test_task.Core.{SystemStopSignals, signal_error, reset}
use iqoption_test_task.Protocol.Constants.{version}
use iqoption_test_task.Protocol.Client.{registered, deal_won}
use iqoption_test_task.Transport.{launch_server}
use iqoption_test_task.Transport.Framing.{framed}
use iqoption_test_task.Transport.Launch.{handshake_bytes}
use iqoption_test_task.Overseer.{
  handle, Connection, Turn, PluggableInfrastructure, new_infrastructure, claim, message_loop, threw,
  run,
}
use iqoption_test_task.Overseer.Buffers.{Delivery, IsDelivered}
use iqoption_test_task.Overseer.Turns.{Arrivals, AllWell, EndsShort, turns_for, wire, deliver_all}
use iqoption_test_task.Overseer.Served.{nothing_yet, run-served}
use iqoption_test_task.Examples.Messages.{Pipe, pipe, pipe_read, incoming_bytes, pipe-IsStream}

-- A client registers a user in one minute, and in the next, after the other buffer was emptied, the user
-- wins.
abbrev first_turn : Turn
first_turn = record { others = none; recalculated = false; current_buffer = false; second = 59 }

abbrev next_turn : Turn
next_turn = record { others = none; recalculated = true; current_buffer = true; second = 3 }

abbrev messages : Arrivals
messages =
    (first_turn, registered (record { user_id = 7; user_name = 65 ∷ [] }))
    ∷ ((next_turn, deal_won (record { user_id = 7; winnings = 500 })) ∷ [])

messages-AllWell : AllWell messages
unfolding AllWell
messages-AllWell = (((omega arith, omega arith), refl), (((omega arith, omega arith), refl), tt))

pipe-EndsShort : EndsShort pipe incoming_bytes
unfolding pipe_read
pipe-EndsShort n s lt = let no : leb n (length s.0) ≡ false = ground arith in rw no refl

abbrev no_signal : SystemStopSignals
no_signal = record { unrecoverable_error = false; bad_flag = false }

abbrev client : Pipe
client = (framed (handshake_bytes version) ++ wire messages, [])

abbrev delivered : Delivery
delivered = deliver_all messages (nothing_yet 0)

abbrev connection : Connection pipe
connection = record { socket = client; turns = turns_for messages next_turn; threads_end = true }

run-served_example :
    (s' : Pipe) × (y z : PluggableInfrastructure pipe) × (launch_server pipe client ≡ (ok tt, s'))
    × (message_loop pipe
          (turns_for messages next_turn)
          no_signal
          (claim pipe false (new_infrastructure pipe 0 s'))
        ≡ (threw transport_error_recoverable, (no_signal, y)))
    × IsDelivered pipe delivered y
    × (handle pipe transport_error_recoverable no_signal y ≡ ok (signal_error false no_signal, z))
    × ((b : Bool) → (z.buffers b).buffer_writer_count ≡ 0)
    × (run pipe (connection ∷ []) no_signal 0 ≡ run pipe [] (reset no_signal) delivered.queue_index)
run-served_example =
    run-served pipe incoming_bytes pipe-IsStream pipe-EndsShort messages next_turn true [] no_signal
      0 client messages-AllWell refl refl refl refl
