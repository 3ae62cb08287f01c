-- ===== src/Overseer.antt =====
-- service/overseer.cpp and service/main.cpp: the life of the service, from connection to connection. What
-- other threads do shows in what each turn of the message loop reads: a signalled error, whether the
-- buffer that is not in use was emptied, the current buffer, and the clock; and at the end of a connection
-- in whether they end. The first buffer is the one for `false`.
pub mod Buffers
pub mod Turns
pub mod Served
use iqoption_test_task.Prelude.{
  ℕ, ◌-◌, ◌^◌, Bool, true, false, not, Option, none, some, List, [], ◌∷◌, replicate, ltb,
  if◌then◌else◌, add32, sub32,
}
use iqoption_test_task.Failures.{
  Failure, transport_error_recoverable, Result, ok, throws, assertion_failed, null_dereference,
  ◌>>=◌,
}
use iqoption_test_task.Core.{
  IncomingDataBuffer, empty_buffer, SystemStopSignals, signal_error, reset,
}
use iqoption_test_task.Protocol.Constants.{
  handshake, ClientMessageCode, user_registered, user_renamed, user_deal_won, user_connected,
  user_disconnected,
}
use iqoption_test_task.Protocol.Client.{
  UserMsg, registered, renamed, connected, disconnected, deal_won,
}
use iqoption_test_task.Queue.{QueuePack, new_pack}
use iqoption_test_task.Dispatcher.{MessageDispatcher, set_buffer, dispatch}
use iqoption_test_task.Transport.{Asio, launch_server}
use iqoption_test_task.Builder.{MessageBattery, new_battery, build}

-- workerPoolConcurrency
abbrev pub worker_pool_concurrency : ℕ
worker_pool_concurrency = 2

-- What of PluggableInfrastructure the message loop changes, and `inData`. `held` is the buffer to which
-- the dispatcher refers.
pub record PluggableInfrastructure (a : Asio) : Type 0 where
  pub socket : a.Socket
  pub message_battery : MessageBattery
  pub message_dispatcher : MessageDispatcher
  pub buffers : Bool → IncomingDataBuffer
  pub held : Bool
  pub in_data : Option Bool

-- The queue at which the round robin goes on is kept by the thread from connection to connection.
abbrev pub new_infrastructure : (a : Asio) → ℕ → a.Socket → PluggableInfrastructure a
new_infrastructure a queue_index socket = record {
  socket = socket;
  message_battery = new_battery;
  message_dispatcher = record {
    queues = replicate worker_pool_concurrency new_pack;
    queue_index = queue_index;
    buffer = empty_buffer;
  };
  buffers = λ b. empty_buffer;
  held = false;
  in_data = none;
}

abbrev pub same_buffer : Bool → Bool → Bool
same_buffer true b = b
same_buffer false b = not b

abbrev pub put_buffer :
    Bool → IncomingDataBuffer → (Bool → IncomingDataBuffer) → Bool → IncomingDataBuffer
put_buffer b buffer buffers c = if same_buffer b c then buffer else buffers c

-- bufferWriterCount.fetch_add(1) and fetch_sub(1)
abbrev pub count_writer : (ℕ → ℕ) → Bool → (Bool → IncomingDataBuffer) → Bool → IncomingDataBuffer
count_writer change b buffers =
    let buffer = buffers b in
    put_buffer b (record buffer { buffer_writer_count = change buffer.buffer_writer_count }) buffers

abbrev pub one_more : ℕ → ℕ
one_more n = add32 n 1

abbrev pub one_less : ℕ → ℕ
one_less n = sub32 n 1

-- The message of the battery that the switch takes, for a code.
unfoldable pub message_of : ClientMessageCode → MessageBattery → Result UserMsg
message_of user_registered b = ok (registered b.user_registered_msg)
message_of user_renamed b = ok (renamed b.user_renamed_msg)
message_of user_connected b = ok (connected b.user_connected_msg)
message_of user_disconnected b = ok (disconnected b.user_disconnected_msg)
message_of user_deal_won b = ok (deal_won b.user_deal_won_msg)
message_of handshake b = throws assertion_failed

-- What a turn reads: an error that another thread signalled before it (unrecoverable or not); whether
-- another thread recalculated from the buffer that is not in use, and emptied it, while a message was
-- awaited; the current buffer; and the second.
pub record Turn : Type 0 where
  pub others : Option Bool
  pub recalculated : Bool
  pub current_buffer : Bool
  pub second : ℕ

abbrev pub signalled : Option Bool → SystemStopSignals → SystemStopSignals
signalled none g = g
signalled (some unrecoverable) g = signal_error unrecoverable g

-- How the message loop ends, or that it goes on after the turns that are given.
pub data Ending : Type 0 where
  goes_on stopped : Ending
  threw : Failure → Ending

-- Which of the handlers takes an exception.
abbrev pub is_unrecoverable : Failure → Bool
is_unrecoverable transport_error_recoverable = false
is_unrecoverable _ = true

-- What becomes of the service after a connection; it hangs if the announcer or a worker does not end.
pub data Outcome : Type 0 where
  still_serving terminated crashed hangs : Outcome
  recovers : SystemStopSignals → ℕ → Outcome

-- A buffer after a recalculation: its writers are counted as before.
abbrev pub emptied : IncomingDataBuffer → IncomingDataBuffer
emptied b = record empty_buffer { buffer_writer_count = b.buffer_writer_count }

module _ (a : Asio) where
  -- The claim of a buffer.
  abbrev pub claim : Bool → PluggableInfrastructure a → PluggableInfrastructure a
  claim b x = record x { buffers = count_writer one_more b x.buffers; in_data = some b }

  -- The current buffer, if it is another one, is claimed in place of the one before, and set at the
  -- dispatcher.
  unfoldable pub switch_buffer : Bool → PluggableInfrastructure a → PluggableInfrastructure a
  switch_buffer new_buffer x = elim x.in_data [
    | none ↦ x
    | some b ↦
        if same_buffer b new_buffer
        then x
        else record (claim new_buffer (record x { buffers = count_writer one_less b x.buffers })) {
          held = new_buffer;
        }
  ]

  -- md.dispatch, on the buffer that is held.
  unfoldable pub dispatch_held : ℕ → UserMsg → PluggableInfrastructure a → PluggableInfrastructure a
  dispatch_held second m x =
      let d = dispatch second m (set_buffer (x.buffers x.held) x.message_dispatcher) in
      record x { message_dispatcher = d; buffers = put_buffer x.held d.buffer x.buffers }

  -- What another thread did to the buffer that is not in use.
  unfoldable pub recalculate_elsewhere :
      Bool → PluggableInfrastructure a → PluggableInfrastructure a
  recalculate_elsewhere recalculated x =
      let other = not x.held in
      if recalculated
      then record x { buffers = put_buffer other (emptied (x.buffers other)) x.buffers }
      else x

  -- The body of the message loop.
  unfoldable pub take_turn : Turn → PluggableInfrastructure a → Result (PluggableInfrastructure a)
  take_turn t x = do
    (c, battery, socket) ← build a x.message_battery x.socket
    let y =
        recalculate_elsewhere t.recalculated
          (record x { message_battery = battery; socket = socket })
    let z = switch_buffer t.current_buffer y
    m ← message_of c battery
    ok (dispatch_held t.second m z)

  unfoldable pub message_loop :
      List Turn
      → SystemStopSignals
      → PluggableInfrastructure a
      → Ending × (SystemStopSignals × PluggableInfrastructure a)
  message_loop [] g x = (goes_on, (g, x))
  message_loop (t ∷ ts) g x =
      let g' = signalled t.others g in
      let next =
        elim (take_turn t x) as (λ _. Ending × (SystemStopSignals × PluggableInfrastructure a)) [
          | throws e ↦ (threw e, (g', x))
          | ok y ↦ message_loop ts g' y
        ] in
      if g'.bad_flag then (stopped, (g', x)) else next

  -- The handlers take back the claim of `inData`, which is null until the transport is launched. A
  -- failed assertion reaches no handler.
  unfoldable pub handle :
      Failure
      → SystemStopSignals
      → PluggableInfrastructure a
      → Result (SystemStopSignals × PluggableInfrastructure a)
  handle assertion_failed g x = throws assertion_failed
  handle e g x = elim x.in_data [
    | none ↦ throws null_dereference
    | some b ↦ ok (
      signal_error (is_unrecoverable e) g,
      record x { buffers = count_writer one_less b x.buffers },
    )
  ]

  -- Behind the handlers: the infrastructure is destroyed, which waits for the other threads.
  unfoldable pub cleaned_up : Bool → SystemStopSignals × PluggableInfrastructure a → Outcome
  cleaned_up threads_end (g, x) =
      if not threads_end
      then hangs
      else if g.unrecoverable_error
      then terminated
      else recovers (reset g) x.message_dispatcher.queue_index

  abbrev pub handled : Bool → Result (SystemStopSignals × PluggableInfrastructure a) → Outcome
  handled threads_end (ok p) = cleaned_up threads_end p
  handled threads_end (throws e) = crashed

  abbrev pub concluded : Bool → Ending × (SystemStopSignals × PluggableInfrastructure a) → Outcome
  concluded threads_end (goes_on, p) = still_serving
  concluded threads_end (stopped, p) = cleaned_up threads_end p
  concluded threads_end (threw e, (g, x)) = handled threads_end (handle e g x)

  -- A connection: the socket, the turns, and whether the other threads end when they are told to.
  pub record Connection : Type 0 where
    pub socket : a.Socket
    pub turns : List Turn
    pub threads_end : Bool

  abbrev pub launched : Connection → SystemStopSignals → ℕ → Result (Unit {0}) × a.Socket → Outcome
  launched c g queue_index (throws e, socket) =
      handled c.threads_end (handle e g (new_infrastructure a queue_index socket))
  launched c g queue_index (ok _, socket) =
      concluded c.threads_end
        (message_loop c.turns g (claim false (new_infrastructure a queue_index socket)))

  -- One round of the outer loop of `run`.
  unfoldable pub serve : Connection → SystemStopSignals → ℕ → Outcome
  serve c g queue_index = launched c g queue_index (launch_server a c.socket)

  -- Overseer::run, over the connections that come.
  unfoldable pub run : List Connection → SystemStopSignals → ℕ → Outcome
  run [] g queue_index = recovers g queue_index
  run (c ∷ connections) g queue_index = elim (serve c g queue_index) [
    | recovers g' next ↦ run connections g' next
    | still_serving ↦ still_serving
    | terminated ↦ terminated
    | crashed ↦ crashed
    | hangs ↦ hangs
  ]

-- The port of main.cpp: a signed number that was read, and the range of `unsigned short`.
unfoldable pub port_number : ℕ → Option ℕ
port_number n = if ltb (2 ^ 16 - 1) n then none else some n
