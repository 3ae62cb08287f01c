-- ===== src/Overseer/Served.antt =====
-- A connection from its handshake to its end (service/overseer.cpp with ipc/transport.h,
-- service/message_builder.h and service/message_dispatcher.cpp): each message of the client is
-- dispatched, and when the client goes the service waits for the next one.
use iqoption_test_task.Prelude.{
  ℕ, ◌≡◌, refl, ap, ◌∙◌, if◌then◌else◌, Bool, true, false, Bool-cases, inl, inr, none, List, [],
  ◌∷◌, ◌++◌, arith,
}
use iqoption_test_task.Failures.{ok, transport_error_recoverable}
use iqoption_test_task.Core.{SystemStopSignals, reset, signal_error}
use iqoption_test_task.Protocol.Constants.{version}
use iqoption_test_task.Transport.{Asio, launch_server}
use iqoption_test_task.Transport.Framing.{framed, IsStream}
use iqoption_test_task.Transport.Launch.{handshake_bytes, launch_server-handshake}
use iqoption_test_task.Core.{empty_buffer}
use iqoption_test_task.Queue.{new_pack}
use iqoption_test_task.Overseer.Buffers.{blank, Delivery, IsDelivered, one_if, same_buffer_self}
use iqoption_test_task.Overseer.{
  recovers, hangs, handled, launched, concluded, Connection, cleaned_up, count_writer, one_less,
  same_buffer, PluggableInfrastructure, new_infrastructure, claim, Turn, threw, message_loop,
  handle, serve, run,
}
use iqoption_test_task.Overseer.Turns.{
  Arrivals, wire, AllWell, turns_for, deliver_all, EndsShort, message_loop-messages,
}

-- The start of a connection.
abbrev pub nothing_yet : ℕ → Delivery
nothing_yet queue_index = record {
  in_use = false;
  queues = new_pack ∷ (new_pack ∷ []);
  queue_index = queue_index;
  contents = λ b. empty_buffer;
}

-- The first buffer is claimed.
start-IsDelivered :
    (a : Asio) (queue_index : ℕ) (s : a.Socket)
    → IsDelivered a (nothing_yet queue_index) (claim a false (new_infrastructure a queue_index s))
start-IsDelivered a queue_index s = record {
  held = refl;
  in_data = refl;
  queues = refl;
  queue_index = refl;
  contents = contents;
  writers = writers;
}
  where
    begins : PluggableInfrastructure a
    begins = claim a false (new_infrastructure a queue_index s)

    contents : (b : Bool) → blank (begins.buffers b) ≡ empty_buffer
    contents true = refl
    contents false = refl

    writers : (b : Bool) → (begins.buffers b).buffer_writer_count ≡ one_if (same_buffer false b)
    writers true = refl
    writers false = refl

-- A buffer that takes its claim back counts no writer, and the other one did not.
nobody_writes :
    (a : Asio) (d : Delivery) (y : PluggableInfrastructure a)
    → IsDelivered a d y
    → (b : Bool) → (count_writer one_less d.in_use y.buffers b).buffer_writer_count ≡ 0
nobody_writes a d y h b = elim (Bool-cases (same_buffer d.in_use b)) [
  | inl e ↦ rw e (ap one_less (h.writers d.in_use ∙ ap one_if (same_buffer_self d.in_use)))
  | inr e ↦ rw e (h.writers b ∙ rw e refl)
]

-- The handler of a recoverable error signals it, takes the claim of the buffer in use back, and changes
-- nothing else.
lost-handled :
    (a : Asio) (g : SystemStopSignals) (d : Delivery) (y : PluggableInfrastructure a)
    → IsDelivered a d y
    → handle a transport_error_recoverable g y
      ≡ ok (signal_error false g, record y { buffers = count_writer one_less d.in_use y.buffers })
unfolding handle
lost-handled a g d y h = rw h.in_data refl

-- What follows the handler of a recoverable error.
goes_on_lem :
    (a : Asio) (ends : Bool) (g : SystemStopSignals) (z : PluggableInfrastructure a)
    → g.unrecoverable_error ≡ false
    → cleaned_up a ends (signal_error false g, z)
      ≡ (if ends then recovers (reset g) z.message_dispatcher.queue_index else hangs)
unfolding cleaned_up signal_error reset
goes_on_lem a true g z fine = rw fine refl
goes_on_lem a false g z fine = refl

run-recovers :
    (a : Asio) (c : Connection a) (connections : List (Connection a)) (g : SystemStopSignals)
    (queue_index : ℕ) (s : a.Socket) (y z : PluggableInfrastructure a)
    → launch_server a c.socket ≡ (ok tt, s)
    → message_loop a c.turns g (claim a false (new_infrastructure a queue_index s))
      ≡ (threw transport_error_recoverable, (g, y))
    → handle a transport_error_recoverable g y ≡ ok (signal_error false g, z)
    → g.unrecoverable_error ≡ false
    → run a (c ∷ connections) g queue_index ≡ (
        if c.threads_end
        then run a connections (reset g) z.message_dispatcher.queue_index
        else hangs)
unfolding run serve
run-recovers a c connections g queue_index s y z launch loop lost fine =
    let served : serve a c g queue_index
        ≡ (if c.threads_end then recovers (reset g) z.message_dispatcher.queue_index else hangs) =
      ap (launched a c g queue_index) launch
      ∙ (ap (concluded a c.threads_end) loop
          ∙ (ap (handled a c.threads_end) lost ∙ goes_on_lem a c.threads_end g z fine)) in
    rw (run, served) (elim (Bool-cases c.threads_end) [ inl e ↦ rw e refl | inr e ↦ rw e refl ])

-- Over a stream whose reads fail once the bytes are used up, let a client send a handshake of the
-- service's version and then messages with values that fit their types, and go, while no other thread
-- signals an error. Minutes may end: any turn may find the other buffer current, and the buffer that is
-- not in use emptied. Then the service accepts the client. Each message is dispatched, in order, into
-- the buffer that is current when it comes, and only the buffer in use counts a writer. The end is a
-- recoverable error, whose handler signals it and leaves no writer counted. If the other threads end
-- when they are told to, the service goes on with the connections that follow, with its signals reset
-- and the round robin of the job queues where it was; if not, it hangs.
pub run-served :
    (a : Asio) (incoming : a.Socket → List ℕ)
    → IsStream a incoming
    → EndsShort a incoming
    → (ms : Arrivals) (last : Turn) (ends : Bool) (connections : List (Connection a))
      (g : SystemStopSignals) (queue_index : ℕ) (s : a.Socket)
    → AllWell ms
    → last.others ≡ none
    → g.unrecoverable_error ≡ false
    → g.bad_flag ≡ false
    → incoming s ≡ framed (handshake_bytes version) ++ wire ms
    → let d = deliver_all ms (nothing_yet queue_index) in
      let c : Connection a = record { socket = s; turns = turns_for ms last; threads_end = ends } in
      (s' : a.Socket) × (y z : PluggableInfrastructure a) × (launch_server a s ≡ (ok tt, s'))
      × (message_loop a (turns_for ms last) g (claim a false (new_infrastructure a queue_index s'))
          ≡ (threw transport_error_recoverable, (g, y)))
      × IsDelivered a d y
      × (handle a transport_error_recoverable g y ≡ ok (signal_error false g, z))
      × ((b : Bool) → (z.buffers b).buffer_writer_count ≡ 0)
      × (run a (c ∷ connections) g queue_index
          ≡ (if ends then run a connections (reset g) d.queue_index else hangs))
run-served a incoming stream short ms last ends connections g queue_index s well alone fine calm h =
    let d = deliver_all ms (nothing_yet queue_index) in
    let (s', left, launched) =
      launch_server-handshake a incoming stream version (wire ms) s (omega arith) h in
    let accepted_s : launch_server a s ≡ (ok tt, s') = launched in
    let x = claim a false (new_infrastructure a queue_index s') in
    let h₀ = start-IsDelivered a queue_index s' in
    let (y, loop, h_y) =
      message_loop-messages a incoming stream short ms last g (nothing_yet queue_index) x well alone
        calm h₀ left in
    let z = record y { buffers = count_writer one_less d.in_use y.buffers } in
    let lost = lost-handled a g d y h_y in
    (
      s',
      y,
      z,
      accepted_s,
      loop,
      h_y,
      lost,
      nobody_writes a d y h_y,
      run-recovers a (record { socket = s; turns = turns_for ms last; threads_end = ends })
            connections g queue_index s' y z accepted_s loop lost fine
          ∙ ap (λ next. if ends then run a connections (reset g) next else hangs) h_y.queue_index,
    )
