-- ===== src/Overseer/Turns.antt =====
-- The message loop over what a client sends (service/overseer.cpp with ipc/transport.h,
-- service/message_builder.h and service/message_dispatcher.cpp): each message is dispatched, and the loop
-- ends when the client is gone.
use iqoption_test_task.Prelude.{
  ℕ, ◌<◌, ◌≡◌, refl, sym, ap, subst, ◌∙◌, Bool, true, false, not, if◌then◌else◌, none, List, [],
  ◌∷◌, ◌++◌, length, arith,
}
use iqoption_test_task.Failures.{Result, ok, throws, transport_error_recoverable}
use iqoption_test_task.Core.{SystemStopSignals}
use iqoption_test_task.Protocol.Client.{
  UserMsg, registered, renamed, connected, disconnected, deal_won, code_of,
}
use iqoption_test_task.Protocol.RoundTrip.{MsgFits}
use iqoption_test_task.Transport.{Asio, receive}
use iqoption_test_task.Transport.Framing.{framed, coded_bytes, IsStream, client_message-framed}
use iqoption_test_task.Builder.{MessageBattery, build}
use iqoption_test_task.Builder.Delivery.{with_message, build-client_message}
use iqoption_test_task.Core.{empty_buffer}
use iqoption_test_task.Overseer.Buffers.{
  Delivery, deliver, IsDelivered, recalculate_elsewhere-IsDelivered, switch_buffer-IsDelivered,
  dispatch_held-IsDelivered,
}
use iqoption_test_task.Overseer.{
  Ending, stopped, signalled, recalculate_elsewhere, put_buffer, PluggableInfrastructure,
  switch_buffer, message_of, dispatch_held, Turn, take_turn, threw, message_loop,
}

-- What comes in a connection: the turns, each with the message that it takes.
abbrev pub Arrivals : Type 0
Arrivals = List (Turn × UserMsg)

-- The bytes of the messages.
unfoldable pub wire : Arrivals → List ℕ
wire [] = []
wire ((t, m) ∷ ms) = framed (coded_bytes m) ++ wire ms

-- The values fit their types, and no other thread signals an error.
unfoldable pub AllWell : Arrivals → Type 0
AllWell [] = Unit
AllWell ((t, m) ∷ ms) = (MsgFits m × (t.others ≡ none)) × AllWell ms

-- A turn for each message, and the one in which the read fails.
unfoldable pub turns_for : Arrivals → Turn → List Turn
turns_for [] last = last ∷ []
turns_for ((t, m) ∷ ms) last = t ∷ turns_for ms last

unfoldable pub deliver_all : Arrivals → Delivery → Delivery
deliver_all [] d = d
deliver_all ((t, m) ∷ ms) d = deliver_all ms (deliver t m d)

-- A read of more than there is fails.
abbrev pub EndsShort : (a : Asio) → (a.Socket → List ℕ) → Type 0
EndsShort a incoming = (n : ℕ) (s : a.Socket) → length (incoming s) < n → a.read n s ≡ none

message_of_lem :
    (m : UserMsg) (b : MessageBattery) → message_of (code_of m) (with_message m b) ≡ ok m
unfolding message_of
message_of_lem (registered m) b = refl
message_of_lem (renamed m) b = refl
message_of_lem (connected m) b = refl
message_of_lem (disconnected m) b = refl
message_of_lem (deal_won m) b = refl

-- The battery and the socket are no part of what is delivered.
replaced-IsDelivered :
    (a : Asio) (d : Delivery) (x : PluggableInfrastructure a) (b : MessageBattery) (s : a.Socket)
    → IsDelivered a d x
    → IsDelivered a d (record x { message_battery = b; socket = s })
replaced-IsDelivered a d x b s h = record {
  held = h.held;
  in_data = h.in_data;
  queues = h.queues;
  queue_index = h.queue_index;
  contents = h.contents;
  writers = h.writers;
}

switch_socket :
    (a : Asio) (n : Bool) (x : PluggableInfrastructure a) → (switch_buffer a n x).socket ≡ x.socket
unfolding switch_buffer
switch_socket a n x = ground arith

dispatch_socket :
    (a : Asio) (second : ℕ) (m : UserMsg) (x : PluggableInfrastructure a)
    → (dispatch_held a second m x).socket ≡ x.socket
unfolding dispatch_held
dispatch_socket a second m x = refl

elsewhere_socket :
    (a : Asio) (b : Bool) (x : PluggableInfrastructure a)
    → (recalculate_elsewhere a b x).socket ≡ x.socket
unfolding recalculate_elsewhere
elsewhere_socket a true x = refl
elsewhere_socket a false x = refl

take_turn-message :
    (a : Asio) (incoming : a.Socket → List ℕ)
    → IsStream a incoming
    → (t : Turn) (m : UserMsg) (rest : List ℕ) (d : Delivery) (x : PluggableInfrastructure a)
    → MsgFits m
    → IsDelivered a d x
    → incoming x.socket ≡ framed (coded_bytes m) ++ rest
    → (y : PluggableInfrastructure a) × (take_turn a t x ≡ ok y)
      × IsDelivered a (deliver t m d) y
      × (incoming y.socket ≡ rest)
unfolding take_turn
take_turn-message a incoming stream t m rest d x fits h wired =
    let (o, sent, bytes) = client_message-framed m fits in
    let (s, built, left) =
      build-client_message a incoming stream m o rest x.message_battery x.socket fits sent
        (wired ∙ ap (λ b. b ++ rest) (sym bytes)) in
    let battery = with_message m x.message_battery in
    let x₁ : PluggableInfrastructure a = record x { message_battery = battery; socket = s } in
    let x₂ = recalculate_elsewhere a t.recalculated x₁ in
    let x₃ = switch_buffer a t.current_buffer x₂ in
    let d₂ : Delivery = record d {
      contents =
          if t.recalculated then put_buffer (not d.in_use) empty_buffer d.contents else d.contents;
    } in
    let h₂ : IsDelivered a d₂ x₂ =
      recalculate_elsewhere-IsDelivered a t.recalculated d x₁
        (replaced-IsDelivered a d x battery s h) in
    let h₃ = switch_buffer-IsDelivered a t.current_buffer d₂ x₂ h₂ in
    let h₄ =
      dispatch_held-IsDelivered a t.second m (record d₂ { in_use = t.current_buffer }) x₃ h₃ in
    (
      dispatch_held a t.second m x₃,
      rw (built, message_of_lem m x.message_battery) refl,
      h₄,
      ap incoming (
            dispatch_socket a t.second m x₃
            ∙ (switch_socket a t.current_buffer x₂ ∙ elsewhere_socket a t.recalculated x₁))
          ∙ left,
    )

take_turn-gone :
    (a : Asio) (incoming : a.Socket → List ℕ)
    → EndsShort a incoming
    → (t : Turn) (x : PluggableInfrastructure a) → incoming x.socket ≡ []
    → take_turn a t x ≡ throws transport_error_recoverable
unfolding take_turn build receive
take_turn-gone a incoming short t x h =
    let none_left : length (incoming x.socket) < 2 =
      subst (λ b. length b < 2) (sym h) (omega arith) in
    rw (short 2 x.socket none_left) refl

not_stopped :
    {A : Type 0} (g : SystemStopSignals) (x y : A)
    → g.bad_flag ≡ false
    → (if g.bad_flag then x else y) ≡ y
not_stopped g x y e = rw e refl

abbrev after_turn :
    (a : Asio)
    → List Turn
    → SystemStopSignals
    → PluggableInfrastructure a
    → Result (PluggableInfrastructure a)
    → Ending × (SystemStopSignals × PluggableInfrastructure a)
after_turn a ts g x (throws e) = (threw e, (g, x))
after_turn a ts g x (ok y) = message_loop a ts g y

-- A turn before which no error is signalled.
loop_step :
    (a : Asio) (t : Turn) (ts : List Turn) (g : SystemStopSignals) (x : PluggableInfrastructure a)
    → t.others ≡ none
    → g.bad_flag ≡ false
    → (r : Result (PluggableInfrastructure a)) → take_turn a t x ≡ r
    → message_loop a (t ∷ ts) g x ≡ after_turn a ts g x r
unfolding message_loop
loop_step a t ts g x alone calm r turn =
    ap
      (λ (h : SystemStopSignals).
        if h.bad_flag then (stopped, (h, x)) else after_turn a ts h x (take_turn a t x))
      (ap (λ o. signalled o g) alone)
    ∙ (not_stopped g _ _ calm ∙ ap (after_turn a ts g x) turn)

-- The turns of the messages dispatch them all, and the next one ends the loop.
pub message_loop-messages :
    (a : Asio) (incoming : a.Socket → List ℕ)
    → IsStream a incoming
    → EndsShort a incoming
    → (ms : Arrivals) (last : Turn) (g : SystemStopSignals) (d : Delivery)
      (x : PluggableInfrastructure a)
    → AllWell ms
    → last.others ≡ none
    → g.bad_flag ≡ false
    → IsDelivered a d x
    → incoming x.socket ≡ wire ms
    → (y : PluggableInfrastructure a) × (message_loop a (turns_for ms last) g x
        ≡ (threw transport_error_recoverable, (g, y)))
      × IsDelivered a (deliver_all ms d) y
unfolding message_loop wire AllWell turns_for deliver_all
message_loop-messages a incoming stream short [] last g d x well alone calm h wired = (
  x,
  loop_step a last [] g x alone calm (throws transport_error_recoverable)
      (take_turn-gone a incoming short last x wired),
  h,
)
message_loop-messages a incoming stream short ((t, m) ∷ ms) last g d x well alone calm h wired =
    let (x', turn, h', left) =
      take_turn-message a incoming stream t m (wire ms) d x well.0.0 h wired in
    let (y, rest, h_y) =
      message_loop-messages a incoming stream short ms last g (deliver t m d) x' well.1 alone calm
        h' left in
    (y, loop_step a t (turns_for ms last) g x well.0.1 calm (ok x') turn ∙ rest, h_y)
