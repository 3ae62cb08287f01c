-- ===== src/Overseer/Buffers.antt =====
-- What a turn of the message loop does to the two buffers (service/overseer.cpp,
-- service/message_dispatcher.cpp): which of them is in use, what they hold, and whom they count.
use iqoption_test_task.Prelude.{
  ℕ, ◌≡◌, refl, sym, ap, ◌∙◌, subst, Bool-cases, inl, inr, Bool, true, false, not, if◌then◌else◌,
  some, List,
}
use iqoption_test_task.Core.{IncomingDataBuffer, empty_buffer}
use iqoption_test_task.Protocol.Client.{
  UserMsg, registered, renamed, connected, disconnected, deal_won,
}
use iqoption_test_task.Queue.{QueuePack}
use iqoption_test_task.Dispatcher.{MessageDispatcher, dispatch, set_buffer}
use iqoption_test_task.Transport.{Asio}
use iqoption_test_task.Overseer.{
  PluggableInfrastructure, claim, count_writer, one_more, one_less, same_buffer, put_buffer,
  switch_buffer, dispatch_held, recalculate_elsewhere, Turn,
}

-- A buffer apart from the count of its writers.
abbrev pub blank : IncomingDataBuffer → IncomingDataBuffer
blank b = record b { buffer_writer_count = 0 }

-- What clients said: the buffer into which it goes, the queues of jobs, and what the buffers hold.
pub record Delivery : Type 0 where
  pub in_use : Bool
  pub queues : List QueuePack
  pub queue_index : ℕ
  pub contents : Bool → IncomingDataBuffer

-- A message goes into the buffer that is current; the other one may have been emptied before.
abbrev pub deliver : Turn → UserMsg → Delivery → Delivery
deliver t m d =
    let b = t.current_buffer in
    let contents =
      if t.recalculated then put_buffer (not d.in_use) empty_buffer d.contents else d.contents in
    let after =
      dispatch t.second m
        (record { queues = d.queues; queue_index = d.queue_index; buffer = contents b }) in
    record {
      in_use = b;
      queues = after.queues;
      queue_index = after.queue_index;
      contents = put_buffer b after.buffer contents;
    }

abbrev pub one_if : Bool → ℕ
one_if b = if b then 1 else 0

-- The service holds what was delivered, and of the buffers only the one in use counts a writer.
pub record IsDelivered (a : Asio) (d : Delivery) (x : PluggableInfrastructure a) : Type 0 where
  pub held : x.held ≡ d.in_use
  pub in_data : x.in_data ≡ some d.in_use
  pub queues : x.message_dispatcher.queues ≡ d.queues
  pub queue_index : x.message_dispatcher.queue_index ≡ d.queue_index
  pub contents : (b : Bool) → blank (x.buffers b) ≡ d.contents b
  pub writers : (b : Bool) → (x.buffers b).buffer_writer_count ≡ one_if (same_buffer d.in_use b)

-- The dispatcher does not look at the count.
dispatch-blank :
    (second : ℕ) (m : UserMsg) (d : MessageDispatcher)
    → let e = dispatch second m d in
      record e { buffer = blank e.buffer }
      ≡ dispatch second m (record d { buffer = blank d.buffer })
unfolding dispatch
dispatch-blank second (registered m) d = refl
dispatch-blank second (renamed m) d = refl
dispatch-blank second (connected m) d = refl
dispatch-blank second (disconnected m) d = refl
dispatch-blank second (deal_won m) d = refl

dispatch-writers :
    (second : ℕ) (m : UserMsg) (d : MessageDispatcher)
    → (dispatch second m d).buffer.buffer_writer_count ≡ d.buffer.buffer_writer_count
unfolding dispatch
dispatch-writers second (registered m) d = refl
dispatch-writers second (renamed m) d = refl
dispatch-writers second (connected m) d = refl
dispatch-writers second (disconnected m) d = refl
dispatch-writers second (deal_won m) d = refl

pub same_buffer_self : (b : Bool) → same_buffer b b ≡ true
same_buffer_self true = refl
same_buffer_self false = refl

same_buffer-eq : (b c : Bool) → same_buffer b c ≡ true → b ≡ c
same_buffer-eq true true e = refl
same_buffer-eq false false e = refl
same_buffer-eq true false e = cc
same_buffer-eq false true e = cc

module _ (change : ℕ → ℕ) (k : Bool) (buffers : Bool → IncomingDataBuffer) (c : Bool) where
  blank-count_writer : blank (count_writer change k buffers c) ≡ blank (buffers c)
  blank-count_writer = elim (Bool-cases (same_buffer k c)) [
    | inl y ↦ rw y (ap (λ b. blank (buffers b)) (same_buffer-eq k c y))
    | inr y ↦ rw y refl
  ]

  writers-count_writer : (count_writer change k buffers c).buffer_writer_count ≡ (
      if same_buffer k c
      then change (buffers c).buffer_writer_count
      else (buffers c).buffer_writer_count)
  writers-count_writer = elim (Bool-cases (same_buffer k c)) [
    | inl y ↦ rw y (ap (λ b. change (buffers b).buffer_writer_count) (same_buffer-eq k c y))
    | inr y ↦ rw y refl
  ]

-- The count of a buffer when another one is claimed.
reclaimed :
    (old new c : Bool) (w : ℕ)
    → same_buffer old new ≡ false
    → w ≡ one_if (same_buffer old c)
    → (if same_buffer new c
        then one_more (if same_buffer old c then one_less w else w)
        else (if same_buffer old c then one_less w else w))
      ≡ one_if (same_buffer new c)
reclaimed true true c w ne e = absurd (cc)
reclaimed false false c w ne e = absurd (cc)
reclaimed true false true w ne e = rw e refl
reclaimed true false false w ne e = rw e refl
reclaimed false true true w ne e = rw e refl
reclaimed false true false w ne e = rw e refl

module _ (a : Asio) where
  pub recalculate_elsewhere-IsDelivered :
      (recalculated : Bool) (d : Delivery) (x : PluggableInfrastructure a)
      → IsDelivered a d x
      → IsDelivered a
          (record d {
            contents =
                if recalculated
                then put_buffer (not d.in_use) empty_buffer d.contents
                else d.contents;
          })
          (recalculate_elsewhere a recalculated x)
  unfolding recalculate_elsewhere
  recalculate_elsewhere-IsDelivered false d x h = h
  recalculate_elsewhere-IsDelivered true d x h = record {
    held = h.held;
    in_data = h.in_data;
    queues = h.queues;
    queue_index = h.queue_index;
    contents = λ b. rw h.held (elim (Bool-cases (same_buffer (not d.in_use) b)) [
      | inl y ↦ rw y refl
      | inr y ↦ rw y (h.contents b)
    ]);
    writers = λ b. rw h.held (elim (Bool-cases (same_buffer (not d.in_use) b)) [
      | inl y ↦ rw y (
          h.writers (not d.in_use)
          ∙ ap (λ c. one_if (same_buffer d.in_use c)) (same_buffer-eq (not d.in_use) b y))
      | inr y ↦ rw y (h.writers b)
    ]);
  }

  pub switch_buffer-IsDelivered :
      (n : Bool) (d : Delivery) (x : PluggableInfrastructure a)
      → IsDelivered a d x
      → IsDelivered a (record d { in_use = n }) (switch_buffer a n x)
  unfolding switch_buffer
  switch_buffer-IsDelivered n d x h = elim (Bool-cases (same_buffer d.in_use n)) [
    | inl y ↦
        let same = same_buffer-eq d.in_use n y in
        let h' = subst (λ k. IsDelivered a (record d { in_use = k }) x) same h in
        rw (h.in_data, y)
          (record {
            held = h'.held;
            in_data = ap some same;
            queues = h.queues;
            queue_index = h.queue_index;
            contents = h.contents;
            writers = h'.writers;
          })
    | inr y ↦
        let released = count_writer one_less d.in_use x.buffers in
        let z : PluggableInfrastructure a = record (claim a n (record x { buffers = released })) {
          held = n;
        } in
        let switched : switch_buffer a n x ≡ z = rw (h.in_data, y) refl in
        subst (IsDelivered a (record d { in_use = n })) (sym switched) (record {
          held = refl;
          in_data = refl;
          queues = h.queues;
          queue_index = h.queue_index;
          contents = λ b.
              blank-count_writer one_more n released b
              ∙ (blank-count_writer one_less d.in_use x.buffers b ∙ h.contents b);
          writers = λ b.
              writers-count_writer one_more n released b
              ∙ (ap (λ w. if same_buffer n b then one_more w else w)
                    (writers-count_writer one_less d.in_use x.buffers b)
                  ∙ reclaimed d.in_use n b (x.buffers b).buffer_writer_count y (h.writers b));
        })
  ]

  pub dispatch_held-IsDelivered :
      (second : ℕ) (m : UserMsg) (d : Delivery) (x : PluggableInfrastructure a)
      → IsDelivered a d x
      → let e = dispatch second m (record {
        queues = d.queues;
        queue_index = d.queue_index;
        buffer = d.contents d.in_use;
      }) in
        IsDelivered a
          (record {
            in_use = d.in_use;
            queues = e.queues;
            queue_index = e.queue_index;
            contents = put_buffer d.in_use e.buffer d.contents;
          })
          (dispatch_held a second m x)
  unfolding dispatch_held set_buffer
  dispatch_held-IsDelivered second m d x h =
      let before = set_buffer (x.buffers x.held) x.message_dispatcher in
      let after = dispatch second m before in
      let into : blank (x.buffers x.held) ≡ d.contents d.in_use =
        ap (λ b. blank (x.buffers b)) h.held ∙ h.contents d.in_use in
      let given : MessageDispatcher = record {
        queues = d.queues;
        queue_index = d.queue_index;
        buffer = d.contents d.in_use;
      } in
      let begins : record before { buffer = blank before.buffer } ≡ given =
        λ i. record { queues = h.queues i; queue_index = h.queue_index i; buffer = into i } in
      let ends : record after { buffer = blank after.buffer } ≡ dispatch second m given =
        dispatch-blank second m before ∙ ap (dispatch second m) begins in
      let writers : after.buffer.buffer_writer_count ≡ 1 =
        dispatch-writers second m before
        ∙ (ap (λ b. (x.buffers b).buffer_writer_count) h.held
            ∙ (h.writers d.in_use ∙ ap one_if (same_buffer_self d.in_use))) in
      let used : (b : Bool) → same_buffer d.in_use b ≡ same_buffer x.held b =
        λ b. ap (λ k. same_buffer k b) (sym h.held) in
      record {
        held = h.held;
        in_data = h.in_data;
        queues = ap (λ (e : MessageDispatcher). e.queues) ends;
        queue_index = ap (λ (e : MessageDispatcher). e.queue_index) ends;
        contents = λ b. elim (Bool-cases (same_buffer x.held b)) [
          | inl y ↦ rw (used b, y) (ap (λ (e : MessageDispatcher). e.buffer) ends)
          | inr y ↦ rw (used b, y) (h.contents b)
        ];
        writers = λ b. elim (Bool-cases (same_buffer x.held b)) [
          | inl y ↦ rw (used b, y) writers
          | inr y ↦ rw y (h.writers b)
        ];
      }
