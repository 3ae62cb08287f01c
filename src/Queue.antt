-- ===== src/Queue.antt =====
-- service/job_queue.cpp: the queue of many producers and one consumer, and the job queue that
-- spreads the jobs over one such queue for each worker and kind of job.
pub mod Fifo
use iqoption_test_task.Prelude.{
  ℕ, ◌+◌, Bool, true, false, Option, none, some, List, [], ◌∷◌, ◌++◌, length, get_elem?, get_or,
  set, ltb, ◌==◌, if◌then◌else◌,
}
use iqoption_test_task.Failures.{Result, ok, ◌>>=◌, ◌>>◌, assert}
use iqoption_test_task.Core.{invalid_rating}
use iqoption_test_task.Protocol.Service.{GenericProtocolError}

-- MPSCQueue<T>::Node. A pointer to a node is its number in the order of allocation; the stub has no
-- value.
pub record Node (A : Type 0) : Type 0 where
  pub next : Option ℕ
  pub value : Option A

-- MPSCQueue<T>. The nodes that were deleted stay in the list, out of reach of `head`.
pub record MpscQueue (A : Type 0) : Type 0 where
  pub nodes : List (Node A)
  pub head : ℕ
  pub tail : ℕ

module _ {A : Type 0} where
  abbrev pub stub : Node A
  stub = record { next = none; value = none }

  abbrev pub new_queue : MpscQueue A
  new_queue = record { nodes = stub ∷ []; head = 0; tail = 0 }

  -- The exchange of `tail` in push: the queue, and the node that was last before.
  unfoldable pub exchange_tail : A → MpscQueue A → MpscQueue A × ℕ
  exchange_tail new_val q = (
    record q {
      nodes = q.nodes ++ (record { next = none; value = some new_val } ∷ []);
      tail = length q.nodes;
    },
    q.tail,
  )

  -- prev->next.store(newNode), the second half of push.
  unfoldable pub link_next : ℕ → ℕ → MpscQueue A → MpscQueue A
  link_next prev new_node q = record q {
    nodes = set q.nodes prev (record (get_or q.nodes prev stub) { next = some new_node });
  }

  -- push with nobody in between.
  unfoldable pub push : A → MpscQueue A → MpscQueue A
  push new_val q = let (q', prev) = exchange_tail new_val q in link_next prev q'.tail q'

  try_pop_at : Option ℕ → MpscQueue A → Option A × MpscQueue A
  try_pop_at none q = (none, q)
  try_pop_at (some next) q = ((get_or q.nodes next stub).value, record q { head = next })

  -- tryPop: the value, if there is one.
  unfoldable pub try_pop : MpscQueue A → Option A × MpscQueue A
  unfolding try_pop_at
  try_pop q = try_pop_at (get_or q.nodes q.head stub).next q

-- QueuePack
pub record QueuePack : Type 0 where
  pub error_queue : MpscQueue GenericProtocolError
  pub user_id_promise_queue : MpscQueue (ℕ × Bool)
  pub user_data_queue : MpscQueue (Option ℕ)

abbrev pub new_pack : QueuePack
new_pack = record {
  error_queue = new_queue;
  user_id_promise_queue = new_queue;
  user_data_queue = new_queue;
}

-- `if (currentQueueIndex == m_queues.size()) { currentQueueIndex = 0; }` after its increment. The
-- index is local to a thread: the caller keeps it.
unfoldable pub next_index : ℕ → List QueuePack → ℕ
next_index index queues = if index + 1 == length queues then 0 else index + 1

unfoldable pub enqueue_error : GenericProtocolError → ℕ → List QueuePack → List QueuePack
enqueue_error error index queues =
    let pack = get_or queues index new_pack in
    set queues index (record pack { error_queue = push error pack.error_queue })

unfoldable pub enqueue_promise : ℕ × Bool → ℕ → List QueuePack → List QueuePack
enqueue_promise promise index queues =
    let pack = get_or queues index new_pack in
    set queues index
      (record pack { user_id_promise_queue = push promise pack.user_id_promise_queue })

unfoldable pub enqueue_user_data : Option ℕ → ℕ → List QueuePack → List QueuePack
enqueue_user_data user_data index queues =
    let pack = get_or queues index new_pack in
    set queues index (record pack { user_data_queue = push user_data pack.user_data_queue })

-- getQueuePack, under the assertion of JobQueue::getConsumer.
unfoldable pub get_queue_pack : ℕ → List QueuePack → Result QueuePack
get_queue_pack index queues = do
  assert (ltb index (length queues))
  ok (get_or queues index new_pack)

-- QueueConsumer: an empty queue leaves the value that the variable was made with.
unfoldable pub dequeue_error : QueuePack → Option GenericProtocolError × QueuePack
dequeue_error pack =
    let (error, q) = try_pop pack.error_queue in (error, record pack { error_queue = q })

abbrev pub no_promise : ℕ × Bool
no_promise = (invalid_rating, false)

abbrev or_no_promise : Option (ℕ × Bool) → ℕ × Bool
or_no_promise none = no_promise
or_no_promise (some promise) = promise

unfoldable pub dequeue_user_id_promise : QueuePack → (ℕ × Bool) × QueuePack
dequeue_user_id_promise pack =
    let (promise, q) = try_pop pack.user_id_promise_queue in
    (or_no_promise promise, record pack { user_id_promise_queue = q })

abbrev or_null : Option (Option ℕ) → Option ℕ
or_null none = none
or_null (some user_data) = user_data

unfoldable pub dequeue_user_data : QueuePack → Option ℕ × QueuePack
dequeue_user_data pack =
    let (user_data, q) = try_pop pack.user_data_queue in
    (or_null user_data, record pack { user_data_queue = q })
