-- ===== src/Workers/Turn.antt =====
-- The loops of WorkerPool::doWork (service/worker_pool.cpp) over the queues of a worker. A loop ends
-- when its queue is empty; `fuel` bounds its turns.
use iqoption_test_task.Prelude.{
  ℕ, zero, suc, Bool, true, false, ◌||◌, none, some, ◌==◌, if◌then◌else◌,
}
use iqoption_test_task.Failures.{Result, ok, ◌>>=◌}
use iqoption_test_task.Binary.{BinaryOStream}
use iqoption_test_task.Core.{CoreRatingData, Pointer, invalid_id}
use iqoption_test_task.Protocol.Service.{GenericProtocolError, user_unrecognized_error}
use iqoption_test_task.Queue.{QueuePack, dequeue_error, dequeue_user_id_promise, dequeue_user_data}
use iqoption_test_task.Transport.{Asio}
use iqoption_test_task.Workers.{RatingBufferData, process_error, process_promise, process_rating}

-- The local variables of doWork, the worker's queues, and the socket.
pub record Worker (a : Asio) : Type 0 where
  pub pack : QueuePack
  pub ratings : RatingBufferData
  pub errors : BinaryOStream
  pub errors_base : ℕ
  pub socket : a.Socket

module _ (a : Asio) (d : CoreRatingData) where
  unfoldable pub answer_error : GenericProtocolError → Worker a → Result (Worker a)
  answer_error error w = do
    (buffer, s) ← process_error a error w.errors_base w.errors w.socket
    ok (record w { errors = buffer; socket = s })

  -- The error queue. The result says whether there was a job.
  unfoldable pub process_errors : ℕ → Bool → Worker a → Result (Bool × Worker a)
  process_errors zero new_jobs w = ok (new_jobs, w)
  process_errors (suc fuel) new_jobs w =
      let (error, pack) = dequeue_error w.pack in
      let w' : Worker a = record w { pack = pack } in
      elim error [
        | none ↦ ok (new_jobs, w')
        | some e ↦ answer_error e w' >>= λ w''. process_errors fuel true w''
      ]

  answer_unknown : ℕ → Bool → Worker a → Result (Worker a)
  answer_unknown id true w = ok w
  answer_unknown id false w = answer_error (user_unrecognized_error id) w

  unfoldable pub answer_promise : ℕ × Bool → Worker a → Result (Worker a)
  unfolding answer_unknown
  answer_promise promise w = do
    (known, ratings, s) ← process_promise a d promise w.ratings w.socket
    answer_unknown promise.0 known (record w { ratings = ratings; socket = s })

  -- The queue of user ids, which ends at the id that an empty queue gives.
  unfoldable pub process_promises : ℕ → Bool → Worker a → Result (Bool × Worker a)
  process_promises zero new_jobs w = ok (new_jobs, w)
  process_promises (suc fuel) new_jobs w =
      let (promise, pack) = dequeue_user_id_promise w.pack in
      let w' : Worker a = record w { pack = pack } in
      let rest = answer_promise promise w' >>= λ w''. process_promises fuel true w'' in
      if promise.0 == invalid_id then ok (new_jobs, w') else rest

  unfoldable pub answer_user_data : Pointer → Worker a → Result (Worker a)
  answer_user_data user_data w = do
    (ratings, s) ← process_rating a d user_data w.ratings w.socket
    ok (record w { ratings = ratings; socket = s })

  -- depleteUserDataMessages
  unfoldable pub deplete_user_data_messages : ℕ → Bool → Worker a → Result (Bool × Worker a)
  deplete_user_data_messages zero new_jobs w = ok (new_jobs, w)
  deplete_user_data_messages (suc fuel) new_jobs w =
      let (user_data, pack) = dequeue_user_data w.pack in
      let w' : Worker a = record w { pack = pack } in
      elim user_data [
        | none ↦ ok (new_jobs, w')
        | some i ↦ answer_user_data (some i) w' >>= λ w''. deplete_user_data_messages fuel true w''
      ]

  -- The three loops of a turn, errors first, then users who connected, then those of this second.
  unfoldable pub work_turn : ℕ → Worker a → Result (Bool × Worker a)
  work_turn fuel w = do
    (new_errors, w₁) ← process_errors fuel false w
    (new_promises, w₂) ← process_promises fuel new_errors w₁
    (new_data, w₃) ← deplete_user_data_messages fuel false w₂
    ok (new_promises || new_data, w₃)
