-- ===== src/Dispatcher.antt =====
-- service/message_dispatcher.cpp: each message of a client goes into the incoming data of the minute;
-- one who connects also gets a rating job. The second of the minute is read from the system clock,
-- and so it is an argument; the index of the job queue is the one of the dispatcher's thread.
pub mod Minute
pub mod Fits
use iqoption_test_task.Prelude.{ℕ, Bool, List, [], ◌∷◌, add64}
use iqoption_test_task.Maps.{contains, emplace_ordered, update_at}
use iqoption_test_task.Core.{IncomingDataBuffer, invalid_second}
use iqoption_test_task.Protocol.Client.{
  UserMsg, registered, renamed, connected, disconnected, deal_won,
}
use iqoption_test_task.Queue.{QueuePack, enqueue_promise, next_index}

pub record MessageDispatcher : Type 0 where
  pub queues : List QueuePack
  pub queue_index : ℕ
  pub buffer : IncomingDataBuffer

-- setBuffer
unfoldable pub set_buffer : IncomingDataBuffer → MessageDispatcher → MessageDispatcher
set_buffer buffer d = record d { buffer = buffer }

-- connectionChanges[id] = second
abbrev pub change_connection : ℕ → ℕ → IncomingDataBuffer → IncomingDataBuffer
change_connection id second b = record b {
  connection_changes = update_at id 0 (λ old. second) b.connection_changes;
}

-- enqueueRatingJob of the queue, for an id.
abbrev pub ask_rating : ℕ × Bool → MessageDispatcher → MessageDispatcher
ask_rating promise d = record d {
  queues = enqueue_promise promise d.queue_index d.queues;
  queue_index = next_index d.queue_index d.queues;
}

-- The five functions `dispatch`.
unfoldable pub dispatch : ℕ → UserMsg → MessageDispatcher → MessageDispatcher
dispatch second (registered m) d =
    let b = d.buffer in
    record d {
      buffer = record b {
        users_registered = emplace_ordered m.user_id m.user_name b.users_registered;
      };
    }
dispatch second (renamed m) d =
    let b = d.buffer in
    record d {
      buffer = record b { users_renamed = emplace_ordered m.user_id m.user_name b.users_renamed };
    }
dispatch second (connected m) d =
    let b = change_connection m.user_id second d.buffer in
    ask_rating (m.user_id, contains m.user_id b.users_registered) (record d { buffer = b })
dispatch second (disconnected m) d = record d {
  buffer = change_connection m.user_id invalid_second d.buffer;
}
dispatch second (deal_won m) d =
    let b = d.buffer in
    record d {
      buffer = record b {
        deals_won = update_at m.user_id 0 (λ old. add64 old m.winnings) b.deals_won;
      };
    }

-- The messages of a minute, each with the second at which it came.
unfoldable pub dispatch_all : List (ℕ × UserMsg) → MessageDispatcher → MessageDispatcher
dispatch_all [] d = d
dispatch_all ((second, m) ∷ ms) d = dispatch_all ms (dispatch second m d)
