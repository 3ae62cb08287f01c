-- ===== src/Exchange.antt =====
-- How the two incoming data buffers change hands between the thread that dispatches messages
-- (Overseer::run of service/overseer.cpp) and the one that recalculates the rating
-- (RatingCalculator::recalculate of service/rating_calculator.cpp), one atomic access at a time.
pub mod Apart
use iqoption_test_task.Prelude.{ℕ, ◌+◌, ◌-◌, ◌≡◌, ◌≢◌, Bool, true, false, not, if◌then◌else◌}

-- What the dispatching thread is about to do. `inData` is the buffer it holds.
pub data Dispatching : Type 0 where
  -- it may write to this buffer, which counts it as a writer
  writes_to : Bool → Dispatching
  -- it holds the first, and has loaded `currentBuffer`, which is the second
  loaded : Bool → Bool → Dispatching
  -- it has released the one before, and is about to claim this one
  released : Bool → Dispatching

-- What the recalculating thread is about to do.
pub data Calculating : Type 0 where
  idle : Calculating
  -- it waits till nobody writes to the buffer that it took
  waits_for : Bool → Calculating
  processes : Bool → Calculating

-- A buffer is the first one for `false`; each counts its writers.
pub record ExchangeState : Type 0 where
  pub current_buffer : Bool
  pub writers_first : ℕ
  pub writers_second : ℕ
  pub dispatching : Dispatching
  pub calculating : Calculating

abbrev pub writers : Bool → ExchangeState → ℕ
writers b s = if b then s.writers_second else s.writers_first

-- bufferWriterCount.fetch_add(1) and fetch_sub(1)
abbrev pub add_writer : Bool → ExchangeState → ExchangeState
add_writer true s = record s { writers_second = s.writers_second + 1 }
add_writer false s = record s { writers_first = s.writers_first + 1 }

abbrev pub remove_writer : Bool → ExchangeState → ExchangeState
remove_writer true s = record s { writers_second = s.writers_second - 1 }
remove_writer false s = record s { writers_first = s.writers_first - 1 }

-- The start: the first buffer is current, and the dispatching thread has claimed it.
abbrev pub launched : ExchangeState
launched = record {
  current_buffer = false;
  writers_first = 1;
  writers_second = 0;
  dispatching = writes_to false;
  calculating = idle;
}

pub data Step : ExchangeState → ExchangeState → Type 0 where
  -- currentBuffer.load() != inData, when a message has come
  load_current :
      (s : ExchangeState) (b : Bool)
      → s.dispatching ≡ writes_to b
      → b ≢ s.current_buffer
      → Step s (record s { dispatching = loaded b s.current_buffer })
  -- inData->bufferWriterCount.fetch_sub(1)
  release :
      (s : ExchangeState) (b n : Bool)
      → s.dispatching ≡ loaded b n
      → Step s (record (remove_writer b s) { dispatching = released n })
  -- inData = newBuffer, bufferWriterCount.fetch_add(1)
  claim :
      (s : ExchangeState) (n : Bool)
      → s.dispatching ≡ released n
      → Step s (record (add_writer n s) { dispatching = writes_to n })
  -- currentBuffer.exchange(...)
  exchange :
      (s : ExchangeState)
      → s.calculating ≡ idle
      → Step s (record s {
        current_buffer = not s.current_buffer;
        calculating = waits_for s.current_buffer;
      })
  -- the end of the loop `while (inData->bufferWriterCount.load())`
  proceed :
      (s : ExchangeState) (b : Bool)
      → s.calculating ≡ waits_for b
      → writers b s ≡ 0
      → Step s (record s { calculating = processes b })
  -- the end of recalculate
  finish :
      (s : ExchangeState) (b : Bool)
      → s.calculating ≡ processes b
      → Step s (record s { calculating = idle })

-- What the two threads may have done since the start.
pub data Run : ExchangeState → Type 0 where
  begun : Run launched
  continued : {s s' : ExchangeState} → Run s → Step s s' → Run s'
