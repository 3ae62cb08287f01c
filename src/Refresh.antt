-- ===== src/Refresh.antt =====
-- How the workers (WorkerPool::doWork of service/worker_pool.cpp) are put to sleep while the rating is
-- recalculated (RatingCalculator::recalculate of service/rating_calculator.cpp), one access to the
-- shared data of CoreDataSyncBlock (service/core_data.h) at a time. Any number of workers take part,
-- from when they were started.
pub mod Counts
pub mod Quiet
use iqoption_test_task.Prelude.{
  ℕ, ◌+◌, ◌-◌, ◌≡◌, Bool, true, false, not, List, [], ◌∷◌, ◌++◌, map, replicate, if◌then◌else◌,
}

-- What a worker is about to do.
pub data Stage : Type 0 where
  -- it works, with the rating in its hands; or it does so for the last time, since it saw the refresh
  reads depletes : Stage
  -- it holds the lock: before it counts itself out, before it looks at the flag, before it waits
  locked checks dozes : Stage
  -- it waits; it was woken and needs the lock; it saw the end of the refresh and is not counted yet
  asleep notified woken : Stage
  -- it left the loop for a signal of another thread, or for an exception of its own
  left_by_flag failed : Stage

-- fetch_sub(1) and fetch_add(1) of dataReaderCount
pub data Change : Type 0 where
  same minus plus : Change

abbrev pub changed : Change → ℕ → ℕ
changed same n = n
changed minus n = n - 1
changed plus n = n + 1

-- The moves of a worker while the refresh flag is the first argument, and the second says whether the
-- lock is free.
pub data Move : Bool → Bool → Stage → Stage → Change → Type 0 where
  -- refreshInProgress.load()
  see_refresh : (free : Bool) → Move true free reads depletes same
  lock : (refresh : Bool) → Move refresh true depletes locked same
  -- dataReaderCount.fetch_sub(1)
  count_out : (refresh free : Bool) → Move refresh free locked checks minus
  -- the predicate of the wait does not hold
  doze : (free : Bool) → Move true free checks dozes same
  -- the wait gives the lock back
  sleep : (refresh free : Bool) → Move refresh free dozes asleep same
  -- a condition variable may also wake up by itself
  wake_spuriously : (refresh free : Bool) → Move refresh free asleep notified same
  lock_again : (refresh : Bool) → Move refresh true notified checks same
  -- the predicate of the wait holds, and the lock is given back
  wake : (free : Bool) → Move false free checks woken same
  -- dataReaderCount.fetch_add(1)
  count_in : (refresh free : Bool) → Move refresh free woken reads plus
  -- the break for badFlag, which does not count the worker out
  leave : (refresh free : Bool) → Move refresh free reads left_by_flag same
  -- the handlers, which count it out
  fail_reading : (refresh free : Bool) → Move refresh free reads failed minus
  fail_depleting : (refresh free : Bool) → Move refresh free depletes failed minus

-- What the recalculating thread is about to do. Behind `told` it waits till no reader is counted.
pub data Refreshing : Type 0 where
  idle told recalculates stored : Refreshing

pub record RefreshState : Type 0 where
  pub refresh_in_progress : Bool
  pub data_reader_count : ℕ
  pub workers : List Stage
  pub refreshing : Refreshing

abbrev pub holds_lock : Stage → Bool
holds_lock locked = true
holds_lock checks = true
holds_lock dozes = true
holds_lock _ = false

-- No worker holds dataLock.
unfoldable pub is_free : List Stage → Bool
is_free [] = true
is_free (w ∷ ws) = if holds_lock w then false else is_free ws

-- dataRefreshedTrigger.notify_all()
abbrev pub notified_by : Stage → Stage
notified_by asleep = notified
notified_by w = w

-- WorkerPool::start, with as many workers as the concurrency factor.
abbrev pub started : ℕ → RefreshState
started n = record {
  refresh_in_progress = false;
  data_reader_count = n;
  workers = replicate n reads;
  refreshing = idle;
}

pub data RefreshStep : RefreshState → RefreshState → Type 0 where
  move :
      (s : RefreshState) (before after : List Stage) (w w' : Stage) (c : Change)
      → s.workers ≡ before ++ (w ∷ after)
      → Move s.refresh_in_progress (is_free s.workers) w w' c
      → RefreshStep s (record s {
        workers = before ++ (w' ∷ after);
        data_reader_count = changed c s.data_reader_count;
      })
  -- refreshInProgress.store(true)
  tell :
      (s : RefreshState)
      → s.refreshing ≡ idle
      → RefreshStep s (record s { refresh_in_progress = true; refreshing = told })
  -- the end of the loop `while (dataReaderCount.load())`
  proceed :
      (s : RefreshState)
      → s.refreshing ≡ told
      → s.data_reader_count ≡ 0
      → RefreshStep s (record s { refreshing = recalculates })
  -- refreshInProgress.store(false), under the lock
  store :
      (s : RefreshState)
      → s.refreshing ≡ recalculates
      → is_free s.workers ≡ true
      → RefreshStep s (record s { refresh_in_progress = false; refreshing = stored })
  notify_all :
      (s : RefreshState)
      → s.refreshing ≡ stored
      → RefreshStep s (record s { workers = map notified_by s.workers; refreshing = idle })

-- What n workers and the recalculating thread may have done since the start.
pub data RefreshRun (n : ℕ) : RefreshState → Type 0 where
  begun : RefreshRun n (started n)
  continued : {s s' : RefreshState} → RefreshRun n s → RefreshStep s s' → RefreshRun n s'
