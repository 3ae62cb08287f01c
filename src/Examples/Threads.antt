-- ===== src/Examples/Threads.antt =====
-- Queues, buffers, minutes and moments at concrete inputs: service/job_queue.cpp,
-- service/message_dispatcher.cpp, service/overseer.cpp, service/rating_announcer.cpp and
-- utils/date_time.h.
use iqoption_test_task.Prelude.{
  ◌==◌, inr, ℕ, ◌+◌, ◌-◌, ◌*◌, ◌%◌, ◌≤◌, ◌<◌, ◌≡◌, ◌≢◌, refl, true, false, none, some, List, [],
  ◌∷◌, arith,
}
use iqoption_test_task.Maps.{find}
use iqoption_test_task.Core.{IterationData, empty_buffer}
use iqoption_test_task.Protocol.Client.{UserMsg, connected, deal_won}
use iqoption_test_task.Queue.{new_queue, new_pack}
use iqoption_test_task.Queue.Fifo.{new_queue-Holds, pop_times, push_all, pop_times-push_all}
use iqoption_test_task.Dispatcher.{MessageDispatcher, dispatch_all}
use iqoption_test_task.Dispatcher.Fits.{Fits, dispatch_all-Fits}
use iqoption_test_task.Dispatcher.Minute.{won_all, dispatch_all-won}
use iqoption_test_task.Exchange.{
  ExchangeState, launched, Run, begun, continued, exchange, load_current, release, claim, proceed,
  finish, processes, writes_to, waits_for, loaded, released, idle,
}
use iqoption_test_task.Exchange.Apart.{run-apart}
use iqoption_test_task.Announcer.{Announcer, Jobs, minute, announce_minute}
use iqoption_test_task.Announcer.Weeks.{
  IsCurrent, minute-IsCurrent, minute-new_week, announce_minute_lem, enqueue_all, users_from,
}
use iqoption_test_task.Clock.{
  days, weeks, seconds, current_week_start, current_second_index, next_full_second,
}
use iqoption_test_task.Clock.Starts.{
  current_week_start-bounds, current_second_index_lem, next_full_second-bounds,
}

pop_times-push_all_example :
    pop_times {A = ℕ} 3 (push_all (5 ∷ 6 ∷ []) new_queue) ≡ some 5 ∷ some 6 ∷ none ∷ []
pop_times-push_all_example = pop_times-push_all [] (5 ∷ 6 ∷ []) new_queue new_queue-Holds

abbrev new_dispatcher : MessageDispatcher
new_dispatcher = record {
  queues = new_pack ∷ new_pack ∷ [];
  queue_index = 0;
  buffer = empty_buffer;
}

abbrev two_deals : List (ℕ × UserMsg)
two_deals =
    (3, deal_won (record { user_id = 7; winnings = 5 }))
    ∷ (4, connected (record { user_id = 7 }))
    ∷ (5, deal_won (record { user_id = 7; winnings = 6 }))
    ∷ []

dispatch_all-Fits_example : Fits (dispatch_all two_deals new_dispatcher).buffer
dispatch_all-Fits_example =
    dispatch_all-Fits two_deals new_dispatcher (omega arith, (omega arith, (omega arith, tt)))
      (record { distinct = tt; valid_seconds = tt })

dispatch_all-won_example :
    find 7 (dispatch_all two_deals new_dispatcher).buffer.deals_won
    ≡ won_all 7 (find 7 (empty_buffer).deals_won) two_deals
dispatch_all-won_example = dispatch_all-won two_deals 7 new_dispatcher

-- The first minute's data change hands.
abbrev taken : ExchangeState
taken = record launched { current_buffer = true; calculating = waits_for false }

abbrev seen : ExchangeState
seen = record taken { dispatching = loaded false true }

abbrev free : ExchangeState
free = record seen { writers_first = 0; dispatching = released true }

abbrev claimed : ExchangeState
claimed = record free { writers_second = 1; dispatching = writes_to true }

abbrev worked_on : ExchangeState
worked_on = record claimed { calculating = processes false }

abbrev first_minute : Run worked_on
first_minute =
    continued
      (continued
        (continued
          (continued (continued begun (exchange launched refl))
            (load_current taken false refl (λ e. cc)))
          (release seen false true refl))
        (claim free true refl))
      (proceed claimed false refl refl)

run-apart_example : false ≢ true
run-apart_example =
    run-apart worked_on first_minute false true (((((tt, tt), tt), tt), tt), tt) refl refl

-- If a whole minute passes between the load and the claim, the two threads do meet at one buffer.
abbrev unclaimed : ExchangeState
unclaimed = record free { calculating = processes false }

abbrev rested : ExchangeState
rested = record unclaimed { calculating = idle }

abbrev taken_unclaimed : ExchangeState
taken_unclaimed = record rested { current_buffer = false; calculating = waits_for true }

abbrev processed_unclaimed : ExchangeState
processed_unclaimed = record taken_unclaimed { calculating = processes true }

abbrev clash : ExchangeState
clash = record processed_unclaimed { writers_second = 1; dispatching = writes_to true }

clash_reached : Run clash
clash_reached =
    let loads =
      continued (continued begun (exchange launched refl))
        (load_current taken false refl (λ e. cc)) in
    let frees = continued loads (release seen false true refl) in
    let works = continued frees (proceed free false refl refl) in
    let rests = continued works (finish unclaimed false refl) in
    let takes = continued rests (exchange rested refl) in
    continued (continued takes (proceed taken_unclaimed true refl refl))
      (claim processed_unclaimed true refl)

abbrev in_week : Announcer
in_week = record {
  drop_old_rating = false;
  week_just_turned = false;
  chrono_set_index = 0;
  rating_expiration_date = 100;
}

minute-IsCurrent_example :
    IsCurrent (minute 100 100 0 in_week) × ((minute 100 100 0 in_week).rating_expiration_date ≡ 100)
minute-IsCurrent_example =
    minute-IsCurrent in_week 100 100 0 (record { kept = refl; settled = refl }) (omega arith)

minute-new_week_example :
    ((minute 100 200 0 in_week).drop_old_rating ≡ false)
    × ((minute 200 200 0 (minute 100 200 0 in_week)).drop_old_rating ≡ true)
    × IsCurrent (minute 200 200 0 (minute 200 200 0 (minute 100 200 0 in_week)))
    × ((minute 200 200 0 (minute 200 200 0 (minute 100 200 0 in_week))).rating_expiration_date
        ≡ 200)
minute-new_week_example =
    minute-new_week in_week 100 200 200 0 0 0 (record { kept = refl; settled = refl }) (omega arith)

abbrev no_jobs : Jobs
no_jobs = record { index = 0; queues = new_pack ∷ [] }

-- Users 7 and 8 are to be told at the first second, user 9 at the second one, and user 5 later.
abbrev three_online : IterationData
three_online = record { users_online = (7 ∷ (8 ∷ [])) ∷ ((9 ∷ []) ∷ ((5 ∷ []) ∷ [])) }

-- The stop signal is read before the third second.
announce_minute_lem_example :
    announce_minute (λ n. n == 2) three_online in_week no_jobs
    ≡ (0 + 2, enqueue_all (users_from three_online 0 2) no_jobs)
announce_minute_lem_example =
    announce_minute_lem three_online in_week no_jobs (λ n. n == 2) 2 (omega arith)
      (λ n from h. ground arith) (inr refl)

current_week_start-bounds_example :
    (current_week_start (5 * days) ≤ 5 * days)
    × (5 * days < current_week_start (5 * days) + weeks)
    × ((current_week_start (5 * days) - 4 * days) % weeks ≡ 0)
current_week_start-bounds_example = current_week_start-bounds (5 * days) (omega arith)

current_second_index_lem_example : current_second_index ((1 * 60 + 7) * seconds + 5) ≡ 7
current_second_index_lem_example = current_second_index_lem 1 7 5 (omega arith) (omega arith)

next_full_second-bounds_example :
    (3 ≤ next_full_second 3)
    × (next_full_second 3 < 3 + seconds)
    × (next_full_second 3 % seconds ≡ 0)
next_full_second-bounds_example = next_full_second-bounds 3
