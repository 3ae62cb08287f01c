-- ===== src/Examples/Client.antt =====
-- The client of test/strategy.cpp at concrete inputs: a request in a minute of two users, and the
-- answer about one of them.
use iqoption_test_task.Prelude.{ℕ, ◌^◌, ◌<◌, ◌≡◌, refl, some, [], ◌∷◌, length, arith}
use iqoption_test_task.Failures.{ok}
use iqoption_test_task.Maps.{find, emplace_ordered, contains, insert_ordered}
use iqoption_test_task.Core.{CoreRatingData, deref}
use iqoption_test_task.Binary.Laws.{facing}
use iqoption_test_task.Workers.{entry_of}
use iqoption_test_task.Workers.Answers.{DataFits, answer, message_bytes}
use iqoption_test_task.Storage.{Impl, FullUserDataEx, new_impl}
use iqoption_test_task.Storage.Reference.{
  publish_validation_report, recalculate_rating, build_rating, emplace_multi, place_users, unrate,
}
use iqoption_test_task.Storage.Rated.{IsReference, recalculate_rating-IsReference}
use iqoption_test_task.Storage.Answered.{accepted}
use iqoption_test_task.Storage.Agreed.{Agree, expected_place}
use iqoption_test_task.Storage.Tally.{IsBalanced}
use iqoption_test_task.Strategy.{Chance, Strategy}
use iqoption_test_task.Strategy.Names.{names, last_names}
use iqoption_test_task.Strategy.Responses.{process_response, process_responses}
use iqoption_test_task.Storage.NextMinute.{Copies}
use iqoption_test_task.Strategy.Minute.{next_minute}
use iqoption_test_task.Strategy.Turns.{next_minute-Mirrored}
use iqoption_test_task.Strategy.Mirrored.{Mirrored}
use iqoption_test_task.Strategy.Judged.{process_response-answer, process_responses-IsBalanced}
use iqoption_test_task.Examples.Messages.{pipe}
use iqoption_test_task.Examples.Storages.{rich, two_users, two_users-IsStored, in_index, few}

abbrev client : Strategy
client = record {
  prev_min_data = two_users;
  cur_min_data = two_users;
  new_user_id = 2;
  fake_count = 0;
  names = record { name_index = 0; last_name_index = 0 };
}

abbrev chance : Chance
chance = record { number = 42; draw = λ n. 0; won = 5; action = 1 }

two_given_out : (i p : ℕ) → find i two_users.index ≡ some p → i < 2
unfolding find emplace_ordered insert_ordered contains
two_given_out i p e = ground arith

client-Mirrored : Mirrored client
unfolding names last_names
client-Mirrored = record {
  cur = two_users-IsStored;
  prev = two_users-IsStored;
  follows = λ i p e. (p, e, refl);
  cur_given_out = two_given_out;
  prev_given_out = two_given_out;
  in_range = record { name_in = omega arith; last_name_in = omega arith };
}

next_minute-Mirrored_example :
    Mirrored (next_minute client)
    × IsReference (next_minute client).prev_min_data
    × Copies two_users (next_minute client).prev_min_data
next_minute-Mirrored_example = next_minute-Mirrored client client-Mirrored few

-- The same minute at the service and at the client.
abbrev service : CoreRatingData
service = record {
  silent_users = (0, record { second_connected = 60; name = 65 ∷ [] }) ∷ [];
  active_users =
      (
        1,
        record {
          basic = record { second_connected = 60; name = 66 ∷ [] };
          id = 1;
          amount_won = 300;
          rating = 0;
        },
      )
      ∷ [];
  rating = some 1 ∷ [];
  expiration_date = 0;
}

abbrev reference : Impl
reference = recalculate_rating two_users

abbrev placed : FullUserDataEx
placed = record rich { rating = 0 }

reference_agrees : Agree service reference
unfolding recalculate_rating build_rating emplace_multi place_users unrate find emplace_ordered
    insert_ordered contains entry_of deref
reference_agrees = refl

reference_index : find 1 reference.index ≡ some 1
unfolding recalculate_rating
reference_index = in_index

reference_object : reference.objects 1 ≡ some placed
unfolding recalculate_rating build_rating emplace_multi place_users unrate find emplace_ordered
    insert_ordered contains
reference_object = refl

reference_small : (length reference.rating < 2 ^ 31) × (1 < length reference.index)
unfolding recalculate_rating build_rating emplace_multi place_users unrate find emplace_ordered
    insert_ordered contains
reference_small = (omega arith, omega arith)

service-DataFits : DataFits service
unfolding find entry_of deref
service-DataFits = ((omega arith, omega arith, omega arith), tt)

process_response-answer_example :
    process_response
      (facing [] (message_bytes (answer service 1 (expected_place reference placed))))
      reference
    ≡ ok (accepted 1 reference)
process_response-answer_example =
    process_response-answer service reference 1 1 placed service-DataFits
      (recalculate_rating-IsReference two_users two_users-IsStored few) reference_agrees
      reference_small.0 reference_index reference_object reference_small.1 (omega arith)

new_impl-IsBalanced : IsBalanced new_impl
unfolding publish_validation_report
new_impl-IsBalanced = record {
  balanced = refl;
  ratings_fit = (omega arith, omega arith);
  errors_fit = (omega arith, omega arith);
}

process_responses-IsBalanced_example :
    IsBalanced (process_responses pipe 2 (new_impl, (2 ∷ 0 ∷ [], []))).1.0
process_responses-IsBalanced_example =
    process_responses-IsBalanced pipe 2 new_impl (2 ∷ 0 ∷ [], []) new_impl-IsBalanced
