-- ===== src/Examples/Ratings.antt =====
-- A minute of service/rating_calculator.cpp at a concrete input: two users have a place, and one of
-- them wins.
use iqoption_test_task.Prelude.{
  ℕ, ◌+◌, ◌-◌, ◌^◌, ◌<◌, ◌≡◌, refl, ap, ◌++◌, true, false, none, some, List, [], ◌∷◌, length, take,
  drop, arith, bias64,
}
use iqoption_test_task.Failures.{ok}
use iqoption_test_task.Maps.{find, update_at, insert_ordered}
use iqoption_test_task.Protocol.Client.{UserMsg, deal_won}
use iqoption_test_task.Queue.{new_pack}
use iqoption_test_task.Dispatcher.{dispatch, dispatch_all}
use iqoption_test_task.Service.{collected, recalculate-dispatch_all}
use iqoption_test_task.Core.{
  CoreRatingData, FullUserData, ActiveUsersMap, RatingVector, empty_buffer, nobody_online, deref,
}
use iqoption_test_task.Calculator.Users.{Impl, deals_loop}
use iqoption_test_task.Calculator.Patches.{new_entry, rating_elements_after}
use iqoption_test_task.Calculator.Recalculate.{start, recalculate, rebuild_rating}
use iqoption_test_task.Calculator.Rated.{IsRated, places, winnings, rating_elements_after-splits}
use iqoption_test_task.Calculator.Order.{AtLeast, Under}
use iqoption_test_task.Calculator.Deals.Loop.{deals_loop-Pending}
use iqoption_test_task.Calculator.Deals.Pending.{Pending}
use iqoption_test_task.Calculator.Minute.{IsDue, Pending-start, Ready-start, recalculate-IsRated}
use iqoption_test_task.Calculator.Phases.{Prepares, prepare-Kept}
use iqoption_test_task.Calculator.Moves.{LoopState, apply_patches}
use iqoption_test_task.Calculator.Loop.{Rebuilds, apply_patches_lem}
use iqoption_test_task.Calculator.Rating.{rebuild_rating-IsRated}

abbrev user : ℕ → ℕ → ℕ → FullUserData
user i amount rating = record {
  basic = record { second_connected = 60; name = [] };
  id = i;
  amount_won = amount;
  rating = rating;
}

abbrev users : ActiveUsersMap
users = (7, user 7 500 0) ∷ (8, user 8 300 1) ∷ []

abbrev first_rating : RatingVector
first_rating = some 7 ∷ some 8 ∷ []

users-IsRated : IsRated users first_rating
unfolding find deref
users-IsRated = record {
  placed = λ i. ground arith;
  positions = λ i u e. ground arith;
  falling = ((omega arith, tt), (tt, tt));
  no_null = refl;
}

abbrev due : Impl
due = record {
  silent_users = [];
  active_users = users;
  rating = first_rating;
  users_online = nobody_online.users_online;
  buffer = record empty_buffer { deals_won = (8, 400) ∷ [] };
  errors = [];
  patches = [];
  fresh_ratings = 0;
}

due_lem : IsDue due
unfolding find
due_lem = record {
  rated = users-IsRated;
  no_patches = refl;
  none_fresh = refl;
  distinct = (tt, tt);
  raises = ((λ u e. ground arith), tt);
  small = omega arith;
}

recalculate-IsRated_example :
    (s' : Impl) × (recalculate false due ≡ ok s') × IsRated s'.active_users s'.rating
recalculate-IsRated_example = recalculate-IsRated false due due_lem tt

deals_loop-Pending_example :
    Pending (deals_loop ((8, 400) ∷ []) due)
    × ((deals_loop ((8, 400) ∷ []) due).rating ≡ first_rating)
    × (2 + (deals_loop ((8, 400) ∷ []) due).fresh_ratings < 2 ^ 31)
deals_loop-Pending_example =
    deals_loop-Pending ((8, 400) ∷ []) due (Pending-start due due_lem) (tt, tt)
      (Ready-start due refl (8, 400) due_lem.raises.0, tt) (omega arith)

deals_loop-Pending_state :
    Pending (deals_loop ((8, 400) ∷ []) due)
    × (length (deals_loop ((8, 400) ∷ []) due).rating
          + (deals_loop ((8, 400) ∷ []) due).fresh_ratings
        < 2 ^ 31)
deals_loop-Pending_state =
    let (v, same, small) =
      deals_loop-Pending ((8, 400) ∷ []) due (Pending-start due due_lem) (tt, tt)
        (Ready-start due refl (8, 400) due_lem.raises.0, tt) (omega arith) in
    (v, omega (arith, small, ap length same))

rebuild_rating-IsRated_example :
    (s' : Impl) × (rebuild_rating (deals_loop ((8, 400) ∷ []) due) ≡ ok s')
    × IsRated s'.active_users s'.rating
rebuild_rating-IsRated_example =
    rebuild_rating-IsRated (deals_loop ((8, 400) ∷ []) due) deals_loop-Pending_state.0
      (omega (arith, deals_loop-Pending_state.1))

rating_elements_after-splits_example :
    AtLeast winnings
      (bias64 400)
      (take (2 - rating_elements_after users first_rating 400) (places users first_rating))
    × Under winnings
        (bias64 400)
        (drop (2 - rating_elements_after users first_rating 400) (places users first_rating))
rating_elements_after-splits_example =
    rating_elements_after-splits users first_rating 400 users-IsRated.falling

-- A minute in which a user comes, two get new names (one of them is not known), and one who has a place,
-- the new one and an unknown one connect or leave.
abbrev busy : Impl
busy = record due {
  buffer = record empty_buffer {
    users_registered = (9, 65 ∷ []) ∷ [];
    users_renamed = (7, 66 ∷ []) ∷ ((4, 67 ∷ []) ∷ []);
    connection_changes = (7, 12) ∷ ((9, 30) ∷ ((4, 60) ∷ []));
    deals_won = (8, 400) ∷ [];
  };
}

prepare-Kept_example : Prepares busy
prepare-Kept_example = prepare-Kept busy (refl, (refl, (refl, tt)))

abbrev first_loop : LoopState
first_loop = record {
  rating = first_rating ++ (none ∷ []);
  users = users;
  offset = 1;
  old_positions = 0;
  length_done = 0;
}

apply_patches_lem_example :
    Rebuilds 2
      (new_entry 9 0 100 ∷ [])
      first_rating
      []
      users
      (apply_patches 2 (new_entry 9 0 100 ∷ []) first_loop)
apply_patches_lem_example =
    apply_patches_lem (new_entry 9 0 100 ∷ []) first_rating 1 first_loop refl refl refl refl
      (omega arith) (omega arith, omega arith, tt) (omega arith, refl)

abbrev two_users : CoreRatingData
two_users = record {
  silent_users = [];
  active_users = users;
  rating = first_rating;
  expiration_date = 0;
}

abbrev one_deal : List (ℕ × UserMsg)
one_deal = (3, deal_won (record { user_id = 8; winnings = 400 })) ∷ []

recalculate-dispatch_all_example :
    (s : Impl) × (recalculate true
        (start two_users nobody_online (collected one_deal (new_pack ∷ []) 0))
      ≡ ok s)
    × IsRated s.active_users s.rating
unfolding dispatch_all dispatch update_at insert_ordered find
recalculate-dispatch_all_example =
    recalculate-dispatch_all true two_users nobody_online one_deal (new_pack ∷ []) 0 users-IsRated
      (omega arith, tt) ((λ u e. ground arith), tt) (omega arith)
