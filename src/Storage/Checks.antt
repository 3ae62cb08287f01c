-- ===== src/Storage/Checks.antt =====
-- UserDataStorage::Impl of test/storage.cpp: the checks of what the service sent, and the counters that
-- they move. What is written to the console is left out.
use iqoption_test_task.Prelude.{
  ℕ, ◌+◌, ◌-◌, ◌^◌, Bool, true, false, not, ◌&&◌, ◌||◌, none, some, List, [], ◌∷◌, length, take,
  drop, min, leb, ◌==◌, if◌then◌else◌, add32, sub32, lt_s32,
}
use iqoption_test_task.Failures.{Result, ok, throws, assertion_failed}
use iqoption_test_task.Maps.{find}
use iqoption_test_task.Core.{invalid_rating}
use iqoption_test_task.Protocol.Constants.{top_positions, competition_distance}
use iqoption_test_task.Protocol.Rating.{RatingEntry, RatingPackMessage, nonneg32}
use iqoption_test_task.Protocol.Service.{
  GenericProtocolError, user_unrecognized_error, multiple_registration_error,
  unsupported_protocol_version_error,
}
use iqoption_test_task.Storage.{FullUserDataEx, ValidationReport, increment, Impl, object_at, edit}

-- An `int` that is compared with a size.
abbrev pub as_size : ℕ → ℕ
as_size a = if nonneg32 a then a else a + (2 ^ 64 - 2 ^ 32)

-- An error that came in, and that was expected or was not.
abbrev pub count_error : Bool → Impl → Impl
count_error expected s =
    let r = s.report in
    record s {
      report =
          if expected
          then record r {
            incoming_errors = increment r.incoming_errors;
            valid_errors = increment r.valid_errors;
          }
          else record r {
            incoming_errors = increment r.incoming_errors;
            failures = increment r.failures;
          };
    }

-- A fake user has an id below 0.
unfoldable pub validate_error : GenericProtocolError → Impl → Result Impl
validate_error (multiple_registration_error id) s = ok (count_error false s)
validate_error (user_unrecognized_error id) s = ok (count_error (not (nonneg32 id)) s)
validate_error (unsupported_protocol_version_error v) s = throws assertion_failed

-- The bits of the result of `validateSingleRating`.
pub record SingleResult : Type 0 where
  pub not_found : Bool
  pub wrong_position : Bool
  pub wrong_winnings : Bool
  pub wrong_name : Bool

abbrev pub is_wrong : SingleResult → Bool
is_wrong r = r.not_found || (r.wrong_position || (r.wrong_winnings || r.wrong_name))

-- std::find in a history; from which end makes no difference to whether it is there.
unfoldable pub in_history : ℕ → List ℕ → Bool
in_history w [] = false
in_history w (v ∷ vs) = v == w || in_history w vs

unfoldable pub same_name : List ℕ → List ℕ → Bool
same_name [] [] = true
same_name (x ∷ xs) (y ∷ ys) = x == y && same_name xs ys
same_name [] (y ∷ ys) = false
same_name (x ∷ xs) [] = false

unfoldable pub in_names : List ℕ → List (List ℕ) → Bool
in_names n [] = false
in_names n (m ∷ ms) = same_name m n || in_names n ms

-- Winnings that are outdated: known from the history, and not the present ones.
abbrev pub is_outdated : FullUserDataEx → RatingEntry → Bool
is_outdated u e = not (u.winnings == e.winnings) && in_history e.winnings u.winnings_history

-- The result for a user who was found.
unfoldable pub compare_entry : FullUserDataEx → RatingEntry → ℕ → SingleResult
compare_entry u e expected_place = record {
  not_found = false;
  wrong_position = not (u.rating == expected_place) && not (is_outdated u e);
  wrong_winnings = not (u.winnings == e.winnings) && not (in_history e.winnings u.winnings_history);
  wrong_name = not (same_name u.name e.name) && not (in_names e.name u.name_list);
}

abbrev pub not_found_result : SingleResult
not_found_result = record {
  not_found = true;
  wrong_position = false;
  wrong_winnings = false;
  wrong_name = false;
}

abbrev pub count_outdated : Bool → ValidationReport → ValidationReport
count_outdated outdated r =
    if outdated then record r { outdated_winnings = increment r.outdated_winnings } else r

unfoldable pub validate_single_rating : RatingEntry → ℕ → Impl → SingleResult × Impl
validate_single_rating e expected_place s = elim (find e.id s.index) [
  | none ↦ (not_found_result, s)
  | some p ↦
      let u = object_at s p in
      (
        compare_entry u e expected_place,
        record s { report = count_outdated (is_outdated u e) s.report },
      )
]

-- Whether a check failed, and the storage.
abbrev pub Checking : Type 0
Checking = Bool × Impl

-- What a check that fails does to `failure` and to a counter.
abbrev pub fail_if : Bool → (ValidationReport → ValidationReport) → Checking → Checking
fail_if wrong count (failure, s) =
    if wrong then (true, record s { report = count s.report }) else (failure, s)

-- A loop over entries, from an expected place on.
unfoldable pub check_entries :
    (ValidationReport → ValidationReport) → List RatingEntry → ℕ → Checking → Checking
check_entries count [] expected_place c = c
check_entries count (e ∷ es) expected_place (failure, s) =
    let (result, s') = validate_single_rating e expected_place s in
    check_entries count es (add32 expected_place 1) (fail_if (is_wrong result) count (failure, s'))

abbrev pub count_size : ValidationReport → ValidationReport
count_size r = record r { rating_size_wrong = increment r.rating_size_wrong }

abbrev pub count_position : ValidationReport → ValidationReport
count_position r = record r { user_position_wrong = increment r.user_position_wrong }

abbrev pub count_unknown : ValidationReport → ValidationReport
count_unknown r = record r { user_not_found = increment r.user_not_found }

abbrev pub count_top : ValidationReport → ValidationReport
count_top r = record r { top_positions_wrong = increment r.top_positions_wrong }

abbrev pub count_surroundings : ValidationReport → ValidationReport
count_surroundings r = record r { surroundings_wrong = increment r.surroundings_wrong }

unfoldable pub check_size : RatingPackMessage → Checking → Checking
check_size m (failure, s) =
    fail_if (not (as_size m.rating_length == length s.rating)) count_size (failure, s)

-- A user who came after the rating was made stands behind all of it.
abbrev pub position_wrong : FullUserDataEx → RatingPackMessage → Bool
position_wrong u m =
    if not (u.rating == invalid_rating)
    then not (u.rating == m.rating_pos)
    else not (m.rating_pos == m.rating_length)

unfoldable pub check_position : RatingPackMessage → Checking → Checking
check_position m (failure, s) = elim (find m.user_id s.index) [
  | none ↦ fail_if true count_unknown (failure, s)
  | some p ↦
      fail_if (position_wrong (object_at s p) m) count_position
        (failure, edit p (λ u. record u { rating_received = true }) s)
]

unfoldable pub check_tops : RatingPackMessage → Checking → Checking
check_tops m c = check_entries count_top (take (min (length m.ratings) top_positions) m.ratings) 0 c

-- std::max(topPositions, getRatingPos() - competitionDistance), of signed numbers.
abbrev pub first_near : ℕ → ℕ
first_near pos =
    let p = sub32 pos competition_distance in if lt_s32 top_positions p then p else top_positions

unfoldable pub check_surroundings : RatingPackMessage → Checking → Checking
check_surroundings m c =
    if lt_s32 top_positions m.rating_length
    then check_entries count_surroundings (drop top_positions m.ratings) (first_near m.rating_pos) c
    else c

-- The counters at the end.
abbrev pub concluded : Checking → Impl
concluded (failure, s) =
    let r = s.report in
    record s {
      report =
          if failure
          then record r { failures = increment r.failures }
          else record r { valid_ratings = increment r.valid_ratings };
    }

abbrev pub count_incoming : Impl → Impl
count_incoming s =
    let r = s.report in
    record s { report = record r { incoming_ratings = increment r.incoming_ratings } }

abbrev pub count_mess : Impl → Impl
count_mess s =
    let r = s.report in
    record s {
      report = record r {
        rating_fully_messed = increment r.rating_fully_messed;
        failures = increment r.failures;
      };
    }

-- `currentSecond` is not used.
unfoldable pub validate_rating : RatingPackMessage → Impl → Impl
validate_rating m s =
    let t = count_incoming s in
    if not (nonneg32 m.user_id) || leb (length s.index) m.user_id
    then count_mess t
    else concluded
        (check_surroundings m (check_tops m (check_position m (check_size m (false, t)))))
