-- ===== src/Calculator/Patches.antt =====
-- RatingPatchEntry and RatingPatchSet of service/rating_calculator.cpp.
use iqoption_test_task.Prelude.{
  ℕ, Bool, not, none, some, List, [], ◌∷◌, ltb, ◌==◌, if◌then◌else◌, lt_s64, length,
}
use iqoption_test_task.Core.{Pointer, ActiveUsersMap, RatingVector, deref}

pub data RatingChangeType : Type 0 where
  new_position old_position : RatingChangeType

-- The value of the enumerator.
abbrev pub type_value : RatingChangeType → ℕ
type_value new_position = 0
type_value old_position = 1

pub record RatingPatchEntry : Type 0 where
  pub user_data : Pointer
  pub elements_after : ℕ
  pub change_type : RatingChangeType
  pub amount_won : ℕ

-- RatingPatchEntry(ea)
abbrev pub old_entry : ℕ → RatingPatchEntry
old_entry ea = record {
  user_data = none;
  elements_after = ea;
  change_type = old_position;
  amount_won = 0;
}

-- RatingPatchEntry(ud, ea, NewPosition, aw)
abbrev pub new_entry : ℕ → ℕ → ℕ → RatingPatchEntry
new_entry user ea aw = record {
  user_data = some user;
  elements_after = ea;
  change_type = new_position;
  amount_won = aw;
}

-- operator<; the numbers of elements are never negative.
unfoldable pub less : RatingPatchEntry → RatingPatchEntry → Bool
less a b =
    if not (a.elements_after == b.elements_after)
    then ltb a.elements_after b.elements_after
    else if not (type_value a.change_type == type_value b.change_type)
    then ltb (type_value a.change_type) (type_value b.change_type)
    else lt_s64 a.amount_won b.amount_won

-- std::multiset::emplace: behind the entries that are not greater.
unfoldable pub emplace_patch : RatingPatchEntry → List RatingPatchEntry → List RatingPatchEntry
emplace_patch p [] = p ∷ []
emplace_patch p (q ∷ qs) = if less p q then p ∷ (q ∷ qs) else q ∷ emplace_patch p qs

-- std::upper_bound with `left > right->amountWon`, as the part of the vector from its result on: on
-- a vector that is sorted by falling amounts, all before it fail the test and all behind pass it.
unfoldable pub from_upper_bound : ActiveUsersMap → ℕ → RatingVector → RatingVector
from_upper_bound users winnings [] = []
from_upper_bound users winnings (p ∷ ps) =
    if lt_s64 (deref users p).amount_won winnings
    then p ∷ ps
    else from_upper_bound users winnings ps

-- ratingElementsAfter
unfoldable pub rating_elements_after : ActiveUsersMap → RatingVector → ℕ → ℕ
rating_elements_after users rating winnings = length (from_upper_bound users winnings rating)
