-- ===== src/Calculator/Deals/Pending.antt =====
-- The state of RatingCalculatorImpl (service/rating_calculator.cpp) while deals are processed.
use iqoption_test_task.Prelude.{ℕ, ◌+◌, ◌<◌, ◌≡◌, some, length, get_elem?, bias64, add64}
use iqoption_test_task.Maps.{find}
use iqoption_test_task.Core.{FullUserData}
use iqoption_test_task.Calculator.Patches.{RatingPatchEntry}
use iqoption_test_task.Calculator.Users.{Impl}
use iqoption_test_task.Calculator.Rebuild.{Spaced, Balanced}
use iqoption_test_task.Calculator.Changes.{changes_by, changes_of}
use iqoption_test_task.Calculator.Content.{count_if, drops_if, puts_if}
use iqoption_test_task.Calculator.Order.{Falling, Splits}
use iqoption_test_task.Calculator.Sorted.{InOrder}
use iqoption_test_task.Calculator.Rated.{Place, winnings, places, is_null, is_user, is_null, active}

-- The place that a patch puts.
abbrev pub place_of : RatingPatchEntry → Place
place_of p = (p.user_data, bias64 p.amount_won)

-- How many patches take user i out of the rating, and how many put him there.
abbrev pub outs : ℕ → Impl → ℕ
outs i s = drops_if (is_user i) (length s.rating) s.rating (changes_of s.patches)

abbrev pub ins : ℕ → Impl → ℕ
ins i s = puts_if (is_user i) (changes_of s.patches)

-- The state between the deals and the rebuilding of the vector.
pub record Pending (s : Impl) : Type 0 where
  pub spaced : Spaced (length s.rating) (length s.rating) (changes_by place_of s.patches)
  pub balanced : Balanced s.fresh_ratings (changes_by place_of s.patches)
  pub ordered : InOrder s.patches
  pub splits :
      Splits winnings
        (length s.rating)
        (places s.active_users s.rating)
        (changes_by place_of s.patches)
  pub falling : Falling winnings (places s.active_users s.rating)
  pub no_null : count_if is_null s.rating ≡ 0
  pub no_null_in : puts_if is_null (changes_of s.patches) ≡ 0
  pub placed :
      (i : ℕ) → outs i s + active i s.active_users ≡ ins i s + count_if (is_user i) s.rating
  pub positions :
      (i : ℕ) (u : FullUserData)
      → find i s.active_users ≡ some u
      → ins i s ≡ 0
      → get_elem? s.rating u.rating ≡ some (some i)

-- No deal of this user was processed yet, and his deal raises what he has.
pub record Ready (s : Impl) (deal : ℕ × ℕ) : Type 0 where
  pub not_out : outs deal.0 s ≡ 0
  pub not_in : ins deal.0 s ≡ 0
  pub raises :
      (u : FullUserData)
      → find deal.0 s.active_users ≡ some u
      → bias64 u.amount_won < bias64 (add64 u.amount_won deal.1)
