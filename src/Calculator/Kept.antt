-- ===== src/Calculator/Kept.antt =====
-- What the processing of registrations, renames and connections keeps (service/rating_calculator.cpp).
use iqoption_test_task.Prelude.{ℕ, ◌≡◌, refl, ◌∙◌, true, arith, Option, some, none, ltb, ◌||◌, ◌==◌}
use iqoption_test_task.Maps.{find, contains, assign, find-assign}
use iqoption_test_task.Core.{FullUserData, ActiveUsersMap, invalid_second}
use iqoption_test_task.Calculator.Users.{Impl}

-- The amount and the place of a user.
abbrev pub standing_of : Option FullUserData → Option (ℕ × ℕ)
standing_of none = none
standing_of (some u) = some (u.amount_won, u.rating)

abbrev pub standing : ℕ → ActiveUsersMap → Option (ℕ × ℕ)
standing i users = standing_of (find i users)

-- Nothing that the rating stands on was changed.
pub record Kept (s s' : Impl) : Type 0 where
  pub rating : s'.rating ≡ s.rating
  pub patches : s'.patches ≡ s.patches
  pub fresh : s'.fresh_ratings ≡ s.fresh_ratings
  pub deals : s'.buffer.deals_won ≡ s.buffer.deals_won
  pub standings : (i : ℕ) → standing i s'.active_users ≡ standing i s.active_users

pub Kept-refl : (s : Impl) → Kept s s
Kept-refl s = record {
  rating = refl;
  patches = refl;
  fresh = refl;
  deals = refl;
  standings = λ i. refl;
}

pub Kept-trans : (r s t : Impl) → Kept r s → Kept s t → Kept r t
Kept-trans r s t h k = record {
  rating = k.rating ∙ h.rating;
  patches = k.patches ∙ h.patches;
  fresh = k.fresh ∙ h.fresh;
  deals = k.deals ∙ h.deals;
  standings = λ i. k.standings i ∙ h.standings i;
}

-- A user whose amount and place stay is replaced.
pub standing-assign :
    (j : ℕ) (u v : FullUserData) (users : ActiveUsersMap)
    → find j users ≡ some u
    → v.amount_won ≡ u.amount_won
    → v.rating ≡ u.rating
    → (i : ℕ) → standing i (assign j v users) ≡ standing i users
unfolding contains
standing-assign j u v users e a r i = ground (arith, find-assign j i v users)

-- A second of a minute, or the mark of a user who is not connected.
abbrev pub IsSecond : ℕ → Type 0
IsSecond second = (ltb second 60 || second == invalid_second) ≡ true
