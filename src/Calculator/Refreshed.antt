-- ===== src/Calculator/Refreshed.antt =====
-- ratingRefreshPositions of service/rating_calculator.cpp: each user learns his place.
use iqoption_test_task.Prelude.{
  ℕ, suc, ◌-◌, ◌≤◌, ◌≡◌, refl, sym, ap, ◌∙◌, true, false, inl, inr, [], ◌∷◌, arith, some, none,
  Bool-cases, get_elem?, ==_iff,
}
use iqoption_test_task.Maps.{find, contains, find-assign}
use iqoption_test_task.Core.{Pointer, ActiveUsersMap, RatingVector, FullUserData, deref}
use iqoption_test_task.Calculator.Moves.{set_rating, refresh_from}
use iqoption_test_task.Calculator.Content.{count_if}
use iqoption_test_task.Calculator.Rated.{amount_of, places, is_user, active}
use iqoption_test_task.Calculator.Amounts.{amount-set_rating, active-set_rating}

pub amount-refresh_from :
    (ps : RatingVector) (pos : ℕ) (users : ActiveUsersMap) (p : Pointer)
    → amount_of (refresh_from pos ps users) p ≡ amount_of users p
unfolding refresh_from
amount-refresh_from [] pos users p = refl
amount-refresh_from (q ∷ qs) pos users p =
    amount-refresh_from qs (suc pos) (set_rating q pos users) p ∙ amount-set_rating p pos q users

pub active-refresh_from :
    (ps : RatingVector) (pos : ℕ) (users : ActiveUsersMap) (i : ℕ)
    → active i (refresh_from pos ps users) ≡ active i users
unfolding refresh_from
active-refresh_from [] pos users i = refl
active-refresh_from (q ∷ qs) pos users i =
    active-refresh_from qs (suc pos) (set_rating q pos users) i ∙ active-set_rating i pos q users

pub places-refresh_from :
    (vs ps : RatingVector) (pos : ℕ) (users : ActiveUsersMap)
    → places (refresh_from pos ps users) vs ≡ places users vs
places-refresh_from [] ps pos users = refl
places-refresh_from (v ∷ vs) ps pos users =
    rw (amount-refresh_from ps pos users v, places-refresh_from vs ps pos users) refl

find-set_rating_ne :
    (i a : ℕ) (p : Pointer) (users : ActiveUsersMap)
    → is_user i p ≡ false
    → find i (set_rating p a users) ≡ find i users
unfolding set_rating contains
find-set_rating_ne i a none users h = refl
find-set_rating_ne i a (some j) users h =
    ground (arith, find-assign j i (record (deref users (some j)) { rating = a }) users)

find-set_rating_self :
    (i a : ℕ) (p : Pointer) (users : ActiveUsersMap) (u : FullUserData)
    → is_user i p ≡ true
    → find i (set_rating p a users) ≡ some u
    → u.rating ≡ a
unfolding set_rating contains
find-set_rating_self i a none users u h e = absurd (cc)
find-set_rating_self i a (some j) users u h e =
    ground (arith, find-assign j i (record (deref users (some j)) { rating = a }) users)

-- Who does not stand in the rest of the vector is not touched.
find-refresh_from_out :
    (ps : RatingVector) (pos : ℕ) (users : ActiveUsersMap) (i : ℕ)
    → count_if (is_user i) ps ≡ 0
    → find i (refresh_from pos ps users) ≡ find i users
unfolding refresh_from
find-refresh_from_out [] pos users i h = refl
find-refresh_from_out (q ∷ qs) pos users i h =
    find-refresh_from_out qs (suc pos) (set_rating q pos users) i (omega arith)
    ∙ find-set_rating_ne i pos q users (ground arith)

user_pointer : (i : ℕ) (p : Pointer) → is_user i p ≡ true → p ≡ some i
user_pointer i none h = absurd (cc)
user_pointer i (some j) h = let e : i ≡ j = (==_iff i j).0 h in ap some (sym e)

-- Who stands once in the rest of the vector has his place there.
pub refresh_from-position :
    (ps : RatingVector) (pos : ℕ) (users : ActiveUsersMap) (i : ℕ) (u : FullUserData)
    → count_if (is_user i) ps ≡ 1
    → find i (refresh_from pos ps users) ≡ some u
    → (pos ≤ u.rating) × (get_elem? ps (u.rating - pos) ≡ some (some i))
unfolding refresh_from
refresh_from-position [] pos users i u one e = absurd (omega arith)
refresh_from-position (q ∷ qs) pos users i u one e = elim (Bool-cases (is_user i q)) [
  | inl self ↦
      let out : count_if (is_user i) qs ≡ 0 = ground arith in
      let at : u.rating ≡ pos =
        find-set_rating_self i pos q users u self
          (sym (find-refresh_from_out qs (suc pos) (set_rating q pos users) i out) ∙ e) in
      let first : u.rating - pos ≡ 0 = omega arith in
      (omega arith, rw first (ap some (user_pointer i q self)))
  | inr other ↦
      let (le, there) =
        refresh_from-position qs (suc pos) (set_rating q pos users) i u (ground arith) e in
      let step : u.rating - pos ≡ suc (u.rating - suc pos) = omega arith in
      (omega arith, rw step there)
]
