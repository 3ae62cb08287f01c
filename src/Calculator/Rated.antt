-- ===== src/Calculator/Rated.antt =====
-- What makes a rating correct, and where `ratingElementsAfter` finds the place of an amount.
use iqoption_test_task.Prelude.{
  ℕ, zero, suc, ◌-◌, ◌≤◌, ◌<◌, ◌≡◌, refl, sym, ap, subst, Bool, true, false, inl, inr, List, [],
  ◌∷◌, arith, some, none, Bool-cases, length, take, drop, get_elem?, bias64, lt_s64, ltb→lt, lt→ltb,
  ◌==◌, Every-map,
}
use iqoption_test_task.Maps.{find, is_some}
use iqoption_test_task.Core.{Pointer, ActiveUsersMap, RatingVector, FullUserData, deref}
use iqoption_test_task.Calculator.Patches.{from_upper_bound, rating_elements_after}
use iqoption_test_task.Calculator.Content.{count_if, one_if}
use iqoption_test_task.Calculator.Order.{Falling, AtLeast, Under}

-- A place of the rating: who stands there, and what he won, in the order of signed numbers.
abbrev pub Place : Type 0
Place = Pointer × ℕ

abbrev pub winnings : Place → ℕ
winnings e = e.1

abbrev pub amount_of : ActiveUsersMap → Pointer → ℕ
amount_of users p = bias64 (deref users p).amount_won

abbrev pub places : ActiveUsersMap → RatingVector → List Place
places users [] = []
places users (p ∷ ps) = (p, amount_of users p) ∷ places users ps

abbrev pub is_user : ℕ → Pointer → Bool
is_user i none = false
is_user i (some j) = i == j

abbrev pub is_null : Pointer → Bool
is_null none = true
is_null (some j) = false

-- 1 if the user is active.
abbrev pub active : ℕ → ActiveUsersMap → ℕ
active i users = one_if (is_some (find i users))

-- Every active user has exactly one place, nobody else has one, no pointer is null; a user's
-- `rating` is his place; the amounts fall.
pub record IsRated (users : ActiveUsersMap) (rating : RatingVector) : Type 0 where
  pub placed : (i : ℕ) → count_if (is_user i) rating ≡ active i users
  pub positions :
      (i : ℕ) (u : FullUserData) → find i users ≡ some u → get_elem? rating u.rating ≡ some (some i)
  pub falling : Falling winnings (places users rating)
  pub no_null : count_if is_null rating ≡ 0

pub length-places : (users : ActiveUsersMap) (v : RatingVector) → length (places users v) ≡ length v
length-places users [] = refl
length-places users (p ∷ ps) = ap suc (length-places users ps)

module _ (users : ActiveUsersMap) (total : ℕ) where
  abbrev behind : RatingVector → ℕ
  behind v = rating_elements_after users v total

  pub elements_after-le : (v : RatingVector) → behind v ≤ length v
  unfolding rating_elements_after from_upper_bound
  elements_after-le [] = omega arith
  elements_after-le (p ∷ ps) = ground (arith, elements_after-le ps)

  -- Nobody before the place has less.
  pub before_place :
      (v : RatingVector)
      → AtLeast winnings (bias64 total) (take (length v - behind v) (places users v))
  unfolding rating_elements_after from_upper_bound
  before_place [] = tt
  before_place (p ∷ ps) = elim (Bool-cases (lt_s64 (deref users p).amount_won total)) [
    | inl l ↦ rw l (let z : suc (length ps) - suc (length ps) ≡ 0 = omega arith in rw z tt)
    | inr l ↦
        let le = elements_after-le ps in
        let s : suc (length ps) - behind ps ≡ suc (length ps - behind ps) = omega arith in
        rw l (rw s (ground arith, before_place ps))
  ]

  -- All from the place on have less.
  pub from_place :
      (v : RatingVector)
      → Falling winnings (places users v)
      → Under winnings (bias64 total) (drop (length v - behind v) (places users v))
  unfolding rating_elements_after from_upper_bound
  from_place [] f = tt
  from_place (p ∷ ps) f = elim (Bool-cases (lt_s64 (deref users p).amount_won total)) [
    | inl l ↦
        let first = ltb→lt (amount_of users p) (bias64 total) l in
        rw l (
          let z : suc (length ps) - suc (length ps) ≡ 0 = omega arith in
          rw z (
            first,
            Every-map (λ y (h : winnings y ≤ amount_of users p). omega arith) (places users ps) f.0,
          ))
    | inr l ↦
        let le = elements_after-le ps in
        let s : suc (length ps) - behind ps ≡ suc (length ps - behind ps) = omega arith in
        rw l (rw s (from_place ps f.1))
  ]

  -- The place is at or before that of anybody who has less.
  pub place_le :
      (v : RatingVector) (j : ℕ) (p : Pointer)
      → get_elem? v j ≡ some p
      → amount_of users p < bias64 total
      → length v - behind v ≤ j
  unfolding rating_elements_after from_upper_bound
  place_le [] j p e h = absurd (cc)
  place_le (r ∷ rs) zero p e h =
      let same : r ≡ p = cc in
      let less = subst (λ x. amount_of users x < bias64 total) (sym same) h in
      rw (lt→ltb (amount_of users r) (bias64 total) less) (omega arith)
  place_le (r ∷ rs) (suc j) p e h = ground (arith, place_le rs j p e h, elements_after-le rs)

-- In a rating whose amounts fall, the place that `ratingElementsAfter` finds for an amount divides it:
-- nobody before it has less, and all from it on have less.
pub rating_elements_after-splits :
    (users : ActiveUsersMap) (v : RatingVector) (total : ℕ)
    → Falling winnings (places users v)
    → let place = length v - rating_elements_after users v total in
      AtLeast winnings (bias64 total) (take place (places users v))
      × Under winnings (bias64 total) (drop place (places users v))
rating_elements_after-splits users v total f =
    (before_place users total v, from_place users total v f)
