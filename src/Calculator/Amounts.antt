-- ===== src/Calculator/Amounts.antt =====
-- What the loop over the patches and ratingRefreshPositions (service/rating_calculator.cpp) write
-- to the users.
use iqoption_test_task.Prelude.{
  ℕ, ◌≤◌, ◌≡◌, refl, sym, ◌∙◌, Bool, false, inl, inr, List, [], ◌∷◌, ◌&&◌, ◌⊎◌, arith, some, none,
  ==_iff, bias64, ◌==◌, if◌then◌else◌, Bool-cases,
}
use iqoption_test_task.Maps.{contains, assign, find-assign}
use iqoption_test_task.Core.{Pointer, ActiveUsersMap, FullUserData, deref, user_or_blank}
use iqoption_test_task.Calculator.Patches.{
  RatingPatchEntry, RatingChangeType, new_position, old_position,
}
use iqoption_test_task.Calculator.Moves.{set_rating, set_amount}
use iqoption_test_task.Calculator.Changes.{change_at, changes_by, changes_of}
use iqoption_test_task.Calculator.Content.{one_if, puts_if}
use iqoption_test_task.Calculator.Loop.{set_amounts, amounts_at}
use iqoption_test_task.Calculator.Deals.Pending.{place_of}
use iqoption_test_task.Calculator.Rebuild.{Change}
use iqoption_test_task.Calculator.Rated.{Place, amount_of, is_user, active}

-- An assignment to a user who is there, as seen through a pointer.
deref-assign :
    (users : ActiveUsersMap) (i j : ℕ) (u : FullUserData)
    → deref (assign i u users) (some j) ≡ (
        if i == j
        then user_or_blank (if contains i users then some u else none)
        else deref users (some j))
unfolding deref
deref-assign users i j u = ground (arith, find-assign i j u users)

active-set_amount :
    (i a : ℕ) (p : Pointer) (users : ActiveUsersMap)
    → active i (set_amount p a users) ≡ active i users
unfolding set_amount contains
active-set_amount i a none users = refl
active-set_amount i a (some j) users =
    ground (arith, find-assign j i (record (deref users (some j)) { amount_won = a }) users)

pub active-set_rating :
    (i a : ℕ) (p : Pointer) (users : ActiveUsersMap)
    → active i (set_rating p a users) ≡ active i users
unfolding set_rating contains
active-set_rating i a none users = refl
active-set_rating i a (some j) users =
    ground (arith, find-assign j i (record (deref users (some j)) { rating = a }) users)

-- The amount of one user is set, that of the others stays.
amount-set_amount_ne :
    (i j a : ℕ) (users : ActiveUsersMap)
    → (i == j) ≡ false
    → amount_of (set_amount (some j) a users) (some i) ≡ amount_of users (some i)
unfolding set_amount
amount-set_amount_ne i j a users h =
    ground (arith, deref-assign users j i (record (deref users (some j)) { amount_won = a }))

amount-set_amount_self :
    (i a : ℕ) (users : ActiveUsersMap)
    → active i users ≡ 1
    → amount_of (set_amount (some i) a users) (some i) ≡ bias64 a
unfolding set_amount contains
amount-set_amount_self i a users h =
    ground (arith, deref-assign users i i (record (deref users (some i)) { amount_won = a }))

pub amount-set_rating :
    (p : Pointer) (a : ℕ) (q : Pointer) (users : ActiveUsersMap)
    → amount_of (set_rating q a users) p ≡ amount_of users p
unfolding set_rating contains deref
amount-set_rating p a none users = refl
amount-set_rating none a (some j) users = refl
amount-set_rating (some i) a (some j) users =
    ground (arith, find-assign j i (record (deref users (some j)) { rating = a }) users)

abbrev pub pointer_of : RatingPatchEntry → Pointer
pointer_of p = p.user_data

kept_at :
    (t : RatingChangeType) (q : Pointer) (p : RatingPatchEntry) (i ea : ℕ) (users : ActiveUsersMap)
    (ps : List RatingPatchEntry)
    → p.user_data ≡ q
    → puts_if (is_user i) (change_at t ea q ∷ changes_of ps) ≡ 0
    → (amount_of (amounts_at t p users) (some i) ≡ amount_of users (some i))
      × (active i (amounts_at t p users) ≡ active i users)
      × (puts_if (is_user i) (changes_of ps) ≡ 0)
unfolding set_amount
kept_at old_position q p i ea users ps e h = (refl, refl, h)
kept_at new_position none p i ea users ps e h = rw e (refl, refl, omega arith)
kept_at new_position (some j) p i ea users ps e h = rw e (
  amount-set_amount_ne i j p.amount_won users (ground arith),
  active-set_amount i p.amount_won (some j) users,
  omega arith,
)

-- A user that no patch puts keeps his amount.
pub amount-set_amounts_kept :
    (ps : List RatingPatchEntry) (users : ActiveUsersMap) (i : ℕ)
    → puts_if (is_user i) (changes_of ps) ≡ 0
    → amount_of (set_amounts ps users) (some i) ≡ amount_of users (some i)
unfolding set_amounts
amount-set_amounts_kept [] users i h = refl
amount-set_amounts_kept (p ∷ ps) users i h =
    let (same, act, rest) =
      kept_at p.change_type p.user_data p i p.elements_after users ps refl h in
    amount-set_amounts_kept ps (amounts_at p.change_type p users) i rest ∙ same

pub active-set_amounts :
    (ps : List RatingPatchEntry) (users : ActiveUsersMap) (i : ℕ)
    → active i (set_amounts ps users) ≡ active i users
unfolding set_amounts
active-set_amounts [] users i = refl
active-set_amounts (p ∷ ps) users i =
    active-set_amounts ps (amounts_at p.change_type p users) i ∙ active_at p.change_type
  where
    active_at : (t : RatingChangeType) → active i (amounts_at t p users) ≡ active i users
    active_at old_position = refl
    active_at new_position = active-set_amount i p.amount_won p.user_data users

-- The place of user i with k won.
abbrev pub is_place : ℕ → ℕ → Place → Bool
is_place i k e = is_user i e.0 && k == e.1

place_le_user : (i k : ℕ) (e : Place) → one_if (is_place i k e) ≤ one_if (is_user i e.0)
place_le_user i k e = ground arith

puts_place_le :
    (t : RatingChangeType) (i k ea : ℕ) (q : Pointer) (b : ℕ) (cs : List (Change Place))
    (ds : List (Change Pointer))
    → puts_if (is_place i k) cs ≤ puts_if (is_user i) ds
    → puts_if (is_place i k) (change_at t ea (q, b) ∷ cs)
      ≤ puts_if (is_user i) (change_at t ea q ∷ ds)
puts_place_le old_position i k ea q b cs ds h = h
puts_place_le new_position i k ea q b cs ds h = omega (arith, place_le_user i k (q, b))

pub puts-place-le-user :
    (ps : List RatingPatchEntry) (i k : ℕ)
    → puts_if (is_place i k) (changes_by place_of ps) ≤ puts_if (is_user i) (changes_of ps)
puts-place-le-user [] i k = omega arith
puts-place-le-user (p ∷ ps) i k =
    puts_place_le p.change_type i k p.elements_after p.user_data (bias64 p.amount_won)
      (changes_by place_of ps) (changes_of ps) (puts-place-le-user ps i k)

-- The first patch of a list, if one patch at most puts the user: it does, or a later one does.
put_at :
    (t : RatingChangeType) (q : Pointer) (p : RatingPatchEntry) (i k ea : ℕ)
    (users : ActiveUsersMap) (ps : List RatingPatchEntry)
    → p.user_data ≡ q
    → active i users ≡ 1
    → puts_if (is_place i k) (changes_by place_of ps) ≤ puts_if (is_user i) (changes_of ps)
    → puts_if (is_user i) (change_at t ea q ∷ changes_of ps) ≤ 1
    → 1 ≤ puts_if (is_place i k) (change_at t ea (q, bias64 p.amount_won) ∷ changes_by place_of ps)
    → ((puts_if (is_user i) (changes_of ps) ≡ 0) × (amount_of (amounts_at t p users) (some i) ≡ k))
      ⊎ ((puts_if (is_user i) (changes_of ps) ≤ 1)
          × (1 ≤ puts_if (is_place i k) (changes_by place_of ps)))
unfolding set_amount
put_at old_position q p i k ea users ps e act le h one = inr (h, one)
put_at new_position none p i k ea users ps e act le h one = inr (omega arith, omega arith)
put_at new_position (some j) p i k ea users ps e act le h one = elim (Bool-cases (i == j)) [
  | inr other ↦ inr (ground arith, ground arith)
  | inl self ↦ inl (
    ground arith,
    let same : i ≡ j = (==_iff i j).0 self in
        let right : k ≡ bias64 p.amount_won = ground arith in
        rw (e, sym same) (amount-set_amount_self i p.amount_won users act ∙ sym right),
  )
]

-- The one patch that puts an active user sets his amount.
pub amount-set_amounts_put :
    (ps : List RatingPatchEntry) (users : ActiveUsersMap) (i k : ℕ)
    → active i users ≡ 1
    → puts_if (is_user i) (changes_of ps) ≤ 1
    → 1 ≤ puts_if (is_place i k) (changes_by place_of ps)
    → amount_of (set_amounts ps users) (some i) ≡ k
unfolding set_amounts
amount-set_amounts_put [] users i k act le one = absurd (omega arith)
amount-set_amounts_put (p ∷ ps) users i k act le one =
    elim (put_at p.change_type p.user_data p i k p.elements_after users ps refl act
      (puts-place-le-user ps i k) le one) [
        | inl h ↦ amount-set_amounts_kept ps (amounts_at p.change_type p users) i h.0 ∙ h.1
        | inr h ↦
            amount-set_amounts_put ps (amounts_at p.change_type p users) i k
              (active-set_amounts (p ∷ []) users i ∙ act) h.0 h.1
      ]
