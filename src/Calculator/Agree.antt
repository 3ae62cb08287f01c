-- ===== src/Calculator/Agree.antt =====
-- After the loop of `recalculate` (service/rating_calculator.cpp) each user has the amount that the
-- place of the new vector stands for.
use iqoption_test_task.Prelude.{
  ℕ, zero, suc, ◌+◌, ◌-◌, ◌≤◌, ◌≡◌, refl, sym, ap, subst, ◌∙◌, Bool, inl, inr, List, [], ◌∷◌, arith,
  map, some, none, Bool-cases, length, get_elem?, take_all, ◌==◌, if◌then◌else◌, Every, ◌⊎◌, ==_iff,
}
use iqoption_test_task.Core.{Pointer, ActiveUsersMap, RatingVector}
use iqoption_test_task.Calculator.Patches.{
  RatingPatchEntry, RatingChangeType, new_position, old_position,
}
use iqoption_test_task.Calculator.Users.{Impl}
use iqoption_test_task.Calculator.Rebuild.{rebuild, Spaced}
use iqoption_test_task.Calculator.Changes.{change_at, changes_by, changes_of, map-rebuild}
use iqoption_test_task.Calculator.Content.{
  count_if, passes, one_if, drops_if, puts_if, count_if-rebuild, drops_if_le,
}
use iqoption_test_task.Calculator.Loop.{set_amounts}
use iqoption_test_task.Calculator.Measures.{Spaced-values}
use iqoption_test_task.Calculator.Rated.{
  Place, amount_of, places, is_user, is_null, active, length-places,
}
use iqoption_test_task.Calculator.Deals.Pending.{Pending, place_of, ins}
use iqoption_test_task.Calculator.Amounts.{
  is_place, amount-set_amounts_put, amount-set_amounts_kept,
}

pub map-places : (users : ActiveUsersMap) (v : RatingVector) → map (λ e. e.0) (places users v) ≡ v
map-places users [] = refl
map-places users (p ∷ ps) = ap (◌∷◌ p) (map-places users ps)

pub places_of_Every :
    (users : ActiveUsersMap) (xs : List Place)
    → Every (λ e. amount_of users e.0 ≡ e.1) xs
    → xs ≡ places users (map (λ e. e.0) xs)
places_of_Every users [] h = refl
places_of_Every users ((p, k) ∷ xs) h = rw (h.0, sym (places_of_Every users xs h.1)) refl

-- Only the amount of the user himself stands at his places.
module _ (users : ActiveUsersMap) (i k : ℕ) where
  place_one :
      (p : Pointer)
      → one_if (is_place i k (p, amount_of users p))
        ≡ (if k == amount_of users (some i) then one_if (is_user i p) else 0)
  place_one none = ground arith
  place_one (some j) = elim (Bool-cases (i == j)) [
    | inl e ↦ let same : i ≡ j = (==_iff i j).0 e in rw (e, sym same) (ground arith)
    | inr e ↦ rw e (ground arith)
  ]

  count_places :
      (v : RatingVector)
      → count_if (is_place i k) (places users v)
        ≡ (if k == amount_of users (some i) then count_if (is_user i) v else 0)
  count_places [] = ground arith
  count_places (p ∷ ps) = ground (arith, place_one p, count_places ps)

  passes-places :
      (v : RatingVector) (j : ℕ)
      → passes (is_place i k) (get_elem? (places users v) j)
        ≡ (if k == amount_of users (some i) then passes (is_user i) (get_elem? v j) else 0)
  passes-places [] j = ground arith
  passes-places (p ∷ ps) zero = place_one p
  passes-places (p ∷ ps) (suc j) = passes-places ps j

  drops_places :
      (n : ℕ) (v : RatingVector) (ps : List RatingPatchEntry)
      → drops_if (is_place i k) n (places users v) (changes_by place_of ps)
        ≡ (if k == amount_of users (some i) then drops_if (is_user i) n v (changes_of ps) else 0)
  drops_places n v [] = ground arith
  drops_places n v (p ∷ ps) =
      at p.change_type p.elements_after (place_of p) p.user_data (drops_places n v ps)
    where
      at :
          (t : RatingChangeType) (ea : ℕ) (a : Place) (b : Pointer)
          → drops_if (is_place i k) n (places users v) (changes_by place_of ps) ≡ (
              if k == amount_of users (some i) then drops_if (is_user i) n v (changes_of ps) else 0)
          → drops_if (is_place i k) n (places users v) (change_at t ea a ∷ changes_by place_of ps)
            ≡ (if k == amount_of users (some i)
                then drops_if (is_user i) n v (change_at t ea b ∷ changes_of ps)
                else 0)
      at old_position ea a b ih = ground (arith, ih, passes-places v (n - ea - 1))
      at new_position ea a b ih = ih

Every-of_count :
    (users : ActiveUsersMap) (xs : List Place)
    → ((i k : ℕ) → 1 ≤ count_if (is_place i k) xs → amount_of users (some i) ≡ k)
    → count_if is_null (map (λ e. e.0) xs) ≡ 0
    → Every (λ e. amount_of users e.0 ≡ e.1) xs
Every-of_count users [] f z = tt
Every-of_count users ((none, k) ∷ xs) f z = absurd (omega arith)
Every-of_count users ((some i, k) ∷ xs) f z = (
  f i k (ground arith),
  Every-of_count users xs (λ j m h. f j m (omega arith)) (omega (arith, z)),
)

zero_or_more : (n : ℕ) → (n ≡ 0) ⊎ (1 ≤ n)
zero_or_more zero = inl refl
zero_or_more (suc n) = inr (omega arith)

count_place_le :
    (i k : ℕ) (xs : List Place)
    → count_if (is_place i k) xs ≤ count_if (is_user i) (map (λ e. e.0) xs)
count_place_le i k [] = omega arith
count_place_le i k (e ∷ xs) = ground (arith, count_place_le i k xs)

module _ (s : Impl) (v : Pending s) where
  abbrev pub old_size : ℕ
  old_size = length s.rating

  -- The new vector, and the places that it stands for.
  abbrev pub new_rating : RatingVector
  new_rating = rebuild old_size (changes_of s.patches) s.rating []

  abbrev pub new_places : List Place
  new_places = rebuild old_size (changes_by place_of s.patches) (places s.active_users s.rating) []

  pub new_places_lem : map (λ e. e.0) new_places ≡ new_rating
  new_places_lem =
      map-rebuild (λ e. e.0) place_of old_size s.patches (places s.active_users s.rating) []
      ∙ ap (λ r. rebuild old_size (changes_of s.patches) r []) (map-places s.active_users s.rating)

  pub Spaced-pointers : Spaced old_size old_size (changes_of s.patches)
  Spaced-pointers = Spaced-values place_of (λ p. p.user_data) old_size s.patches old_size v.spaced

  abbrev BalanceOf : (Pointer → Bool) → Type 0
  BalanceOf q =
      count_if q new_rating + drops_if q old_size s.rating (changes_of s.patches)
      ≡ count_if q s.rating + puts_if q (changes_of s.patches)

  balance : (q : Pointer → Bool) → BalanceOf q
  balance q = omega (
    arith,
    subst
        (λ r.
          count_if q (rebuild old_size (changes_of s.patches) r [])
            + drops_if q old_size s.rating (changes_of s.patches)
          ≡ count_if q r + 0 + puts_if q (changes_of s.patches))
        (take_all old_size s.rating (omega arith))
        (count_if-rebuild q old_size s.rating (changes_of s.patches) old_size [] Spaced-pointers),
  )

  -- Every active user stands in the new vector once, and nobody else.
  pub new_rating-placed : (i : ℕ) → count_if (is_user i) new_rating ≡ active i s.active_users
  new_rating-placed i = omega (arith, balance (is_user i), v.placed i)

  pub new_rating-no_null : count_if is_null new_rating ≡ 0
  new_rating-no_null = omega (arith, balance is_null, v.no_null, v.no_null_in)

  ins_le : (i : ℕ) → ins i s ≤ active i s.active_users
  ins_le i = omega (
    arith,
    v.placed i,
    drops_if_le (is_user i) old_size s.rating (changes_of s.patches) old_size Spaced-pointers,
    ap (count_if (is_user i)) (take_all old_size s.rating (omega arith)),
  )

  balance_places :
      (i k : ℕ)
      → count_if (is_place i k) new_places
          + drops_if
              (is_place i k)
              old_size
              (places s.active_users s.rating)
              (changes_by place_of s.patches)
        ≡ count_if (is_place i k) (places s.active_users s.rating)
          + puts_if (is_place i k) (changes_by place_of s.patches)
  balance_places i k = omega (
    arith,
    subst
        (λ r.
          count_if (is_place i k) (rebuild old_size (changes_by place_of s.patches) r [])
            + drops_if (is_place i k) old_size (places s.active_users s.rating)
                (changes_by place_of s.patches)
          ≡ count_if (is_place i k) r + 0 + puts_if (is_place i k) (changes_by place_of s.patches))
        (take_all old_size (places s.active_users s.rating)
          (omega (arith, length-places s.active_users s.rating)))
        (count_if-rebuild (is_place i k) old_size (places s.active_users s.rating)
          (changes_by place_of s.patches) old_size [] v.spaced),
  )

  place_amount :
      (i k : ℕ)
      → 1 ≤ count_if (is_place i k) new_places
      → amount_of (set_amounts s.patches s.active_users) (some i) ≡ k
  place_amount i k h =
      let held : 1 ≤ count_if (is_user i) new_rating =
        subst (λ r. 1 ≤ count_if (is_user i) r) new_places_lem
          (omega (arith, count_place_le i k new_places)) in
      let there : active i s.active_users ≡ 1 = ground (arith, new_rating-placed i) in
      let once : ins i s ≤ 1 = omega (arith, ins_le i) in
      elim (zero_or_more (puts_if (is_place i k) (changes_by place_of s.patches))) [
        | inr one ↦ amount-set_amounts_put s.patches s.active_users i k there once one
        | inl none_put ↦
            let bal = balance_places i k in
            let cp = count_places s.active_users i k s.rating in
            let dp = drops_places s.active_users i k old_size s.rating s.patches in
            elim (Bool-cases (k == amount_of s.active_users (some i))) [
              | inr e ↦ absurd (ground arith)
              | inl e ↦
                  let out : ins i s ≡ 0 = ground (arith, v.placed i) in
                  amount-set_amounts_kept s.patches s.active_users i out ∙ sym ((==_iff k _).0 e)
            ]
      ]

  -- The places of the new vector are those of its users after the loop.
  pub new_places-agree : new_places ≡ places (set_amounts s.patches s.active_users) new_rating
  new_places-agree =
      let all =
        Every-of_count (set_amounts s.patches s.active_users) new_places place_amount
          (ap (count_if is_null) new_places_lem ∙ new_rating-no_null) in
      places_of_Every (set_amounts s.patches s.active_users) new_places all
      ∙ ap (places (set_amounts s.patches s.active_users)) new_places_lem
