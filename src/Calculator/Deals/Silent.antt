-- ===== src/Calculator/Deals/Silent.antt =====
-- A deal of a user who has no place yet (processDeals of service/rating_calculator.cpp).
use iqoption_test_task.Prelude.{
  ℕ, ◌+◌, ◌^◌, ◌<◌, ◌≡◌, refl, ap, subst, [], ◌∷◌, arith, some, none, length, add32, ◌==◌,
  if◌then◌else◌,
}
use iqoption_test_task.Maps.{find, contains, is_some, emplace, find-emplace}
use iqoption_test_task.Core.{
  Pointer, ActiveUsersMap, RatingVector, FullUserData, BasicUserData, new_full, deref,
  user_or_blank,
}
use iqoption_test_task.Calculator.Patches.{
  RatingPatchEntry, new_entry, emplace_patch, rating_elements_after,
}
use iqoption_test_task.Calculator.Users.{Impl, deal_of_silent}
use iqoption_test_task.Calculator.Rebuild.{Balanced}
use iqoption_test_task.Calculator.Changes.{changes_by}
use iqoption_test_task.Calculator.Content.{count_if, one_if}
use iqoption_test_task.Calculator.Insert.{Spaced-put, Balanced-put}
use iqoption_test_task.Calculator.Sorted.{emplace-InOrder}
use iqoption_test_task.Calculator.Measures.{puts_if-emplace, drops_if-emplace, Splits-emplace}
use iqoption_test_task.Calculator.Rated.{
  winnings, places, is_null, is_user, active, elements_after-le, before_place, from_place,
}
use iqoption_test_task.Calculator.Deals.Pending.{place_of, outs, ins, Pending, Ready}

deref-emplace_ne :
    (users : ActiveUsersMap) (i : ℕ) (u : FullUserData) (p : Pointer)
    → find i users ≡ none
    → one_if (is_user i p) ≡ 0
    → deref (emplace i u users) p ≡ deref users p
unfolding deref contains
deref-emplace_ne users i u none absent h = refl
deref-emplace_ne users i u (some j) absent h =
    let e : find j (emplace i u users) ≡ find j users = ground (arith, find-emplace i j u users) in
    ap user_or_blank e

-- A new user changes no place, if none is his.
places-emplace :
    (users : ActiveUsersMap) (i : ℕ) (u : FullUserData)
    → find i users ≡ none
    → (v : RatingVector) → count_if (is_user i) v ≡ 0
    → places (emplace i u users) v ≡ places users v
places-emplace users i u absent [] h = refl
places-emplace users i u absent (p ∷ ps) h = rw (
  deref-emplace_ne users i u p absent (omega arith),
  places-emplace users i u absent ps (omega arith),
)

module _ (s : Impl) (v : Pending s) (small : length s.rating < 2 ^ 31) (i amount : ℕ)
    (r : Ready s (i, amount)) where
  module _ (b : BasicUserData) (absent : find i s.active_users ≡ none)
      (room : s.fresh_ratings < 2 ^ 31) where
    abbrev place_after : ℕ
    place_after = rating_elements_after s.active_users s.rating amount

    abbrev fresh_patch : RatingPatchEntry
    fresh_patch = new_entry i place_after amount

    pub deal_of_silent-outs : (j : ℕ) → outs j (deal_of_silent i amount b s) ≡ outs j s
    unfolding deal_of_silent
    deal_of_silent-outs j =
        drops_if-emplace (is_user j) (λ p. p.user_data) (length s.rating) s.rating fresh_patch
          s.patches

    pub deal_of_silent-ins :
        (j : ℕ) → ins j (deal_of_silent i amount b s) ≡ one_if (j == i) + ins j s
    unfolding deal_of_silent
    deal_of_silent-ins j = puts_if-emplace (is_user j) (λ p. p.user_data) fresh_patch s.patches

    pub find_after :
        (j : ℕ)
        → find j (deal_of_silent i amount b s).active_users
          ≡ (if i == j then some (new_full i amount b) else find j s.active_users)
    unfolding deal_of_silent contains
    find_after j = ground (arith, find-emplace i j (new_full i amount b) s.active_users)

    nowhere : count_if (is_user i) s.rating ≡ 0
    nowhere = omega (arith, v.placed i, r.not_out, r.not_in, ap (λ o. one_if (is_some o)) absent)

    same_places :
        places (deal_of_silent i amount b s).active_users s.rating ≡ places s.active_users s.rating
    unfolding deal_of_silent
    same_places = places-emplace s.active_users i (new_full i amount b) absent s.rating nowhere

    active_after :
        (j : ℕ)
        → active j (deal_of_silent i amount b s).active_users
          ≡ one_if (j == i) + active j s.active_users
    active_after j = ground (arith, find_after j, absent)

    old_user :
        (j : ℕ) (w : FullUserData)
        → find j (deal_of_silent i amount b s).active_users ≡ some w
        → ins j (deal_of_silent i amount b s) ≡ 0
        → find j s.active_users ≡ some w
    old_user j w e z = ground (arith, find_after j, deal_of_silent-ins j)

    pub deal_of_silent-Pending : Pending (deal_of_silent i amount b s)
    unfolding deal_of_silent
    deal_of_silent-Pending = record {
      spaced =
          Spaced-put place_of (length s.rating) i place_after amount s.patches (length s.rating)
            (elements_after-le s.active_users amount s.rating) (omega arith) v.spaced;
      balanced =
          subst (λ o. Balanced o (changes_by place_of (emplace_patch fresh_patch s.patches)))
            (let e : s.fresh_ratings + 1 ≡ add32 s.fresh_ratings 1 = omega arith in e)
            (Balanced-put place_of i place_after amount s.patches s.fresh_ratings v.balanced);
      ordered = emplace-InOrder fresh_patch s.patches v.ordered;
      splits = rw same_places (
          Splits-emplace winnings place_of (length s.rating) (places s.active_users s.rating)
            fresh_patch s.patches
            (
              before_place s.active_users amount s.rating,
              from_place s.active_users amount s.rating v.falling,
              v.splits,
            ));
      falling = rw same_places v.falling;
      no_null = v.no_null;
      no_null_in =
          omega
            (arith, puts_if-emplace is_null (λ p. p.user_data) fresh_patch s.patches, v.no_null_in);
      placed = λ j.
          omega (arith, deal_of_silent-outs j, deal_of_silent-ins j, active_after j, v.placed j);
      positions =
          λ j w e z. v.positions j w (old_user j w e z) (omega (arith, deal_of_silent-ins j));
    }
