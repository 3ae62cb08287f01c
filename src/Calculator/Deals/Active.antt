-- ===== src/Calculator/Deals/Active.antt =====
-- A deal of a user who has a place (processDeals of service/rating_calculator.cpp).
use iqoption_test_task.Prelude.{
  ℕ, zero, suc, ◌+◌, ◌-◌, ◌^◌, ◌<◌, ◌≡◌, List, [], ◌∷◌, arith, some, length, get_elem?, add64,
  sub32, ◌==◌,
}
use iqoption_test_task.Maps.{find}
use iqoption_test_task.Core.{ActiveUsersMap, FullUserData, deref}
use iqoption_test_task.Calculator.Patches.{
  RatingPatchEntry, new_entry, old_entry, emplace_patch, rating_elements_after,
}
use iqoption_test_task.Calculator.Users.{Impl, deal_of_active}
use iqoption_test_task.Calculator.Content.{passes, one_if}
use iqoption_test_task.Calculator.Insert.{NoDrop, Spaced-put, Spaced-drop, Balanced-move}
use iqoption_test_task.Calculator.Sorted.{emplace-InOrder}
use iqoption_test_task.Calculator.Measures.{
  puts_if-emplace, drops_if-emplace, NoDrop-of_none, Splits-emplace,
}
use iqoption_test_task.Calculator.Rated.{
  winnings, places, is_null, is_user, elements_after-le, before_place, from_place, place_le,
}
use iqoption_test_task.Calculator.Deals.Pending.{place_of, outs, ins, Pending, Ready}

pub get_elem?-lt {ℓ} :
    {A : Type ℓ} (xs : List A) (i : ℕ) {a : A} → get_elem? xs i ≡ some a → i < length xs
get_elem?-lt [] i e = absurd (cc)
get_elem?-lt (x ∷ xs) zero e = omega arith
get_elem?-lt (x ∷ xs) (suc i) e = omega (arith, get_elem?-lt xs i e)

deref-find :
    (users : ActiveUsersMap) (i : ℕ) (u : FullUserData)
    → find i users ≡ some u
    → deref users (some i) ≡ u
unfolding deref
deref-find users i u e = rw e

==-refl' : (i : ℕ) → one_if (i == i) ≡ 1
==-refl' i = ground arith

module _ (s : Impl) (v : Pending s) (small : length s.rating < 2 ^ 31) (i amount : ℕ)
    (r : Ready s (i, amount)) where
  module _ (u : FullUserData) (found : find i s.active_users ≡ some u) where
    there : get_elem? s.rating u.rating ≡ some (some i)
    there = v.positions i u found r.not_in

    below : u.rating < length s.rating
    below = get_elem?-lt s.rating u.rating there

    abbrev total : ℕ
    total = add64 u.amount_won amount

    abbrev old_after : ℕ
    old_after = sub32 (sub32 (length s.rating) u.rating) 1

    abbrev new_after : ℕ
    new_after = rating_elements_after s.active_users s.rating total

    old_after_lem :
        (old_after ≡ length s.rating - u.rating - 1) × (length s.rating - old_after - 1 ≡ u.rating)
    old_after_lem = omega (arith, below)

    in_place : passes (is_user i) (get_elem? s.rating (length s.rating - old_after - 1)) ≡ 1
    in_place = rw (old_after_lem.1, there) (==-refl' i)

    moves_up : old_after < new_after
    moves_up = omega (
      arith,
      below,
      old_after_lem,
      place_le s.active_users total s.rating u.rating (some i) there
          (rw (deref-find s.active_users i u found) (r.raises u found)),
    )

    none_out : NoDrop old_after s.patches
    none_out =
        NoDrop-of_none (is_user i) (λ p. p.user_data) (length s.rating) old_after s.rating s.patches
          in_place r.not_out

    out_of :
        (j : ℕ)
        → passes (is_user j) (get_elem? s.rating (length s.rating - old_after - 1))
          ≡ one_if (j == i)
    out_of j = rw (old_after_lem.1, there)

    abbrev old_patch : RatingPatchEntry
    old_patch = old_entry old_after

    abbrev new_patch : RatingPatchEntry
    new_patch = new_entry i new_after total

    abbrev taken_out : List RatingPatchEntry
    taken_out = emplace_patch old_patch s.patches

    pub deal_of_active-outs :
        (j : ℕ) → outs j (deal_of_active i amount u s) ≡ one_if (j == i) + outs j s
    unfolding deal_of_active
    deal_of_active-outs j = omega (
      arith,
      drops_if-emplace (is_user j) (λ p. p.user_data) (length s.rating) s.rating new_patch
          taken_out,
      drops_if-emplace (is_user j) (λ p. p.user_data) (length s.rating) s.rating old_patch
          s.patches,
      out_of j,
    )

    pub deal_of_active-ins :
        (j : ℕ) → ins j (deal_of_active i amount u s) ≡ one_if (j == i) + ins j s
    unfolding deal_of_active
    deal_of_active-ins j = omega (
      arith,
      puts_if-emplace (is_user j) (λ p. p.user_data) new_patch taken_out,
      puts_if-emplace (is_user j) (λ p. p.user_data) old_patch s.patches,
    )

    pub deal_of_active-Pending : Pending (deal_of_active i amount u s)
    unfolding deal_of_active
    deal_of_active-Pending = record {
      spaced =
          Spaced-put place_of (length s.rating) i new_after total taken_out (length s.rating)
            (elements_after-le s.active_users total s.rating) (omega arith)
            (Spaced-drop place_of (length s.rating) old_after s.patches (length s.rating)
              (omega (arith, below, old_after_lem)) none_out (omega arith) v.spaced);
      balanced =
          Balanced-move place_of i old_after new_after total s.patches s.fresh_ratings moves_up
            v.balanced;
      ordered = emplace-InOrder new_patch taken_out (emplace-InOrder old_patch s.patches v.ordered);
      splits =
          Splits-emplace winnings place_of (length s.rating) (places s.active_users s.rating)
            new_patch taken_out
            (
              before_place s.active_users total s.rating,
              from_place s.active_users total s.rating v.falling,
              Splits-emplace winnings place_of (length s.rating) (places s.active_users s.rating)
                  old_patch s.patches v.splits,
            );
      falling = v.falling;
      no_null = v.no_null;
      no_null_in = omega (
        arith,
        puts_if-emplace is_null (λ p. p.user_data) new_patch taken_out,
        puts_if-emplace is_null (λ p. p.user_data) old_patch s.patches,
        v.no_null_in,
      );
      placed = λ j. omega (arith, deal_of_active-outs j, deal_of_active-ins j, v.placed j);
      positions = λ j w e z. v.positions j w e (omega (arith, deal_of_active-ins j));
    }
