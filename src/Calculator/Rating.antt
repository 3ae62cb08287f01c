-- ===== src/Calculator/Rating.antt =====
-- The end of RatingCalculatorImpl::recalculate (service/rating_calculator.cpp): the vector is rebuilt
-- from the patches, and the rating is correct again.
use iqoption_test_task.Prelude.{
  ℕ, ◌+◌, ◌-◌, ◌^◌, ◌<◌, ◌≡◌, refl, sym, ap, subst, ◌∙◌, List, [], arith, some, none, length,
  get_elem?, resize, replicate, take, take_all, ◌++◌, ◌∷◌,
}
use iqoption_test_task.Failures.{ok}
use iqoption_test_task.Maps.{is_some}
use iqoption_test_task.Core.{RatingVector}
use iqoption_test_task.Calculator.Users.{Impl}
use iqoption_test_task.Calculator.Moves.{LoopState, apply_patches, refresh_from}
use iqoption_test_task.Calculator.Content.{count_if, one_if}
use iqoption_test_task.Calculator.Rebuild.{rebuild, Spaced}
use iqoption_test_task.Calculator.Changes.{changes_by}
use iqoption_test_task.Calculator.Loop.{set_amounts, apply_patches_lem}
use iqoption_test_task.Calculator.Order.{AtLeast, Falling, rebuild-Falling, Splits}
use iqoption_test_task.Calculator.Sorted.{Rising-of_order}
use iqoption_test_task.Calculator.Measures.{Balanced-values}
use iqoption_test_task.Calculator.Rated.{Place, is_user, winnings, places, IsRated, length-places}
use iqoption_test_task.Calculator.Deals.Pending.{Pending, place_of}
use iqoption_test_task.Calculator.Amounts.{active-set_amounts}
use iqoption_test_task.Calculator.Agree.{
  old_size, new_rating, new_places, new_places-agree, new_rating-placed, new_rating-no_null,
  Spaced-pointers,
}
use iqoption_test_task.Calculator.Refreshed.{
  active-refresh_from, places-refresh_from, refresh_from-position,
}
use iqoption_test_task.Calculator.Recalculate.{rebuild_rating, loop_start}

AtLeast-zero : (xs : List Place) → AtLeast winnings 0 xs
AtLeast-zero [] = tt
AtLeast-zero (x ∷ xs) = (omega arith, AtLeast-zero xs)

resize-longer :
    (rating : RatingVector) (m : ℕ)
    → resize none (length rating + m) rating ≡ rating ++ replicate m none
unfolding resize
resize-longer rating m =
    let rest : length rating + m - length rating ≡ m = omega arith in
    rw (rest, take_all (length rating + m) rating (omega arith)) refl

module _ (s : Impl) (v : Pending s) where
  new_places-Falling : Falling winnings (new_places s v)
  new_places-Falling =
      let n = old_size s v in
      let old = places s.active_users s.rating in
      let size = length-places s.active_users s.rating in
      let cs = changes_by place_of s.patches in
      let spaced = subst (λ m. Spaced m m cs) (sym size) v.spaced in
      let splits = subst (λ m. Splits winnings m old cs) (sym size) v.splits in
      let rising =
        Rising-of_order winnings place_of (λ p. refl) old s.patches (length old) v.ordered spaced
          splits in
      let whole = take_all n old (omega (arith, size)) in
      subst (λ r. Falling winnings (rebuild n cs r [])) whole
        (rebuild-Falling winnings n old cs n 0 [] v.falling v.spaced v.splits rising
          (AtLeast-zero (take n old)) tt tt)

  -- The loop runs to its end, whatever the vector looks like: no assertion fails.
  loop-ok :
      length s.rating + s.fresh_ratings < 2 ^ 31
      → (l : LoopState) × (apply_patches (length s.rating) s.patches (loop_start s) ≡ ok l)
        × (l.rating ≡ new_rating s v)
        × (l.users ≡ set_amounts s.patches s.active_users)
  unfolding loop_start
  loop-ok small =
      apply_patches_lem s.patches s.rating s.fresh_ratings (loop_start s)
        (resize-longer s.rating s.fresh_ratings) refl refl refl small (Spaced-pointers s v)
        (Balanced-values place_of (λ p. p.user_data) s.patches s.fresh_ratings v.balanced)

  rated :
      IsRated
        (refresh_from 0 (new_rating s v) (set_amounts s.patches s.active_users))
        (new_rating s v)
  rated =
      let users = set_amounts s.patches s.active_users in
      let ps = new_rating s v in
      record {
        placed = λ i.
            new_rating-placed s v i
            ∙ sym
                (active-refresh_from ps 0 users i ∙ active-set_amounts s.patches s.active_users i);
        positions = λ i u e.
            let there : count_if (is_user i) ps ≡ 1 =
              new_rating-placed s v i
              ∙ sym
                  (active-refresh_from ps 0 users i ∙ active-set_amounts s.patches s.active_users i)
              ∙ ap (λ o. one_if (is_some o)) e in
            let z : u.rating - 0 ≡ u.rating = omega arith in
            subst (λ j. get_elem? ps j ≡ some (some i)) z
              (refresh_from-position ps 0 users i u there e).1;
        falling =
            subst (Falling winnings)
              (new_places-agree s v ∙ sym (places-refresh_from ps ps 0 users)) new_places-Falling;
        no_null = new_rating-no_null s v;
      }

-- From any state that the processing of a minute's data may leave (each user once in the rating and
-- the patches together, patches in order and where their amounts belong), with fewer than 2 ^ 31
-- places in all, the end of `recalculate` runs with no failed assertion, and leaves a correct rating:
-- every active user has exactly one place, nobody else has one, no pointer is null, the amounts fall
-- from place to place, and the `rating` of each user is his place.
pub rebuild_rating-IsRated :
    (s : Impl)
    → Pending s
    → length s.rating + s.fresh_ratings < 2 ^ 31
    → (s' : Impl) × (rebuild_rating s ≡ ok s') × IsRated s'.active_users s'.rating
unfolding rebuild_rating
rebuild_rating-IsRated s v small =
    let (l, run, vector, users) = loop-ok s v small in
    (
      record s { rating = l.rating; active_users = refresh_from 0 l.rating l.users },
      rw run refl,
      rw (vector, users) (rated s v),
    )
