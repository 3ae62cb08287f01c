-- ===== src/Storage/Answered.antt =====
-- What a worker of service/worker_pool.cpp answers about the place of a user passes the checks of
-- test/storage.cpp, where the rating of the service and the reference rating of the client agree.
use mathlib.Core.Path.{fun_ext}
use iqoption_test_task.Prelude.{
  ℕ, ◌^◌, ◌<◌, ◌≤◌, ◌≡◌, refl, sym, ap, ◌∙◌, Bool-cases, inl, inr, true, false, not, Option, none,
  some, arith, ◌==◌, ◌||◌, ==_iff, length, map, leb,
}
use iqoption_test_task.Maps.{find}
use iqoption_test_task.Core.{CoreRatingData}
use iqoption_test_task.Protocol.Rating.{RatingEntry, nonneg32}
use iqoption_test_task.Workers.Answers.{answer}
use iqoption_test_task.Storage.{FullUserDataEx, Impl, or_new, edit, edited, increment}
use iqoption_test_task.Storage.Checks.{
  validate_rating, check_position, count_incoming, position_wrong,
}
use iqoption_test_task.Storage.Rated.{IsReference}
use iqoption_test_task.Storage.Accepts.{entry_at, Stands}
use iqoption_test_task.Storage.Agreed.{
  Agree, expected_place, same_length, check_size-answer, check_tops-answer,
  check_surroundings-answer,
}

-- The storage with the mark of a rating received on a user.
abbrev pub received : FullUserDataEx → FullUserDataEx
received u = record u { rating_received = true }

abbrev pub accepted : ℕ → Impl → Impl
accepted p s =
    let r = s.report in
    record (edit p received s) {
      report = record r {
        incoming_ratings = increment r.incoming_ratings;
        valid_ratings = increment r.valid_ratings;
      };
    }

same_entry : (s : Impl) (p q : ℕ) → entry_at (edit p received s) q ≡ entry_at s q
same_entry s p q = elim (Bool-cases (p == q)) [
  | inr y ↦ rw y refl
  | inl y ↦ rw (y, ap (λ x. edited received (s.objects x)) ((==_iff p q).0 y)) (kept (s.objects q))
]
  where
    abbrev_entry : Option FullUserDataEx → RatingEntry
    abbrev_entry x = record {
      id = (or_new x).id;
      name = (or_new x).name;
      winnings = (or_new x).winnings;
    }

    kept : (x : Option FullUserDataEx) → abbrev_entry (edited received x) ≡ abbrev_entry x
    kept none = refl
    kept (some u) = refl

edit-Stands : (s : Impl) (p : ℕ) → Stands s → Stands (edit p received s)
edit-Stands s p st j q e =
    let (u, at, o, place) = st j q e in
    elim (Bool-cases (p == q)) [
      | inl y ↦ (
        received u,
        at,
        rw (y, ap (λ x. edited received (s.objects x)) ((==_iff p q).0 y), o) refl,
        place,
      )
      | inr y ↦ (u, at, rw y o, place)
    ]

-- The place at which the client expects a user lies within the rating.
pub expected_place-le :
    (s : Impl) (i p : ℕ) (u : FullUserDataEx)
    → IsReference s
    → length s.rating < 2 ^ 31
    → find i s.index ≡ some p
    → s.objects p ≡ some u
    → expected_place s u ≤ length s.rating
expected_place-le s i p u r small e o = elim (Bool-cases (u.winnings == 0)) [
  | inl y ↦ let out = r.unplaced i p u e o ((==_iff u.winnings 0).0 y) in ground arith
  | inr y ↦ let (_, lt) = r.placed i p u e o (λ z. absurd (ground arith)) in ground arith
]

module _ (d : CoreRatingData) (s : Impl) (i p : ℕ) (u : FullUserDataEx) where
  check_position-answer :
      Agree d s
      → find i s.index ≡ some p
      → s.objects p ≡ some u
      → check_position (answer d i (expected_place s u)) (false, s) ≡ (false, edit p received s)
  unfolding check_position
  check_position-answer agree e o =
      let right : position_wrong u (answer d i (expected_place s u)) ≡ false =
        ground (arith, same_length d s agree) in
      rw (e, check_position, o, right) refl

module _ (d : CoreRatingData) (s : Impl) (i p : ℕ) (u : FullUserDataEx) where
  -- The answer about a user's place is counted as a valid rating and as nothing else, and the user has
  -- received a rating.
  pub validate_rating-answer :
      IsReference s
      → Agree d s
      → length s.rating < 2 ^ 31
      → find i s.index ≡ some p
      → s.objects p ≡ some u
      → i < length s.index
      → i < 2 ^ 31
      → validate_rating (answer d i (expected_place s u)) s ≡ accepted p s
  unfolding validate_rating
  validate_rating-answer r agree small e o known fits =
      let t = count_incoming s in
      let pos = expected_place s u in
      let stands : Stands s = λ j q f. let (v, a, b, c, _) = r.standing j q f in (v, a, b, c) in
      let agree' : Agree d (edit p received t) =
        agree ∙ ap (λ f. map f s.rating) (sym (fun_ext (same_entry s p))) in
      let stands' = edit-Stands t p stands in
      let le = expected_place-le s i p u r small e o in
      let no_mess : (not (nonneg32 i) || leb (length s.index) i) ≡ false = ground arith in
      rw
        (
          no_mess,
          validate_rating,
          check_size-answer d t agree stands small i pos false,
          check_position-answer d t i p u agree e o,
          check_tops-answer d (edit p received t) agree' stands' small i pos false,
          check_surroundings-answer d (edit p received t) agree' stands' small i pos false le,
        )
        refl
