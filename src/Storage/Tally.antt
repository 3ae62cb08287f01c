-- ===== src/Storage/Tally.antt =====
-- The counters of test/storage.cpp: each message that comes in is counted once, as valid or as a
-- failure.
use iqoption_test_task.Prelude.{
  ℕ, ◌^◌, ◌<◌, ◌≡◌, refl, ◌∙◌, subst, Bool, Bool-cases, inl, inr, true, false, not, List, [], ◌∷◌,
  arith, ◌==◌, ◌||◌, Option-cases, length, take, drop, min, leb, add32, lt_s32,
}
use iqoption_test_task.Failures.{ok}
use iqoption_test_task.Maps.{find}
use iqoption_test_task.Protocol.Rating.{RatingEntry, RatingPackMessage, nonneg32}
use iqoption_test_task.Protocol.Service.{
  GenericProtocolError, user_unrecognized_error, multiple_registration_error,
  unsupported_protocol_version_error,
}
use iqoption_test_task.Protocol.Constants.{top_positions}
use iqoption_test_task.Storage.{Impl, ValidationReport, object_at, edit}
use iqoption_test_task.Storage.Reference.{publish_validation_report}
use iqoption_test_task.Storage.Checks.{
  validate_error, validate_rating, validate_single_rating, check_entries, check_size,
  check_position, check_tops, check_surroundings, Checking, concluded, count_outdated, is_outdated,
  fail_if, is_wrong, count_top, count_surroundings, count_error, count_incoming, first_near,
  position_wrong, count_position, count_size, as_size,
}

-- The counters that tell what came in, and how it was judged.
abbrev pub tally : ValidationReport → ℕ × (ℕ × (ℕ × (ℕ × ℕ)))
tally r = (r.incoming_ratings, (r.incoming_errors, (r.valid_ratings, (r.valid_errors, r.failures))))

abbrev judged : Checking → ℕ × (ℕ × (ℕ × (ℕ × ℕ)))
judged c = tally c.1.report

fail_if-tally :
    (wrong : Bool) (count : ValidationReport → ValidationReport) (failure : Bool) (s : Impl)
    → ((r : ValidationReport) → tally (count r) ≡ tally r)
    → judged (fail_if wrong count (failure, s)) ≡ tally s.report
fail_if-tally true count failure s keeps = keeps s.report
fail_if-tally false count failure s keeps = refl

count_outdated-tally : (b : Bool) (r : ValidationReport) → tally (count_outdated b r) ≡ tally r
count_outdated-tally true r = refl
count_outdated-tally false r = refl

validate_single_rating-tally :
    (e : RatingEntry) (place : ℕ) (s : Impl)
    → tally (validate_single_rating e place s).1.report ≡ tally s.report
unfolding validate_single_rating
validate_single_rating-tally e place s = elim (Option-cases (find e.id s.index)) [
  | inl n ↦ rw (n, validate_single_rating) refl
  | inr (p, f) ↦
      rw (f, validate_single_rating) (count_outdated-tally (is_outdated (object_at s p) e) s.report)
]

check_entries-tally :
    (count : ValidationReport → ValidationReport) (es : List RatingEntry) (place : ℕ)
    (failure : Bool) (s : Impl)
    → ((r : ValidationReport) → tally (count r) ≡ tally r)
    → judged (check_entries count es place (failure, s)) ≡ tally s.report
unfolding check_entries
check_entries-tally count [] place failure s keeps = refl
check_entries-tally count (e ∷ es) place failure s keeps =
    let v = validate_single_rating e place s in
    let (f', s') = fail_if (is_wrong v.0) count (failure, v.1) in
    check_entries-tally count es (add32 place 1) f' s' keeps
    ∙ (fail_if-tally (is_wrong v.0) count failure v.1 keeps
        ∙ validate_single_rating-tally e place s)

check_size-tally :
    (m : RatingPackMessage) (failure : Bool) (s : Impl)
    → judged (check_size m (failure, s)) ≡ tally s.report
unfolding check_size
check_size-tally m failure s =
    fail_if-tally (not (as_size m.rating_length == length s.rating)) count_size failure s
      (λ r. refl)

check_position-tally :
    (m : RatingPackMessage) (failure : Bool) (s : Impl)
    → judged (check_position m (failure, s)) ≡ tally s.report
unfolding check_position
check_position-tally m failure s = elim (Option-cases (find m.user_id s.index)) [
  | inl n ↦ rw (n, check_position) refl
  | inr (p, f) ↦
      rw (f, check_position)
        (fail_if-tally (position_wrong (object_at s p) m) count_position failure
          (edit p (λ u. record u { rating_received = true }) s) (λ r. refl))
]

check_tops-tally :
    (m : RatingPackMessage) (failure : Bool) (s : Impl)
    → judged (check_tops m (failure, s)) ≡ tally s.report
unfolding check_tops
check_tops-tally m failure s =
    check_entries-tally count_top (take (min (length m.ratings) top_positions) m.ratings) 0 failure
      s (λ r. refl)

check_surroundings-tally :
    (m : RatingPackMessage) (failure : Bool) (s : Impl)
    → judged (check_surroundings m (failure, s)) ≡ tally s.report
unfolding check_surroundings
check_surroundings-tally m failure s = elim (Bool-cases (lt_s32 top_positions m.rating_length)) [
  | inl y ↦
      rw (y, check_surroundings)
        (check_entries-tally count_surroundings (drop top_positions m.ratings)
          (first_near m.rating_pos) failure s (λ r. refl))
  | inr y ↦ rw (y, check_surroundings) refl
]

-- All checks of a rating.
checks-tally :
    (m : RatingPackMessage) (failure : Bool) (s : Impl)
    → judged (check_surroundings m (check_tops m (check_position m (check_size m (failure, s)))))
      ≡ tally s.report
checks-tally m failure s =
    let c₁ = check_size m (failure, s) in
    let c₂ = check_position m c₁ in
    let c₃ = check_tops m c₂ in
    check_surroundings-tally m c₃.0 c₃.1
    ∙ (check_tops-tally m c₂.0 c₂.1
        ∙ (check_position-tally m c₁.0 c₁.1 ∙ check_size-tally m failure s))

-- The failures are the invalid ratings and the invalid errors that the report prints.
pub record IsBalanced (s : Impl) : Type 0 where
  pub balanced :
      s.report.failures
      ≡ add32
          (publish_validation_report s).invalid_ratings
          (publish_validation_report s).invalid_errors
  pub ratings_fit : (s.report.incoming_ratings < 2 ^ 32) × (s.report.valid_ratings < 2 ^ 32)
  pub errors_fit : (s.report.incoming_errors < 2 ^ 32) × (s.report.valid_errors < 2 ^ 32)

concluded-IsBalanced :
    (c : Checking) (s : Impl)
    → IsBalanced s
    → judged c ≡ tally (count_incoming s).report
    → IsBalanced (concluded c)
unfolding publish_validation_report
concluded-IsBalanced (true, t) s h e = record {
  balanced = ground arith;
  ratings_fit = ground arith;
  errors_fit = ground arith;
}
concluded-IsBalanced (false, t) s h e = record {
  balanced = ground arith;
  ratings_fit = ground arith;
  errors_fit = ground arith;
}

pub validate_rating-IsBalanced :
    (m : RatingPackMessage) (s : Impl) → IsBalanced s → IsBalanced (validate_rating m s)
unfolding validate_rating publish_validation_report
validate_rating-IsBalanced m s h =
    elim (Bool-cases (not (nonneg32 m.user_id) || leb (length s.index) m.user_id)) [
      | inl y ↦
          rw (y, validate_rating)
            (record {
              balanced = ground arith;
              ratings_fit = ground arith;
              errors_fit = ground arith;
            })
      | inr y ↦
          rw (y, validate_rating)
            (concluded-IsBalanced
              (check_surroundings m
                (check_tops m (check_position m (check_size m (false, count_incoming s)))))
              s h (checks-tally m false (count_incoming s)))
    ]

ok_inj : (s t : Impl) → ok s ≡ ok t → s ≡ t
ok_inj s t e = cc

count_error-IsBalanced :
    (expected : Bool) (s : Impl) → IsBalanced s → IsBalanced (count_error expected s)
unfolding publish_validation_report
count_error-IsBalanced true s h = record {
  balanced = ground arith;
  ratings_fit = ground arith;
  errors_fit = ground arith;
}
count_error-IsBalanced false s h = record {
  balanced = ground arith;
  ratings_fit = ground arith;
  errors_fit = ground arith;
}

pub validate_error-IsBalanced :
    (e : GenericProtocolError) (s t : Impl)
    → IsBalanced s
    → validate_error e s ≡ ok t
    → IsBalanced t
unfolding validate_error
validate_error-IsBalanced (multiple_registration_error id) s t h e =
    subst IsBalanced (ok_inj (count_error false s) t e) (count_error-IsBalanced false s h)
validate_error-IsBalanced (user_unrecognized_error id) s t h e =
    let expected = not (nonneg32 id) in
    subst IsBalanced (ok_inj (count_error expected s) t e) (count_error-IsBalanced expected s h)
validate_error-IsBalanced (unsupported_protocol_version_error v) s t h e = absurd (cc)
