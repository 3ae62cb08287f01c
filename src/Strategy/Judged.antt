-- ===== src/Strategy/Judged.antt =====
-- What the service answers (service/worker_pool.cpp) as test/strategy.cpp takes it, and the counters
-- over all responses.
use iqoption_test_task.Prelude.{
  ℕ, zero, suc, ◌^◌, ◌<◌, ◌≤◌, ◌≡◌, refl, sym, ap, ◌∙◌, subst, Bool-cases, inl, inr, true, some, [],
  ◌++◌, arith, ◌==◌, length, append-nil,
}
use iqoption_test_task.Failures.{ok, ◌>>=◌, >>=-eq-ok, Result-cases}
use iqoption_test_task.Maps.{find}
use iqoption_test_task.Binary.{BinaryIStream, read_pod}
use iqoption_test_task.Binary.Bytes.{to_bytes}
use iqoption_test_task.Binary.Laws.{facing, read_pod-facing}
use iqoption_test_task.Core.{CoreRatingData}
use iqoption_test_task.Protocol.Constants.{
  ProtocolError, protocol_version_unsupported, user_unrecognized, multiple_registration,
  size_of_int, size_of_code, service_code, user_rating, protocol_error,
}
use iqoption_test_task.Protocol.Service.{GenericProtocolError, user_unrecognized_error, init_error}
use iqoption_test_task.Protocol.Rating.{init_rating}
use iqoption_test_task.Protocol.RoundTrip.{init_error-facing}
use iqoption_test_task.Protocol.RatingTrip.{pack_bytes}
use iqoption_test_task.Workers.Answers.{DataFits, answer, message_bytes, init_rating-answer}
use iqoption_test_task.Workers.Errors.{error_bytes}
use iqoption_test_task.Interpreter.{error_of_code}
use iqoption_test_task.Transport.{Asio, receive}
use iqoption_test_task.Storage.{FullUserDataEx, Impl}
use iqoption_test_task.Storage.Checks.{validate_error, validate_rating, count_error}
use iqoption_test_task.Storage.Rated.{IsReference}
use iqoption_test_task.Storage.Tally.{
  IsBalanced, validate_rating-IsBalanced, validate_error-IsBalanced,
}
use iqoption_test_task.Storage.Answered.{expected_place-le, accepted, validate_rating-answer}
use iqoption_test_task.Storage.Agreed.{Agree, expected_place, same_length}
use iqoption_test_task.Strategy.Responses.{
  process_response, process_code, process_user_rating, process_protocol_error, judge_error,
  receive_response, process_responses,
}

-- Let the client's storage have a rating as `recalculate_rating` leaves it, of fewer than 2 ^ 31
-- places, with the same entries at the same places as the service's data, whose values fit. If
-- the service answers about a user of the client, whose id is below the number of users and below
-- 2 ^ 31, with the place that the client expects of him, then the client reads the body of that
-- message without a failure, counts it as a valid rating and as nothing else, and marks that the
-- user received it.
pub process_response-answer :
    (d : CoreRatingData) (s : Impl) (i p : ℕ) (u : FullUserDataEx)
    → DataFits d
    → IsReference s
    → Agree d s
    → length s.rating < 2 ^ 31
    → find i s.index ≡ some p
    → s.objects p ≡ some u
    → i < length s.index
    → i < 2 ^ 31
    → process_response (facing [] (message_bytes (answer d i (expected_place s u)))) s
      ≡ ok (accepted p s)
unfolding process_response process_code process_user_rating
process_response-answer d s i p u fits r agree small e o known low =
    let small' : length d.rating < 2 ^ 31 = omega (arith, same_length d s agree) in
    let le : expected_place s u ≤ length d.rating =
      omega (arith, same_length d s agree, expected_place-le s i p u r small e o) in
    let pos = expected_place s u in
    let body = pack_bytes (answer d i pos) in
    let code = to_bytes 1 2 in
    let read : process_user_rating (facing code body) s ≡ ok (accepted p s) =
      subst (λ b. process_user_rating (facing code b) s ≡ ok (accepted p s)) (append-nil body)
        (rw (init_rating-answer d i pos code [] fits small' (omega arith) le)
          (ap ok (validate_rating-answer d s i p u r agree small e o known low))) in
    rw (read_pod-facing 1 2 [] body (omega arith)) read

-- A client is told that a user is not known, with an id that it made up.
pub process_response-fake :
    (id : ℕ) (s : Impl)
    → 2 ^ 31 ≤ id
    → id < 2 ^ 32
    → process_response (facing [] (error_bytes (user_unrecognized_error id))) s
      ≡ ok (count_error true s)
unfolding process_response process_code process_protocol_error error_of_code judge_error
    validate_error
process_response-fake id s negative fits =
    let code = to_bytes 4 2 in
    let field = to_bytes 4 id in
    let front = to_bytes 1 1 in
    let read : (init_error user_unrecognized (facing (front ++ code) field) >>= λ r.
    judge_error user_unrecognized r.0 s)
        ≡ ok (count_error true s) =
      subst
        (λ b.
          (init_error user_unrecognized (facing (front ++ code) b) >>= λ r.
          judge_error user_unrecognized r.0 s)
          ≡ ok (count_error true s))
        (append-nil field)
        (rw (init_error-facing user_unrecognized id (front ++ code) [] fits) (ground arith)) in
    rw
      (
        read_pod-facing 1 1 [] (code ++ field) (omega arith),
        read_pod-facing 4 2 front field (omega arith),
      )
      read

judge_error-IsBalanced :
    (c : ProtocolError) (e : GenericProtocolError) (s t : Impl)
    → IsBalanced s
    → judge_error c e s ≡ ok t
    → IsBalanced t
unfolding judge_error
judge_error-IsBalanced protocol_version_unsupported e s t h k = absurd (cc)
judge_error-IsBalanced user_unrecognized e s t h k = validate_error-IsBalanced e s t h k
judge_error-IsBalanced multiple_registration e s t h k = validate_error-IsBalanced e s t h k

same_ok {ℓ} : {A : Type ℓ} (s t : A) → ok s ≡ ok t → s ≡ t
same_ok s t e = cc

process_code-IsBalanced :
    (mc : ℕ) (body : BinaryIStream) (s t : Impl)
    → IsBalanced s
    → process_code mc body s ≡ ok t
    → IsBalanced t
unfolding process_code process_user_rating process_protocol_error
process_code-IsBalanced mc body s t h k = elim (Bool-cases (mc == service_code user_rating)) [
  | inl y ↦
      let ((m, _), _, e) =
        >>=-eq-ok (init_rating body) (λ r. ok (validate_rating r.0 s)) (sym (rw y refl) ∙ k) in
      subst IsBalanced (same_ok (validate_rating m s) t e) (validate_rating-IsBalanced m s h)
  | inr y ↦ elim (Bool-cases (mc == service_code protocol_error)) [
    | inl z ↦
        let k' : process_protocol_error body s ≡ ok t = sym (rw (y, z) refl) ∙ k in
        let (x, _, e₁) =
          >>=-eq-ok (read_pod size_of_int body)
            (λ x. error_of_code x.0 >>= λ c. (init_error c x.1 >>= λ r. judge_error c r.0 s)) k' in
        let (c, _, e₂) =
          >>=-eq-ok (error_of_code x.0) (λ c. (init_error c x.1 >>= λ r. judge_error c r.0 s)) e₁ in
        let (r, _, e₃) = >>=-eq-ok (init_error c x.1) (λ r. judge_error c r.0 s) e₂ in
        judge_error-IsBalanced c r.0 s t h e₃
    | inr z ↦ subst IsBalanced (same_ok s t (sym (rw (y, z) refl) ∙ k)) h
  ]
]

receive_response-IsBalanced :
    (a : Asio) (s t : Impl) (w w' : a.Socket)
    → IsBalanced s
    → receive_response a (s, w) ≡ ok (t, w')
    → IsBalanced t
unfolding receive_response process_response
receive_response-IsBalanced a s t w w' h k =
    let (x, _, e₁) =
      >>=-eq-ok (receive a w) (λ x. process_response x.0 s >>= λ s'. ok (s', x.1)) k in
    let (s', e₂, e₃) = >>=-eq-ok (process_response x.0 s) (λ s'. ok (s', x.1)) e₁ in
    let (y, _, e₄) = >>=-eq-ok (read_pod size_of_code x.0) (λ y. process_code y.0 y.1 s) e₂ in
    subst IsBalanced (ap (λ z. z.0) (same_ok (s', x.1) (t, w') e₃))
      (process_code-IsBalanced y.0 y.1 s s' h e₄)

-- From a balanced report (its failures are the invalid ratings and the invalid errors together,
-- up to wrap-around, and its counters fit 32 bits) the loop over the responses leads to a
-- balanced one, however many responses are taken, whatever bytes come, and however the loop ends.
pub process_responses-IsBalanced :
    (a : Asio) (turns : ℕ) (s : Impl) (w : a.Socket)
    → IsBalanced s
    → IsBalanced (process_responses a turns (s, w)).1.0
unfolding process_responses
process_responses-IsBalanced a zero s w h = h
process_responses-IsBalanced a (suc turns) s w h = elim (Result-cases (receive_response a (s, w))) [
  | inl (x, e) ↦
      rw (e, process_responses)
        (process_responses-IsBalanced a turns x.0 x.1
          (receive_response-IsBalanced a s x.0 w x.1 h e))
  | inr (f, e) ↦ rw (e, process_responses) h
]
