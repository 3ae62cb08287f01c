-- ===== src/Workers/Drained.antt =====
-- A worker's loop answers each error of its queue once, in order (service/worker_pool.cpp).
use iqoption_test_task.Prelude.{
  ℕ, zero, suc, ◌<◌, ◌≡◌, refl, sym, ap, subst, ◌∙◌, Bool, true, none, List, [], ◌∷◌, length, arith,
}
use iqoption_test_task.Failures.{Result, ok, ◌>>=◌, >>=-eq-ok}
use iqoption_test_task.Binary.{BinaryOStream}
use iqoption_test_task.Core.{CoreRatingData}
use iqoption_test_task.Protocol.Service.{GenericProtocolError}
use iqoption_test_task.Queue.{dequeue_error, try_pop}
use iqoption_test_task.Queue.Fifo.{Holds, try_pop-Holds, try_pop-empty}
use iqoption_test_task.Transport.{Asio}
use iqoption_test_task.Workers.{process_error}
use iqoption_test_task.Workers.Turn.{Worker, answer_error, process_errors}

module _ (a : Asio) (d : CoreRatingData) where
  -- These errors, written one after the other.
  unfoldable pub write_errors :
      List GenericProtocolError → ℕ → BinaryOStream → a.Socket → Result (BinaryOStream × a.Socket)
  write_errors [] base o s = ok (o, s)
  write_errors (e ∷ es) base o s = process_error a e base o s >>= λ r. write_errors es base r.0 r.1

  abbrev pub any_jobs : List GenericProtocolError → Bool → Bool
  any_jobs [] new_jobs = new_jobs
  any_jobs (e ∷ es) new_jobs = true

  any_jobs-true : (es : List GenericProtocolError) → any_jobs es true ≡ true
  any_jobs-true [] = refl
  any_jobs-true (e ∷ es) = refl

  -- With fuel for one turn more than there are errors in the queue, the loop writes all of them in
  -- their order, if the socket takes them, says whether there were any, and leaves the queue empty.
  pub process_errors-all :
      (es : List GenericProtocolError) (fuel : ℕ) (new_jobs : Bool) (w : Worker a)
      (o : BinaryOStream) (s : a.Socket)
      → length es < fuel
      → Holds w.pack.error_queue es
      → write_errors es w.errors_base w.errors w.socket ≡ ok (o, s)
      → (w' : Worker a) × (process_errors a d fuel new_jobs w ≡ ok (any_jobs es new_jobs, w'))
        × (w'.errors ≡ o)
        × (w'.socket ≡ s)
        × Holds w'.pack.error_queue []
  unfolding process_errors write_errors dequeue_error answer_error
  process_errors-all es zero new_jobs w o s lt h run = absurd (omega arith)
  process_errors-all [] (suc fuel) new_jobs w o s lt h run =
      let empty = try_pop-empty w.pack.error_queue h in
      let nothing : (try_pop w.pack.error_queue).0 ≡ none = ap (λ r. r.0) empty in
      let w₁ : Worker a = record w {
        pack = record w.pack { error_queue = (try_pop w.pack.error_queue).1 };
      } in
      (w₁, rw (nothing, process_errors) refl, cc, cc, subst (λ r. Holds r.1 []) (sym empty) h)
  process_errors-all (e ∷ es) (suc fuel) new_jobs w o s lt h run =
      let (popped, rest) = try_pop-Holds w.pack.error_queue e es h in
      let ((o₁, s₁), first, more) =
        >>=-eq-ok (process_error a e w.errors_base w.errors w.socket) _ run in
      let w₁ : Worker a = record w {
        pack = record w.pack { error_queue = (try_pop w.pack.error_queue).1 };
        errors = o₁;
        socket = s₁;
      } in
      let (w', ran, buffer, socket, empty) =
        process_errors-all es fuel true w₁ o s (omega arith) rest more in
      (
        w',
        rw (popped, process_errors) (rw (first) (ran ∙ ap (λ b. ok (b, w')) (any_jobs-true es))),
        buffer,
        socket,
        empty,
      )
