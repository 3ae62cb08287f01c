-- ===== src/Dispatcher/Fits.antt =====
-- The incoming data that the dispatcher makes is what the rating calculator asks for
-- (service/message_dispatcher.cpp, service/rating_calculator.cpp).
use iqoption_test_task.Prelude.{
  ℕ, ◌<◌, ◌≡◌, ◌≢◌, refl, sym, inl, inr, none, Option-cases, List, [], ◌∷◌, arith, add64, ◌==◌,
  lt_s32, Bool-cases, Every,
}
use iqoption_test_task.Maps.{find, update_at, insert_ordered, assign}
use iqoption_test_task.Core.{IncomingDataBuffer, invalid_second}
use iqoption_test_task.Protocol.Client.{
  UserMsg, registered, renamed, connected, disconnected, deal_won,
}
use iqoption_test_task.Calculator.Deals.Loop.{Distinct}
use iqoption_test_task.Calculator.Kept.{IsSecond}
use iqoption_test_task.Dispatcher.{MessageDispatcher, dispatch, dispatch_all}

module _ {V : Type 0} where
  abbrev AllValues : (V → Type 0) → List (ℕ × V) → Type 0
  AllValues P = Every (λ e. P e.1)

  insert_values :
      (P : V → Type 0) (k : ℕ) (v : V) (m : List (ℕ × V))
      → P v
      → AllValues P m
      → AllValues P (insert_ordered k v m)
  unfolding insert_ordered
  insert_values P k v [] h all = (h, tt)
  insert_values P k v ((j, w) ∷ m) h all = elim (Bool-cases (lt_s32 k j)) [
    | inl l ↦ rw l (h, all)
    | inr l ↦ rw l (all.0, insert_values P k v m h all.1)
  ]

  assign_values :
      (P : V → Type 0) (k : ℕ) (v : V) (m : List (ℕ × V))
      → P v
      → AllValues P m
      → AllValues P (assign k v m)
  unfolding assign
  assign_values P k v [] h all = tt
  assign_values P k v ((j, w) ∷ m) h all = elim (Bool-cases (j == k)) [
    | inl l ↦ rw l (h, all.1)
    | inr l ↦ rw l (all.0, assign_values P k v m h all.1)
  ]

  update_values :
      (P : V → Type 0) (k : ℕ) (fresh : V) (f : V → V) (m : List (ℕ × V))
      → ((v : V) → P (f v))
      → AllValues P m
      → AllValues P (update_at k fresh f m)
  unfolding update_at
  update_values P k fresh f m h all = elim (Option-cases (find k m)) [
    | inl e ↦ rw (e, update_at) (insert_values P k (f fresh) m (h fresh) all)
    | inr (v, e) ↦ rw (e, update_at) (assign_values P k (f v) m (h v) all)
  ]

  insert_others :
      (i k : ℕ) (v : V) (m : List (ℕ × V))
      → k ≢ i
      → Every (λ d. d.0 ≢ i) m
      → Every (λ d. d.0 ≢ i) (insert_ordered k v m)
  unfolding insert_ordered
  insert_others i k v [] h all = (h, tt)
  insert_others i k v ((j, w) ∷ m) h all = elim (Bool-cases (lt_s32 k j)) [
    | inl l ↦ rw l (h, all)
    | inr l ↦ rw l (all.0, insert_others i k v m h all.1)
  ]

  assign_others :
      (i k : ℕ) (v : V) (m : List (ℕ × V))
      → Every (λ d. d.0 ≢ i) m
      → Every (λ d. d.0 ≢ i) (assign k v m)
  unfolding assign
  assign_others i k v [] all = tt
  assign_others i k v ((j, w) ∷ m) all = elim (Bool-cases (j == k)) [
    | inl l ↦ rw l all
    | inr l ↦ rw l (all.0, assign_others i k v m all.1)
  ]

  not_found : (k : ℕ) (m : List (ℕ × V)) → find k m ≡ none → Every (λ d. d.0 ≢ k) m
  unfolding find
  not_found k [] h = tt
  not_found k ((j, w) ∷ m) h = elim (Bool-cases (j == k)) [
    | inl l ↦ absurd (ground arith)
    | inr l ↦ (ground arith, not_found k m (ground arith))
  ]

  insert-Distinct :
      (k : ℕ) (v : V) (m : List (ℕ × V))
      → Every (λ d. d.0 ≢ k) m
      → Distinct m
      → Distinct (insert_ordered k v m)
  unfolding insert_ordered
  insert-Distinct k v [] new d = (tt, tt)
  insert-Distinct k v ((j, w) ∷ m) new d = elim (Bool-cases (lt_s32 k j)) [
    | inl l ↦ rw l (new, d)
    | inr l ↦ rw l (insert_others j k v m (λ e. new.0 (sym e)) d.0, insert-Distinct k v m new.1 d.1)
  ]

  assign-Distinct : (k : ℕ) (v : V) (m : List (ℕ × V)) → Distinct m → Distinct (assign k v m)
  unfolding assign
  assign-Distinct k v [] d = tt
  assign-Distinct k v ((j, w) ∷ m) d = elim (Bool-cases (j == k)) [
    | inl l ↦ rw l d
    | inr l ↦ rw l (assign_others j k v m d.0, assign-Distinct k v m d.1)
  ]

  update-Distinct :
      (k : ℕ) (fresh : V) (f : V → V) (m : List (ℕ × V))
      → Distinct m
      → Distinct (update_at k fresh f m)
  unfolding update_at
  update-Distinct k fresh f m d = elim (Option-cases (find k m)) [
    | inl e ↦ rw (e, update_at) (insert-Distinct k (f fresh) m (not_found k m e) d)
    | inr (v, e) ↦ rw (e, update_at) (assign-Distinct k (f v) m d)
  ]

-- No user has two deals, and each second is one of a minute or the mark of one who left.
pub record Fits (b : IncomingDataBuffer) : Type 0 where
  pub distinct : Distinct b.deals_won
  pub valid_seconds : Every (λ c. IsSecond c.1) b.connection_changes

dispatch-Fits :
    (second : ℕ) (m : UserMsg) (d : MessageDispatcher)
    → second < 60
    → Fits d.buffer
    → Fits (dispatch second m d).buffer
unfolding dispatch
dispatch-Fits second (registered m) d h f = record {
  distinct = f.distinct;
  valid_seconds = f.valid_seconds;
}
dispatch-Fits second (renamed m) d h f = record {
  distinct = f.distinct;
  valid_seconds = f.valid_seconds;
}
dispatch-Fits second (connected m) d h f = record {
  distinct = f.distinct;
  valid_seconds =
      update_values IsSecond m.user_id 0 (λ old. second) d.buffer.connection_changes
        (λ v. ground arith) f.valid_seconds;
}
dispatch-Fits second (disconnected m) d h f = record {
  distinct = f.distinct;
  valid_seconds =
      update_values IsSecond m.user_id 0 (λ old. invalid_second) d.buffer.connection_changes
        (λ v. refl) f.valid_seconds;
}
dispatch-Fits second (deal_won m) d h f = record {
  distinct =
      update-Distinct m.user_id 0 (λ old. add64 old m.winnings) d.buffer.deals_won f.distinct;
  valid_seconds = f.valid_seconds;
}

-- Any messages, at seconds of a minute, keep the incoming data fit for the rating calculator: no user
-- has two deals, and each second is one of a minute or the mark of one who left.
pub dispatch_all-Fits :
    (ms : List (ℕ × UserMsg)) (d : MessageDispatcher)
    → Every (λ m. m.0 < 60) ms
    → Fits d.buffer
    → Fits (dispatch_all ms d).buffer
unfolding dispatch_all
dispatch_all-Fits [] d h f = f
dispatch_all-Fits ((second, m) ∷ ms) d h f =
    dispatch_all-Fits ms (dispatch second m d) h.1 (dispatch-Fits second m d h.0 f)
