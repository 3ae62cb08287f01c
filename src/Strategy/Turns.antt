-- ===== src/Strategy/Turns.antt =====
-- The turn of a minute in test/strategy.cpp: the storage of the minute before takes over the present one
-- (test/storage.cpp).
use iqoption_test_task.Prelude.{ℕ, ◌^◌, ◌<◌, sym, ap, ◌∙◌, length}
use iqoption_test_task.Storage.{Impl, or_new}
use iqoption_test_task.Storage.Reference.{set_next_minute_data}
use iqoption_test_task.Storage.Members.{actives}
use iqoption_test_task.Storage.Rated.{IsReference}
use iqoption_test_task.Storage.Invariant.{IsStored}
use iqoption_test_task.Storage.NextMinute.{Copies, set_next_minute_data-Copies}
use iqoption_test_task.Strategy.{Strategy}
use iqoption_test_task.Strategy.Minute.{next_minute}
use iqoption_test_task.Strategy.Mirrored.{Mirrored, Follows, GivenOut}

-- A copy knows whom the storage knows, connected at the same second.
Copies-Follows : (n f : Impl) → IsStored n → Copies n f → Follows n f
Copies-Follows n f h c i p e =
    let (u, o, _, _) = h.indexed i p e in
    let (q, r, e', o') = c.copied i p u e o in
    (
      q,
      e',
      ap (λ x. (or_new x).second_connected) o ∙ sym (ap (λ x. (or_new x).second_connected) o'),
    )

Copies-GivenOut : (k : ℕ) (n f : Impl) → Copies n f → GivenOut k n → GivenOut k f
Copies-GivenOut k n f c given i q e = let (p, e') = c.no_others i q e in given i p e'

-- If the two storages of the client are in step, and fewer than 2 ^ 31 users have won, then they are in
-- step when the minute has turned. The storage of the minute before is then a copy of the present one,
-- up to the places, and its rating is the reference rating of its users.
pub next_minute-Mirrored :
    (c : Strategy) (m : Mirrored c)
    → length (actives c.cur_min_data m.cur) < 2 ^ 31
    → Mirrored (next_minute c)
      × IsReference (next_minute c).prev_min_data
      × Copies c.cur_min_data (next_minute c).prev_min_data
unfolding next_minute
next_minute-Mirrored c m few =
    let n = c.cur_min_data in
    let f = set_next_minute_data n c.prev_min_data in
    let (stored, reference, copies) =
      set_next_minute_data-Copies n c.prev_min_data m.cur m.prev few in
    (
      record {
        cur = m.cur;
        prev = stored;
        follows = Copies-Follows n f m.cur copies;
        cur_given_out = m.cur_given_out;
        prev_given_out = Copies-GivenOut c.new_user_id n f copies m.cur_given_out;
        in_range = m.in_range;
      },
      reference,
      copies,
    )
