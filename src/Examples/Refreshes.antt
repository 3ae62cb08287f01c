-- ===== src/Examples/Refreshes.antt =====
-- A refresh with one worker (service/worker_pool.cpp, service/rating_calculator.cpp): it goes to sleep
-- and comes back. And what happens if the next refresh comes before it is counted again.
use iqoption_test_task.Prelude.{ℕ, ◌+◌, ◌≡◌, refl, true, false, [], ◌∷◌, inr}
use iqoption_test_task.Refresh.{
  Stage, reads, depletes, locked, checks, dozes, asleep, notified, woken, same, minus, plus,
  see_refresh, lock, count_out, doze, sleep, lock_again, wake, count_in, Refreshing, idle, told,
  recalculates, stored, RefreshState, is_free, RefreshStep, started, RefreshRun, begun, continued,
  move, tell, proceed, store, notify_all,
}
use iqoption_test_task.Refresh.Counts.{is_reading}
use iqoption_test_task.Refresh.Quiet.{Timely, run-quiet, run-returns}

abbrev with_one : Stage → ℕ → Refreshing → RefreshState
with_one w n step = record {
  refresh_in_progress = true;
  data_reader_count = n;
  workers = w ∷ [];
  refreshing = step;
}

abbrev sleeping : RefreshRun 1 (with_one asleep 0 recalculates)
unfolding is_free
sleeping =
    let r₁ = continued begun (tell (started 1) refl) in
    let r₂ =
      continued r₁
        (move (with_one reads 1 told) [] [] reads depletes same refl (see_refresh true)) in
    let r₃ =
      continued r₂ (move (with_one depletes 1 told) [] [] depletes locked same refl (lock true)) in
    let r₄ =
      continued r₃
        (move (with_one locked 1 told) [] [] locked checks minus refl (count_out true false)) in
    let r₅ =
      continued r₄ (move (with_one checks 0 told) [] [] checks dozes same refl (doze false)) in
    let r₆ =
      continued r₅ (move (with_one dozes 0 told) [] [] dozes asleep same refl (sleep true false)) in
    continued r₆ (proceed (with_one asleep 0 told) refl refl)

abbrev afterwards : Stage → Refreshing → RefreshState
afterwards w step = record (with_one w 0 step) { refresh_in_progress = false }

abbrev back : RefreshRun 1 (afterwards notified idle)
unfolding is_free sleeping
back =
    continued (continued sleeping (store (with_one asleep 0 recalculates) refl refl))
      (notify_all (afterwards asleep stored) refl)

back-Timely : Timely back
unfolding sleeping back
back-Timely = (((((((((tt, refl), tt), tt), tt), tt), tt), tt), tt), tt)

sleeping-Timely : Timely sleeping
unfolding sleeping
sleeping-Timely = (((((((tt, refl), tt), tt), tt), tt), tt), tt)

run-quiet_example : is_reading asleep ≡ false
run-quiet_example =
    run-quiet 1 (with_one asleep 0 recalculates) sleeping [] [] asleep sleeping-Timely refl refl

lock_free : is_free (afterwards notified idle).workers ≡ true
unfolding is_free
lock_free = refl

run-returns_example :
    let s₁ : RefreshState = record (afterwards notified idle) { workers = checks ∷ [] } in
    let s₂ : RefreshState = record (afterwards notified idle) { workers = woken ∷ [] } in
    let s₃ : RefreshState = record (afterwards notified idle) {
      workers = reads ∷ [];
      data_reader_count = 0 + 1;
    } in
    (notified ≡ notified)
    × RefreshStep (afterwards notified idle) s₁
    × RefreshStep s₁ s₂
    × RefreshStep s₂ s₃
run-returns_example =
    run-returns 1 (afterwards notified idle) back [] [] notified back-Timely refl lock_free
      (inr refl) refl

-- A worker reads while the rating is recalculated, if the flag is raised between the end of its wait
-- and its count.
race_reached : RefreshRun 1 (with_one reads 1 recalculates)
unfolding is_free
race_reached =
    let r₁ =
      continued back
        (move (afterwards notified idle) [] [] notified checks same refl (lock_again false)) in
    let r₂ =
      continued r₁ (move (afterwards checks idle) [] [] checks woken same refl (wake false)) in
    let r₃ = continued r₂ (tell (afterwards woken idle) refl) in
    let r₄ = continued r₃ (proceed (with_one woken 0 told) refl refl) in
    continued r₄
      (move (with_one woken 0 recalculates) [] [] woken reads plus refl (count_in true true))
