-- ===== src/Storage/Wins.antt =====
-- The statements of `fixUserWinnings` (test/storage.cpp) on a user whom the storage knows: no assertion fails, and the
-- storage stays well formed.
use iqoption_test_task.Prelude.{
  ℕ, ◌≡◌, ◌≢◌, refl, Bool-cases, inl, inr, true, false, some, arith, ◌==◌, ==_iff, add64,
}
use iqoption_test_task.Failures.{ok}
use iqoption_test_task.Core.{invalid_second}
use iqoption_test_task.Maps.{find}
use iqoption_test_task.Storage.{
  FullUserDataEx, UserArray, Impl, active_connected, active_disconnected, silent_connected,
  silent_disconnected,
}
use iqoption_test_task.Storage.Users.{
  find_and_migrate, find_index, fix_winnings, activate, push_history,
}
use iqoption_test_task.Storage.Invariant.{group_of, IsStored, moved_users}
use iqoption_test_task.Storage.Changes.{
  rewritten, elsewhere, find_and_migrate_lem, home, stays-IsStored, moves-IsStored,
}
use iqoption_test_task.Storage.Connections.{moved_to}

first_win :
    (u : FullUserDataEx) (won : ℕ)
    → u.winnings ≡ 0
    → add64 u.winnings won ≢ 0
    → let u' : FullUserDataEx = record u {
      winnings_history = push_history u.winnings u.winnings_history;
      winnings = add64 u.winnings won;
    } in
      (group_of u ≢ group_of u')
first_win u won z nz e = elim (Bool-cases (u.second_connected == invalid_second)) [
  | inl y ↦ let f : silent_disconnected ≡ active_disconnected = ground arith in cc
  | inr y ↦ let f : silent_connected ≡ active_connected = ground arith in cc
]

activate_first :
    (i : ℕ) (u : FullUserDataEx) (won : ℕ) (s : Impl)
    → u.winnings ≡ 0
    → add64 u.winnings won ≢ 0
    → let u' : FullUserDataEx = record u {
      winnings_history = push_history u.winnings u.winnings_history;
      winnings = add64 u.winnings won;
    } in
      activate i u s ≡ find_and_migrate (group_of u) (group_of u') i s
unfolding activate
activate_first i u won s z nz =
    let w : (u.winnings == 0) ≡ true = (==_iff u.winnings 0).1 z in
    let w' : (add64 u.winnings won == 0) ≡ false = ground arith in
    elim (Bool-cases (u.second_connected == invalid_second)) [
      | inl y ↦ rw (w, w', y) refl
      | inr y ↦ rw (w, w', y) refl
    ]

module _ (s : Impl) (h : IsStored s) (i p : ℕ) (u : FullUserDataEx) (e : find i s.index ≡ some p)
    (o : s.objects p ≡ some u) where
  -- A user who wins.
  abbrev pub richer : ℕ → FullUserDataEx
  richer won = record u {
    winnings_history = push_history u.winnings u.winnings_history;
    winnings = add64 u.winnings won;
  }

  pub fix_winnings_first :
      (won : ℕ)
      → u.winnings ≡ 0
      → add64 u.winnings won ≢ 0
      → (fix_winnings i won s ≡ ok (moved_to s i p u (richer won)))
        × IsStored (moved_to s i p u (richer won))
  unfolding fix_winnings find_index activate
  fix_winnings_first won none_yet some_now =
      let ne : group_of u ≢ group_of (richer won) = first_win u won none_yet some_now in
      let stored = moves-IsStored s h i p u (richer won) e o refl ne in
      let there = home s h i p u u e o refl in
      let gone = elsewhere s i p u (group_of (richer won)) h e o ne in
      let moved = find_and_migrate_lem (group_of u) (group_of (richer won)) i p s ne there gone in
      (
        rw (e, fix_winnings, find_index, o, activate_first i u won s none_yet some_now, moved, o)
            refl,
        stored,
      )

  pub fix_winnings_again :
      (won : ℕ)
      → u.winnings ≢ 0
      → add64 u.winnings won ≢ 0
      → (fix_winnings i won s ≡ ok (rewritten s p (richer won) s.users))
        × IsStored (rewritten s p (richer won) s.users)
  unfolding fix_winnings find_index activate
  fix_winnings_again won had has =
      let w : (u.winnings == 0) ≡ false = ground arith in
      let w' : (add64 u.winnings won == 0) ≡ false = ground arith in
      (
        rw (e, fix_winnings, find_index, o, activate, w, o) refl,
        stays-IsStored s h i p u (richer won) e o refl (rw (w, w') refl),
      )

  -- Either way.
  pub fix_winnings_lem :
      (won : ℕ)
      → add64 u.winnings won ≢ 0
      → (users : UserArray) × (fix_winnings i won s ≡ ok (rewritten s p (richer won) users))
        × IsStored (rewritten s p (richer won) users)
  fix_winnings_lem won has = elim (Bool-cases (u.winnings == 0)) [
    | inl y ↦
        let (f, k) = fix_winnings_first won ((==_iff u.winnings 0).0 y) has in
        (moved_users (group_of u) (group_of (richer won)) i p s.users, f, k)
    | inr y ↦
        let (f, k) = fix_winnings_again won (λ z. absurd (ground arith)) has in (s.users, f, k)
  ]
