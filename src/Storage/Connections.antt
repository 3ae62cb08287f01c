-- ===== src/Storage/Connections.antt =====
-- The operations of test/storage.cpp on a user whom the storage knows: no assertion fails, and the
-- storage stays well formed.
use mathlib.Core.Path.{fun_ext}
use iqoption_test_task.Prelude.{
  ℕ, ◌≡◌, ◌≢◌, refl, sym, ◌∙◌, subst, Bool-cases, inl, inr, false, none, some, List, arith, ◌==◌,
  if◌then◌else◌, ==-refl,
}
use iqoption_test_task.Failures.{ok}
use iqoption_test_task.Core.{invalid_second}
use iqoption_test_task.Maps.{find}
use iqoption_test_task.Storage.{
  FullUserDataEx, put_object, Objects, Impl, active_connected, active_disconnected,
  silent_connected, silent_disconnected,
}
use iqoption_test_task.Storage.Users.{
  find_index, connect_user, disconnect_user, rename_user, push_history, connected_group,
  disconnected_group,
}
use iqoption_test_task.Storage.Invariant.{group_of, IsStored, moved_users}
use iqoption_test_task.Storage.Changes.{
  rewritten, elsewhere, find_and_migrate_lem, home, stays-IsStored, moves-IsStored,
}

abbrev pub with_second : ℕ → FullUserDataEx → FullUserDataEx
with_second second u = record u { second_connected = second }

abbrev pub moved_to : Impl → ℕ → ℕ → FullUserDataEx → FullUserDataEx → Impl
moved_to s i p u u' = rewritten s p u' (moved_users (group_of u) (group_of u') i p s.users)

connects_apart : (w : ℕ) → disconnected_group w ≢ connected_group w
connects_apart w e = elim (Bool-cases (w == 0)) [
  | inl z ↦ let f : silent_disconnected ≡ silent_connected = ground arith in cc
  | inr z ↦ let f : active_disconnected ≡ active_connected = ground arith in cc
]

-- The second write to an object is the one that stays.
put_object-put_object :
    (p : ℕ) (u v : FullUserDataEx) (objects : Objects)
    → put_object p (some v) (put_object p (some u) objects) ≡ put_object p (some v) objects
put_object-put_object p u v objects = fun_ext λ q. ground arith

module _ (s : Impl) (h : IsStored s) (i p : ℕ) (u : FullUserDataEx) (e : find i s.index ≡ some p)
    (o : s.objects p ≡ some u) where
  pub connect_user_lem :
      (second : ℕ)
      → u.second_connected ≡ invalid_second
      → second ≢ invalid_second
      → (connect_user i second s ≡ ok (p, moved_to s i p u (with_second second u)))
        × IsStored (moved_to s i p u (with_second second u))
  unfolding connect_user find_index
  connect_user_lem second out into =
      let from : group_of u ≡ disconnected_group u.winnings = rw out refl in
      let to : group_of (with_second second u) ≡ connected_group u.winnings = ground arith in
      let ne : group_of u ≢ group_of (with_second second u) =
        λ q. connects_apart u.winnings (sym from ∙ (q ∙ to)) in
      let stored = moves-IsStored s h i p u (with_second second u) e o refl ne in
      let there = subst (λ g. find i (s.users g) ≡ some p) from (home s h i p u u e o refl) in
      let gone =
        subst (λ g. find i (s.users g) ≡ none) to
          (elsewhere s i p u (group_of (with_second second u)) h e o ne) in
      (
        rw
            (
              e,
              connect_user,
              find_index,
              o,
              find_and_migrate_lem (disconnected_group u.winnings) (connected_group u.winnings) i p
                  (rewritten s p (with_second second u) s.users) (connects_apart u.winnings) there
                  gone,
              from,
              to,
            )
            refl,
        stored,
      )

  -- A user who leaves, and his mark of a rating received.
  abbrev pub left : FullUserDataEx
  left = record u {
    second_connected = invalid_second;
    rating_received = if u.winnings == 0 then u.rating_received else false;
  }

  pub disconnect_user_lem :
      u.second_connected ≢ invalid_second
      → (disconnect_user i s ≡ ok (p, moved_to s i p u left)) × IsStored (moved_to s i p u left)
  unfolding disconnect_user find_index
  disconnect_user_lem inside =
      let from : group_of u ≡ connected_group u.winnings = ground arith in
      let to : group_of left ≡ disconnected_group u.winnings = refl in
      let ne : group_of u ≢ group_of left =
        λ q. connects_apart u.winnings (sym to ∙ (sym q ∙ from)) in
      let stored = moves-IsStored s h i p u left e o refl ne in
      let there = subst (λ g. find i (s.users g) ≡ some p) from (home s h i p u u e o refl) in
      let gone = elsewhere s i p u (group_of left) h e o ne in
      let moved =
        find_and_migrate_lem (connected_group u.winnings) (disconnected_group u.winnings) i p
          (rewritten s p (with_second invalid_second u) s.users)
          (λ q. connects_apart u.winnings (sym q)) there gone in
      (
        elim (Bool-cases (u.winnings == 0)) [
          | inl z ↦ rw (e, disconnect_user, find_index, o, from, moved, z) refl
          | inr z ↦
              rw
                (
                  e,
                  disconnect_user,
                  find_index,
                  o,
                  from,
                  moved,
                  z,
                  ==-refl p,
                  put_object-put_object p (with_second invalid_second u)
                      (record u { second_connected = invalid_second; rating_received = false })
                      s.objects,
                )
                refl
        ],
        stored,
      )

  -- A user with a new name.
  abbrev pub renamed_user : List ℕ → FullUserDataEx
  renamed_user new_name = record u { name_list = push_history u.name u.name_list; name = new_name }

  pub rename_user_lem :
      (new_name : List ℕ)
      → (rename_user i new_name s ≡ ok (p, rewritten s p (renamed_user new_name) s.users))
        × IsStored (rewritten s p (renamed_user new_name) s.users)
  unfolding rename_user find_index
  rename_user_lem new_name = (
    rw (e, rename_user, find_index, o) refl,
    stays-IsStored s h i p u (renamed_user new_name) e o refl refl,
  )
