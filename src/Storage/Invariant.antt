-- ===== src/Storage/Invariant.antt =====
-- When a storage of test/storage.cpp is well formed, and that a user who changes stays at his place or
-- moves to the map where he belongs.
use iqoption_test_task.Prelude.{
  ℕ, ◌≤◌, ◌≡◌, ◌≢◌, refl, subst, Bool-cases, inl, inr, true, false, none, some, arith, ◌==◌,
  if◌then◌else◌,
}
use iqoption_test_task.Maps.{find, erase, insert_ordered, find-insert_ordered}
use iqoption_test_task.Maps.Distinct.{Distinct, find-erase, erase-Distinct, insert_ordered-Distinct}
use iqoption_test_task.Core.{invalid_second}
use iqoption_test_task.Storage.{
  FullUserDataEx, Group, active_connected, active_disconnected, silent_connected,
  silent_disconnected, same_group, put_group, UserArray, Impl, object_at,
}
use iqoption_test_task.Storage.Users.{connected_group, disconnected_group}

-- The map in which a user belongs.
abbrev pub group_of : FullUserDataEx → Group
group_of u =
    if u.second_connected == invalid_second
    then disconnected_group u.winnings
    else connected_group u.winnings

-- The index leads to the object of each user, which stands in the map where the user belongs; the maps
-- own nothing else, and what is not given out yet is free.
pub record IsStored (s : Impl) : Type 0 where
  pub distinct : (g : Group) → Distinct (s.users g)
  pub distinct_index : Distinct s.index
  pub indexed :
      (i p : ℕ)
      → find i s.index ≡ some p
      → (u : FullUserDataEx) × (s.objects p ≡ some u)
        × (u.id ≡ i)
        × (find i (s.users (group_of u)) ≡ some p)
  pub owned :
      (g : Group) (i p : ℕ)
      → find i (s.users g) ≡ some p
      → (find i s.index ≡ some p) × (group_of (object_at s p) ≡ g)
  pub unused : (p : ℕ) → s.next_address ≤ p → s.objects p ≡ none

pub same_group-eq : (g h : Group) → same_group g h ≡ true → g ≡ h
same_group-eq active_connected active_connected e = refl
same_group-eq active_disconnected active_disconnected e = refl
same_group-eq silent_connected silent_connected e = refl
same_group-eq silent_disconnected silent_disconnected e = refl
same_group-eq _ _ e = cc

pub same_group_self : (g : Group) → same_group g g ≡ true
same_group_self g = ground arith

pub same_group-ne : (g h : Group) → g ≢ h → same_group g h ≡ false
same_group-ne g h n = elim (Bool-cases (same_group g h)) [
  | inl e ↦ absurd (n (same_group-eq g h e))
  | inr e ↦ e
]

abbrev pub moved_users : Group → Group → ℕ → ℕ → UserArray → UserArray
moved_users g g' i p users =
    put_group g' (insert_ordered i p (users g')) (put_group g (erase i (users g)) users)

module _ (g g' : Group) (i p : ℕ) (users : UserArray) (apart : g ≢ g')
    (distinct : (h : Group) → Distinct (users h)) (missing : find i (users g') ≡ none) where
  pub find-moved_users :
      (h : Group) (j : ℕ)
      → find j (moved_users g g' i p users h) ≡ (
          if i == j
          then (if same_group g' h
              then some p
              else if same_group g h
              then none
              else find j (users h))
          else find j (users h))
  find-moved_users h j = elim (Bool-cases (same_group g' h)) [
    | inl e ↦
        let same = same_group-eq g' h e in
        rw e (
          subst
            (λ x.
              find j (insert_ordered i p (users g'))
              ≡ (if i == j then some p else find j (users x)))
            same (find-insert_ordered i j p (users g') missing))
    | inr e ↦ rw e (elim (Bool-cases (same_group g h)) [
      | inl f ↦
          let same = same_group-eq g h f in
          rw f (
            subst (λ x. find j (erase i (users g)) ≡ (if i == j then none else find j (users x)))
              same (find-erase i j (users g) (distinct g)))
      | inr f ↦ rw f (ground arith)
    ])
  ]

  pub moved_users-Distinct : (h : Group) → Distinct (moved_users g g' i p users h)
  moved_users-Distinct h = elim (Bool-cases (same_group g' h)) [
    | inl e ↦ rw e (insert_ordered-Distinct i p (users g') missing (distinct g'))
    | inr e ↦ rw e (elim (Bool-cases (same_group g h)) [
      | inl f ↦ rw f (erase-Distinct i (users g) (distinct g))
      | inr f ↦ rw f (distinct h)
    ])
  ]
