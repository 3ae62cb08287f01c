-- ===== src/Storage/Copying.antt =====
-- The deep copy of `setNextMinuteData` in test/storage.cpp, while it goes on: what was copied is a well
-- formed storage by itself, beside the maps that are still to be cleared.
use mathlib.Core.Path.{fun_ext}
use iqoption_test_task.Prelude.{
  ℕ, ◌<◌, ◌≤◌, ◌≡◌, refl, ◌∙◌, subst, Bool-cases, inl, inr, true, none, some, [], arith,
  if◌then◌else◌, ==-refl, ltb,
}
use iqoption_test_task.Maps.{find, contains, emplace_ordered, find-emplace_ordered}
use iqoption_test_task.Storage.{FullUserDataEx, Impl, Group, same_group, group_number, put_object}
use iqoption_test_task.Storage.Reference.{copy_user, or_address}
use iqoption_test_task.Storage.Invariant.{IsStored, same_group-eq}
use iqoption_test_task.Storage.Joins.{joined}

-- The maps before k, and the objects from address n0 on.
abbrev pub view : ℕ → ℕ → Impl → Impl
view n0 k t = record t {
  objects = λ q. if ltb q n0 then none else t.objects q;
  users = λ h. if ltb (group_number h) k then t.users h else [];
}

module _ (n s : Impl) where
  abbrev pub n0 : ℕ
  n0 = s.next_address

  pub record Copying (k : ℕ) (t : Impl) : Type 0 where
    pub stored : IsStored (view n0 k t)
    pub later : n0 ≤ t.next_address
    pub old : (h : Group) → k ≤ group_number h → t.users h ≡ s.users h
    pub content :
        (i q : ℕ)
        → find i t.index ≡ some q
        → (h : Group) × (p : ℕ) × (group_number h < k)
          × (find i (n.users h) ≡ some p)
          × (t.objects q ≡ n.objects p)
          × (n0 ≤ q)

pub copy_user-joined :
    (g : Group) (id : ℕ) (u : FullUserDataEx) (t : Impl)
    → find id (t.users g) ≡ none
    → find id t.index ≡ none
    → copy_user g id u t ≡ joined g id u t
unfolding copy_user contains
copy_user-joined g id u t a b = rw (a, copy_user, or_fresh_address) refl
  where
    or_fresh_address :
        or_address id (emplace_ordered id t.next_address (t.users g)) t.next_address
        ≡ t.next_address
    or_fresh_address =
        let found : find id (emplace_ordered id t.next_address (t.users g)) ≡ some t.next_address =
          find-emplace_ordered id id t.next_address (t.users g) ∙ rw (a, ==-refl id) refl in
        rw (found, or_address) refl

pub view-joined :
    (n₀ k : ℕ) (g : Group) (id : ℕ) (u : FullUserDataEx) (t : Impl)
    → group_number g < k
    → n₀ ≤ t.next_address
    → view n₀ k (joined g id u t) ≡ joined g id u (view n₀ k t)
view-joined n₀ k g id u t lt le =
    let p = t.next_address in
    let done : ltb (group_number g) k ≡ true = ground arith in
    let objects : (λ (q : ℕ). if ltb q n₀ then none else put_object p (some u) t.objects q)
        ≡ put_object p (some u) (view n₀ k t).objects =
      fun_ext (λ q. ground arith) in
    let users : (view n₀ k (joined g id u t)).users ≡ (joined g id u (view n₀ k t)).users =
      fun_ext (λ h. same_users h done) in
    λ i. record (joined g id u t) { objects = objects i; users = users i }
  where
    same_users :
        (h : Group)
        → ltb (group_number g) k ≡ true
        → (view n₀ k (joined g id u t)).users h ≡ (joined g id u (view n₀ k t)).users h
    same_users h done = elim (Bool-cases (same_group g h)) [
      | inl y ↦
          let same = same_group-eq g h y in
          let done' : ltb (group_number h) k ≡ true =
            subst (λ x. ltb (group_number x) k ≡ true) same done in
          rw (y, done, done') refl
      | inr y ↦ rw y refl
    ]
