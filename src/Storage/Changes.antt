-- ===== src/Storage/Changes.antt =====
-- A user of test/storage.cpp who changes, and stays in his map or moves to the one where he belongs
-- then, leaves the storage well formed.
use iqoption_test_task.Prelude.{
  ℕ, ◌≡◌, ◌≢◌, refl, sym, ap, ◌∙◌, subst, Bool-cases, inl, inr, true, false, none, some, arith,
  ◌==◌, if◌then◌else◌, ==_iff, ==-refl, Option-cases,
}
use iqoption_test_task.Failures.{ok}
use iqoption_test_task.Maps.{find, contains}
use iqoption_test_task.Maps.Distinct.{Distinct}
use iqoption_test_task.Storage.{
  FullUserDataEx, Group, same_group, put_object, UserArray, Impl, object_at,
}
use iqoption_test_task.Storage.Users.{find_and_migrate, insert_node}
use iqoption_test_task.Storage.Invariant.{
  group_of, IsStored, same_group-eq, same_group-ne, moved_users, find-moved_users,
  moved_users-Distinct, same_group_self,
}

-- A user is in no map but his own.
pub elsewhere :
    (s : Impl) (i p : ℕ) (u : FullUserDataEx) (g : Group)
    → IsStored s
    → find i s.index ≡ some p
    → s.objects p ≡ some u
    → group_of u ≢ g
    → find i (s.users g) ≡ none
elsewhere s i p u g h e o ne = elim (Option-cases (find i (s.users g))) [
  | inl n ↦ n
  | inr (q, f) ↦
      let own = h.owned g i q f in
      let same : q ≡ p = cc (own.0) in
      let there : object_at s q ≡ u = rw same (rw o refl) in
      absurd (ne (sym (ap group_of there) ∙ own.1))
]

-- The user at an address has the id under which the index leads there.
pub index_injective :
    (s : Impl) (i j p : ℕ) → IsStored s → find i s.index ≡ some p → find j s.index ≡ some p → i ≡ j
index_injective s i j p h e f =
    let (u, o, a, _) = h.indexed i p e in
    let (v, o', b, _) = h.indexed j p f in
    let same : u ≡ v = cc in sym a ∙ (ap (λ (x : FullUserDataEx). x.id) same ∙ b)

pub find_and_migrate_lem :
    (g g' : Group) (i p : ℕ) (t : Impl)
    → g ≢ g'
    → find i (t.users g) ≡ some p
    → find i (t.users g') ≡ none
    → find_and_migrate g g' i t ≡ ok (record t { users = moved_users g g' i p t.users })
unfolding find_and_migrate insert_node contains
find_and_migrate_lem g g' i p t ne e f =
    rw (e, find_and_migrate, insert_node, same_group-ne g g' ne, f) refl

-- The storage after a write of a whole user, with the maps as they are then.
abbrev pub rewritten : Impl → ℕ → FullUserDataEx → UserArray → Impl
rewritten s p u' users = record s { objects = put_object p (some u') s.objects; users = users }

module _ (s : Impl) (h : IsStored s) (i p : ℕ) (u u' : FullUserDataEx) (e : find i s.index ≡ some p)
    (o : s.objects p ≡ some u) (same_id : u'.id ≡ u.id) where
  -- The id under which the index leads to the object.
  its_id : u.id ≡ i
  its_id =
      let (v, o', a, _) = h.indexed i p e in
      let same : u ≡ v = cc in ap (λ (x : FullUserDataEx). x.id) same ∙ a

  -- What the users of a storage have to satisfy after the change.
  pub rewritten-IsStored :
      (users : UserArray)
      → ((g : Group) → Distinct (users g))
      → find i (users (group_of u')) ≡ some p
      → ((g : Group) (q : ℕ) → find i (users g) ≡ some q → g ≡ group_of u')
      → ((g : Group) (j : ℕ) → i ≢ j → find j (users g) ≡ find j (s.users g))
      → ((g : Group) (q : ℕ) → find i (users g) ≡ some q → q ≡ p)
      → IsStored (rewritten s p u' users)
  rewritten-IsStored users distinct there only others its = record {
    distinct = distinct;
    distinct_index = h.distinct_index;
    indexed = λ j q f. elim (Bool-cases (p == q)) [
      | inl y ↦
          let same : p ≡ q = (==_iff p q).0 y in
          let mine : i ≡ j = index_injective s i j p h e (f ∙ ap some (sym same)) in
          (
            u',
            rw y refl,
            same_id ∙ (its_id ∙ mine),
            subst (λ k. find k (users (group_of u')) ≡ some q) mine (there ∙ ap some same),
          )
      | inr y ↦
          let (v, o', a, w) = h.indexed j q f in
          let differ : i ≢ j = (λ m. absurd (ground (arith, ap (λ k. find k s.index) m))) in
          (v, rw y o', a, others (group_of v) j differ ∙ w)
    ];
    owned = λ g j q f. elim (Bool-cases (i == j)) [
      | inl y ↦
          let mine : i ≡ j = (==_iff i j).0 y in
          let f' = subst (λ k. find k (users g) ≡ some q) (sym mine) f in
          let at = its g q f' in
          (
            subst (λ k. find k s.index ≡ some q) mine (e ∙ ap some (sym at)),
            let y' : (p == q) ≡ true = (==_iff p q).1 (sym at) in rw y' (sym (only g q f')),
          )
      | inr y ↦
          let differ : i ≢ j = (λ m. absurd (ground arith)) in
          let old = h.owned g j q (sym (others g j differ) ∙ f) in
          let off : (p == q) ≡ false = elim (Bool-cases (p == q)) [
            | inl z ↦
                absurd
                  (differ (index_injective s i j p h e (old.0 ∙ ap some (sym ((==_iff p q).0 z)))))
            | inr z ↦ z
          ] in
          (old.0, rw off old.1)
    ];
    unused = λ q le.
        let free = h.unused q le in
        elim (Bool-cases (p == q)) [
          | inl y ↦
              let same : p ≡ q = (==_iff p q).0 y in absurd (ground (arith, ap s.objects same))
          | inr y ↦ rw y free
        ];
  }

  pub home : find i (s.users (group_of u)) ≡ some p
  home =
      let (v, o', _, w) = h.indexed i p e in
      let same : v ≡ u = cc in subst (λ x. find i (s.users (group_of x)) ≡ some p) same w

  only_home : (g : Group) (q : ℕ) → find i (s.users g) ≡ some q → (q ≡ p) × (g ≡ group_of u)
  only_home g q f =
      let own = h.owned g i q f in
      let same : q ≡ p = cc (own.0) in
      let there : object_at s q ≡ u = rw same (rw o refl) in (same, sym own.1 ∙ ap group_of there)

  -- He stays.
  pub stays-IsStored : group_of u ≡ group_of u' → IsStored (rewritten s p u' s.users)
  stays-IsStored stay =
      rewritten-IsStored s.users h.distinct (subst (λ g. find i (s.users g) ≡ some p) stay home)
        (λ g q f. (only_home g q f).1 ∙ stay) (λ g j ne. refl) (λ g q f. (only_home g q f).0)

  -- He moves.
  pub moves-IsStored :
      (ne : group_of u ≢ group_of u')
      → IsStored (rewritten s p u' (moved_users (group_of u) (group_of u') i p s.users))
  moves-IsStored ne =
      let g = group_of u in
      let g' = group_of u' in
      let gone = elsewhere s i p u g' h e o ne in
      let found = find-moved_users g g' i p s.users ne h.distinct gone in
      let here = λ (k : Group) (q : ℕ) (f : find i (moved_users g g' i p s.users k) ≡ some q).
        elsewhere_absurd k q (sym (found k i) ∙ f) in
      rewritten-IsStored (moved_users g g' i p s.users)
        (moved_users-Distinct g g' i p s.users ne h.distinct gone)
        (found g' i ∙ rw (==-refl i, same_group_self g') refl) (λ k q f. (here k q f).1)
        (λ k j differ. found k j ∙ ground arith) (λ k q f. (here k q f).0)
    where
      elsewhere_absurd :
          (k : Group) (q : ℕ)
          → (if i == i
              then (if same_group (group_of u') k
                  then some p
                  else if same_group (group_of u) k
                  then none
                  else find i (s.users k))
              else find i (s.users k))
            ≡ some q
          → (q ≡ p) × (k ≡ group_of u')
      elsewhere_absurd k q f = elim (Bool-cases (same_group (group_of u') k)) [
        | inl y ↦ (ground arith, sym (same_group-eq _ _ y))
        | inr y ↦ elim (Bool-cases (same_group (group_of u) k)) [
          | inl z ↦ absurd (ground arith)
          | inr z ↦ absurd (
              let own = only_home k q (ground arith) in
              let r = subst (λ x. same_group (group_of u) x ≡ false) own.1 z in
              ground (arith, same_group_self (group_of u)))
        ]
      ]
