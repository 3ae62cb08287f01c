-- ===== src/Storage/CopiedUsers.antt =====
-- The inner loop of `setNextMinuteData` in test/storage.cpp: the users of a map are copied.
use iqoption_test_task.Prelude.{
  ℕ, suc, ◌+◌, ◌≡◌, ◌<◌, ◌≤◌, refl, sym, ap, ◌∙◌, subst, Bool-cases, inl, inr, true, false, none,
  some, [], ◌∷◌, arith, ◌==◌, if◌then◌else◌, ==_iff, ==-refl, ltb, length,
}
use iqoption_test_task.Maps.{find}
use iqoption_test_task.Maps.Distinct.{Distinct, length-emplace_ordered}
use iqoption_test_task.Storage.{
  FullUserDataEx, Impl, Group, same_group, group_number, or_new, UserDataMap,
}
use iqoption_test_task.Storage.Reference.{copy_user, copy_users}
use iqoption_test_task.Storage.Invariant.{IsStored, group_of, same_group-eq}
use iqoption_test_task.Storage.Joins.{joined, joined-IsStored, in_no_map, find-joined, not_new}
use iqoption_test_task.Storage.Copying.{view, n0, Copying, copy_user-joined, view-joined}

module _ (n s : Impl) (hn : IsStored n) (g : Group) where
  abbrev pub k : ℕ
  k = suc (group_number g)

  -- From where a user of the storage was copied.
  abbrev Comes : Impl → ℕ → ℕ → Type 0
  Comes t i q =
      (h : Group) × (p : ℕ) × (group_number h < k)
      × (find i (n.users h) ≡ some p)
      × (t.objects q ≡ n.objects p)
      × (n0 n s ≤ q)

  copied_from :
      (id p : ℕ) (u : FullUserDataEx) (t : Impl) (c : Copying n s k t)
      → find id (n.users g) ≡ some p
      → n.objects p ≡ some u
      → find id t.index ≡ none
      → u.id ≡ id
      → (i q : ℕ)
      → find i (joined g id u t).index ≡ (if id == i then some t.next_address else find i t.index)
      → find i (joined g id u t).index ≡ some q
      → Comes (joined g id u t) i q
  copied_from id p u t c e o fresh same_id i q index f = elim (Bool-cases (id == i)) [
    | inl y ↦
        let new : some t.next_address ≡ some q = sym (index ∙ rw y refl) ∙ f in
        let q_lem : t.next_address ≡ q = cc in
        let here : (t.next_address == q) ≡ true = (==_iff t.next_address q).1 q_lem in
        (
          g,
          p,
          omega arith,
          subst (λ x. find x (n.users g) ≡ some p) ((==_iff id i).0 y) e,
          (rw here (sym o)),
          omega (arith, c.later, q_lem),
        )
    | inr y ↦
        let f' : find i t.index ≡ some q = sym (index ∙ rw y refl) ∙ f in
        let (h, r, lt, there, copied, above) = c.content i q f' in
        let kept = not_new (view (n0 n s) k t) id u c.stored fresh same_id i q f' in
        (h, r, lt, there, (rw kept copied), above)
  ]

  joined_sizes :
      (id : ℕ) (u : FullUserDataEx) (t : Impl)
      → find id (t.users g) ≡ none
      → (h : Group)
      → length ((joined g id u t).users h)
        ≡ (if same_group g h then suc (length (t.users h)) else length (t.users h))
  joined_sizes id u t gone h = elim (Bool-cases (same_group g h)) [
    | inl y ↦ rw y (
        length-emplace_ordered id t.next_address (t.users g) gone
        ∙ ap (λ x. suc (length (t.users x))) (same_group-eq g h y))
    | inr y ↦ rw y refl
  ]

  -- A user of the map that is being copied.
  copy_one :
      (id p : ℕ) (u : FullUserDataEx) (t : Impl)
      → Copying n s k t
      → find id (n.users g) ≡ some p
      → n.objects p ≡ some u
      → find id t.index ≡ none
      → (copy_user g id u t ≡ joined g id u t)
        × Copying n s k (joined g id u t)
        × ((j : ℕ)
            → find j (joined g id u t).index
              ≡ (if id == j then some t.next_address else find j t.index))
        × ((h : Group)
            → length ((joined g id u t).users h)
              ≡ (if same_group g h then suc (length (t.users h)) else length (t.users h)))
  copy_one id p u t c e o fresh =
      let (at, its) = hn.owned g id p e in
      let (v, o', same_id', _) = hn.indexed id p at in
      let same : v ≡ u = cc in
      let same_id : u.id ≡ id = ap (λ (x : FullUserDataEx). x.id) (sym same) ∙ same_id' in
      let home : group_of u ≡ g = sym (ap (λ x. group_of (or_new x)) o) ∙ its in
      let done : ltb (group_number g) k ≡ true = ground arith in
      let v₀ = view (n0 n s) k t in
      let gone : find id (t.users g) ≡ none =
        subst (λ x. find id (if x then t.users g else []) ≡ none) done
          (in_no_map v₀ id g c.stored fresh) in
      let stored : IsStored (joined g id u v₀) =
        subst (λ x. IsStored (joined x id u v₀)) home
          (joined-IsStored v₀ id u c.stored fresh same_id) in
      let index : (j : ℕ)
          → find j (joined g id u t).index
            ≡ (if id == j then some t.next_address else find j t.index) =
        find-joined v₀ id u c.stored fresh same_id in
      (
        copy_user-joined g id u t gone fresh,
        record {
          stored =
              subst IsStored (sym (view-joined (n0 n s) k g id u t (omega arith) c.later)) stored;
          later = omega (arith, c.later);
          old = λ h le. let off : same_group g h ≡ false = ground arith in rw off (c.old h le);
          content = λ i q f. copied_from id p u t c e o fresh same_id i q (index i) f;
        },
        index,
        joined_sizes id u t gone,
      )

  -- The users that are left of the map.
  abbrev pub ToCopy : UserDataMap → Impl → Type 0
  ToCopy m t =
      ((i p : ℕ) → find i m ≡ some p → find i (n.users g) ≡ some p)
      × ((i p : ℕ) → find i m ≡ some p → find i t.index ≡ none)

  -- What was there stays, and all that was left is there.
  abbrev pub Extends : UserDataMap → Impl → Impl → Type 0
  Extends m t t' =
      ((i q : ℕ) → find i t.index ≡ some q → (q' : ℕ) × (find i t'.index ≡ some q'))
      × ((i p : ℕ) → find i m ≡ some p → (q' : ℕ) × (find i t'.index ≡ some q'))
      × ((h : Group)
          → length (t'.users h)
            ≡ (if same_group g h then length (t.users h) + length m else length (t.users h)))

  -- All the users of a map are copied.
  pub copy_users_lem :
      (m : UserDataMap) (t : Impl)
      → Distinct m
      → ToCopy m t
      → Copying n s k t
      → Copying n s k (copy_users g n.objects m t) × Extends m t (copy_users g n.objects m t)
  unfolding copy_users find
  copy_users_lem [] t d left c =
      (c, ((λ i q e. (q, e)), (λ i p e. absurd (cc)), (λ h. ground arith)))
  copy_users_lem ((id, p) ∷ m) t d left c =
      let e : find id (n.users g) ≡ some p = left.0 id p (rw (==-refl id) refl) in
      let fresh : find id t.index ≡ none = left.1 id p (rw (==-refl id) refl) in
      let (u, o, _, _) = hn.indexed id p (hn.owned g id p e).0 in
      let (made, c', index, size) = copy_one id p u t c e o fresh in
      let t₁ = joined g id u t in
      let same : copy_user g id (or_new (n.objects p)) t ≡ t₁ = rw o made in
      let left₁ : ToCopy m t₁ = (
        (λ i r f. left.0 i r (behind id p i r m d.0 f)),
        (λ i r f.
            let off : (id == i) ≡ false = apart id i r m d.0 f in
            index i ∙ rw off (left.1 i r (behind id p i r m d.0 f))),
      ) in
      let (c'', ext) = copy_users_lem m t₁ d.1 left₁ c' in
      subst
        (λ x.
          Copying n s k (copy_users g n.objects m x)
          × Extends ((id, p) ∷ m) t (copy_users g n.objects m x))
        (sym same)
        (
          c'',
          (
            (λ i q f. elim (Bool-cases (id == i)) [
              | inl y ↦ ext.0 i t.next_address (index i ∙ rw y refl)
              | inr y ↦ ext.0 i q (index i ∙ rw y f)
            ]),
            (λ i r f. elim (Bool-cases (id == i)) [
              | inl y ↦ ext.0 i t.next_address (index i ∙ rw y refl)
              | inr y ↦ ext.1 i r (sym (rw y refl) ∙ f)
            ]),
            (λ h. ext.2 h ∙ ground (arith, size h)),
          ),
        )
    where
      apart :
          (id i r : ℕ) (m : UserDataMap) → find id m ≡ none → find i m ≡ some r → (id == i) ≡ false
      apart id i r m d f = elim (Bool-cases (id == i)) [
        | inr y ↦ y
        | inl y ↦ absurd (let x = subst (λ j. find j m ≡ none) ((==_iff id i).0 y) d in cc)
      ]

      behind :
          (id p i r : ℕ) (m : UserDataMap)
          → find id m ≡ none
          → find i m ≡ some r
          → (if id == i then some p else find i m) ≡ some r
      behind id p i r m d f = rw (apart id i r m d f) f
