-- ===== src/Storage/Joins.antt =====
-- New users of test/storage.cpp leave a storage well formed, and the first storage is.
use iqoption_test_task.Prelude.{
  ℕ, suc, ◌≡◌, refl, sym, ap, ◌∙◌, subst, Bool-cases, inl, inr, true, false, none, some, List,
  arith, ◌==◌, if◌then◌else◌, ==_iff, Option-cases,
}
use iqoption_test_task.Maps.{find, contains, emplace_ordered, find-emplace_ordered}
use iqoption_test_task.Maps.Distinct.{emplace_ordered-Distinct}
use iqoption_test_task.Storage.{
  FullUserDataEx, new_user, new_impl, Group, same_group, put_group, put_object, Impl,
  silent_disconnected,
}
use iqoption_test_task.Storage.Users.{add_user}
use iqoption_test_task.Storage.Invariant.{group_of, IsStored, same_group-eq, same_group_self}

-- A user that joins a map and the index.
abbrev pub joined : Group → ℕ → FullUserDataEx → Impl → Impl
joined g id u s =
    let p = s.next_address in
    record s {
      objects = put_object p (some u) s.objects;
      next_address = suc p;
      users = put_group g (emplace_ordered id p (s.users g)) s.users;
      index = emplace_ordered id p s.index;
    }

-- An id that the index does not know is in no map.
pub in_no_map :
    (s : Impl) (id : ℕ) (g : Group)
    → IsStored s
    → find id s.index ≡ none
    → find id (s.users g) ≡ none
in_no_map s id g h fresh = elim (Option-cases (find id (s.users g))) [
  | inl n ↦ n
  | inr (q, f) ↦ let own = h.owned g id q f in cc (own.0)
]

module _ (s : Impl) (id : ℕ) (u : FullUserDataEx) (h : IsStored s) (fresh : find id s.index ≡ none)
    (same_id : u.id ≡ id) where
  abbrev here : Group
  here = group_of u

  find_users :
      (g : Group) (j : ℕ)
      → find j ((joined here id u s).users g) ≡ (
          if id == j
          then (if same_group here g then some s.next_address else none)
          else find j (s.users g))
  unfolding contains
  find_users g j = elim (Bool-cases (same_group here g)) [
    | inl y ↦
        let same : here ≡ g = same_group-eq here g y in
        rw y (
          subst
            (λ k.
              find j (emplace_ordered id s.next_address (s.users here))
              ≡ (if id == j then some s.next_address else find j (s.users k)))
            same
            (find-emplace_ordered id j s.next_address (s.users here)
              ∙ rw (in_no_map s id here h fresh) refl))
    | inr y ↦ rw y (elim (Bool-cases (id == j)) [
      | inl z ↦
          rw z
            (subst (λ k. find k (s.users g) ≡ none) ((==_iff id j).0 z) (in_no_map s id g h fresh))
      | inr z ↦ rw z refl
    ])
  ]

  pub find-joined :
      (j : ℕ)
      → find j (joined here id u s).index
        ≡ (if id == j then some s.next_address else find j s.index)
  unfolding contains
  find-joined j = find-emplace_ordered id j s.next_address s.index ∙ rw fresh refl

  -- What a map or the index holds is not where the new user is put.
  pub not_new : (j q : ℕ) → find j s.index ≡ some q → (s.next_address == q) ≡ false
  not_new j q f = elim (Bool-cases (s.next_address == q)) [
    | inr y ↦ y
    | inl y ↦
        let (v, o, _, _) = h.indexed j q f in let free = h.unused q (ground arith) in absurd (cc)
  ]

  its_address : (q : ℕ) → some s.next_address ≡ some q → s.next_address ≡ q
  its_address q f = cc

  pub joined-IsStored : IsStored (joined here id u s)
  joined-IsStored = record {
    distinct = λ g. elim (Bool-cases (same_group here g)) [
      | inl y ↦ rw y (emplace_ordered-Distinct id s.next_address (s.users here) (h.distinct here))
      | inr y ↦ rw y (h.distinct g)
    ];
    distinct_index = emplace_ordered-Distinct id s.next_address s.index h.distinct_index;
    indexed = λ j q f. elim (Bool-cases (id == j)) [
      | inl y ↦
          let at : s.next_address ≡ q = its_address q (sym (find-joined j ∙ rw y refl) ∙ f) in
          let there : (s.next_address == q) ≡ true = (==_iff s.next_address q).1 at in
          (
            u,
            rw there refl,
            same_id ∙ (==_iff id j).0 y,
            find_users here j ∙ (rw (y, same_group_self here) (ap some at)),
          )
      | inr y ↦
          let old : find j s.index ≡ some q = sym (find-joined j ∙ rw y refl) ∙ f in
          let (v, o, a, w) = h.indexed j q old in
          (v, rw (not_new j q old) o, a, find_users (group_of v) j ∙ rw y w)
    ];
    owned = λ g j q f. elim (Bool-cases (id == j)) [
      | inl y ↦ elim (Bool-cases (same_group here g)) [
        | inl z ↦
            let at : s.next_address ≡ q =
              its_address q (sym (find_users g j ∙ rw (y, z) refl) ∙ f) in
            let there : (s.next_address == q) ≡ true = (==_iff s.next_address q).1 at in
            (find-joined j ∙ rw y (ap some at), rw there (same_group-eq here g z))
        | inr z ↦ let nothing : none ≡ some q = sym (find_users g j ∙ rw (y, z) refl) ∙ f in cc
      ]
      | inr y ↦
          let (at, own) = h.owned g j q (sym (find_users g j ∙ rw y refl) ∙ f) in
          (find-joined j ∙ rw y at, rw (not_new j q at) own)
    ];
    unused = λ q le. let free = h.unused q (omega arith) in ground arith;
  }

pub new_impl-IsStored : IsStored new_impl
unfolding find
new_impl-IsStored = record {
  distinct = λ g. tt;
  distinct_index = tt;
  indexed = λ i p e. absurd (cc);
  owned = λ g i p e. absurd (cc);
  unused = λ p le. refl;
}

abbrev pub newcomer : ℕ → List ℕ → FullUserDataEx
newcomer id name = record new_user { id = id; name = name }

-- `add_user` with an id that is not known.
pub add_user_lem :
    (s : Impl) (id : ℕ) (name : List ℕ)
    → IsStored s
    → find id s.index ≡ none
    → (add_user id name s ≡ (s.next_address, joined silent_disconnected id (newcomer id name) s))
      × IsStored (add_user id name s).1
unfolding add_user contains
add_user_lem s id name h fresh =
    let gone = in_no_map s id silent_disconnected h fresh in
    (rw gone refl, rw gone (joined-IsStored s id (newcomer id name) h fresh refl))
