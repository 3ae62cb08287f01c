-- ===== src/Storage/Members.antt =====
-- Whose addresses `forEachInMaps` of test/storage.cpp walks over, in a well formed storage.
use iqoption_test_task.Prelude.{
  ℕ, ◌≡◌, refl, sym, ap, ◌∙◌, subst, Bool-cases, inl, inr, true, false, not, none, some, List, [],
  ◌∷◌, ◌++◌, arith, ◌==◌, if◌then◌else◌, ==_iff, ==-refl,
}
use iqoption_test_task.Maps.{find}
use iqoption_test_task.Maps.Distinct.{Distinct}
use iqoption_test_task.Storage.{
  FullUserDataEx, Impl, Group, active_connected, active_disconnected, silent_connected,
  silent_disconnected, same_group, object_at, UserDataMap,
}
use iqoption_test_task.Storage.Reference.{addresses, in_maps, active_maps, silent_maps}
use iqoption_test_task.Storage.Invariant.{group_of, IsStored, same_group-eq, same_group_self}
use iqoption_test_task.Storage.Changes.{index_injective}
use iqoption_test_task.Storage.Addresses.{mem, NoTwice}

pub mem-append : (q : ℕ) (xs ys : List ℕ) → mem q (xs ++ ys) ≡ (if mem q xs then true else mem q ys)
mem-append q [] ys = refl
mem-append q (x ∷ xs) ys = ground (arith, mem-append q xs ys)

NoTwice-append :
    (xs ys : List ℕ)
    → NoTwice xs
    → NoTwice ys
    → ((q : ℕ) → mem q xs ≡ true → mem q ys ≡ false)
    → NoTwice (xs ++ ys)
NoTwice-append [] ys n k d = k
NoTwice-append (x ∷ xs) ys n k d = (
  ground (arith, mem-append x xs ys, d x),
  NoTwice-append xs ys n.1 k (λ q b. d q (ground arith)),
)

mem-addresses : (i p : ℕ) (m : UserDataMap) → find i m ≡ some p → mem p (addresses m) ≡ true
unfolding find
mem-addresses i p [] e = absurd (cc)
mem-addresses i p ((j, q) ∷ m) e = ground (arith, mem-addresses i p m)

-- Under which id an address stands.
pub id_of :
    (p : ℕ) (m : UserDataMap)
    → Distinct m
    → mem p (addresses m) ≡ true
    → (i : ℕ) × (find i m ≡ some p)
unfolding find
id_of p [] d e = absurd (cc)
id_of p ((j, q) ∷ m) d e = elim (Bool-cases (q == p)) [
  | inl y ↦ (j, rw (==-refl j) (ap some ((==_iff q p).0 y)))
  | inr y ↦
      let (i, f) = id_of p m d.1 (sym (rw y refl) ∙ e) in
      (
        i,
        elim (Bool-cases (j == i)) [
          | inl z ↦
              let same : j ≡ i = (==_iff j i).0 z in
              absurd (let r = subst (λ x. find x m ≡ none) same d.0 in cc)
          | inr z ↦ rw z f
        ],
      )
]

addresses-NoTwice :
    (m : UserDataMap)
    → Distinct m
    → ((i j p : ℕ) → find i m ≡ some p → find j m ≡ some p → i ≡ j)
    → NoTwice (addresses m)
unfolding find
addresses-NoTwice [] d one = tt
addresses-NoTwice ((k, q) ∷ m) d one = (
  elim (Bool-cases (mem q (addresses m))) [
    | inr y ↦ y
    | inl y ↦
        let (i, f) = id_of q m d.1 y in
        let head : k ≡ i = one k i q (rw (==-refl k) refl) (behind m k i q d.0 f) in
        absurd (let r = subst (λ x. find x m ≡ none) head d.0 in cc)
  ],
  addresses-NoTwice m d.1 (λ i j p e f. one i j p (behind m k i q d.0 e) (behind m k j q d.0 f)),
)
  where
    behind :
        (m : UserDataMap) (k i q : ℕ) {p : ℕ}
        → find k m ≡ none
        → find i m ≡ some p
        → (if k == i then some q else find i m) ≡ some p
    behind m k i q n f = elim (Bool-cases (k == i)) [
      | inl z ↦ absurd (let r = subst (λ x. find x m ≡ none) ((==_iff k i).0 z) n in cc)
      | inr z ↦ rw z f
    ]

module _ (s : Impl) (h : IsStored s) where
  mem_map :
      (i p : ℕ) (u : FullUserDataEx) (g : Group)
      → find i s.index ≡ some p
      → s.objects p ≡ some u
      → mem p (addresses (s.users g)) ≡ same_group g (group_of u)
  mem_map i p u g e o =
      let (v, o', _, w) = h.indexed i p e in
      let same : v ≡ u = cc in
      let there = subst (λ x. find i (s.users (group_of x)) ≡ some p) same w in
      elim (Bool-cases (same_group g (group_of u))) [
        | inl y ↦
            let its = same_group-eq g (group_of u) y in
            mem-addresses i p (s.users g) (subst (λ k. find i (s.users k) ≡ some p) (sym its) there)
            ∙ sym y
        | inr y ↦ elim (Bool-cases (mem p (addresses (s.users g)))) [
          | inr z ↦ z ∙ sym y
          | inl z ↦
              let (j, f) = id_of p (s.users g) (h.distinct g) z in
              let its : group_of (object_at s p) ≡ g = (h.owned g j p f).1 in
              let mine : group_of u ≡ g = sym (rw o refl) ∙ its in
              absurd (
                let r = subst (λ k. same_group g k ≡ false) mine y in
                ground (arith, same_group_self g))
        ]
      ]

  abbrev pub actives : List ℕ
  actives = in_maps active_maps s.users

  abbrev pub silents : List ℕ
  silents = in_maps silent_maps s.users

  pub mem-actives :
      (i p : ℕ) (u : FullUserDataEx)
      → find i s.index ≡ some p
      → s.objects p ≡ some u
      → mem p actives ≡ not (u.winnings == 0)
  mem-actives i p u e o =
      mem-append p (addresses (s.users active_connected))
        (addresses (s.users active_disconnected) ++ [])
      ∙ ground (
        arith,
        mem_map i p u active_connected e o,
        mem_map i p u active_disconnected e o,
        mem-append p (addresses (s.users active_disconnected)) [],
      )

  pub mem-silents :
      (i p : ℕ) (u : FullUserDataEx)
      → find i s.index ≡ some p
      → s.objects p ≡ some u
      → mem p silents ≡ (u.winnings == 0)
  mem-silents i p u e o =
      mem-append p (addresses (s.users silent_connected))
        (addresses (s.users silent_disconnected) ++ [])
      ∙ ground (
        arith,
        mem_map i p u silent_connected e o,
        mem_map i p u silent_disconnected e o,
        mem-append p (addresses (s.users silent_disconnected)) [],
      )

  in_map :
      (g : Group) (p : ℕ)
      → mem p (addresses (s.users g)) ≡ true
      → (i : ℕ) × (find i s.index ≡ some p) × (group_of (object_at s p) ≡ g)
  in_map g p b =
      let (i, f) = id_of p (s.users g) (h.distinct g) b in
      let (e, its) = h.owned g i p f in (i, e, its)

  -- Who is walked over is a user with winnings, or without.
  pub id_of_active : (p : ℕ) → mem p actives ≡ true → (i : ℕ) × (find i s.index ≡ some p)
  id_of_active p b = elim (Bool-cases (mem p (addresses (s.users active_connected)))) [
    | inl y ↦ let (i, e, _) = in_map active_connected p y in (i, e)
    | inr y ↦
        let z : mem p (addresses (s.users active_disconnected)) ≡ true = ground (
          arith,
          mem-append p (addresses (s.users active_connected))
              (addresses (s.users active_disconnected) ++ []),
          mem-append p (addresses (s.users active_disconnected)) [],
        ) in
        let (i, e, _) = in_map active_disconnected p z in (i, e)
  ]

  pub actives-NoTwice : NoTwice actives
  actives-NoTwice =
      NoTwice-append (addresses (s.users active_connected))
        (addresses (s.users active_disconnected) ++ []) (one_map active_connected)
        (NoTwice-append (addresses (s.users active_disconnected)) [] (one_map active_disconnected)
          tt (λ q b. refl))
        (λ q b. elim (Bool-cases (mem q (addresses (s.users active_disconnected) ++ []))) [
          | inr z ↦ z
          | inl z ↦
              let z' : mem q (addresses (s.users active_disconnected)) ≡ true =
                ground (arith, mem-append q (addresses (s.users active_disconnected)) []) in
              let (i, e, its) = in_map active_connected q b in
              let (j, f, its') = in_map active_disconnected q z' in
              absurd (let r = sym its ∙ its' in cc)
        ])
    where
      one_map : (g : Group) → NoTwice (addresses (s.users g))
      one_map g =
          addresses-NoTwice (s.users g) (h.distinct g)
            (λ i j p e f. index_injective s i j p h (h.owned g i p e).0 (h.owned g j p f).0)
