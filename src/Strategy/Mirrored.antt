-- ===== src/Strategy/Mirrored.antt =====
-- The two storages of test/strategy.cpp know the same users, with the same connections.
use iqoption_test_task.Prelude.{
  ℕ, ◌+◌, ◌<◌, ◌≡◌, refl, sym, ap, ◌∙◌, subst, Bool-cases, inl, inr, true, false, none, some, arith,
  ◌==◌, if◌then◌else◌, ==_iff, ==-refl,
}
use iqoption_test_task.Maps.{find}
use iqoption_test_task.Storage.{FullUserDataEx, Impl, object_at, or_new, UserArray}
use iqoption_test_task.Storage.Invariant.{IsStored, group_of}
use iqoption_test_task.Storage.Changes.{rewritten, index_injective}
use iqoption_test_task.Storage.Joins.{joined, find-joined, not_new}
use iqoption_test_task.Strategy.{Strategy}
use iqoption_test_task.Strategy.Names.{InRange}

abbrev pub second_at : Impl → ℕ → ℕ
second_at s p = (object_at s p).second_connected

-- Whom the one storage knows, the other knows, connected at the same second.
abbrev pub Follows : Impl → Impl → Type 0
Follows s t =
    (i p : ℕ)
    → find i s.index ≡ some p
    → (q : ℕ) × (find i t.index ≡ some q) × (second_at s p ≡ second_at t q)

-- No id is known that was not given out.
abbrev pub GivenOut : ℕ → Impl → Type 0
GivenOut n s = (i p : ℕ) → find i s.index ≡ some p → i < n

pub record Mirrored (c : Strategy) : Type 0 where
  pub cur : IsStored c.cur_min_data
  pub prev : IsStored c.prev_min_data
  pub follows : Follows c.cur_min_data c.prev_min_data
  pub cur_given_out : GivenOut c.new_user_id c.cur_min_data
  pub prev_given_out : GivenOut c.new_user_id c.prev_min_data
  pub in_range : InRange c.names

-- One user gets the same second in both.
pub Follows-after :
    (s t s' t' : Impl) (i p q x : ℕ)
    → IsStored s
    → IsStored t
    → Follows s t
    → find i s.index ≡ some p
    → find i t.index ≡ some q
    → s'.index ≡ s.index
    → t'.index ≡ t.index
    → ((a : ℕ) → second_at s' a ≡ (if p == a then x else second_at s a))
    → ((b : ℕ) → second_at t' b ≡ (if q == b then x else second_at t b))
    → Follows s' t'
Follows-after s t s' t' i p q x hs ht f e e' ks kt left right j a g =
    let g' : find j s.index ≡ some a = sym (ap (find j) ks) ∙ g in
    elim (Bool-cases (p == a)) [
      | inl y ↦
          let at : p ≡ a = (==_iff p a).0 y in
          let same : i ≡ j = index_injective s i j p hs e (g' ∙ ap some (sym at)) in
          (
            q,
            ap (find j) kt ∙ subst (λ k. find k t.index ≡ some q) same e',
            left a ∙ (rw y (sym (right q ∙ rw (==-refl q) refl))),
          )
      | inr y ↦
          let (b, h, l) = f j a g' in
          let off : (q == b) ≡ false = elim (Bool-cases (q == b)) [
            | inr z ↦ z
            | inl z ↦
                let same : i ≡ j =
                  index_injective t i j q ht e' (h ∙ ap some (sym ((==_iff q b).0 z))) in
                let back : some p ≡ some a = sym e ∙ (ap (λ k. find k s.index) same ∙ g') in
                absurd (let r : p ≡ a = cc in ground arith)
          ] in
          (b, ap (find j) kt ∙ h, left a ∙ (rw y (l ∙ sym (right b ∙ rw off refl))))
    ]

-- The seconds after the write of a user.
pub second_at-rewritten :
    (s : Impl) (p : ℕ) (u' : FullUserDataEx) (users : UserArray) (a : ℕ)
    → second_at (rewritten s p u' users) a ≡ (if p == a then u'.second_connected else second_at s a)
second_at-rewritten s p u' users a = elim (Bool-cases (p == a)) [
  | inl y ↦
      let e : (rewritten s p u' users).objects a ≡ some u' = rw y refl in
      ap (λ o. (or_new o).second_connected) e ∙ (rw y refl)
  | inr y ↦
      let e : (rewritten s p u' users).objects a ≡ s.objects a = rw y refl in
      ap (λ o. (or_new o).second_connected) e ∙ (rw y refl)
]

-- A write that keeps the second.
pub second_at-kept :
    (s : Impl) (p x : ℕ)
    → second_at s p ≡ x
    → (a : ℕ) → second_at s a ≡ (if p == a then x else second_at s a)
second_at-kept s p x e a = elim (Bool-cases (p == a)) [
  | inl y ↦ rw y (ap (second_at s) (sym ((==_iff p a).0 y)) ∙ e)
  | inr y ↦ rw y refl
]

module _ (id : ℕ) (u : FullUserDataEx) (same_id : u.id ≡ id) where
  abbrev with_new : Impl → Impl
  with_new s = joined (group_of u) id u s

  second_at-new :
      (s : Impl) (p : ℕ)
      → second_at (with_new s) p
        ≡ (if s.next_address == p then u.second_connected else second_at s p)
  second_at-new s p = elim (Bool-cases (s.next_address == p)) [
    | inl y ↦
        let e : (with_new s).objects p ≡ some u = rw y refl in
        ap (λ o. (or_new o).second_connected) e ∙ (rw y refl)
    | inr y ↦
        let e : (with_new s).objects p ≡ s.objects p = rw y refl in
        ap (λ o. (or_new o).second_connected) e ∙ (rw y refl)
  ]

  -- A new user joins both storages.
  pub Follows-joined :
      (s t : Impl)
      → IsStored s
      → IsStored t
      → find id s.index ≡ none
      → find id t.index ≡ none
      → Follows s t
      → Follows (with_new s) (with_new t)
  Follows-joined s t hs ht ns nt f i p e =
      let fs = find-joined s id u hs ns same_id in
      let ft = find-joined t id u ht nt same_id in
      elim (Bool-cases (id == i)) [
        | inl y ↦
            let at : some s.next_address ≡ some p = sym (fs i ∙ rw y refl) ∙ e in
            let same : s.next_address ≡ p = cc in
            let a : (s.next_address == p) ≡ true = (==_iff s.next_address p).1 same in
            (
              t.next_address,
              ft i ∙ rw y refl,
              second_at-new s p
                  ∙ (rw a
                      (sym (second_at-new t t.next_address ∙ rw (==-refl t.next_address) refl))),
            )
        | inr y ↦
            let old : find i s.index ≡ some p = sym (fs i ∙ rw y refl) ∙ e in
            let (q, g, l) = f i p old in
            (
              q,
              ft i ∙ (rw y g),
              second_at-new s p
                  ∙ (rw (not_new s id u hs ns same_id i p old)
                      (l ∙ sym (second_at-new t q ∙ rw (not_new t id u ht nt same_id i q g) refl))),
            )
      ]

  pub GivenOut-joined :
      (s : Impl)
      → IsStored s
      → find id s.index ≡ none
      → GivenOut id s
      → GivenOut (id + 1) (with_new s)
  GivenOut-joined s hs ns g i p e = elim (Bool-cases (id == i)) [
    | inl y ↦ let same : id ≡ i = (==_iff id i).0 y in omega arith
    | inr y ↦
        let old : find i s.index ≡ some p =
          sym (find-joined s id u hs ns same_id i ∙ rw y refl) ∙ e in
        let less = g i p old in omega arith
  ]
