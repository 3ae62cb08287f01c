-- ===== src/Storage/Multimap.antt =====
-- The multimap of `recalculateRating` in test/storage.cpp: its order, and whom it holds.
use native.Mathlib.Nat.{le_trans}
use iqoption_test_task.Prelude.{
  ℕ, suc, ◌+◌, ◌≤◌, ◌≡◌, refl, ◌∙◌, subst, Bool-cases, inl, inr, true, false, List, [], ◌∷◌, arith,
  ◌==◌, if◌then◌else◌, ==_iff, ==-refl, length, Every, Every-map, bias64, lt_s64,
}
use iqoption_test_task.Calculator.Order.{Falling}
use iqoption_test_task.Storage.{Impl, object_at}
use iqoption_test_task.Storage.Reference.{RatingMultimap, emplace_multi, build_rating, pointers}
use iqoption_test_task.Storage.Addresses.{mem, NoTwice}

pub mem-emplace_multi :
    (q w p : ℕ) (m : RatingMultimap)
    → mem q (pointers (emplace_multi w p m)) ≡ (if p == q then true else mem q (pointers m))
unfolding emplace_multi
mem-emplace_multi q w p [] = refl
mem-emplace_multi q w p ((v, r) ∷ m) = ground (arith, mem-emplace_multi q w p m)

emplace_multi-NoTwice :
    (w p : ℕ) (m : RatingMultimap)
    → mem p (pointers m) ≡ false
    → NoTwice (pointers m)
    → NoTwice (pointers (emplace_multi w p m))
unfolding emplace_multi
emplace_multi-NoTwice w p [] f n = (refl, tt)
emplace_multi-NoTwice w p ((v, r) ∷ m) f n =
    ground (arith, emplace_multi-NoTwice w p m, mem-emplace_multi r w p m)

length-emplace_multi :
    (w p : ℕ) (m : RatingMultimap)
    → length (pointers (emplace_multi w p m)) ≡ suc (length (pointers m))
unfolding emplace_multi
length-emplace_multi w p [] = refl
length-emplace_multi w p ((v, r) ∷ m) = ground (arith, length-emplace_multi w p m)

emplace_multi-Every :
    (P : ℕ → Type 0) (w p : ℕ) (m : RatingMultimap)
    → P p
    → Every P (pointers m)
    → Every P (pointers (emplace_multi w p m))
unfolding emplace_multi
emplace_multi-Every P w p [] h k = (h, tt)
emplace_multi-Every P w p ((v, r) ∷ m) h k = elim (Bool-cases (lt_s64 v w)) [
  | inl l ↦ rw l (h, k)
  | inr l ↦ rw l (k.0, emplace_multi-Every P w p m h k.1)
]

module _ (s : Impl) where
  -- The winnings of a user, as a signed number that is moved to start at 0.
  abbrev pub amount : ℕ → ℕ
  amount p = bias64 (object_at s p).winnings

  -- Each element stands under the winnings of its user.
  abbrev pub IsTruthful : RatingMultimap → Type 0
  IsTruthful [] = Unit {0}
  IsTruthful ((w, p) ∷ m) = (w ≡ (object_at s p).winnings) × IsTruthful m

  emplace_multi-IsTruthful :
      (w p : ℕ) (m : RatingMultimap)
      → w ≡ (object_at s p).winnings
      → IsTruthful m
      → IsTruthful (emplace_multi w p m)
  unfolding emplace_multi
  emplace_multi-IsTruthful w p [] h k = (h, tt)
  emplace_multi-IsTruthful w p ((v, r) ∷ m) h k = elim (Bool-cases (lt_s64 v w)) [
    | inl l ↦ rw l (h, k)
    | inr l ↦ rw l (k.0, emplace_multi-IsTruthful w p m h k.1)
  ]

  emplace_multi-Falling :
      (w p : ℕ) (m : RatingMultimap)
      → w ≡ (object_at s p).winnings
      → IsTruthful m
      → Falling amount (pointers m)
      → Falling amount (pointers (emplace_multi w p m))
  unfolding emplace_multi
  emplace_multi-Falling w p [] h k f = (tt, tt)
  emplace_multi-Falling w p ((v, r) ∷ m) h k f = elim (Bool-cases (lt_s64 v w)) [
    | inl l ↦
        let less : amount r ≤ amount p = ground arith in
        rw l
          ((less, Every-map (λ y (b : amount y ≤ amount r). le_trans b less) (pointers m) f.0), f)
    | inr l ↦
        let more : amount p ≤ amount r = ground arith in
        rw l (
          emplace_multi-Every (λ y. amount y ≤ amount r) w p m more f.0,
          emplace_multi-Falling w p m h k.1 f.1,
        )
  ]

  pub build_rating-Falling :
      (ps : List ℕ) (m : RatingMultimap)
      → IsTruthful m
      → Falling amount (pointers m)
      → Falling amount (pointers (build_rating s ps m))
  unfolding build_rating
  build_rating-Falling [] m k f = f
  build_rating-Falling (p ∷ ps) m k f =
      let w = (object_at s p).winnings in
      build_rating-Falling ps (emplace_multi w p m) (emplace_multi-IsTruthful w p m refl k)
        (emplace_multi-Falling w p m refl k f)

  pub mem-build_rating :
      (q : ℕ) (ps : List ℕ) (m : RatingMultimap)
      → mem q (pointers (build_rating s ps m)) ≡ (if mem q ps then true else mem q (pointers m))
  unfolding build_rating
  mem-build_rating q [] m = refl
  mem-build_rating q (p ∷ ps) m =
      let w = (object_at s p).winnings in
      ground (arith, mem-build_rating q ps (emplace_multi w p m), mem-emplace_multi q w p m)

  pub length-build_rating :
      (ps : List ℕ) (m : RatingMultimap)
      → length (pointers (build_rating s ps m)) ≡ length ps + length (pointers m)
  unfolding build_rating
  length-build_rating [] m = omega arith
  length-build_rating (p ∷ ps) m =
      let w = (object_at s p).winnings in
      omega (arith, length-build_rating ps (emplace_multi w p m), length-emplace_multi w p m)

  pub build_rating-NoTwice :
      (ps : List ℕ) (m : RatingMultimap)
      → NoTwice ps
      → NoTwice (pointers m)
      → ((q : ℕ) → mem q ps ≡ true → mem q (pointers m) ≡ false)
      → NoTwice (pointers (build_rating s ps m))
  unfolding build_rating
  build_rating-NoTwice [] m n k d = k
  build_rating-NoTwice (p ∷ ps) m n k d =
      let w = (object_at s p).winnings in
      let p_new : mem p (pointers m) ≡ false = d p (rw (==-refl p) refl) in
      build_rating-NoTwice ps (emplace_multi w p m) n.1 (emplace_multi-NoTwice w p m p_new k)
        (λ q b. elim (Bool-cases (p == q)) [
          | inl y ↦
              let same : p ≡ q = (==_iff p q).0 y in
              absurd (let r = subst (λ x. mem x ps ≡ false) same n.0 in cc)
          | inr y ↦ mem-emplace_multi q w p m ∙ rw y (d q (rw y b))
        ])
