-- ===== src/Calculator/Sorted.antt =====
-- The patches are kept in order, so the keys that are put rise; and what is measured of each patch
-- does not depend on the order.
use native.Mathlib.Nat.{le_of_lt}
use iqoption_test_task.Prelude.{
  ℕ, zero, suc, ◌-◌, ◌≤◌, ◌<◌, ◌≡◌, refl, true, false, inl, inr, List, [], ◌∷◌, arith, Bool-cases,
  bias64, length, take, drop, Every, Every-map, ◌⊎◌,
}
use iqoption_test_task.Calculator.Patches.{
  RatingPatchEntry, RatingChangeType, new_position, old_position, less, emplace_patch,
}
use iqoption_test_task.Calculator.Rebuild.{Change, Spaced}
use iqoption_test_task.Calculator.Changes.{change_at, changes_by}
use iqoption_test_task.Calculator.Order.{Splits, Rising, AtLeast, Under, PutsAbove, Rising-of_above}

-- Nothing that stands behind is less.
abbrev pub InOrder : List RatingPatchEntry → Type 0
InOrder [] = Unit {0}
InOrder (p ∷ ps) = Every (λ q. less q p ≡ false) ps × InOrder ps

less_asym : (p q : RatingPatchEntry) → less p q ≡ true → less q p ≡ false
unfolding less
less_asym p q h = ground arith

less_behind : (p q r : RatingPatchEntry) → less r q ≡ false → less p q ≡ true → less r p ≡ false
unfolding less
less_behind p q r h k = ground arith

emplace-behind :
    (p q : RatingPatchEntry) (ps : List RatingPatchEntry)
    → less p q ≡ false
    → Every (λ r. less r q ≡ false) ps
    → Every (λ r. less r q ≡ false) (emplace_patch p ps)
unfolding emplace_patch
emplace-behind p q [] h e = (h, tt)
emplace-behind p q (r ∷ rs) h e = elim (Bool-cases (less p r)) [
  | inl l ↦ rw l (h, e)
  | inr l ↦ rw l (e.0, emplace-behind p q rs h e.1)
]

-- In a set of patches in the order of `operator<`, a new patch is put where it belongs.
pub emplace-InOrder :
    (p : RatingPatchEntry) (ps : List RatingPatchEntry) → InOrder ps → InOrder (emplace_patch p ps)
unfolding emplace_patch
emplace-InOrder p [] h = (tt, tt)
emplace-InOrder p (q ∷ qs) h = elim (Bool-cases (less p q)) [
  | inl l ↦
      rw l
        ((less_asym p q l, Every-map (λ r (k : less r q ≡ false). less_behind p q r k l) qs h.0), h)
  | inr l ↦ rw l (emplace-behind p q qs l h.0, emplace-InOrder p qs h.1)
]

put_order :
    (p r : RatingPatchEntry)
    → p.change_type ≡ new_position
    → r.change_type ≡ new_position
    → less r p ≡ false
    → (p.elements_after < r.elements_after)
      ⊎ ((p.elements_after ≡ r.elements_after) × (bias64 p.amount_won ≤ bias64 r.amount_won))
unfolding less
put_order p r e e' h = ground arith

module _ {A : Type 0} (key : A → ℕ) where
  -- An element between two cuts bounds both keys.
  cut_between :
      (a b i j : ℕ) (v : List A)
      → i < j
      → j ≤ length v
      → AtLeast key a (take j v)
      → Under key b (drop i v)
      → a < b
  cut_between a b i j [] h le low high = absurd (omega arith)
  cut_between a b i zero (x ∷ v) h le low high = absurd (omega arith)
  cut_between a b zero (suc j) (x ∷ v) h le low high = omega arith
  cut_between a b (suc i) (suc j) (x ∷ v) h le low high =
      cut_between a b i j v (omega arith) (omega arith) low.1 high

module _ {A : Type 0} (key : A → ℕ) (value : RatingPatchEntry → A)
    (keyed : (p : RatingPatchEntry) → key (value p) ≡ bias64 p.amount_won) (v : List A) where
  above_at :
      (t : RatingChangeType) (p r : RatingPatchEntry) (k : ℕ) (cs : List (Change A))
      → p.change_type ≡ new_position
      → r.change_type ≡ t
      → less r p ≡ false
      → p.elements_after ≤ length v
      → AtLeast key (key (value p)) (take (length v - p.elements_after) v)
      → Spaced (length v) k (change_at t r.elements_after (value r) ∷ cs)
      → Splits key (length v) v (change_at t r.elements_after (value r) ∷ cs)
      → ((j : ℕ)
          → Spaced (length v) j cs
          → Splits key (length v) v cs
          → PutsAbove key (key (value p)) cs)
      → PutsAbove key (key (value p)) (change_at t r.elements_after (value r) ∷ cs)
  above_at old_position p r k cs e e' l le low sp st ih =
      ih (length v - r.elements_after - 1) sp.2 st
  above_at new_position p r k cs e e' l le low sp st ih =
      (bound (put_order p r e e' l), ih (length v - r.elements_after) sp.2 st.2)
    where
      bound :
          (p.elements_after < r.elements_after)
            ⊎ ((p.elements_after ≡ r.elements_after) × (bias64 p.amount_won ≤ bias64 r.amount_won))
          → key (value p) ≤ key (value r)
      bound (inl lt) = le_of_lt (
          cut_between key (key (value p)) (key (value r)) (length v - r.elements_after)
            (length v - p.elements_after) v (omega arith) (omega arith) low st.1)
      bound (inr (same, le')) = rw (keyed p, keyed r) le'

  above_later :
      (p : RatingPatchEntry) (ps : List RatingPatchEntry) (k : ℕ)
      → p.change_type ≡ new_position
      → Every (λ r. less r p ≡ false) ps
      → p.elements_after ≤ length v
      → AtLeast key (key (value p)) (take (length v - p.elements_after) v)
      → Spaced (length v) k (changes_by value ps)
      → Splits key (length v) v (changes_by value ps)
      → PutsAbove key (key (value p)) (changes_by value ps)
  above_later p [] k e l le low sp st = tt
  above_later p (r ∷ rs) k e l le low sp st =
      above_at r.change_type p r k (changes_by value rs) e refl l.0 le low sp st
        (λ j. above_later p rs j e l.1 le low)

  Rising-at :
      (t : RatingChangeType) (p : RatingPatchEntry) (ps : List RatingPatchEntry) (k : ℕ)
      → p.change_type ≡ t
      → Every (λ r. less r p ≡ false) ps
      → Spaced (length v) k (change_at t p.elements_after (value p) ∷ changes_by value ps)
      → Splits key (length v) v (change_at t p.elements_after (value p) ∷ changes_by value ps)
      → ((j : ℕ)
          → Spaced (length v) j (changes_by value ps)
          → Splits key (length v) v (changes_by value ps)
          → Rising key 0 (changes_by value ps))
      → Rising key 0 (change_at t p.elements_after (value p) ∷ changes_by value ps)
  Rising-at old_position p ps k e l sp st ih = ih (length v - p.elements_after - 1) sp.2 st
  Rising-at new_position p ps k e l sp st ih =
      let j = length v - p.elements_after in
      (
        omega arith,
        Rising-of_above key 0 (key (value p)) (changes_by value ps) (ih j sp.2 st.2)
            (above_later p ps j e l sp.0 st.0 sp.2 st.2),
      )

  pub Rising-of_order :
      (ps : List RatingPatchEntry) (k : ℕ)
      → InOrder ps
      → Spaced (length v) k (changes_by value ps)
      → Splits key (length v) v (changes_by value ps)
      → Rising key 0 (changes_by value ps)
  Rising-of_order [] k o sp st = tt
  Rising-of_order (p ∷ ps) k o sp st =
      Rising-at p.change_type p ps k refl o.0 sp st (λ j. Rising-of_order ps j o.1)
