-- ===== src/Maps.antt =====
-- `std::map`, `std::unordered_map` and their sets, as association lists. A lookup does not depend on
-- the order; a `std::map` over ids is walked in ascending signed order, and so it is kept.
pub mod Distinct
use iqoption_test_task.Prelude.{
  ℕ, ◌≡◌, ◌≢◌, refl, Bool, true, false, Option, none, some, List, [], ◌∷◌, arith, ◌==◌,
  if◌then◌else◌, lt_s32,
}

module _ {V : Type 0} where
  -- find; the end iterator is `none`.
  unfoldable pub find : ℕ → List (ℕ × V) → Option V
  find k [] = none
  find k ((j, v) ∷ m) = if j == k then some v else find k m

  abbrev pub is_some : Option V → Bool
  is_some none = false
  is_some (some v) = true

  unfoldable pub contains : ℕ → List (ℕ × V) → Bool
  contains k m = is_some (find k m)

  -- emplace: an entry that is there stays as it is.
  unfoldable pub emplace : ℕ → V → List (ℕ × V) → List (ℕ × V)
  unfolding contains
  emplace k v m = if contains k m then m else (k, v) ∷ m

  -- The value at a key that is there, replaced.
  unfoldable pub assign : ℕ → V → List (ℕ × V) → List (ℕ × V)
  assign k v [] = []
  assign k v ((j, w) ∷ m) = if j == k then (j, v) ∷ m else (j, w) ∷ assign k v m

  unfoldable pub erase : ℕ → List (ℕ × V) → List (ℕ × V)
  erase k [] = []
  erase k ((j, w) ∷ m) = if j == k then m else (j, w) ∷ erase k m

  -- A new entry of a `std::map`, at its place in the order.
  unfoldable pub insert_ordered : ℕ → V → List (ℕ × V) → List (ℕ × V)
  insert_ordered k v [] = (k, v) ∷ []
  insert_ordered k v ((j, w) ∷ m) =
      if lt_s32 k j then (k, v) ∷ ((j, w) ∷ m) else (j, w) ∷ insert_ordered k v m

  -- emplace of a `std::map`.
  unfoldable pub emplace_ordered : ℕ → V → List (ℕ × V) → List (ℕ × V)
  unfolding contains
  emplace_ordered k v m = if contains k m then m else insert_ordered k v m

  -- operator[] of a `std::map` and an update of the element, which is `fresh` if it was not there.
  unfoldable pub update_at : ℕ → V → (V → V) → List (ℕ × V) → List (ℕ × V)
  update_at k fresh f m = elim (find k m) [
    | none ↦ insert_ordered k (f fresh) m
    | some v ↦ assign k (f v) m
  ]

  pub find-emplace :
      (k j : ℕ) (v : V) (m : List (ℕ × V))
      → find j (emplace k v m)
        ≡ (if contains k m then find j m else if k == j then some v else find j m)
  unfolding find emplace
  find-emplace k j v m = ground arith

  pub find-assign :
      (k j : ℕ) (v : V) (m : List (ℕ × V))
      → find j (assign k v m)
        ≡ (if k == j then (if contains k m then some v else none) else find j m)
  unfolding find assign contains
  find-assign k j v [] = ground arith
  find-assign k j v ((i, w) ∷ m) = ground (arith, find-assign k j v m)

  pub find-insert_ordered :
      (k j : ℕ) (v : V) (m : List (ℕ × V))
      → find k m ≡ none
      → find j (insert_ordered k v m) ≡ (if k == j then some v else find j m)
  unfolding find insert_ordered
  find-insert_ordered k j v [] h = ground arith
  find-insert_ordered k j v ((i, w) ∷ m) h = ground (arith, find-insert_ordered k j v m)

  pub find-emplace_ordered :
      (k j : ℕ) (v : V) (m : List (ℕ × V))
      → find j (emplace_ordered k v m)
        ≡ (if contains k m then find j m else if k == j then some v else find j m)
  unfolding emplace_ordered contains
  find-emplace_ordered k j v m = ground (arith, find-insert_ordered k j v m)

  abbrev pub or_fresh : V → Option V → V
  or_fresh fresh none = fresh
  or_fresh fresh (some v) = v

  pub find-update_at :
      (k j : ℕ) (fresh : V) (f : V → V) (m : List (ℕ × V))
      → find j (update_at k fresh f m)
        ≡ (if k == j then some (f (or_fresh fresh (find k m))) else find j m)
  unfolding update_at contains
  find-update_at k j fresh f m = ground (
    arith,
    find-insert_ordered k j (f fresh) m,
    find-assign k j (f (or_fresh fresh (find k m))) m,
  )

  pub find-erase_ne : (k j : ℕ) (m : List (ℕ × V)) → k ≢ j → find j (erase k m) ≡ find j m
  unfolding find erase
  find-erase_ne k j [] h = refl
  find-erase_ne k j ((i, w) ∷ m) h = ground (arith, find-erase_ne k j m h)
