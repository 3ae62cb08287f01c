-- ===== src/Maps/Distinct.antt =====
-- Maps whose keys differ, as those of every `std::map` do.
use iqoption_test_task.Prelude.{
  ℕ, suc, ◌≡◌, refl, none, List, [], ◌∷◌, arith, ◌==◌, if◌then◌else◌, length,
}
use iqoption_test_task.Maps.{
  find, contains, erase, insert_ordered, emplace_ordered, find-insert_ordered,
}

module _ {V : Type 0} where
  abbrev pub Distinct : List (ℕ × V) → Type 0
  Distinct [] = Unit {0}
  Distinct ((k, v) ∷ m) = (find k m ≡ none) × Distinct m

  pub find-erase :
      (k j : ℕ) (m : List (ℕ × V))
      → Distinct m
      → find j (erase k m) ≡ (if k == j then none else find j m)
  unfolding find erase
  find-erase k j [] d = ground arith
  find-erase k j ((i, w) ∷ m) d = ground (arith, find-erase k j m d.1)

  pub erase-Distinct : (k : ℕ) (m : List (ℕ × V)) → Distinct m → Distinct (erase k m)
  unfolding erase
  erase-Distinct k [] d = tt
  erase-Distinct k ((i, w) ∷ m) d = ground (arith, erase-Distinct k m d.1, find-erase k i m d.1)

  pub insert_ordered-Distinct :
      (k : ℕ) (v : V) (m : List (ℕ × V))
      → find k m ≡ none
      → Distinct m
      → Distinct (insert_ordered k v m)
  unfolding insert_ordered find
  insert_ordered-Distinct k v [] h d = (refl, tt)
  insert_ordered-Distinct k v ((i, w) ∷ m) h d =
      ground (arith, insert_ordered-Distinct k v m, find-insert_ordered k i v m)

  pub emplace_ordered-Distinct :
      (k : ℕ) (v : V) (m : List (ℕ × V)) → Distinct m → Distinct (emplace_ordered k v m)
  unfolding emplace_ordered contains
  emplace_ordered-Distinct k v m d = ground (arith, insert_ordered-Distinct k v m)

  pub length-insert_ordered :
      (k : ℕ) (v : V) (m : List (ℕ × V)) → length (insert_ordered k v m) ≡ suc (length m)
  unfolding insert_ordered
  length-insert_ordered k v [] = refl
  length-insert_ordered k v ((i, w) ∷ m) = ground (arith, length-insert_ordered k v m)

  pub length-emplace_ordered :
      (k : ℕ) (v : V) (m : List (ℕ × V))
      → find k m ≡ none
      → length (emplace_ordered k v m) ≡ suc (length m)
  unfolding emplace_ordered contains
  length-emplace_ordered k v m h = rw h (length-insert_ordered k v m)
