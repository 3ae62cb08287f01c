-- ===== src/Calculator/Rebuild.antt =====
-- What the loop over the patches of service/rating_calculator.cpp computes, on lists: no vector is
-- changed in place, and no offset is kept.
use iqoption_test_task.Prelude.{ℕ, ◌+◌, ◌-◌, ◌≤◌, ◌<◌, ◌≡◌, List, [], ◌∷◌, ◌++◌, take, drop}

-- What a patch asks for, at the number of old elements behind its position.
pub data Change {ℓ} (A : Type ℓ) : Type ℓ where
  drops : ℕ → Change A
  puts : ℕ → A → Change A

module _ {ℓ} {A : Type ℓ} where
  -- `front` is what is left of the n old elements, `done` the finished end of the new vector.
  unfoldable pub rebuild : ℕ → List (Change A) → List A → List A → List A
  rebuild n [] front done = front ++ done
  rebuild n (drops ea ∷ cs) front done =
      rebuild n cs (take (n - ea - 1) front) (drop (n - ea) front ++ done)
  rebuild n (puts ea a ∷ cs) front done =
      rebuild n cs (take (n - ea) front) (a ∷ (drop (n - ea) front ++ done))

  -- The positions fall, and each dropped element is there: k old elements are left.
  abbrev pub Spaced : ℕ → ℕ → List (Change A) → Type 0
  Spaced n k [] = Unit {0}
  Spaced n k (drops ea ∷ cs) = (ea < n) × (n - ea ≤ k) × Spaced n (n - ea - 1) cs
  Spaced n k (puts ea a ∷ cs) = (ea ≤ n) × (n - ea ≤ k) × Spaced n (n - ea) cs

  -- Every element that is put finds a free place, and no place is left over: o are free.
  abbrev pub Balanced : ℕ → List (Change A) → Type 0
  Balanced o [] = o ≡ 0
  Balanced o (drops ea ∷ cs) = Balanced (o + 1) cs
  Balanced o (puts ea a ∷ cs) = (0 < o) × Balanced (o - 1) cs
