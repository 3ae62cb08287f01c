-- ===== src/Calculator/Changes.antt =====
-- The patches of service/rating_calculator.cpp read as changes of a list of values of any kind.
use mathlib.Core.List.{map-append}
use iqoption_test_task.Prelude.{
  ℕ, zero, suc, ◌-◌, ◌≡◌, refl, ap, ◌⊎◌, inl, inr, List, [], ◌∷◌, ◌++◌, map, take, drop,
}
use iqoption_test_task.Core.{Pointer}
use iqoption_test_task.Calculator.Patches.{
  RatingPatchEntry, RatingChangeType, new_position, old_position,
}
use iqoption_test_task.Calculator.Rebuild.{Change, drops, puts, rebuild}

pub type_cases : (t : RatingChangeType) → (t ≡ old_position) ⊎ (t ≡ new_position)
type_cases old_position = inl refl
type_cases new_position = inr refl

module _ {ℓ} {A : Type ℓ} where
  abbrev pub change_at : RatingChangeType → ℕ → A → Change A
  change_at old_position ea a = drops ea
  change_at new_position ea a = puts ea a

  -- `value` is what a patch puts.
  abbrev pub changes_by : (RatingPatchEntry → A) → List RatingPatchEntry → List (Change A)
  changes_by value [] = []
  changes_by value (p ∷ ps) =
      change_at p.change_type p.elements_after (value p) ∷ changes_by value ps

abbrev pub changes_of : List RatingPatchEntry → List (Change Pointer)
changes_of = changes_by (λ p. p.user_data)

module _ {ℓ κ} {A : Type ℓ} {B : Type κ} (g : A → B) (value : RatingPatchEntry → A) where
  map-take : (n : ℕ) (xs : List A) → map g (take n xs) ≡ take n (map g xs)
  map-take zero xs = refl
  map-take (suc n) [] = refl
  map-take (suc n) (x ∷ xs) = ap (◌∷◌ (g x)) (map-take n xs)

  map-drop : (n : ℕ) (xs : List A) → map g (drop n xs) ≡ drop n (map g xs)
  map-drop zero xs = refl
  map-drop (suc n) [] = refl
  map-drop (suc n) (x ∷ xs) = map-drop n xs

  -- Rebuilding commutes with a change of the kind of the values.
  pub map-rebuild :
      (n : ℕ) (ps : List RatingPatchEntry) (front done : List A)
      → map g (rebuild n (changes_by value ps) front done)
        ≡ rebuild n (changes_by (λ p. g (value p)) ps) (map g front) (map g done)
  unfolding rebuild
  map-rebuild n [] front done = map-append g front done
  map-rebuild n (p ∷ ps) front done =
      rebuild_at p.change_type p.elements_after (value p) (map-rebuild n ps)
    where
      other : RatingPatchEntry → B
      other r = g (value r)

      rebuild_at :
          (t : RatingChangeType) (ea : ℕ) (a : A)
          → ((f d : List A)
              → map g (rebuild n (changes_by value ps) f d)
                ≡ rebuild n (changes_by other ps) (map g f) (map g d))
          → map g (rebuild n (change_at t ea a ∷ changes_by value ps) front done)
            ≡ rebuild n (change_at t ea (g a) ∷ changes_by other ps) (map g front) (map g done)
      rebuild_at old_position ea a ih = rw (
        ih (take (n - ea - 1) front) (drop (n - ea) front ++ done),
        map-take (n - ea - 1) front,
        map-append g (drop (n - ea) front) done,
        map-drop (n - ea) front,
      )
      rebuild_at new_position ea a ih = rw (
        ih (take (n - ea) front) (a ∷ (drop (n - ea) front ++ done)),
        map-take (n - ea) front,
        map-append g (drop (n - ea) front) done,
        map-drop (n - ea) front,
      )
