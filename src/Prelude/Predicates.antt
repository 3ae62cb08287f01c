-- ===== src/Prelude/Predicates.antt =====
-- A predicate on all elements, by recursion so that the tactics read it, under cuts and `++`.
use Prim.Native.Nat.{ℕ, zero, suc, ◌≤◌}
use mathlib.Core.List.{List, [], ◌∷◌, ◌++◌}
use native.Mathlib.Omega.{arith}
use iqoption_test_task.Prelude.Lists.{take, drop}

module _ {ℓ} {A : Type ℓ} where
  abbrev pub Every {κ} : (A → Type κ) → List A → Type κ
  Every P [] = Unit
  Every P (x ∷ xs) = P x × Every P xs

module _ {ℓ κ} {A : Type ℓ} (P : A → Type κ) where
  pub Every-append : (xs ys : List A) → Every P xs → Every P ys → Every P (xs ++ ys)
  Every-append [] ys h k = k
  Every-append (x ∷ xs) ys h k = (h.0, Every-append xs ys h.1 k)

  pub Every-take : (n : ℕ) (xs : List A) → Every P xs → Every P (take n xs)
  Every-take zero xs h = tt
  Every-take (suc n) [] h = tt
  Every-take (suc n) (x ∷ xs) h = (h.0, Every-take n xs h.1)

  pub Every-drop : (n : ℕ) (xs : List A) → Every P xs → Every P (drop n xs)
  Every-drop zero xs h = h
  Every-drop (suc n) [] h = tt
  Every-drop (suc n) (x ∷ xs) h = Every-drop n xs h.1

  -- What holds behind a cut holds behind a later one.
  pub Every-drop_later : (m n : ℕ) (xs : List A) → m ≤ n → Every P (drop m xs) → Every P (drop n xs)
  Every-drop_later zero n xs le h = Every-drop n xs h
  Every-drop_later (suc m) zero xs le h = absurd (omega arith)
  Every-drop_later (suc m) (suc n) [] le h = tt
  Every-drop_later (suc m) (suc n) (x ∷ xs) le h = Every-drop_later m n xs (omega arith) h

  pub Every-drop-take : (m n : ℕ) (xs : List A) → Every P (drop m xs) → Every P (drop m (take n xs))
  Every-drop-take zero n xs h = Every-take n xs h
  Every-drop-take (suc m) zero xs h = tt
  Every-drop-take (suc m) (suc n) [] h = tt
  Every-drop-take (suc m) (suc n) (x ∷ xs) h = Every-drop-take m n xs h

module _ {ℓ κ ι} {A : Type ℓ} {P : A → Type κ} {Q : A → Type ι} where
  pub Every-map : (f : (x : A) → P x → Q x) (xs : List A) → Every P xs → Every Q xs
  Every-map f [] h = tt
  Every-map f (x ∷ xs) h = (f x h.0, Every-map f xs h.1)
