-- ===== src/Prelude/Slices.antt =====
-- `std::vector<T>::resize` and `memcpy` into the middle of a vector, with their laws at the ends.
use Prim.Native.Nat.{ℕ, zero, suc, ◌+◌, ◌-◌, ◌≤◌, ◌<◌}
use mathlib.Core.Path.{◌≡◌, refl, ap}
use mathlib.Core.List.{List, [], ◌∷◌, ◌++◌, append_assoc}
use native.Mathlib.Omega.{arith}
use iqoption_test_task.Prelude.Lists.{length, take, drop, replicate, set, length-append}

module _ {ℓ} {A : Type ℓ} where
  -- New elements are `pad`.
  unfoldable pub resize : A → ℕ → List A → List A
  resize pad n xs = take n xs ++ replicate (n - length xs) pad

  -- `memcpy(data() + pos, bytes)`, for a range that lies in the vector.
  unfoldable pub overwrite : List A → ℕ → List A → List A
  overwrite xs pos ys = take pos xs ++ (ys ++ drop (pos + length ys) xs)

  pub take_all : (n : ℕ) (xs : List A) → length xs ≤ n → take n xs ≡ xs
  take_all zero [] h = refl
  take_all zero (x ∷ xs) h = absurd (omega arith)
  take_all (suc n) [] h = refl
  take_all (suc n) (x ∷ xs) h = ap (◌∷◌ x) (take_all n xs (omega arith))

  pub drop_all : (n : ℕ) (xs : List A) → length xs ≤ n → drop n xs ≡ []
  drop_all zero [] h = refl
  drop_all zero (x ∷ xs) h = absurd (omega arith)
  drop_all (suc n) [] h = refl
  drop_all (suc n) (x ∷ xs) h = drop_all n xs (omega arith)

  pub take-append_length : (xs ys : List A) → take (length xs) (xs ++ ys) ≡ xs
  take-append_length [] ys = refl
  take-append_length (x ∷ xs) ys = ap (◌∷◌ x) (take-append_length xs ys)

  pub drop-append_length : (xs ys : List A) → drop (length xs) (xs ++ ys) ≡ ys
  drop-append_length [] ys = refl
  drop-append_length (x ∷ xs) ys = drop-append_length xs ys

  pub take-append_left : (n : ℕ) (xs ys : List A) → n ≤ length xs → take n (xs ++ ys) ≡ take n xs
  take-append_left zero xs ys h = refl
  take-append_left (suc n) [] ys h = absurd (omega arith)
  take-append_left (suc n) (x ∷ xs) ys h = ap (◌∷◌ x) (take-append_left n xs ys (omega arith))

  pub drop-append_left :
      (n : ℕ) (xs ys : List A) → n ≤ length xs → drop n (xs ++ ys) ≡ drop n xs ++ ys
  drop-append_left zero xs ys h = refl
  drop-append_left (suc n) [] ys h = absurd (omega arith)
  drop-append_left (suc n) (x ∷ xs) ys h = drop-append_left n xs ys (omega arith)

  -- Where the first part is known by its length.
  pub drop-append_eq : (n : ℕ) (xs ys : List A) → n ≡ length xs → drop n (xs ++ ys) ≡ ys
  drop-append_eq n xs ys e = rw e (drop-append_length xs ys)

  pub take-append_eq : (n : ℕ) (xs ys : List A) → n ≡ length xs → take n (xs ++ ys) ≡ xs
  take-append_eq n xs ys e = rw e (take-append_length xs ys)

  -- Writing over a part of the same length puts the new part in its place.
  pub overwrite_middle :
      (xs old rest ys : List A)
      → length old ≡ length ys
      → overwrite (xs ++ (old ++ rest)) (length xs) ys ≡ xs ++ (ys ++ rest)
  unfolding overwrite
  overwrite_middle xs old rest ys e = rw (
    take-append_eq (length xs) xs (old ++ rest) refl,
    ← append_assoc xs old rest,
    drop-append_eq (length xs + length ys) (xs ++ old) rest (omega (arith, length-append xs old)),
  )

  pub set_middle :
      (xs : List A) (old : A) (rest : List A) (v : A)
      → set (xs ++ (old ∷ rest)) (length xs) v ≡ xs ++ (v ∷ rest)
  set_middle [] old rest v = refl
  set_middle (x ∷ xs) old rest v = ap (◌∷◌ x) (set_middle xs old rest v)

  -- The element before a cut.
  pub take-suc :
      (n : ℕ) (xs : List A) → n < length xs → (x : A) × (take (suc n) xs ≡ take n xs ++ (x ∷ []))
  take-suc n [] h = absurd (omega arith)
  take-suc zero (x ∷ xs) h = (x, refl)
  take-suc (suc n) (x ∷ xs) h = let (y, e) = take-suc n xs (omega arith) in (y, ap (◌∷◌ x) e)

  pub take-take_le : (m n : ℕ) (xs : List A) → m ≤ n → take m (take n xs) ≡ take m xs
  take-take_le zero n xs h = refl
  take-take_le (suc m) zero xs h = absurd (omega arith)
  take-take_le (suc m) (suc n) [] h = refl
  take-take_le (suc m) (suc n) (x ∷ xs) h = ap (◌∷◌ x) (take-take_le m n xs (omega arith))
