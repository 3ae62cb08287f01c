-- ===== src/Calculator/Content.antt =====
-- What the rebuilt rating vector holds: the old elements less those that are dropped, and what is
-- put, each as often. `q` is any test on the elements.
use iqoption_test_task.Prelude.{
  ℕ, zero, suc, ◌+◌, ◌-◌, ◌≤◌, ◌≡◌, refl, sym, ap, subst, ◌∙◌, Bool, true, false, Option, none,
  some, List, [], ◌∷◌, ◌++◌, arith, take, drop, get_elem?, take-append-drop, take-take_le,
}
use iqoption_test_task.Calculator.Rebuild.{Change, drops, puts, rebuild, Spaced}

abbrev pub one_if : Bool → ℕ
one_if true = 1
one_if false = 0

module _ {ℓ} {A : Type ℓ} (q : A → Bool) where
  abbrev pub count_if : List A → ℕ
  count_if [] = 0
  count_if (x ∷ xs) = one_if (q x) + count_if xs

  abbrev pub passes : Option A → ℕ
  passes none = 0
  passes (some a) = one_if (q a)

  -- How many dropped elements of v, and how many that are put, pass the test.
  abbrev pub drops_if : ℕ → List A → List (Change A) → ℕ
  drops_if n v [] = 0
  drops_if n v (drops ea ∷ cs) = passes (get_elem? v (n - ea - 1)) + drops_if n v cs
  drops_if n v (puts ea a ∷ cs) = drops_if n v cs

  abbrev pub puts_if : List (Change A) → ℕ
  puts_if [] = 0
  puts_if (drops ea ∷ cs) = puts_if cs
  puts_if (puts ea a ∷ cs) = one_if (q a) + puts_if cs

  pub count_if-append : (xs ys : List A) → count_if (xs ++ ys) ≡ count_if xs + count_if ys
  count_if-append [] ys = omega arith
  count_if-append (x ∷ xs) ys = omega (arith, count_if-append xs ys)

  count_if-take-suc :
      (i : ℕ) (xs : List A)
      → count_if (take (suc i) xs) ≡ count_if (take i xs) + passes (get_elem? xs i)
  count_if-take-suc zero [] = refl
  count_if-take-suc (suc i) [] = refl
  count_if-take-suc zero (x ∷ xs) = omega arith
  count_if-take-suc (suc i) (x ∷ xs) = omega (arith, count_if-take-suc i xs)

  count_if-cut : (i : ℕ) (xs : List A) → count_if (take i xs) + count_if (drop i xs) ≡ count_if xs
  count_if-cut i xs =
      sym (count_if-append (take i xs) (drop i xs)) ∙ ap count_if (take-append-drop i xs)

  pub count_if-rebuild :
      (n : ℕ) (v : List A) (cs : List (Change A)) (k : ℕ) (done : List A)
      → Spaced n k cs
      → count_if (rebuild n cs (take k v) done) + drops_if n v cs
        ≡ count_if (take k v) + count_if done + puts_if cs
  unfolding rebuild
  count_if-rebuild n v [] k done sp = omega (arith, count_if-append (take k v) done)
  count_if-rebuild n v (drops ea ∷ cs) k done sp =
      let p = n - ea in
      let block = drop p (take k v) in
      let step : suc (p - 1) ≡ p = omega arith in
      let last = count_if-take-suc (p - 1) v in
      rw (take-take_le (p - 1) k v (omega arith)) (
        omega (
          arith,
          count_if-rebuild n v cs (p - 1) (block ++ done) sp.2,
          count_if-append block done,
          count_if-cut p (take k v),
          ap count_if (take-take_le p k v sp.1),
          subst
              (λ j. count_if (take j v) ≡ count_if (take (p - 1) v) + passes (get_elem? v (p - 1)))
              step last,
        ))
  count_if-rebuild n v (puts ea a ∷ cs) k done sp =
      let p = n - ea in
      let block = drop p (take k v) in
      rw (take-take_le p k v sp.1) (
        omega (
          arith,
          count_if-rebuild n v cs p (a ∷ (block ++ done)) sp.2,
          count_if-append block done,
          count_if-cut p (take k v),
          ap count_if (take-take_le p k v sp.1),
        ))

  take_le : (i k : ℕ) (xs : List A) → i ≤ k → count_if (take i xs) ≤ count_if (take k xs)
  take_le zero k xs h = omega arith
  take_le (suc i) zero xs h = absurd (omega arith)
  take_le (suc i) (suc k) [] h = omega arith
  take_le (suc i) (suc k) (x ∷ xs) h = omega (arith, take_le i k xs (omega arith))

  -- No element is dropped twice.
  pub drops_if_le :
      (n : ℕ) (v : List A) (cs : List (Change A)) (k : ℕ)
      → Spaced n k cs
      → drops_if n v cs ≤ count_if (take k v)
  drops_if_le n v [] k sp = omega arith
  drops_if_le n v (drops ea ∷ cs) k sp =
      let p = n - ea in
      let step : suc (p - 1) ≡ p = omega arith in
      omega (
        arith,
        drops_if_le n v cs (p - 1) sp.2,
        take_le p k v sp.1,
        subst (λ j. count_if (take j v) ≡ count_if (take (p - 1) v) + passes (get_elem? v (p - 1)))
            step (count_if-take-suc (p - 1) v),
      )
  drops_if_le n v (puts ea a ∷ cs) k sp =
      omega (arith, drops_if_le n v cs (n - ea) sp.2, take_le (n - ea) k v sp.1)
