-- ===== src/Calculator/Order.antt =====
-- `rebuild` keeps the vector sorted by falling keys, when each change stands where its key belongs.
use native.Mathlib.Nat.{le_trans, le_refl, le_of_lt}
use iqoption_test_task.Prelude.{
  ℕ, zero, suc, ◌-◌, ◌≤◌, ◌<◌, ◌≡◌, refl, subst, List, [], ◌∷◌, ◌++◌, take, drop, arith, ◌⊎◌, inl,
  inr, Every, Every-append, Every-take, Every-drop, Every-drop_later, Every-drop-take, Every-map,
  take-take_le,
}
use iqoption_test_task.Calculator.Rebuild.{Change, drops, puts, rebuild, Spaced}

module _ {ℓ} {A : Type ℓ} (key : A → ℕ) where
  abbrev pub AtMost : ℕ → List A → Type 0
  AtMost m = Every (λ y. key y ≤ m)

  abbrev pub AtLeast : ℕ → List A → Type 0
  AtLeast m = Every (λ y. m ≤ key y)

  abbrev pub Under : ℕ → List A → Type 0
  Under m = Every (λ y. key y < m)

  abbrev pub Falling : List A → Type 0
  Falling [] = Unit {0}
  Falling (x ∷ xs) = AtMost (key x) xs × Falling xs

  -- Each put splits the old vector: no smaller key before it, no key that is not smaller behind.
  abbrev pub Splits : ℕ → List A → List (Change A) → Type 0
  Splits n v [] = Unit {0}
  Splits n v (drops ea ∷ cs) = Splits n v cs
  Splits n v (puts ea a ∷ cs) =
      AtLeast (key a) (take (n - ea) v) × Under (key a) (drop (n - ea) v) × Splits n v cs

  -- The keys that are put rise, from m on.
  abbrev pub Rising : ℕ → List (Change A) → Type 0
  Rising m [] = Unit {0}
  Rising m (drops ea ∷ cs) = Rising m cs
  Rising m (puts ea a ∷ cs) = (m ≤ key a) × Rising (key a) cs

  -- From m on, if all that is put is above it.
  abbrev pub PutsAbove : ℕ → List (Change A) → Type 0
  PutsAbove m [] = Unit {0}
  PutsAbove m (drops ea ∷ cs) = PutsAbove m cs
  PutsAbove m (puts ea a ∷ cs) = (m ≤ key a) × PutsAbove m cs

  pub Rising-of_above :
      (m m' : ℕ) (cs : List (Change A)) → Rising m cs → PutsAbove m' cs → Rising m' cs
  Rising-of_above m m' [] r p = tt
  Rising-of_above m m' (drops ea ∷ cs) r p = Rising-of_above m m' cs r p
  Rising-of_above m m' (puts ea a ∷ cs) r p = (p.0, r.1)

  Falling-take : (n : ℕ) (xs : List A) → Falling xs → Falling (take n xs)
  Falling-take zero xs f = tt
  Falling-take (suc n) [] f = tt
  Falling-take (suc n) (x ∷ xs) f =
      (Every-take (λ y. key y ≤ key x) n xs f.0, Falling-take n xs f.1)

  Falling-drop : (n : ℕ) (xs : List A) → Falling xs → Falling (drop n xs)
  Falling-drop zero xs f = f
  Falling-drop (suc n) [] f = tt
  Falling-drop (suc n) (x ∷ xs) f = Falling-drop n xs f.1

  Falling-append :
      (m : ℕ) (xs ys : List A)
      → Falling xs
      → Falling ys
      → AtLeast m xs
      → AtMost m ys
      → Falling (xs ++ ys)
  Falling-append m [] ys f g h k = g
  Falling-append m (x ∷ xs) ys f g h k = (
    Every-append (λ y. key y ≤ key x) xs ys f.0
        (Every-map (λ y (p : key y ≤ m). le_trans p h.0) ys k),
    Falling-append m xs ys f.1 g h.1 k,
  )

  -- Before a cut of a falling list nothing is smaller than its first element.
  AtLeast-before :
      (n : ℕ) (xs : List A) (b : A) (bs : List A)
      → Falling xs
      → drop n xs ≡ b ∷ bs
      → AtLeast (key b) (take n xs)
  AtLeast-before zero xs b bs f e = tt
  AtLeast-before (suc n) [] b bs f e = tt
  AtLeast-before (suc n) (x ∷ xs) b bs f e = (first n xs f.0 e, AtLeast-before n xs b bs f.1 e)
    where
      first : (k : ℕ) (zs : List A) → AtMost (key x) zs → drop k zs ≡ b ∷ bs → key b ≤ key x
      first k zs h q = (subst (AtMost (key x)) q (Every-drop (λ y. key y ≤ key x) k zs h)).0

  head_of_cut :
      (p k : ℕ) (v : List A) (b : A) (bs : List A)
      → drop p (take k v) ≡ b ∷ bs
      → (rest : List A) × (drop p v ≡ b ∷ rest)
  head_of_cut zero zero v b bs e = absurd (cc)
  head_of_cut zero (suc k) [] b bs e = absurd (cc)
  head_of_cut zero (suc k) (x ∷ v) b bs e = (v, cc)
  head_of_cut (suc p) zero v b bs e = absurd (cc)
  head_of_cut (suc p) (suc k) [] b bs e = absurd (cc)
  head_of_cut (suc p) (suc k) (x ∷ v) b bs e = head_of_cut p k v b bs e

  -- What is put later is above an element behind the cut.
  above_cut :
      (n p j : ℕ) (v : List A) (b : A) (rest : List A) (cs : List (Change A))
      → drop p v ≡ b ∷ rest
      → j ≤ p
      → Spaced n j cs
      → Splits n v cs
      → PutsAbove (key b) cs
  above_cut n p j v b rest [] e le sp st = tt
  above_cut n p j v b rest (drops ea ∷ cs) e le sp st =
      above_cut n p (n - ea - 1) v b rest cs e (omega arith) sp.2 st
  above_cut n p j v b rest (puts ea a ∷ cs) e le sp st =
      let behind = Every-drop_later (λ y. key y < key a) (n - ea) p v (omega arith) st.1 in
      let first : key b < key a = (subst (Under (key a)) e behind).0 in
      (omega arith, above_cut n p (n - ea) v b rest cs e (omega arith) sp.2 st.2)

  list_cases : (xs : List A) → (xs ≡ []) ⊎ ((b : A) × (bs : List A) × (xs ≡ b ∷ bs))
  list_cases [] = inl refl
  list_cases (x ∷ xs) = inr (x, xs, refl)

  -- The finished end after a block b ∷ bs went in front of it.
  block_done :
      (m p k : ℕ) (v : List A) (b : A) (bs done : List A)
      → Falling v
      → drop p (take k v) ≡ b ∷ bs
      → AtLeast m (take k v)
      → AtMost m done
      → Falling done
      → AtMost (key b) ((b ∷ bs) ++ done) × Falling ((b ∷ bs) ++ done)
  block_done m p k v b bs done f e low high fd =
      let fb = subst Falling e (Falling-drop p (take k v) (Falling-take k v f)) in
      let lb = subst (AtLeast m) e (Every-drop (λ y. m ≤ key y) p (take k v) low) in
      let all = Falling-append m (b ∷ bs) done fb fd lb high in ((le_refl (key b), all.0), all)

  pub rebuild-Falling :
      (n : ℕ) (v : List A) (cs : List (Change A)) (k m : ℕ) (done : List A)
      → Falling v
      → Spaced n k cs
      → Splits n v cs
      → Rising m cs
      → AtLeast m (take k v)
      → AtMost m done
      → Falling done
      → Falling (rebuild n cs (take k v) done)
  unfolding rebuild
  rebuild-Falling n v [] k m done f sp st r low high fd =
      Falling-append m (take k v) done (Falling-take k v f) fd low high
  rebuild-Falling n v (drops ea ∷ cs) k m done f sp st r low high fd =
      let p = n - ea in
      let shorter = take-take_le (p - 1) k v (omega arith) in
      elim (list_cases (drop p (take k v))) [
        | inl e ↦
            rw (shorter, e)
              (rebuild-Falling n v cs (p - 1) m done f sp.2 st r
                (subst (AtLeast m) shorter (Every-take (λ y. m ≤ key y) (p - 1) (take k v) low))
                high fd)
        | inr (b, bs, e) ↦
            let (rest, e') = head_of_cut p k v b bs e in
            let (top, fall) = block_done m p k v b bs done f e low high fd in
            let before = AtLeast-before p v b rest f e' in
            rw (shorter, e)
              (rebuild-Falling n v cs (p - 1) (key b) ((b ∷ bs) ++ done) f sp.2 st
                (Rising-of_above m (key b) cs r
                  (above_cut n p (p - 1) v b rest cs e' (omega arith) sp.2 st))
                (subst (AtLeast (key b)) (take-take_le (p - 1) p v (omega arith))
                  (Every-take (λ y. key b ≤ key y) (p - 1) (take p v) before))
                top fall)
      ]
  rebuild-Falling n v (puts ea a ∷ cs) k m done f sp st r low high fd =
      let p = n - ea in
      let block = drop p (take k v) in
      let same = take-take_le p k v (omega arith) in
      let fb =
        Falling-append m block done (Falling-drop p (take k v) (Falling-take k v f)) fd
          (Every-drop (λ y. m ≤ key y) p (take k v) low) high in
      let under = Every-drop-take (λ y. key y < key a) p k v st.1 in
      let top =
        Every-append (λ y. key y ≤ key a) block done
          (Every-map (λ y (q : key y < key a). le_of_lt q) block under)
          (Every-map (λ y (q : key y ≤ m). le_trans q r.0) done high) in
      rw same (
        rebuild-Falling n v cs p (key a) (a ∷ (block ++ done)) f sp.2 st.2 r.1 st.0
          (le_refl (key a), top) (top, fb))
