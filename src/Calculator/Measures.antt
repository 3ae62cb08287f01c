-- ===== src/Calculator/Measures.antt =====
-- What is measured of each patch does not depend on where `emplace_patch` puts it.
use iqoption_test_task.Prelude.{
  ℕ, ◌+◌, ◌-◌, ◌≡◌, ◌≢◌, refl, ap, Bool, inl, inr, List, [], ◌∷◌, arith, Bool-cases, get_elem?,
}
use iqoption_test_task.Calculator.Patches.{
  RatingPatchEntry, RatingChangeType, new_position, old_position, less, emplace_patch,
}
use iqoption_test_task.Calculator.Rebuild.{Change, Spaced, Balanced}
use iqoption_test_task.Calculator.Changes.{change_at, changes_by}
use iqoption_test_task.Calculator.Content.{drops_if, puts_if, passes}
use iqoption_test_task.Calculator.Insert.{NoDrop}
use iqoption_test_task.Calculator.Order.{Splits}

module _ {A : Type 0} (q : A → Bool) (value : RatingPatchEntry → A) where
  puts_if-cons :
      (t : RatingChangeType) (ea : ℕ) (a : A) (cs : List (Change A))
      → puts_if q (change_at t ea a ∷ cs) ≡ puts_if q (change_at t ea a ∷ []) + puts_if q cs
  puts_if-cons old_position ea a cs = omega arith
  puts_if-cons new_position ea a cs = omega arith

  drops_if-cons :
      (n : ℕ) (v : List A) (t : RatingChangeType) (ea : ℕ) (a : A) (cs : List (Change A))
      → drops_if q n v (change_at t ea a ∷ cs)
        ≡ drops_if q n v (change_at t ea a ∷ []) + drops_if q n v cs
  drops_if-cons n v old_position ea a cs = omega arith
  drops_if-cons n v new_position ea a cs = omega arith

  pub puts_if-emplace :
      (p : RatingPatchEntry) (ps : List RatingPatchEntry)
      → puts_if q (changes_by value (emplace_patch p ps)) ≡ puts_if q (changes_by value (p ∷ ps))
  unfolding emplace_patch
  puts_if-emplace p [] = refl
  puts_if-emplace p (r ∷ rs) = elim (Bool-cases (less p r)) [
    | inl l ↦ rw l
    | inr l ↦ rw l (
        omega (
          arith,
          puts_if-emplace p rs,
          puts_if-cons r.change_type r.elements_after (value r)
              (changes_by value (emplace_patch p rs)),
          puts_if-cons r.change_type r.elements_after (value r) (changes_by value rs),
          puts_if-cons p.change_type p.elements_after (value p) (changes_by value rs),
          puts_if-cons p.change_type p.elements_after (value p) (changes_by value (r ∷ rs)),
        ))
  ]

  pub drops_if-emplace :
      (n : ℕ) (v : List A) (p : RatingPatchEntry) (ps : List RatingPatchEntry)
      → drops_if q n v (changes_by value (emplace_patch p ps))
        ≡ drops_if q n v (changes_by value (p ∷ ps))
  unfolding emplace_patch
  drops_if-emplace n v p [] = refl
  drops_if-emplace n v p (r ∷ rs) = elim (Bool-cases (less p r)) [
    | inl l ↦ rw l
    | inr l ↦ rw l (
        omega (
          arith,
          drops_if-emplace n v p rs,
          drops_if-cons n v r.change_type r.elements_after (value r)
              (changes_by value (emplace_patch p rs)),
          drops_if-cons n v r.change_type r.elements_after (value r) (changes_by value rs),
          drops_if-cons n v p.change_type p.elements_after (value p) (changes_by value rs),
          drops_if-cons n v p.change_type p.elements_after (value p) (changes_by value (r ∷ rs)),
        ))
  ]

  -- If no element that passes the test is dropped, none is dropped at the place of such an element.
  no_drop_at :
      (t : RatingChangeType) (n e : ℕ) (v : List A) (ea : ℕ) (a : A) (cs : List (Change A))
      → passes q (get_elem? v (n - e - 1)) ≡ 1
      → drops_if q n v (change_at t ea a ∷ cs) ≡ 0
      → (t ≡ old_position → ea ≢ e) × (drops_if q n v cs ≡ 0)
  no_drop_at old_position n e v ea a cs h z = (
    (λ t same. absurd (omega (arith, ap (λ (x : ℕ). passes q (get_elem? v (n - x - 1))) same))),
    omega arith,
  )
  no_drop_at new_position n e v ea a cs h z = ((λ t same. cc), z)

  pub NoDrop-of_none :
      (n e : ℕ) (v : List A) (ps : List RatingPatchEntry)
      → passes q (get_elem? v (n - e - 1)) ≡ 1
      → drops_if q n v (changes_by value ps) ≡ 0
      → NoDrop e ps
  NoDrop-of_none n e v [] h z = tt
  NoDrop-of_none n e v (r ∷ rs) h z =
      let (here, rest) =
        no_drop_at r.change_type n e v r.elements_after (value r) (changes_by value rs) h z in
      (here, NoDrop-of_none n e v rs h rest)

module _ {A : Type 0} (key : A → ℕ) (value : RatingPatchEntry → A) (n : ℕ) (v : List A) where
  Splits-swap :
      (t t' : RatingChangeType) (e e' : ℕ) (a a' : A) (cs cs' : List (Change A))
      → (Splits key n v (change_at t e a ∷ cs) → Splits key n v cs')
      → Splits key n v (change_at t e a ∷ (change_at t' e' a' ∷ cs))
      → Splits key n v (change_at t' e' a' ∷ cs')
  Splits-swap old_position old_position e e' a a' cs cs' f s = f s
  Splits-swap old_position new_position e e' a a' cs cs' f s = (s.0, s.1, f s.2)
  Splits-swap new_position old_position e e' a a' cs cs' f s = f s
  Splits-swap new_position new_position e e' a a' cs cs' f s = (s.2.0, s.2.1, f (s.0, s.1, s.2.2))

  pub Splits-emplace :
      (p : RatingPatchEntry) (ps : List RatingPatchEntry)
      → Splits key n v (changes_by value (p ∷ ps))
      → Splits key n v (changes_by value (emplace_patch p ps))
  unfolding emplace_patch
  Splits-emplace p [] s = s
  Splits-emplace p (r ∷ rs) s = elim (Bool-cases (less p r)) [
    | inl l ↦ rw l s
    | inr l ↦ rw l (
        Splits-swap p.change_type r.change_type p.elements_after r.elements_after (value p)
          (value r) (changes_by value rs) (changes_by value (emplace_patch p rs))
          (Splits-emplace p rs) s)
  ]

-- Spacing and balance do not look at what is put.
module _ {A B : Type 0} (f : RatingPatchEntry → A) (g : RatingPatchEntry → B) where
  Spaced-at :
      (t : RatingChangeType) (n k e : ℕ) (a : A) (b : B) (cs : List (Change A))
      (ds : List (Change B))
      → ((j : ℕ) → Spaced n j cs → Spaced n j ds)
      → Spaced n k (change_at t e a ∷ cs)
      → Spaced n k (change_at t e b ∷ ds)
  Spaced-at old_position n k e a b cs ds ih s = (s.0, s.1, ih (n - e - 1) s.2)
  Spaced-at new_position n k e a b cs ds ih s = (s.0, s.1, ih (n - e) s.2)

  pub Spaced-values :
      (n : ℕ) (ps : List RatingPatchEntry) (k : ℕ)
      → Spaced n k (changes_by f ps)
      → Spaced n k (changes_by g ps)
  Spaced-values n [] k s = tt
  Spaced-values n (p ∷ ps) k s =
      Spaced-at p.change_type n k p.elements_after (f p) (g p) (changes_by f ps) (changes_by g ps)
        (Spaced-values n ps) s

  Balanced-at :
      (t : RatingChangeType) (o e : ℕ) (a : A) (b : B) (cs : List (Change A)) (ds : List (Change B))
      → ((j : ℕ) → Balanced j cs → Balanced j ds)
      → Balanced o (change_at t e a ∷ cs)
      → Balanced o (change_at t e b ∷ ds)
  Balanced-at old_position o e a b cs ds ih s = ih (o + 1) s
  Balanced-at new_position o e a b cs ds ih s = (s.0, ih (o - 1) s.1)

  pub Balanced-values :
      (ps : List RatingPatchEntry) (o : ℕ)
      → Balanced o (changes_by f ps)
      → Balanced o (changes_by g ps)
  Balanced-values [] o s = s
  Balanced-values (p ∷ ps) o s =
      Balanced-at p.change_type o p.elements_after (f p) (g p) (changes_by f ps) (changes_by g ps)
        (Balanced-values ps) s
