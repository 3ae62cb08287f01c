-- ===== src/Calculator/Insert.antt =====
-- `emplace_patch` of a deal's patches keeps the changes spaced and balanced.
use iqoption_test_task.Prelude.{
  ℕ, suc, ◌+◌, ◌-◌, ◌≤◌, ◌<◌, ◌≡◌, ◌≢◌, refl, subst, true, false, inl, inr, List, [], ◌∷◌, arith,
  Bool-cases,
}
use iqoption_test_task.Calculator.Patches.{
  RatingPatchEntry, RatingChangeType, new_position, old_position, old_entry, new_entry, less,
  emplace_patch,
}
use iqoption_test_task.Calculator.Rebuild.{Change, Spaced, Balanced}
use iqoption_test_task.Calculator.Changes.{change_at, changes_by}

-- Where a new position goes among the others.
put_before :
    (u e a : ℕ) (q : RatingPatchEntry) → less (new_entry u e a) q ≡ true → e ≤ q.elements_after
unfolding less
put_before u e a q h = ground arith

put_after :
    (u e a : ℕ) (q : RatingPatchEntry)
    → less (new_entry u e a) q ≡ false
    → (q.elements_after ≤ e) × (q.change_type ≡ old_position → q.elements_after < e)
unfolding less
put_after u e a q h = ground arith

-- Where an old position goes, if no other patch takes the same element out.
drop_before :
    (e : ℕ) (q : RatingPatchEntry)
    → less (old_entry e) q ≡ true
    → (q.change_type ≡ old_position → q.elements_after ≢ e)
    → e < q.elements_after
unfolding less
drop_before e q h d = ground arith

drop_after :
    (e : ℕ) (q : RatingPatchEntry)
    → less (old_entry e) q ≡ false
    → (q.change_type ≡ old_position → q.elements_after ≢ e)
    → (q.elements_after ≤ e) × (q.change_type ≡ old_position → q.elements_after < e)
unfolding less
drop_after e q h d = ground arith

-- What stands before the old position of a deal stands before its new one.
put_after_drop :
    (u e e' a : ℕ) (q : RatingPatchEntry)
    → e < e'
    → less (old_entry e) q ≡ false
    → less (new_entry u e' a) q ≡ false
unfolding less
put_after_drop u e e' a q h l = ground arith

new_old : (u e e' a : ℕ) → e < e' → less (new_entry u e' a) (old_entry e) ≡ false
unfolding less
new_old u e e' a h = ground arith

-- No patch of the list takes out the element that has e behind it.
abbrev pub NoDrop : ℕ → List RatingPatchEntry → Type 0
NoDrop e [] = Unit {0}
NoDrop e (q ∷ qs) = (q.change_type ≡ old_position → q.elements_after ≢ e) × NoDrop e qs

module _ {A : Type 0} (value : RatingPatchEntry → A) where
  abbrev changes : List RatingPatchEntry → List (Change A)
  changes = changes_by value

  Spaced-lower :
      (t : RatingChangeType) (n k j e : ℕ) (a : A) (cs : List (Change A))
      → n - e ≤ j
      → Spaced n k (change_at t e a ∷ cs)
      → Spaced n j (change_at t e a ∷ cs)
  Spaced-lower old_position n k j e a cs h sp = (sp.0, h, sp.2)
  Spaced-lower new_position n k j e a cs h sp = (sp.0, h, sp.2)

  Spaced-under :
      (t : RatingChangeType) (n k e e' : ℕ) (a : A) (cs cs' : List (Change A))
      → e < suc n
      → e' ≤ e
      → (t ≡ old_position → e' < e)
      → ((j : ℕ) → n - e ≤ j → Spaced n j cs → Spaced n j cs')
      → Spaced n k (change_at t e' a ∷ cs)
      → Spaced n k (change_at t e' a ∷ cs')
  Spaced-under old_position n k e e' a cs cs' hn le lt ih sp =
      let l = lt refl in (sp.0, sp.1, ih (n - e' - 1) (omega arith) sp.2)
  Spaced-under new_position n k e e' a cs cs' hn le lt ih sp =
      (sp.0, sp.1, ih (n - e') (omega arith) sp.2)

  pub Spaced-put :
      (n u e a : ℕ) (ps : List RatingPatchEntry) (k : ℕ)
      → e ≤ n
      → n - e ≤ k
      → Spaced n k (changes ps)
      → Spaced n k (changes (emplace_patch (new_entry u e a) ps))
  unfolding emplace_patch
  Spaced-put n u e a [] k le near sp = (le, near, tt)
  Spaced-put n u e a (q ∷ qs) k le near sp = elim (Bool-cases (less (new_entry u e a) q)) [
    | inl l ↦
        let b = put_before u e a q l in
        rw l (
          le,
          near,
          Spaced-lower q.change_type n k (n - e) q.elements_after (value q) (changes qs)
              (omega arith) sp,
        )
    | inr l ↦
        let b = put_after u e a q l in
        rw l (
          Spaced-under q.change_type n k e q.elements_after (value q) (changes qs)
            (changes (emplace_patch (new_entry u e a) qs)) (omega arith) b.0 b.1
            (λ j. Spaced-put n u e a qs j le) sp)
  ]

  pub Spaced-drop :
      (n e : ℕ) (ps : List RatingPatchEntry) (k : ℕ)
      → e < n
      → NoDrop e ps
      → n - e ≤ k
      → Spaced n k (changes ps)
      → Spaced n k (changes (emplace_patch (old_entry e) ps))
  unfolding emplace_patch
  Spaced-drop n e [] k lt once near sp = (lt, near, tt)
  Spaced-drop n e (q ∷ qs) k lt once near sp = elim (Bool-cases (less (old_entry e) q)) [
    | inl l ↦
        let b = drop_before e q l once.0 in
        rw l (
          lt,
          near,
          Spaced-lower q.change_type n k (n - e - 1) q.elements_after (value q) (changes qs)
              (omega arith) sp,
        )
    | inr l ↦
        let b = drop_after e q l once.0 in
        rw l (
          Spaced-under q.change_type n k e q.elements_after (value q) (changes qs)
            (changes (emplace_patch (old_entry e) qs)) (omega arith) b.0 b.1
            (λ j. Spaced-drop n e qs j lt once.1) sp)
  ]

  Balanced-more :
      (t : RatingChangeType) (o e : ℕ) (a : A) (cs cs' : List (Change A))
      → ((j : ℕ) → Balanced j cs → Balanced (j + 1) cs')
      → Balanced o (change_at t e a ∷ cs)
      → Balanced (o + 1) (change_at t e a ∷ cs')
  Balanced-more old_position o e a cs cs' ih b = ih (o + 1) b
  Balanced-more new_position o e a cs cs' ih b = (
    omega arith,
    subst (λ j. Balanced j cs') (let s : o - 1 + 1 ≡ o + 1 - 1 = omega arith in s) (ih (o - 1) b.1),
  )

  Balanced-same :
      (t : RatingChangeType) (o e : ℕ) (a : A) (cs cs' : List (Change A))
      → ((j : ℕ) → Balanced j cs → Balanced j cs')
      → Balanced o (change_at t e a ∷ cs)
      → Balanced o (change_at t e a ∷ cs')
  Balanced-same old_position o e a cs cs' ih b = ih (o + 1) b
  Balanced-same new_position o e a cs cs' ih b = (b.0, ih (o - 1) b.1)

  -- One more element to put wants one more free place.
  pub Balanced-put :
      (u e a : ℕ) (ps : List RatingPatchEntry) (o : ℕ)
      → Balanced o (changes ps)
      → Balanced (o + 1) (changes (emplace_patch (new_entry u e a) ps))
  unfolding emplace_patch
  Balanced-put u e a [] o b = (omega arith, omega arith)
  Balanced-put u e a (q ∷ qs) o b = elim (Bool-cases (less (new_entry u e a) q)) [
    | inl l ↦ rw l (
      omega arith,
      subst (λ j. Balanced j (changes (q ∷ qs))) (let s : o ≡ o + 1 - 1 = omega arith in s) b,
    )
    | inr l ↦ rw l (
        Balanced-more q.change_type o q.elements_after (value q) (changes qs)
          (changes (emplace_patch (new_entry u e a) qs)) (Balanced-put u e a qs) b)
  ]

  -- A user who moves to the front frees his own place before he takes the new one.
  pub Balanced-move :
      (u e e' a : ℕ) (ps : List RatingPatchEntry) (o : ℕ)
      → e < e'
      → Balanced o (changes ps)
      → Balanced o (changes (emplace_patch (new_entry u e' a) (emplace_patch (old_entry e) ps)))
  unfolding emplace_patch
  Balanced-move u e e' a [] o h b = rw (new_old u e e' a h) (omega arith, omega arith)
  Balanced-move u e e' a (q ∷ qs) o h b = elim (Bool-cases (less (old_entry e) q)) [
    | inl l ↦ rw (l, new_old u e e' a h) (Balanced-put u e' a (q ∷ qs) o b)
    | inr l ↦
        rw (l, put_after_drop u e e' a q h l)
          (Balanced-same q.change_type o q.elements_after (value q) (changes qs)
            (changes (emplace_patch (new_entry u e' a) (emplace_patch (old_entry e) qs)))
            (λ j. Balanced-move u e e' a qs j h) b)
  ]
