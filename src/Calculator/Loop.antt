-- ===== src/Calculator/Loop.antt =====
-- The whole loop over the patches of service/rating_calculator.cpp against `rebuild`.
use iqoption_test_task.Prelude.{
  ℕ, ◌+◌, ◌-◌, ◌^◌, ◌<◌, ◌≡◌, refl, sym, ap, ◌∙◌, subst, inl, inr, List, [], ◌∷◌, ◌++◌, length,
  take, drop, arith, length-take, replicate, length-replicate, length-append, append-nil, none,
}
use iqoption_test_task.Failures.{Result, ok}
use iqoption_test_task.Core.{Pointer, ActiveUsersMap, RatingVector}
use iqoption_test_task.Calculator.Patches.{
  RatingPatchEntry, RatingChangeType, new_position, old_position,
}
use iqoption_test_task.Calculator.Moves.{
  LoopState, apply_old, apply_new, apply_patch, apply_patches, set_amount,
}
use iqoption_test_task.Calculator.Rebuild.{rebuild, Spaced, Balanced}
use iqoption_test_task.Calculator.Changes.{change_at, changes_of, type_cases}
use iqoption_test_task.Calculator.Refine.{Holds, apply_old_lem, apply_new_lem}

-- The amounts that the loop writes to the users.
abbrev pub amounts_at : RatingChangeType → RatingPatchEntry → ActiveUsersMap → ActiveUsersMap
amounts_at old_position p users = users
amounts_at new_position p users = set_amount p.user_data p.amount_won users

unfoldable pub set_amounts : List RatingPatchEntry → ActiveUsersMap → ActiveUsersMap
set_amounts [] users = users
set_amounts (p ∷ ps) users = set_amounts ps (amounts_at p.change_type p users)

-- The result of the loop: no assertion fails, and the vector is the rebuilt one.
abbrev pub Rebuilds :
    ℕ
    → List RatingPatchEntry
    → RatingVector
    → RatingVector
    → ActiveUsersMap
    → Result LoopState
    → Type 0
Rebuilds n ps front done users r =
    (s : LoopState) × (r ≡ ok s)
    × (s.rating ≡ rebuild n (changes_of ps) front done)
    × (s.users ≡ set_amounts ps users)

Balanced_nil : (junk : RatingVector) → length junk ≡ 0 → junk ≡ []
Balanced_nil [] h = refl
Balanced_nil (x ∷ xs) h = absurd (omega arith)

apply_patch_old :
    (n : ℕ) (p : RatingPatchEntry) (s : LoopState)
    → p.change_type ≡ old_position
    → apply_patch n p s ≡ apply_old n p s
unfolding apply_patch
apply_patch_old n p s e = ground arith

apply_patch_new :
    (n : ℕ) (p : RatingPatchEntry) (s : LoopState)
    → p.change_type ≡ new_position
    → apply_patch n p s ≡ apply_new n p s
unfolding apply_patch
apply_patch_new n p s e = ground arith

loop_lem :
    (n : ℕ) (ps : List RatingPatchEntry) (front junk done : RatingVector) (s : LoopState)
    → Holds n front junk done s
    → Spaced n (length front) (changes_of ps)
    → Balanced (length junk) (changes_of ps)
    → Rebuilds n ps front done s.users (apply_patches n ps s)
unfolding apply_patches set_amounts rebuild
loop_lem n [] front junk done s v spaced balanced =
    (s, refl, v.layout ∙ rw (Balanced_nil junk balanced), refl)
loop_lem n (p ∷ ps) front junk done s v spaced balanced =
    let k = length front in
    let o = length junk in
    let cs = changes_of ps in
    elim (type_cases p.change_type) [
      | inl e ↦
          let sp =
            subst (λ t. Spaced n k (change_at t p.elements_after p.user_data ∷ cs)) e spaced in
          let bl =
            subst (λ t. Balanced o (change_at t p.elements_after p.user_data ∷ cs)) e balanced in
          let (s', junk', run, users, size, v') = apply_old_lem n front junk done s p v sp.0 sp.1 in
          let front' = take (n - p.elements_after - 1) front in
          let left : n - p.elements_after - 1 ≡ length front' =
            omega (arith, length-take (n - p.elements_after - 1) front) in
          let tail =
            loop_lem n ps front' junk' (drop (n - p.elements_after) front ++ done) s' v'
              (subst (λ m. Spaced n m cs) left sp.2) (subst (λ m. Balanced m cs) (sym size) bl) in
          (
            tail.0,
            rw (apply_patch_old n p s e, run) tail.1,
            subst
                (λ t.
                  tail.0.rating
                  ≡ rebuild n (change_at t p.elements_after p.user_data ∷ cs) front done)
                (sym e) tail.2,
            subst (λ t. tail.0.users ≡ set_amounts ps (amounts_at t p s.users)) (sym e)
                (tail.3 ∙ ap (set_amounts ps) users),
          )
      | inr e ↦
          let sp =
            subst (λ t. Spaced n k (change_at t p.elements_after p.user_data ∷ cs)) e spaced in
          let bl =
            subst (λ t. Balanced o (change_at t p.elements_after p.user_data ∷ cs)) e balanced in
          let (s', junk', run, users, size, v') =
            apply_new_lem n front junk done s p v sp.0 sp.1 bl.0 in
          let front' = take (n - p.elements_after) front in
          let left : n - p.elements_after ≡ length front' =
            omega (arith, length-take (n - p.elements_after) front) in
          let tail =
            loop_lem n ps front' junk' (p.user_data ∷ (drop (n - p.elements_after) front ++ done))
              s' v' (subst (λ m. Spaced n m cs) left sp.2)
              (subst (λ m. Balanced m cs) (sym size) bl.1) in
          (
            tail.0,
            rw (apply_patch_new n p s e, run) tail.1,
            subst
                (λ t.
                  tail.0.rating
                  ≡ rebuild n (change_at t p.elements_after p.user_data ∷ cs) front done)
                (sym e) tail.2,
            subst (λ t. tail.0.users ≡ set_amounts ps (amounts_at t p s.users)) (sym e)
                (tail.3 ∙ ap (set_amounts ps) users),
          )
    ]

-- From a vector of n pointers and m null pointers behind them, with m places to fill, no assertion
-- of the loop fails and the vector that it leaves is the rebuilt one.
pub apply_patches_lem :
    (ps : List RatingPatchEntry) (rating : RatingVector) (m : ℕ) (s : LoopState)
    → s.rating ≡ rating ++ replicate m none
    → s.offset ≡ m
    → s.length_done ≡ 0
    → s.old_positions ≡ 0
    → length rating + m < 2 ^ 31
    → Spaced (length rating) (length rating) (changes_of ps)
    → Balanced m (changes_of ps)
    → Rebuilds (length rating) ps rating [] s.users (apply_patches (length rating) ps s)
apply_patches_lem ps rating m s layout free done old small spaced balanced =
    let junk = replicate m none in
    let size = length-replicate {A = Pointer} m none in
    loop_lem (length rating) ps rating junk [] s
      (record {
        layout = rw append-nil layout;
        free = free ∙ sym size;
        counted = omega arith;
        small = omega arith;
        fits = rw append-nil (omega (arith, length-append rating junk, size));
      })
      spaced (subst (λ k. Balanced k (changes_of ps)) (sym size) balanced)
