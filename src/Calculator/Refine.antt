-- ===== src/Calculator/Refine.antt =====
-- The loop of `recalculate` in service/rating_calculator.cpp does what `rebuild` says, in place.
use iqoption_test_task.Prelude.{
  ℕ, suc, ◌+◌, ◌-◌, ◌^◌, ◌≤◌, ◌<◌, ◌≡◌, refl, sym, ap, ◌∙◌, subst, [], ◌∷◌, ◌++◌, length, take,
  drop, add32, sub32, arith, append_assoc, length-append, length-take, length-drop,
  take-append-drop, set_middle, take-suc, take_all, lt→ltb,
}
use iqoption_test_task.Failures.{Result, ok}
use iqoption_test_task.Core.{Pointer, ActiveUsersMap, RatingVector}
use iqoption_test_task.Calculator.Patches.{RatingPatchEntry}
use iqoption_test_task.Calculator.Moves.{
  LoopState, patch_position, block_length, rating_move_block, rating_insert, apply_old, apply_new,
  set_amount,
}
use iqoption_test_task.Calculator.Blocks.{gap, length-gap, move_block_lem}

-- The vector while the loop runs: the old elements that are left, the free places, the finished end.
pub record Holds (n : ℕ) (front junk done : RatingVector) (s : LoopState) : Type 0 where
  pub layout : s.rating ≡ front ++ (junk ++ done)
  pub free : s.offset ≡ length junk
  pub counted : s.length_done + s.old_positions + length front ≡ n
  pub small : n < 2 ^ 31
  pub fits : length (front ++ (junk ++ done)) < 2 ^ 31

-- The move that a patch makes.
move_of :
    (n : ℕ) (front junk done : RatingVector) (s : LoopState) (p : RatingPatchEntry)
    → Holds n front junk done s
    → p.elements_after ≤ n
    → n - p.elements_after ≤ length front
    → rating_move_block (patch_position n p) (block_length p s) s.offset s.rating
      ≡ ok (
          take (n - p.elements_after) front
          ++ (gap (drop (n - p.elements_after) front) junk
              ++ (drop (n - p.elements_after) front ++ done)))
move_of n front junk done s p v le near =
    let pos = n - p.elements_after in
    let xs = take pos front in
    let block = drop pos front in
    let whole : front ++ (junk ++ done) ≡ xs ++ (block ++ (junk ++ done)) =
      rw (← append_assoc xs block (junk ++ done), take-append-drop pos front) in
    let at : patch_position n p ≡ length xs = omega (arith, length-take pos front) in
    let long : block_length p s ≡ length block = omega (arith, length-drop pos front) in
    rw (at, long, v.free, v.layout, whole) (move_block_lem xs block junk done (rw whole at v.fits))

parts :
    (front junk done : RatingVector)
    → length (front ++ (junk ++ done)) ≡ length front + (length junk + length done)
parts front junk done = omega (arith, length-append front (junk ++ done), length-append junk done)

-- A move keeps the size of the vector.
moved_size :
    (pos : ℕ) (front junk done : RatingVector)
    → length (take pos front ++ (gap (drop pos front) junk ++ (drop pos front ++ done)))
      ≡ length (front ++ (junk ++ done))
moved_size pos front junk done =
    let block = drop pos front in
    omega (
      arith,
      parts front junk done,
      parts (take pos front) (gap block junk) (block ++ done),
      length-append block done,
      length-gap block junk,
      ap length (take-append-drop pos front),
      length-append (take pos front) block,
    )

-- What a step of the loop comes to.
abbrev pub Steps : ℕ → RatingVector → RatingVector → ActiveUsersMap → Result LoopState → ℕ → Type 0
Steps n front done users r o =
    (s : LoopState) × (junk : RatingVector) × (r ≡ ok s)
    × (s.users ≡ users)
    × (length junk ≡ o)
    × Holds n front junk done s

pub apply_old_lem :
    (n : ℕ) (front junk done : RatingVector) (s : LoopState) (p : RatingPatchEntry)
    → Holds n front junk done s
    → p.elements_after < n
    → n - p.elements_after ≤ length front
    → Steps n
        (take (n - p.elements_after - 1) front)
        (drop (n - p.elements_after) front ++ done)
        s.users
        (apply_old n p s)
        (length junk + 1)
unfolding apply_old
apply_old_lem n front junk done s p v lt near =
    let pos = n - p.elements_after in
    let xs = take (pos - 1) front in
    let block = drop pos front in
    let (x, e) = take-suc (pos - 1) front (omega arith) in
    let e' : take pos front ≡ xs ++ (x ∷ []) =
      subst (λ k. take k front ≡ xs ++ (x ∷ [])) (let q : suc (pos - 1) ≡ pos = omega arith in q)
        e in
    let junk' = x ∷ gap block junk in
    let sizes = parts front junk done in
    let after : take pos front ++ (gap block junk ++ (block ++ done))
        ≡ xs ++ (junk' ++ (block ++ done)) =
      rw (e', append_assoc xs (x ∷ []) (gap block junk ++ (block ++ done))) in
    (
      record s {
        rating = take pos front ++ (gap block junk ++ (block ++ done));
        old_positions = add32 s.old_positions 1;
        length_done = add32 s.length_done (block_length p s);
        offset = add32 s.offset 1;
      },
      junk',
      rw (move_of n front junk done s p v (omega arith) near),
      refl,
      omega (arith, length-gap block junk),
      record {
        layout = after;
        free = omega (arith, length-gap block junk, v.free, sizes);
        counted =
            omega (arith, v.counted, length-take (pos - 1) front, length-drop pos front, sizes);
        small = v.small;
        fits = rw (← after) (omega (arith, moved_size pos front junk done, v.fits));
      },
    )

-- The last of the free places.
last_free :
    (g : RatingVector) → 0 < length g → (x : Pointer) × (g ≡ take (length g - 1) g ++ (x ∷ []))
last_free g h =
    let (x, e) = take-suc (length g - 1) g (omega arith) in
    let q : suc (length g - 1) ≡ length g = omega arith in
    (
      x,
      sym (take_all (length g) g (omega arith))
          ∙ subst (λ k. take k g ≡ take (length g - 1) g ++ (x ∷ [])) q e,
    )

insert_lem :
    (xs init : RatingVector) (x v : Pointer) (rest : RatingVector) (pos : ℕ)
    → pos ≡ length (xs ++ init)
    → rating_insert pos v (xs ++ ((init ++ (x ∷ [])) ++ rest)) ≡ ok (xs ++ (init ++ (v ∷ rest)))
unfolding rating_insert
insert_lem xs init x v rest pos e =
    let split : xs ++ ((init ++ (x ∷ [])) ++ rest) ≡ (xs ++ init) ++ (x ∷ rest) =
      rw (append_assoc init (x ∷ []) rest, append_assoc xs init (x ∷ rest)) in
    rw (
      split,
      e,
      lt→ltb (length (xs ++ init)) (length ((xs ++ init) ++ (x ∷ rest)))
          (omega (arith, length-append (xs ++ init) (x ∷ rest))),
      set_middle (xs ++ init) x rest v,
      append_assoc xs init (v ∷ rest),
    )

pub apply_new_lem :
    (n : ℕ) (front junk done : RatingVector) (s : LoopState) (p : RatingPatchEntry)
    → Holds n front junk done s
    → p.elements_after ≤ n
    → n - p.elements_after ≤ length front
    → 0 < length junk
    → Steps n
        (take (n - p.elements_after) front)
        (p.user_data ∷ (drop (n - p.elements_after) front ++ done))
        (set_amount p.user_data p.amount_won s.users)
        (apply_new n p s)
        (length junk - 1)
unfolding apply_new
apply_new_lem n front junk done s p v le near some_free =
    let pos = n - p.elements_after in
    let xs = take pos front in
    let block = drop pos front in
    let g = gap block junk in
    let (x, e) = last_free g (omega (arith, length-gap block junk)) in
    let init = take (length g - 1) g in
    let sizes = parts front junk done in
    let init_size : length init ≡ length junk - 1 =
      omega (arith, length-take (length g - 1) g, length-gap block junk) in
    let at : add32 (patch_position n p) (sub32 s.offset 1) ≡ length (xs ++ init) =
      omega
        (arith, v.free, v.small, length-append xs init, length-take pos front, init_size, sizes) in
    let place = add32 (patch_position n p) (sub32 s.offset 1) in
    let rest = block ++ done in
    let inserted : rating_insert place p.user_data (xs ++ (g ++ rest))
        ≡ ok (xs ++ (init ++ (p.user_data ∷ rest))) =
      subst
        (λ h.
          rating_insert place p.user_data (xs ++ (h ++ rest))
          ≡ ok (xs ++ (init ++ (p.user_data ∷ rest))))
        (sym e) (insert_lem xs init x p.user_data rest place at) in
    (
      record s {
        rating = xs ++ (init ++ (p.user_data ∷ (block ++ done)));
        users = set_amount p.user_data p.amount_won s.users;
        length_done = add32 s.length_done (block_length p s);
        offset = sub32 s.offset 1;
      },
      init,
      rw (move_of n front junk done s p v le near, inserted),
      refl,
      init_size,
      record {
        layout = refl;
        free = omega (arith, v.free, init_size, sizes);
        counted = omega (arith, v.counted, length-take pos front, length-drop pos front, sizes);
        small = v.small;
        fits = omega (
          arith,
          v.fits,
          moved_size pos front junk done,
          parts xs g (block ++ done),
          length-gap block junk,
          init_size,
          parts xs init (p.user_data ∷ (block ++ done)),
        );
      },
    )
