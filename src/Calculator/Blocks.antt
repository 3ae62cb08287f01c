-- ===== src/Calculator/Blocks.antt =====
-- ratingMoveBlock (service/rating_calculator.cpp) on a vector in four parts: old elements, the block
-- that moves, free places, and the finished end.
use iqoption_test_task.Prelude.{
  ℕ, ◌+◌, ◌^◌, ◌≤◌, ◌<◌, ◌≡◌, refl, ap, [], ◌∷◌, ◌++◌, length, take, drop, add32, arith,
  append_assoc, length-append, length-take, length-drop, take-append-drop, overwrite_middle,
  take_all, overwrite, positive32, ◌||◌, take-append_eq, drop-append_eq, true, false, ◌==◌, ltb,
  leb, ◌&&◌,
}
use iqoption_test_task.Failures.{ok}
use iqoption_test_task.Core.{RatingVector}
use iqoption_test_task.Calculator.Moves.{rating_move_block}

-- The free places after the move: where the block stood, as far as it did not cover them.
abbrev pub gap : RatingVector → RatingVector → RatingVector
gap block junk = take (length junk) (block ++ junk)

pub length-gap : (block junk : RatingVector) → length (gap block junk) ≡ length junk
length-gap block junk =
    omega (arith, length-take (length junk) (block ++ junk), length-append block junk)

-- The memmove itself.
moved :
    (xs block junk done : RatingVector)
    → overwrite
        (xs ++ (block ++ (junk ++ done)))
        (length xs + length junk)
        (take (length block) (drop (length xs) (xs ++ (block ++ (junk ++ done)))))
      ≡ xs ++ (gap block junk ++ (block ++ done))
moved xs block junk done =
    let o = length junk in
    let rest = drop o (block ++ junk) in
    let split : xs ++ (block ++ (junk ++ done)) ≡ (xs ++ gap block junk) ++ (rest ++ done) = rw (
      ← append_assoc block junk done,
      append_assoc xs (gap block junk) (rest ++ done),
      ← append_assoc (gap block junk) rest done,
      take-append-drop o (block ++ junk),
    ) in
    let reach : length xs + o ≡ length (xs ++ gap block junk) =
      omega (arith, length-append xs (gap block junk), length-gap block junk) in
    let same : length rest ≡ length block =
      omega (arith, length-drop o (block ++ junk), length-append block junk) in
    rw (
      drop-append_eq (length xs) xs (block ++ (junk ++ done)) refl,
      take-append_eq (length block) block (junk ++ done) refl,
      split,
      reach,
      overwrite_middle (xs ++ gap block junk) rest done block same,
      append_assoc xs (gap block junk) (block ++ done),
    )

move_guards :
    (x b j t : ℕ)
    → x + b + j ≤ t
    → t < 2 ^ 31
    → 0 < b
    → 0 < j
    → (((b == 0) || (j == 0)) ≡ false)
      × ((ltb x t && (positive32 b && (positive32 j && leb (add32 (add32 x b) j) t))) ≡ true)
      × (add32 x j ≡ x + j)
move_guards x b j t h ht hb hj = ground arith

move_block_far :
    (xs block junk done : RatingVector)
    → length (xs ++ (block ++ (junk ++ done))) < 2 ^ 31
    → 0 < length block
    → 0 < length junk
    → rating_move_block (length xs) (length block) (length junk) (xs ++ (block ++ (junk ++ done)))
      ≡ ok (xs ++ (gap block junk ++ (block ++ done)))
unfolding rating_move_block
move_block_far xs block junk done h b j =
    let whole = xs ++ (block ++ (junk ++ done)) in
    let fits : length xs + length block + length junk ≤ length whole = omega (
      arith,
      length-append xs (block ++ (junk ++ done)),
      length-append block (junk ++ done),
      length-append junk done,
    ) in
    let (moves, guards, sum) =
      move_guards (length xs) (length block) (length junk) (length whole) fits h b j in
    rw (moves, guards, sum) (ap ok (moved xs block junk done))

pub move_block_lem :
    (xs block junk done : RatingVector)
    → length (xs ++ (block ++ (junk ++ done))) < 2 ^ 31
    → rating_move_block (length xs) (length block) (length junk) (xs ++ (block ++ (junk ++ done)))
      ≡ ok (xs ++ (gap block junk ++ (block ++ done)))
unfolding rating_move_block
move_block_lem xs [] junk done h = rw (take_all (length junk) junk (omega arith))
move_block_lem xs (b ∷ bs) [] done h = ground arith
move_block_lem xs (b ∷ bs) (j ∷ js) done h =
    move_block_far xs (b ∷ bs) (j ∷ js) done h (omega arith) (omega arith)
