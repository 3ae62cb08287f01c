-- ===== src/Calculator/Moves.antt =====
-- The rating utility tools of RatingCalculatorImpl, and the loop of `recalculate` that applies the
-- patches to the rating vector in place, from its end to its front.
use iqoption_test_task.Prelude.{
  ℕ, suc, ◌&&◌, ◌||◌, none, some, List, [], ◌∷◌, ltb, leb, ◌==◌, if◌then◌else◌, add32, sub32,
  positive32, length, take, drop, set, overwrite,
}
use iqoption_test_task.Failures.{Result, ok, ◌>>=◌, ◌>>◌, assert}
use iqoption_test_task.Maps.{assign}
use iqoption_test_task.Core.{Pointer, ActiveUsersMap, RatingVector, deref}
use iqoption_test_task.Calculator.Patches.{RatingPatchEntry, new_position, old_position}

-- ratingMoveBlock; `memmove` reads the whole block before it writes.
unfoldable pub rating_move_block : ℕ → ℕ → ℕ → RatingVector → Result RatingVector
rating_move_block pos len offset rating = if len == 0 || offset == 0 then ok rating else do
  assert (
      ltb pos (length rating)
      && (positive32 len
          && (positive32 offset && leb (add32 (add32 pos len) offset) (length rating))))
  ok (overwrite rating (add32 pos offset) (take len (drop pos rating)))

-- ratingInsert
unfoldable pub rating_insert : ℕ → Pointer → RatingVector → Result RatingVector
rating_insert pos value rating = do assert (ltb pos (length rating)); ok (set rating pos value)

-- `pointer->rating = pos` and `pointer->amountWon = amount`. A null pointer has no user.
unfoldable pub set_rating : Pointer → ℕ → ActiveUsersMap → ActiveUsersMap
set_rating none pos users = users
set_rating (some i) pos users = assign i (record (deref users (some i)) { rating = pos }) users

unfoldable pub set_amount : Pointer → ℕ → ActiveUsersMap → ActiveUsersMap
set_amount none amount users = users
set_amount (some i) amount users =
    assign i (record (deref users (some i)) { amount_won = amount }) users

-- ratingRefreshPositions, from a position on.
unfoldable pub refresh_from : ℕ → RatingVector → ActiveUsersMap → ActiveUsersMap
unfolding set_rating
refresh_from pos [] users = users
refresh_from pos (p ∷ ps) users = refresh_from (suc pos) ps (set_rating p pos users)

-- The variables of the loop.
pub record LoopState : Type 0 where
  pub rating : RatingVector
  pub users : ActiveUsersMap
  pub offset : ℕ
  pub old_positions : ℕ
  pub length_done : ℕ

abbrev pub block_length : RatingPatchEntry → LoopState → ℕ
block_length p s = sub32 (sub32 p.elements_after s.length_done) s.old_positions

abbrev pub patch_position : ℕ → RatingPatchEntry → ℕ
patch_position old_size p = sub32 old_size p.elements_after

-- The branch for an old position.
unfoldable pub apply_old : ℕ → RatingPatchEntry → LoopState → Result LoopState
apply_old old_size p s = do
  moved ← rating_move_block (patch_position old_size p) (block_length p s) s.offset s.rating
  ok (record s {
    rating = moved;
    old_positions = add32 s.old_positions 1;
    length_done = add32 s.length_done (block_length p s);
    offset = add32 s.offset 1;
  })

-- The branch for a new position.
unfoldable pub apply_new : ℕ → RatingPatchEntry → LoopState → Result LoopState
apply_new old_size p s = do
  moved ← rating_move_block (patch_position old_size p) (block_length p s) s.offset s.rating
  let offset = sub32 s.offset 1
  inserted ← rating_insert (add32 (patch_position old_size p) offset) p.user_data moved
  ok (record s {
    rating = inserted;
    users = set_amount p.user_data p.amount_won s.users;
    length_done = add32 s.length_done (block_length p s);
    offset = offset;
  })

unfoldable pub apply_patch : ℕ → RatingPatchEntry → LoopState → Result LoopState
apply_patch old_size p s = elim p.change_type [
  | old_position ↦ apply_old old_size p s
  | new_position ↦ apply_new old_size p s
]

unfoldable pub apply_patches : ℕ → List RatingPatchEntry → LoopState → Result LoopState
apply_patches old_size [] s = ok s
apply_patches old_size (p ∷ ps) s = do s' ← apply_patch old_size p s; apply_patches old_size ps s'
