-- ===== src/Protocol/Rating.antt =====
-- RatingPackMessage of ipc/protocol.h: the builder that the workers use, and `init` at the client.
use iqoption_test_task.Prelude.{
  ℕ, zero, suc, ◌+◌, ◌-◌, ◌^◌, Bool, ◌&&◌, List, [], ◌∷◌, ltb, leb, if◌then◌else◌, min,
}
use iqoption_test_task.Failures.{Result, ok, ◌>>=◌, ◌>>◌, assert}
use iqoption_test_task.Binary.{
  Reader, BinaryOStream, read_pod, read_buffer, write_pod, write_buffer,
}
use iqoption_test_task.Protocol.Constants.{
  top_positions, competition_distance, size_of_int, size_of_money,
}

pub record RatingEntry : Type 0 where
  pub id : ℕ
  pub name : List ℕ
  pub winnings : ℕ

pub record RatingPackMessage : Type 0 where
  pub user_id : ℕ
  pub rating_length : ℕ
  pub rating_pos : ℕ
  pub ratings : List RatingEntry

-- StorageBuilder::storePackHeader
unfoldable pub store_pack_header : ℕ → ℕ → ℕ → BinaryOStream → BinaryOStream
store_pack_header id length pos o =
    write_pod size_of_int pos (write_pod size_of_int length (write_pod size_of_int id o))

-- StorageBuilder::storePackEntry; `write_buffer` makes the same assertion on the name.
unfoldable pub store_pack_entry : RatingEntry → BinaryOStream → Result BinaryOStream
store_pack_entry e o =
    write_buffer e.name (write_pod size_of_money e.winnings (write_pod size_of_int e.id o))

unfoldable pub read_entry : Reader RatingEntry
read_entry s = do
  (i, s₁) ← read_pod size_of_int s
  (w, s₂) ← read_pod size_of_money s₁
  (n, s₃) ← read_buffer s₂
  ok (record { id = i; name = n; winnings = w }, s₃)

unfoldable pub read_entries : ℕ → Reader (List RatingEntry)
read_entries zero s = ok ([], s)
read_entries (suc n) s = do (e, s') ← read_entry s; (es, s'') ← read_entries n s'; ok (e ∷ es, s'')

-- How many entries `init` reads; the numbers are not negative.
unfoldable pub rating_entry_count : ℕ → ℕ → ℕ
rating_entry_count length pos =
    min top_positions pos
    + (if ltb top_positions pos then min (pos - top_positions) competition_distance else 0)
    + min (length - pos) (competition_distance + 1)

-- `0 ≤ a` for an `int`.
abbrev pub nonneg32 : ℕ → Bool
nonneg32 a = ltb a (2 ^ 31)

unfoldable pub init_rating : Reader RatingPackMessage
init_rating s = do
  (id, s₁) ← read_pod size_of_int s
  (length, s₂) ← read_pod size_of_int s₁
  (pos, s₃) ← read_pod size_of_int s₂
  assert (nonneg32 length && (nonneg32 pos && leb pos length))
  (es, s₄) ← read_entries (rating_entry_count length pos) s₃
  ok (record { user_id = id; rating_length = length; rating_pos = pos; ratings = es }, s₄)
