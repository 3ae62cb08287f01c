-- ===== src/Workers.antt =====
-- service/worker_pool.cpp: the workers answer the jobs of their queues with rating messages and error
-- messages. A rating buffer holds the top of the rating, and what follows is written anew for each
-- message. `blockedWriteMessage` writes as `writeMessage` does.
pub mod Overwrite
pub mod Answers
pub mod Sending
pub mod Errors
pub mod Turn
pub mod Drained
use iqoption_test_task.Prelude.{
  ℕ, zero, suc, ◌+◌, ◌-◌, ◌%◌, ◌^◌, min, max, Bool, true, false, ◌||◌, Option, none, some,
  Option-cases, List, [], ◌∷◌, length, take, drop, ltb, leb, ◌==◌, if◌then◌else◌,
}
use iqoption_test_task.Failures.{Result, ok, throws, assert, ◌>>=◌, ◌>>◌}
use iqoption_test_task.Binary.{BinaryOStream, set_pos, rewind}
use iqoption_test_task.Maps.{find, contains}
use iqoption_test_task.Core.{
  Pointer, ActiveUsersMap, RatingVector, FullUserData, deref, CoreRatingData, invalid_id,
}
use iqoption_test_task.Protocol.Constants.{top_positions, competition_distance}
use iqoption_test_task.Protocol.Rating.{RatingEntry, store_pack_header, store_pack_entry}
use iqoption_test_task.Protocol.Service.{GenericProtocolError, store_error, user_unrecognized_error}
use iqoption_test_task.Transport.{Asio, write_message}

-- RatingBufferData
pub record RatingBufferData : Type 0 where
  pub buffer : BinaryOStream
  pub base : ℕ
  pub top_ratings_end : ℕ

-- RatingBufferData(b)
abbrev pub new_rating_buffer : BinaryOStream → RatingBufferData
new_rating_buffer b = record { buffer = b; base = b.cur_pos; top_ratings_end = 0 }

-- What storePackEntry is given for a pointer of the rating vector.
unfoldable pub entry_of : ActiveUsersMap → Pointer → RatingEntry
entry_of users p =
    let u = deref users p in record { id = u.id; name = u.name; winnings = u.amount_won }

unfoldable pub store_entries : ActiveUsersMap → List Pointer → BinaryOStream → Result BinaryOStream
store_entries users [] o = ok o
store_entries users (p ∷ ps) o = do
  o' ← store_pack_entry (entry_of users p) o
  store_entries users ps o'

-- static_cast<int>(m_coreData.rating.size())
abbrev pub rating_size : CoreRatingData → ℕ
rating_size d = length d.rating % 2 ^ 32

unfoldable pub cache_top_ratings : CoreRatingData → RatingBufferData → Result RatingBufferData
cache_top_ratings d bd = do
  let header = store_pack_header invalid_id 0 0 (rewind bd.base bd.buffer).1
  buffer ← store_entries d.active_users (take (min top_positions (rating_size d)) d.rating) header
  ok (record bd { buffer = buffer; top_ratings_end = buffer.cur_pos })

-- ratingRangeBegin, where the difference is not negative or `max` takes the other number, and
-- ratingRangeEnd.
abbrev pub range_begin : ℕ → ℕ
range_begin rating = max top_positions (rating - competition_distance)

abbrev pub range_end : ℕ → ℕ → ℕ
range_end size rating = min size (rating + competition_distance + 1)

-- The pointers at the positions from `begin` to before `end`.
abbrev pub range : ℕ → ℕ → RatingVector → RatingVector
range begin end rating = take (end - begin) (drop begin rating)

-- The message for a user at a place, complete but for its size.
unfoldable pub rating_message : CoreRatingData → ℕ → ℕ → RatingBufferData → Result BinaryOStream
rating_message d id rating bd = do
  assert (leb rating (length d.rating))
  assert (bd.buffer.cur_pos == bd.top_ratings_end)
  buffer ←
      store_entries d.active_users
        (range (range_begin rating) (range_end (rating_size d) rating) d.rating) bd.buffer
  ok (store_pack_header id (rating_size d) rating (set_pos bd.base buffer).1)

-- processRatingImpl
unfoldable pub process_rating_impl :
    (a : Asio)
    → CoreRatingData
    → ℕ
    → ℕ
    → RatingBufferData
    → a.Socket
    → Result (RatingBufferData × a.Socket)
process_rating_impl a d id rating bd s = do
  message ← rating_message d id rating bd
  (buffer, s') ← write_message a message s
  ok (record bd { buffer = (rewind bd.top_ratings_end buffer).1 }, s')

-- processRating, for user data.
unfoldable pub process_rating :
    (a : Asio)
    → CoreRatingData
    → Pointer
    → RatingBufferData
    → a.Socket
    → Result (RatingBufferData × a.Socket)
process_rating a d user_data bd s =
    let u = deref d.active_users user_data in process_rating_impl a d u.id u.rating bd s

-- The place at which a user who asked is served, if he is known.
unfoldable pub served_at : CoreRatingData → ℕ × Bool → Option (ℕ × ℕ)
served_at d (id, registered) = elim (find id d.active_users) [
  | some u ↦ some (u.id, u.rating)
  | none ↦ if contains id d.silent_users || registered then some (id, rating_size d) else none
]

serve :
    (a : Asio)
    → CoreRatingData
    → Option (ℕ × ℕ)
    → RatingBufferData
    → a.Socket
    → Result (Bool × RatingBufferData × a.Socket)
serve a d none bd s = ok (false, bd, s)
serve a d (some (id, rating)) bd s = do
  (bd', s') ← process_rating_impl a d id rating bd s
  ok (true, bd', s')

-- processRating, for the promise of a user id.
unfoldable pub process_promise :
    (a : Asio)
    → CoreRatingData
    → ℕ × Bool
    → RatingBufferData
    → a.Socket
    → Result (Bool × RatingBufferData × a.Socket)
unfolding serve
process_promise a d promise bd s = serve a d (served_at d promise) bd s

-- processError
unfoldable pub process_error :
    (a : Asio)
    → GenericProtocolError
    → ℕ
    → BinaryOStream
    → a.Socket
    → Result (BinaryOStream × a.Socket)
process_error a error pos buffer s = do
  (written, s') ← write_message a (store_error error buffer) s
  ok ((rewind pos written).1, s')
