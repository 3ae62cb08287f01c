-- ===== src/Workers/Sending.antt =====
-- A worker sends an answer and keeps his buffer for the next (service/worker_pool.cpp).
use iqoption_test_task.Prelude.{
  ℕ, zero, suc, ◌%◌, min, take, [], ◌∷◌, Every-take, ◌+◌, ◌^◌, ◌≤◌, ◌<◌, ◌≡◌, refl, sym, ap, ◌∙◌,
  List, ◌++◌, length, arith, length-append, append_assoc, some,
}
use iqoption_test_task.Failures.{ok}
use iqoption_test_task.Binary.{BinaryOStream, rewind}
use iqoption_test_task.Binary.Bytes.{to_bytes, length-to_bytes}
use iqoption_test_task.Binary.Laws.{ended, write_pod_end}
use iqoption_test_task.Core.{CoreRatingData, RatingVector, Pointer, invalid_id}
use iqoption_test_task.Protocol.RatingTrip.{
  EntryFits, entries_bytes, entries_bytes-append, header_bytes,
}
use iqoption_test_task.Protocol.Rating.{store_pack_header}
use iqoption_test_task.Transport.{Asio, write_message, send}
use iqoption_test_task.Transport.Framing.{framed, sized-framed}
use iqoption_test_task.Workers.{entry_of, cache_top_ratings, RatingBufferData, process_rating_impl}
use iqoption_test_task.Workers.Overwrite.{rewind_end}
use iqoption_test_task.Workers.Answers.{
  store_entries_end, IsCached, DataFits, answer, tops, near, message_bytes, rating_message-answer,
}

length-kept :
    (size : List ℕ) (id len pos : ℕ) (tb : List ℕ)
    → length size ≡ 2
    → length ((size ++ to_bytes 1 2) ++ (header_bytes id len pos ++ tb)) ≡ 15 + length tb
length-kept size id len pos tb e = omega (
  arith,
  length-append (size ++ to_bytes 1 2) (header_bytes id len pos ++ tb),
  length-append size (to_bytes 1 2),
  length-to_bytes 1 2,
  length-append (header_bytes id len pos) tb,
  length-append (to_bytes 4 id) (to_bytes 4 len ++ to_bytes 4 pos),
  length-append (to_bytes 4 len) (to_bytes 4 pos),
  length-to_bytes 4 id,
  length-to_bytes 4 len,
  length-to_bytes 4 pos,
)

take_size : (n : ℕ) (v : RatingVector) → take (min n (length v)) v ≡ take n v
take_size zero v = let z : min 0 (length v) ≡ 0 = omega arith in rw z refl
take_size (suc n) [] = let z : min (suc n) 0 ≡ 0 = omega arith in rw z refl
take_size (suc n) (p ∷ ps) =
    let z : min (suc n) (suc (length ps)) ≡ suc (min n (length ps)) = omega arith in
    rw (z, take_size n ps) refl

-- From any buffer that still has room for a size and the message code in front, with the position
-- behind these as its base, `cacheTopRatings` makes one that holds the top of the rating.
pub cache_top_ratings-IsCached :
    (d : CoreRatingData) (bd : RatingBufferData) (size junk : List ℕ)
    → DataFits d
    → length d.rating < 2 ^ 31
    → length size ≡ 2
    → bd.base ≡ 3
    → bd.buffer.storage ≡ (size ++ to_bytes 1 2) ++ junk
    → (bd' : RatingBufferData) × (cache_top_ratings d bd ≡ ok bd') × IsCached d bd'
unfolding cache_top_ratings store_pack_header
cache_top_ratings-IsCached d bd size junk fits small two base storage =
    let front = size ++ to_bytes 1 2 in
    let a = to_bytes 4 invalid_id in
    let z = to_bytes 4 0 in
    let tb = entries_bytes (tops d) in
    let int : length d.rating % 2 ^ 32 ≡ length d.rating = omega arith in
    let three : 3 ≡ length front =
      omega (arith, two, length-append size (to_bytes 1 2), length-to_bytes 1 2) in
    let back : (rewind 3 bd.buffer).1 ≡ ended front =
      ap (λ st. (rewind 3 (record { cur_pos = bd.buffer.cur_pos; storage = st })).1) storage
      ∙ rewind_end front junk bd.buffer.cur_pos 3 three in
    let stored =
      store_entries_end d (take 10 d.rating) (front ++ header_bytes invalid_id 0 0)
        (Every-take (λ (p : Pointer). EntryFits (entry_of d.active_users p)) 10 d.rating fits) in
    let buffer = ended (front ++ (header_bytes invalid_id 0 0 ++ tb)) in
    (
      record bd { buffer = buffer; top_ratings_end = buffer.cur_pos },
      rw
          (
            base,
            back,
            write_pod_end 4 invalid_id front,
            write_pod_end 4 0 (front ++ a),
            write_pod_end 4 0 ((front ++ a) ++ z),
            int,
            take_size 10 d.rating,
            append_assoc (front ++ a) z z,
            append_assoc front a (z ++ z),
            stored,
            append_assoc front (header_bytes invalid_id 0 0) tb,
          )
          refl,
      record {
        size = size;
        id = invalid_id;
        len = 0;
        pos = 0;
        size_length = two;
        base_lem = base;
        layout = refl;
        end_lem = refl;
      },
    )

-- A worker whose buffer holds the top of the rating sends, for a user at a place of the rating or just
-- behind it, the answer about that place (the top, and those around the place) as one message with its
-- size in front, and his buffer holds the top of the rating again. The users' data and the rating's
-- size fit their types, and the socket takes the message.
pub process_rating_impl-sends :
    (a : Asio) (d : CoreRatingData) (id pos : ℕ) (bd : RatingBufferData) (s s' : a.Socket)
    → IsCached d bd
    → DataFits d
    → length d.rating < 2 ^ 31
    → pos ≤ length d.rating
    → a.write (framed (message_bytes (answer d id pos))) s ≡ some s'
    → (bd' : RatingBufferData) × (process_rating_impl a d id pos bd s ≡ ok (bd', s'))
      × IsCached d bd'
unfolding process_rating_impl write_message send
process_rating_impl-sends a d id pos bd s s' c fits small p sent =
    let (o, made, bytes) = rating_message-answer d id pos bd c fits small p in
    let body = message_bytes (answer d id pos) in
    let complete = sized-framed c.size body o c.size_length bytes in
    let n = to_bytes 2 (length body + 2) in
    let code = to_bytes 1 2 in
    let h = header_bytes id (length d.rating) pos in
    let tb = entries_bytes (tops d) in
    let nb = entries_bytes (near d pos) in
    let kept = (n ++ code) ++ (h ++ tb) in
    let shape : framed body ≡ kept ++ nb =
      ap (λ x. n ++ (code ++ (h ++ x))) (entries_bytes-append (tops d) (near d pos))
      ∙ sym (
          append_assoc (n ++ code) (h ++ tb) nb
          ∙ append_assoc n code ((h ++ tb) ++ nb)
          ∙ ap (λ x. n ++ (code ++ x)) (append_assoc h tb nb)) in
    let stand : bd.top_ratings_end ≡ length kept =
      c.end_lem
      ∙ ap (λ (b : BinaryOStream). b.cur_pos) c.layout
      ∙ length-kept c.size c.id c.len c.pos tb c.size_length
      ∙ sym (length-kept n id (length d.rating) pos tb (length-to_bytes 2 (length body + 2))) in
    (
      record bd { buffer = ended kept },
      rw (made, complete, sent, shape, rewind_end kept nb 2 bd.top_ratings_end stand) refl,
      record {
        size = n;
        id = id;
        len = length d.rating;
        pos = pos;
        size_length = length-to_bytes 2 (length body + 2);
        base_lem = c.base_lem;
        layout = refl;
        end_lem = stand;
      },
    )
