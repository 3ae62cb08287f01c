-- ===== src/Workers/Answers.antt =====
-- What a worker sends about a place of the rating (service/worker_pool.cpp), and that a client reads
-- it (ipc/protocol.h).
use iqoption_test_task.Prelude.{
  false, ℕ, suc, ◌+◌, ◌-◌, ◌^◌, ◌%◌, ◌≤◌, ◌<◌, ◌≡◌, refl, sym, ap, ◌∙◌, min, max, List, [], ◌∷◌,
  ◌++◌, length, take, drop, arith, length-take, length-drop, length-append, append_assoc,
  append-nil, Every, Every-append, Every-take, Every-drop, map, ltb, le→leb, le→ltb_false, ==-refl,
}
use iqoption_test_task.Failures.{ok}
use iqoption_test_task.Binary.{BinaryOStream, set_pos}
use iqoption_test_task.Binary.Bytes.{to_bytes, length-to_bytes}
use iqoption_test_task.Binary.Laws.{ended, facing}
use iqoption_test_task.Core.{CoreRatingData, RatingVector, Pointer}
use iqoption_test_task.Protocol.Rating.{
  RatingEntry, RatingPackMessage, store_pack_header, rating_entry_count, init_rating,
}
use iqoption_test_task.Protocol.RatingTrip.{
  EntryFits, PackFits, entry_bytes, entries_bytes, entries_bytes-append, header_bytes, pack_bytes,
  store_pack_entry_end, init_rating-pack_bytes,
}
use iqoption_test_task.Workers.{
  RatingBufferData, entry_of, store_entries, range_begin, range_end, range, rating_message,
}
use iqoption_test_task.Workers.Overwrite.{before, store_pack_header_over}

counts :
    (size pos : ℕ)
    → pos ≤ size
    → min 10 size + (min size (pos + 10 + 1) - max 10 (pos - 10)) ≡ rating_entry_count size pos
unfolding rating_entry_count
counts size pos h = ground arith

abbrev pub entries_of : CoreRatingData → List Pointer → List RatingEntry
entries_of d ps = map (entry_of d.active_users) ps

abbrev pub tops : CoreRatingData → List RatingEntry
tops d = entries_of d (take 10 d.rating)

abbrev pub near : CoreRatingData → ℕ → List RatingEntry
near d pos = entries_of d (range (range_begin pos) (range_end (length d.rating) pos) d.rating)

-- The message that user `id` is due at a place: the top of the rating, and his neighbourhood.
abbrev pub answer : CoreRatingData → ℕ → ℕ → RatingPackMessage
answer d id pos = record {
  user_id = id;
  rating_length = length d.rating;
  rating_pos = pos;
  ratings = tops d ++ near d pos;
}

length-entries_of : (d : CoreRatingData) (ps : List Pointer) → length (entries_of d ps) ≡ length ps
length-entries_of d [] = refl
length-entries_of d (p ∷ ps) = ap suc (length-entries_of d ps)

length-range :
    (begin end : ℕ) (v : RatingVector)
    → length (range begin end v) ≡ min (end - begin) (length v - begin)
length-range begin end v =
    length-take (end - begin) (drop begin v) ∙ ap (min (end - begin)) (length-drop begin v)

-- The users of the rating have ids, amounts and names that fit.
abbrev pub DataFits : CoreRatingData → Type 0
DataFits d = Every (λ p. EntryFits (entry_of d.active_users p)) d.rating

entries_fit :
    (d : CoreRatingData) (ps : List Pointer)
    → Every (λ p. EntryFits (entry_of d.active_users p)) ps
    → Every EntryFits (entries_of d ps)
entries_fit d [] h = tt
entries_fit d (p ∷ ps) h = (h.0, entries_fit d ps h.1)

pub store_entries_end :
    (d : CoreRatingData) (ps : List Pointer) (xs : List ℕ)
    → Every (λ p. EntryFits (entry_of d.active_users p)) ps
    → store_entries d.active_users ps (ended xs)
      ≡ ok (ended (xs ++ entries_bytes (entries_of d ps)))
unfolding store_entries
store_entries_end d [] xs h = rw append-nil refl
store_entries_end d (p ∷ ps) xs h =
    let e = entry_of d.active_users p in
    rw
      (
        store_pack_entry_end e xs h.0,
        store_entries_end d ps (xs ++ entry_bytes e) h.1,
        append_assoc xs (entry_bytes e) (entries_bytes (entries_of d ps)),
      )
      refl

-- The rating buffer between two messages: room for a size, the message code, room for a header, and
-- the top of the rating.
pub record IsCached (d : CoreRatingData) (bd : RatingBufferData) : Type 0 where
  pub size : List ℕ
  pub id : ℕ
  pub len : ℕ
  pub pos : ℕ
  pub size_length : length size ≡ 2
  pub base_lem : bd.base ≡ 3
  pub layout :
      bd.buffer
      ≡ ended ((size ++ to_bytes 1 2) ++ (header_bytes id len pos ++ entries_bytes (tops d)))
  pub end_lem : bd.top_ratings_end ≡ bd.buffer.cur_pos

near_fits :
    (d : CoreRatingData) (pos : ℕ)
    → DataFits d
    → Every
        (λ p. EntryFits (entry_of d.active_users p))
        (range (range_begin pos) (range_end (length d.rating) pos) d.rating)
near_fits d pos fits =
    let P = λ (p : Pointer). EntryFits (entry_of d.active_users p) in
    Every-take P (range_end (length d.rating) pos - range_begin pos)
      (drop (range_begin pos) d.rating) (Every-drop P (range_begin pos) d.rating fits)

pub answer-PackFits :
    (d : CoreRatingData) (id pos : ℕ)
    → DataFits d
    → length d.rating < 2 ^ 31
    → id < 2 ^ 32
    → pos ≤ length d.rating
    → PackFits (answer d id pos)
answer-PackFits d id pos fits small i p = record {
  id_fits = i;
  size_fits = small;
  pos_fits = p;
  entries_fit =
      let P = λ (p : Pointer). EntryFits (entry_of d.active_users p) in
      Every-append EntryFits (tops d) (near d pos)
        (entries_fit d (take 10 d.rating) (Every-take P 10 d.rating fits))
        (entries_fit d _ (near_fits d pos fits));
  counted =
      let first = length-entries_of d (take 10 d.rating) ∙ length-take 10 d.rating in
      let second =
        length-entries_of d (range (range_begin pos) (range_end (length d.rating) pos) d.rating)
        ∙ length-range (range_begin pos) (range_end (length d.rating) pos) d.rating in
      length-append (tops d) (near d pos)
      ∙ (omega (arith, first, second) ∙ counts (length d.rating) pos p);
}

-- A client reads what a worker answers about a place as the users that the answer is about.
pub init_rating-answer :
    (d : CoreRatingData) (id pos : ℕ) (pre rest : List ℕ)
    → DataFits d
    → length d.rating < 2 ^ 31
    → id < 2 ^ 32
    → pos ≤ length d.rating
    → init_rating (facing pre (pack_bytes (answer d id pos) ++ rest))
      ≡ ok (answer d id pos, facing (pre ++ pack_bytes (answer d id pos)) rest)
init_rating-answer d id pos pre rest fits small i p =
    init_rating-pack_bytes (answer d id pos) pre rest (answer-PackFits d id pos fits small i p)

abbrev pub message_bytes : RatingPackMessage → List ℕ
message_bytes m = to_bytes 1 2 ++ pack_bytes m

-- The message for a place, made in a buffer that holds the top of the rating.
pub rating_message-answer :
    (d : CoreRatingData) (id pos : ℕ) (bd : RatingBufferData) (c : IsCached d bd)
    → DataFits d
    → length d.rating < 2 ^ 31
    → pos ≤ length d.rating
    → (o : BinaryOStream) × (rating_message d id pos bd ≡ ok o)
      × (o.storage ≡ c.size ++ message_bytes (answer d id pos))
unfolding rating_message set_pos
rating_message-answer d id pos bd c fits small p =
    let front = c.size ++ to_bytes 1 2 in
    let tb = entries_bytes (tops d) in
    let nb = entries_bytes (near d pos) in
    let h = header_bytes c.id c.len c.pos in
    let size : length d.rating % 2 ^ 32 ≡ length d.rating = omega arith in
    let stand : length front ≡ 3 =
      omega (arith, c.size_length, length-append c.size (to_bytes 1 2), length-to_bytes 1 2) in
    let near_end =
      store_entries_end d (range (range_begin pos) (range_end (length d.rating) pos) d.rating)
        (front ++ (h ++ tb)) (near_fits d pos fits) in
    let whole : (front ++ (h ++ tb)) ++ nb ≡ front ++ (h ++ (tb ++ nb)) =
      append_assoc front (h ++ tb) nb ∙ ap (◌++◌ front) (append_assoc h tb nb) in
    let room : ltb (length (front ++ (h ++ (tb ++ nb)))) 3 ≡ false =
      le→ltb_false (length (front ++ (h ++ (tb ++ nb)))) 3
        (omega (arith, stand, length-append front (h ++ (tb ++ nb)))) in
    (
      store_pack_header id (length d.rating) pos (before front (h ++ (tb ++ nb))),
      rw
          (
            le→leb pos (length d.rating) p,
            c.end_lem,
            ==-refl bd.buffer.cur_pos,
            c.layout,
            size,
            near_end,
            whole,
            c.base_lem,
            room,
            stand,
          )
          refl,
      store_pack_header_over id (length d.rating) pos c.id c.len c.pos front (tb ++ nb)
          ∙ (append_assoc c.size (to_bytes 1 2)
                (header_bytes id (length d.rating) pos ++ (tb ++ nb))
              ∙ ap (λ x. c.size ++ (to_bytes 1 2 ++ (header_bytes id (length d.rating) pos ++ x)))
                  (sym (entries_bytes-append (tops d) (near d pos)))),
    )
