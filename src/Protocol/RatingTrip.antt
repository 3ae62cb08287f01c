-- ===== src/Protocol/RatingTrip.antt =====
-- The rating message of ipc/protocol.h on the wire, and that `init` reads it back.
use iqoption_test_task.Prelude.{
  ℕ, ◌^◌, ◌≤◌, ◌<◌, ◌≡◌, refl, sym, List, [], ◌∷◌, ◌++◌, length, append_assoc, append-nil, arith,
  Every, le→leb, lt→ltb,
}
use iqoption_test_task.Failures.{ok}
use iqoption_test_task.Binary.Bytes.{to_bytes}
use iqoption_test_task.Binary.Laws.{
  ended, facing, buffer_bytes, write_pod_end, write_buffer_end, read_pod-facing, read_buffer-facing,
}
use iqoption_test_task.Protocol.Rating.{
  RatingEntry, RatingPackMessage, store_pack_entry, read_entry, read_entries, init_rating,
  rating_entry_count,
}

abbrev pub EntryFits : RatingEntry → Type 0
EntryFits e = (e.id < 2 ^ 32) × (e.winnings < 2 ^ 64) × (length e.name ≤ 255)

abbrev pub entry_bytes : RatingEntry → List ℕ
entry_bytes e = to_bytes 4 e.id ++ (to_bytes 8 e.winnings ++ buffer_bytes e.name)

abbrev pub entries_bytes : List RatingEntry → List ℕ
entries_bytes [] = []
entries_bytes (e ∷ es) = entry_bytes e ++ entries_bytes es

abbrev pub header_bytes : ℕ → ℕ → ℕ → List ℕ
header_bytes id len pos = to_bytes 4 id ++ (to_bytes 4 len ++ to_bytes 4 pos)

abbrev pub pack_bytes : RatingPackMessage → List ℕ
pack_bytes m = header_bytes m.user_id m.rating_length m.rating_pos ++ entries_bytes m.ratings

pub entries_bytes-append :
    (xs ys : List RatingEntry) → entries_bytes (xs ++ ys) ≡ entries_bytes xs ++ entries_bytes ys
entries_bytes-append [] ys = refl
entries_bytes-append (x ∷ xs) ys =
    rw (entries_bytes-append xs ys)
      (sym (append_assoc (entry_bytes x) (entries_bytes xs) (entries_bytes ys)))

pub store_pack_entry_end :
    (e : RatingEntry) (xs : List ℕ)
    → EntryFits e
    → store_pack_entry e (ended xs) ≡ ok (ended (xs ++ entry_bytes e))
unfolding store_pack_entry
store_pack_entry_end e xs h =
    let i = to_bytes 4 e.id in
    let w = to_bytes 8 e.winnings in
    rw (
      write_pod_end 4 e.id xs,
      write_pod_end 8 e.winnings (xs ++ i),
      write_buffer_end e.name ((xs ++ i) ++ w) h.2,
      append_assoc (xs ++ i) w (buffer_bytes e.name),
      append_assoc xs i (w ++ buffer_bytes e.name),
    )

read_entry-facing :
    (e : RatingEntry) (pre rest : List ℕ)
    → EntryFits e
    → read_entry (facing pre (entry_bytes e ++ rest)) ≡ ok (e, facing (pre ++ entry_bytes e) rest)
unfolding read_entry
read_entry-facing e pre rest h =
    let i = to_bytes 4 e.id in
    let w = to_bytes 8 e.winnings in
    let n = buffer_bytes e.name in
    rw (
      append_assoc i (w ++ n) rest,
      read_pod-facing 4 e.id pre ((w ++ n) ++ rest) (omega arith),
      append_assoc w n rest,
      read_pod-facing 8 e.winnings (pre ++ i) (n ++ rest) (omega arith),
      read_buffer-facing ((pre ++ i) ++ w) e.name rest h.2,
      append_assoc (pre ++ i) w n,
      append_assoc pre i (w ++ n),
    )

read_entries-facing :
    (es : List RatingEntry) (pre rest : List ℕ)
    → Every EntryFits es
    → read_entries (length es) (facing pre (entries_bytes es ++ rest))
      ≡ ok (es, facing (pre ++ entries_bytes es) rest)
unfolding read_entries
read_entries-facing [] pre rest h = rw append-nil refl
read_entries-facing (e ∷ es) pre rest h = rw (
  append_assoc (entry_bytes e) (entries_bytes es) rest,
  read_entry-facing e pre (entries_bytes es ++ rest) h.0,
  read_entries-facing es (pre ++ entry_bytes e) rest h.1,
  append_assoc pre (entry_bytes e) (entries_bytes es),
)

-- What the C++ types and the service give for a rating message: the place is in the rating or just
-- behind it, and there are as many entries as a client reads.
pub record PackFits (m : RatingPackMessage) : Type 0 where
  pub id_fits : m.user_id < 2 ^ 32
  pub size_fits : m.rating_length < 2 ^ 31
  pub pos_fits : m.rating_pos ≤ m.rating_length
  pub entries_fit : Every EntryFits m.ratings
  pub counted : length m.ratings ≡ rating_entry_count m.rating_length m.rating_pos

-- A client reads a rating message back, whatever comes before and behind it, if its values fit and it
-- has the number of entries that its place calls for.
pub init_rating-pack_bytes :
    (m : RatingPackMessage) (pre rest : List ℕ)
    → PackFits m
    → init_rating (facing pre (pack_bytes m ++ rest)) ≡ ok (m, facing (pre ++ pack_bytes m) rest)
unfolding init_rating
init_rating-pack_bytes m pre rest f =
    let i = to_bytes 4 m.user_id in
    let l = to_bytes 4 m.rating_length in
    let p = to_bytes 4 m.rating_pos in
    let es = entries_bytes m.ratings in
    let size_fits = f.size_fits in
    let pos_fits = f.pos_fits in
    rw (
      append_assoc (i ++ (l ++ p)) es rest,
      append_assoc i (l ++ p) (es ++ rest),
      append_assoc l p (es ++ rest),
      read_pod-facing 4 m.user_id pre (l ++ (p ++ (es ++ rest))) (omega (arith, f.id_fits)),
      read_pod-facing 4 m.rating_length (pre ++ i) (p ++ (es ++ rest)) (omega arith),
      read_pod-facing 4 m.rating_pos ((pre ++ i) ++ l) (es ++ rest) (omega arith),
      lt→ltb m.rating_length (2 ^ 31) size_fits,
      lt→ltb m.rating_pos (2 ^ 31) (omega arith),
      le→leb m.rating_pos m.rating_length pos_fits,
      ← f.counted,
      read_entries-facing m.ratings (((pre ++ i) ++ l) ++ p) rest f.entries_fit,
      append_assoc (pre ++ i) l p,
      append_assoc pre i (l ++ p),
      append_assoc pre (i ++ (l ++ p)) es,
    )
