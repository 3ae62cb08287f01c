-- ===== src/Workers/Overwrite.antt =====
-- A rating buffer is overwritten and rewound (utils/binary_storage.h, service/worker_pool.cpp).
use iqoption_test_task.Prelude.{
  ℕ, ◌-◌, ◌≡◌, refl, ◌∙◌, List, ◌++◌, length, arith, length-append, append_assoc, append-nil,
  le→ltb_false, take-append_eq, resize,
}
use iqoption_test_task.Binary.{BinaryOStream, write_pod, rewind}
use iqoption_test_task.Binary.Bytes.{to_bytes, length-to_bytes}
use iqoption_test_task.Binary.Laws.{ended, write_pod_room}
use iqoption_test_task.Protocol.Rating.{store_pack_header}
use iqoption_test_task.Protocol.RatingTrip.{header_bytes}

-- A stream before bytes that it overwrites.
abbrev pub before : List ℕ → List ℕ → BinaryOStream
before xs ys = record { cur_pos = length xs; storage = xs ++ ys }

write_pod_over :
    (n v : ℕ) (xs old ys : List ℕ)
    → length old ≡ n
    → write_pod n v (before xs (old ++ ys)) ≡ before (xs ++ to_bytes n v) ys
write_pod_over n v xs old ys e =
    write_pod_room n v xs old ys e
    ∙ rw (length-append xs (to_bytes n v), length-to_bytes n v, append_assoc xs (to_bytes n v) ys)
        refl

pub store_pack_header_over :
    (id len pos i l p : ℕ) (xs ys : List ℕ)
    → (store_pack_header id len pos (before xs (header_bytes i l p ++ ys))).storage
      ≡ xs ++ (header_bytes id len pos ++ ys)
unfolding store_pack_header
store_pack_header_over id len pos i l p xs ys =
    let a = to_bytes 4 i in
    let b = to_bytes 4 l in
    let c = to_bytes 4 p in
    let a' = to_bytes 4 id in
    let b' = to_bytes 4 len in
    let c' = to_bytes 4 pos in
    rw
      (
        append_assoc a (b ++ c) ys,
        append_assoc b c ys,
        write_pod_over 4 id xs a (b ++ (c ++ ys)) (length-to_bytes 4 i),
        write_pod_over 4 len (xs ++ a') b (c ++ ys) (length-to_bytes 4 l),
        write_pod_over 4 pos ((xs ++ a') ++ b') c ys (length-to_bytes 4 p),
        append_assoc (xs ++ a') b' c',
        append_assoc xs a' (b' ++ c'),
        append_assoc xs (a' ++ (b' ++ c')) ys,
      )
      refl

-- Back at the end of `xs`, the stream has forgotten what was behind it.
pub rewind_end :
    (xs ys : List ℕ) (cur n : ℕ)
    → n ≡ length xs
    → (rewind n (record { cur_pos = cur; storage = xs ++ ys })).1 ≡ ended xs
unfolding rewind resize
rewind_end xs ys cur n e =
    let shorter : length xs - length (xs ++ ys) ≡ 0 = omega (arith, length-append xs ys) in
    rw
      (
        e,
        le→ltb_false (length (xs ++ ys)) (length xs) (omega (arith, length-append xs ys)),
        shorter,
        take-append_eq (length xs) xs ys refl,
        append-nil,
      )
      refl
