-- ===== src/Binary/Laws.antt =====
-- Streams of utils/binary_storage.h at the ends: writing behind the last byte appends, and
-- reading takes what stands at the position.
use iqoption_test_task.Prelude.{
  ℕ, ◌+◌, ◌-◌, ◌^◌, ◌≤◌, ◌<◌, ◌≡◌, refl, sym, ap, subst, ◌∙◌, List, ◌∷◌, ◌++◌, [], false, arith,
  length, replicate, ltb, Bool-cases, inl, inr, length-append, length-replicate, resize, overwrite,
  overwrite_middle, take-append_eq, drop-append_eq, append-nil, append_assoc, take_all, drop_all,
  lt→ltb, le→ltb_false, le→leb,
}
use native.Mathlib.Numerals.{add-one}
use iqoption_test_task.Failures.{ok, throws, storage_underflow}
use iqoption_test_task.Binary.Bytes.{to_bytes, length-to_bytes, from_bytes-to_bytes}
use iqoption_test_task.Binary.{
  BinaryIStream, BinaryOStream, left, skip, slice, read_pod, read_block, read_buffer, grown,
  write_pod, write_block, write_buffer,
}

-- A stream that writes behind its last byte.
abbrev pub ended : List ℕ → BinaryOStream
ended xs = record { cur_pos = length xs; storage = xs }

-- A stream that has read `pre` and stands before `rest`.
abbrev pub facing : List ℕ → List ℕ → BinaryIStream
facing pre rest = record { cur_pos = length pre; storage = pre ++ rest }

overwrite_end :
    (xs pad ys : List ℕ) → length pad ≡ length ys → overwrite (xs ++ pad) (length xs) ys ≡ xs ++ ys
unfolding overwrite
overwrite_end xs pad ys e = rw (
  take-append_eq (length xs) xs pad refl,
  drop_all (length xs + length ys) (xs ++ pad) (omega (arith, length-append xs pad)),
  append-nil,
)

grown_room :
    (n : ℕ) (xs more : List ℕ)
    → n ≤ length more
    → grown n (record { cur_pos = length xs; storage = xs ++ more }) ≡ xs ++ more
unfolding grown
grown_room n xs more h =
    rw (le→ltb_false (length (xs ++ more) - length xs) n (omega (arith, length-append xs more)))

grown_end : (n : ℕ) (xs : List ℕ) → grown n (ended xs) ≡ xs ++ replicate n 0
unfolding grown resize
grown_end n xs = elim (Bool-cases (ltb (length xs - length xs) n)) [
  | inl more ↦ rw more (
      rw (
        take_all (length xs + n) xs (omega arith),
        let e : length xs + n - length xs ≡ n = omega arith in e,
      ))
  | inr none_ ↦ rw none_ (let e : n ≡ 0 = ground arith in rw (e, append-nil))
]

pub write_pod_end : (n v : ℕ) (xs : List ℕ) → write_pod n v (ended xs) ≡ ended (xs ++ to_bytes n v)
unfolding write_pod
write_pod_end n v xs = rw (
  grown_end n xs,
  overwrite_end xs (replicate n 0) (to_bytes n v)
      (length-replicate n 0 ∙ sym (length-to_bytes n v)),
  length-append xs (to_bytes n v),
  length-to_bytes n v,
)

-- With room behind the position a value takes the place of what stood there.
pub write_pod_room :
    (n v : ℕ) (xs old ys : List ℕ)
    → length old ≡ n
    → write_pod n v (record { cur_pos = length xs; storage = xs ++ (old ++ ys) })
      ≡ record { cur_pos = length xs + n; storage = xs ++ (to_bytes n v ++ ys) }
unfolding write_pod
write_pod_room n v xs old ys e = rw (
  grown_room n xs (old ++ ys) (omega (arith, length-append old ys)),
  overwrite_middle xs old ys (to_bytes n v) (e ∙ sym (length-to_bytes n v)),
)

left-facing : (pre rest : List ℕ) → left (facing pre rest) ≡ length rest
unfolding left
left-facing pre rest = omega (arith, length-append pre rest)

skip-facing :
    (n : ℕ) (pre xs rest : List ℕ)
    → n ≡ length xs
    → skip n (facing pre (xs ++ rest)) ≡ facing (pre ++ xs) rest
skip-facing n pre xs rest e = rw (e, length-append pre xs, append_assoc pre xs rest)

slice-facing :
    (n : ℕ) (pre xs rest : List ℕ) → n ≡ length xs → slice n (facing pre (xs ++ rest)) ≡ xs
unfolding slice
slice-facing n pre xs rest e =
    rw (drop-append_eq (length pre) pre (xs ++ rest) refl) (take-append_eq n xs rest e)

long_enough :
    (n : ℕ) (pre xs rest : List ℕ) → n ≡ length xs → ltb (left (facing pre (xs ++ rest))) n ≡ false
long_enough n pre xs rest e =
    le→ltb_false (left (facing pre (xs ++ rest))) n
      (omega (arith, left-facing pre (xs ++ rest), length-append xs rest))

pub read_pod-facing :
    (n v : ℕ) (pre rest : List ℕ)
    → v < 256 ^ n
    → read_pod n (facing pre (to_bytes n v ++ rest)) ≡ ok (v, facing (pre ++ to_bytes n v) rest)
unfolding read_pod
read_pod-facing n v pre rest h =
    let e : n ≡ length (to_bytes n v) = sym (length-to_bytes n v) in
    rw (
      long_enough n pre (to_bytes n v) rest e,
      slice-facing n pre (to_bytes n v) rest e,
      skip-facing n pre (to_bytes n v) rest e,
      from_bytes-to_bytes n v h,
    )

read_block-facing :
    (pre xs rest : List ℕ)
    → read_block (length xs) (facing pre (xs ++ rest)) ≡ ok (xs, facing (pre ++ xs) rest)
unfolding read_block
read_block-facing pre xs rest = rw (
  long_enough (length xs) pre xs rest refl,
  slice-facing (length xs) pre xs rest refl,
  skip-facing (length xs) pre xs rest refl,
)

-- The bytes of a byte buffer on the wire.
abbrev pub buffer_bytes : List ℕ → List ℕ
buffer_bytes bytes = to_bytes 1 (length bytes) ++ bytes

pub read_buffer-facing :
    (pre bytes rest : List ℕ)
    → length bytes ≤ 255
    → read_buffer (facing pre (buffer_bytes bytes ++ rest))
      ≡ ok (bytes, facing (pre ++ buffer_bytes bytes) rest)
unfolding read_buffer
read_buffer-facing pre bytes rest h = rw (
  append_assoc (to_bytes 1 (length bytes)) bytes rest,
  read_pod-facing 1 (length bytes) pre (bytes ++ rest) (omega arith),
  read_block-facing (pre ++ to_bytes 1 (length bytes)) bytes rest,
  append_assoc pre (to_bytes 1 (length bytes)) bytes,
)

pub write_buffer_end :
    (bytes xs : List ℕ)
    → length bytes ≤ 255
    → write_buffer bytes (ended xs) ≡ ok (ended (xs ++ buffer_bytes bytes))
unfolding write_buffer write_block
write_buffer_end bytes xs h =
    let size = to_bytes 1 (length bytes) in
    let pad : List ℕ = replicate (length bytes) 0 in
    let size_end : length (xs ++ size) ≡ length xs + 1 =
      length-append xs size ∙ ap (λ (k : ℕ). length xs + k) (length-to_bytes 1 (length bytes)) in
    rw (
      grown_end (length bytes + 1) xs,
      le→leb (length bytes) 255 h,
      add-one (length bytes),
      write_pod_room 1 (length bytes) xs (0 ∷ []) pad refl,
      ← append_assoc xs size pad,
      ← size_end,
      overwrite_end (xs ++ size) pad bytes (length-replicate (length bytes) 0),
      ← length-append (xs ++ size) bytes,
      append_assoc xs size bytes,
    )

-- Too few bytes left: an exception.
pub read_pod_short :
    (n : ℕ) (pre rest : List ℕ)
    → length rest < n
    → read_pod n (facing pre rest) ≡ throws storage_underflow
unfolding read_pod
read_pod_short n pre rest h = rw (left-facing pre rest, lt→ltb (length rest) n h)

-- A byte buffer of at most 255 bytes, written at the end of a stream, is read back from there, up to
-- the end of what was written.
pub read_buffer-write_buffer :
    (bytes xs : List ℕ)
    → length bytes ≤ 255
    → (o : BinaryOStream) × (write_buffer bytes (ended xs) ≡ ok o)
      × (read_buffer (record { cur_pos = length xs; storage = o.storage })
          ≡ ok (bytes, record { cur_pos = o.cur_pos; storage = o.storage }))
read_buffer-write_buffer bytes xs h =
    let rest = read_buffer-facing xs bytes [] h in
    (
      ended (xs ++ buffer_bytes bytes),
      write_buffer_end bytes xs h,
      subst (λ b. read_buffer (facing xs b) ≡ ok (bytes, ended_in (xs ++ buffer_bytes bytes)))
          (append-nil (buffer_bytes bytes))
          (rest
            ∙ ap
                (λ st.
                  ok (bytes, record { cur_pos = length (xs ++ buffer_bytes bytes); storage = st }))
                (append-nil (xs ++ buffer_bytes bytes))),
    )
  where
    ended_in : List ℕ → BinaryIStream
    ended_in ys = record { cur_pos = length ys; storage = ys }
