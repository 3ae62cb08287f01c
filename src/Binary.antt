-- ===== src/Binary.antt =====
-- utils/binary_storage.h: serialization of plain values and of short byte buffers. A byte buffer
-- is a list of numbers below 256; a plain value of n bytes is its bit pattern, lowest byte first.
pub mod Bytes
pub mod Laws
use iqoption_test_task.Prelude.{
  ℕ, ◌+◌, ◌-◌, ◌≤◌, Bool, true, false, List, [], ltb, leb, if◌then◌else◌, length, take, drop,
  resize, overwrite,
}
use iqoption_test_task.Failures.{Result, ok, throws, storage_underflow, ◌>>=◌, ◌>>◌, assert}
use Bytes.{to_bytes, from_bytes}

pub record BinaryIStream : Type 0 where
  pub cur_pos : ℕ
  pub storage : List ℕ

-- operator>> and init methods: a value and the stream behind it, or an exception.
abbrev pub Reader {ℓ} : Type ℓ → Type ℓ
Reader A = BinaryIStream → Result (A × BinaryIStream)

-- `m_curPos` never passes the size, so the subtraction of sizes does not wrap.
unfoldable pub left : BinaryIStream → ℕ
left s = length s.storage - s.cur_pos

abbrev pub skip : ℕ → BinaryIStream → BinaryIStream
skip n s = record s { cur_pos = s.cur_pos + n }

-- The n bytes at the position.
unfoldable pub slice : ℕ → BinaryIStream → List ℕ
slice n s = take n (drop s.cur_pos s.storage)

-- operator>> of a plain value of n bytes.
unfoldable pub read_pod : ℕ → Reader ℕ
read_pod n s =
    if ltb (left s) n then throws storage_underflow else ok (from_bytes (slice n s), skip n s)

unfoldable pub read_block : ℕ → Reader (List ℕ)
read_block size s =
    if ltb (left s) size then throws storage_underflow else ok (slice size s, skip size s)

-- operator>> of a byte buffer: its length in one byte, then its bytes.
unfoldable pub read_buffer : Reader (List ℕ)
read_buffer s = do (size, s') ← read_pod 1 s; read_block size s'

pub record BinaryOStream : Type 0 where
  pub cur_pos : ℕ
  pub storage : List ℕ

abbrev pub empty_stream : BinaryOStream
empty_stream = record { cur_pos = 0; storage = [] }

unfoldable pub set_pos : ℕ → BinaryOStream → Bool × BinaryOStream
set_pos new_pos o =
    if ltb (length o.storage) new_pos then (false, o) else (true, record o { cur_pos = new_pos })

unfoldable pub rewind : ℕ → BinaryOStream → Bool × BinaryOStream
rewind pos o =
    if ltb (length o.storage) pos
    then (false, o)
    else (true, record { cur_pos = pos; storage = resize 0 pos o.storage })

-- The storage, with room for n bytes at the position.
unfoldable pub grown : ℕ → BinaryOStream → List ℕ
grown n o =
    if ltb (length o.storage - o.cur_pos) n then resize 0 (o.cur_pos + n) o.storage else o.storage

-- operator<< of a plain value of n bytes.
unfoldable pub write_pod : ℕ → ℕ → BinaryOStream → BinaryOStream
write_pod n v o = record {
  cur_pos = o.cur_pos + n;
  storage = overwrite (grown n o) o.cur_pos (to_bytes n v);
}

unfoldable pub write_block : List ℕ → BinaryOStream → BinaryOStream
write_block bytes o = record {
  cur_pos = o.cur_pos + length bytes;
  storage = overwrite o.storage o.cur_pos bytes;
}

-- operator<< of a byte buffer; room for the length byte and the bytes is made first.
unfoldable pub write_buffer : List ℕ → BinaryOStream → Result BinaryOStream
write_buffer bytes o = do
  assert (leb (length bytes) 255)
  ok (
      write_block bytes
        (write_pod 1 (length bytes) (record o { storage = grown (length bytes + 1) o })))
