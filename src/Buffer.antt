-- ===== src/Buffer.antt =====
-- core/ubuffer.h: the growing I/O buffer. A vector of bytes with a read and a write position; a
-- pointer into the vector is its offset from `m_VecBuffer.data()`.
pub mod Content
pub mod Growth
mod Tests
use uco.Prelude.{
  ℕ, ◌+◌, ◌-◌, ◌/◌, ◌%◌, ◌^◌, Bool, true, false, List, [], ◌∷◌, ltb, leb, ◌==◌, ◌&&◌, if◌then◌else◌,
  length, take, drop, replicate,
}
use Prim.Native.Nat.{max}
use uco.Prelude.Bytes.{Bytes}
use uco.Prelude.Word.{sub64}
use uco.Prelude.Segments.{overlay, resize}

-- `INT32_MAX`, the largest capacity that the buffer grows to.
abbrev pub max_capacity : ℕ
max_capacity = 2 ^ 31 - 1

pub record Buffer : Type 0 where
  pub store : Bytes
  pub read_position : ℕ
  pub write_position : ℕ

-- The constructor: `sz` zero bytes.
unfoldable pub init : ℕ → Buffer
init sz = record { store = replicate sz 0; read_position = 0; write_position = 0 }

unfoldable pub readable_bytes : Buffer → ℕ
readable_bytes b = sub64 b.write_position b.read_position

unfoldable pub writable_bytes : Buffer → ℕ
writable_bytes b = sub64 (length b.store) b.write_position

-- `bzero` over the vector, both positions back to 0.
unfoldable pub reset : Buffer → Buffer
reset b = record { store = replicate (length b.store) 0; read_position = 0; write_position = 0 }

-- The new buffer, and the number of bytes retrieved.
unfoldable pub retrieve : ℕ → Buffer → Buffer × ℕ
retrieve nbytes b =
    if leb (readable_bytes b) nbytes
    then (reset b, readable_bytes b)
    else (record b { read_position = b.read_position + nbytes }, nbytes)

-- Only a position strictly between the read and the write position moves the former.
unfoldable pub retrieve_until : ℕ → Buffer → Buffer
retrieve_until pos b =
    if ltb b.read_position pos && ltb pos b.write_position
    then (retrieve (sub64 pos b.read_position) b).0
    else b

-- After bytes were written at the write position from outside.
unfoldable pub advance : ℕ → Buffer → Buffer
advance nbytes b =
    if leb (writable_bytes b) nbytes
    then record b { write_position = length b.store }
    else record b { write_position = b.write_position + nbytes }

-- `memmove` of the readable bytes to the front.
unfoldable pub compact : Buffer → Buffer
compact b = if readable_bytes b == 0 then reset b else record {
  store = overlay 0 (take (readable_bytes b) (drop b.read_position b.store)) b.store;
  read_position = 0;
  write_position = readable_bytes b;
}

-- The new capacity of `_M_ExtendBuffer`: half as much again, or what is asked for, clamped.
unfoldable pub new_capacity : ℕ → ℕ → ℕ
new_capacity old_capacity len =
    let capacity =
      max ((old_capacity + old_capacity / 2) % 2 ^ 64) ((old_capacity + len) % 2 ^ 64) in
    if ltb max_capacity capacity then max_capacity else capacity

unfoldable pub extend_buffer : ℕ → Buffer → Buffer
extend_buffer len b =
    if leb len b.read_position
    then compact b
    else record b { store = resize (new_capacity (length b.store) len) 0 b.store }

unfoldable pub ensure_writable_bytes : ℕ → Buffer → Buffer
ensure_writable_bytes len b =
    if ltb (writable_bytes b) len then extend_buffer (sub64 len (writable_bytes b)) b else b

-- `std::copy` at the write position of a buffer that has been made large enough.
unfoldable pub write_bytes : Bytes → Buffer → Buffer
write_bytes bytes b = record b {
  store = overlay b.write_position bytes b.store;
  write_position = b.write_position + length bytes;
}

unfoldable pub append : Bytes → Buffer → Buffer
append [] b = b
append (x ∷ xs) b = write_bytes (x ∷ xs) (ensure_writable_bytes (length (x ∷ xs)) b)

unfoldable pub extend_size : ℕ → Buffer → Buffer
extend_size size b = extend_buffer size (compact b)

unfoldable pub double_size : Buffer → Buffer
double_size b = extend_size (length b.store) b
