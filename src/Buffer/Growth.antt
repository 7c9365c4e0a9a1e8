-- ===== src/Buffer/Growth.antt =====
-- The operations of core/ubuffer.h that add bytes or capacity.
use uco.Prelude.{
  ℕ, ◌+◌, ◌-◌, ◌*◌, ◌≤◌, ◌<◌, ◌≡◌, refl, ap, sym, subst, ◌∙◌, [], ◌∷◌, ◌++◌, inl, inr, ltb, leb,
  ◌&&◌, length, take, drop, arith, Bool-cases, length-take, tests, length-drop, if◌then◌else◌,
  ltb→lt,
}
use mathlib.Core.List.{append-nil}
use Prim.Native.Nat.{min}
use uco.Prelude.Bytes.{Bytes}
use uco.Prelude.Word.{sub64, sub64_of_le}
use uco.Prelude.Segments.{
  resize, length-overlay, take-overlay, drop-append, take-resize, length-resize, take-add,
  take_of_length-le,
}
use uco.Buffer.{
  Buffer, max_capacity, readable_bytes, writable_bytes, retrieve, retrieve_until, advance, compact,
  new_capacity, extend_buffer, ensure_writable_bytes, write_bytes, append, extend_size, double_size,
}
use uco.Buffer.Content.{IsValid, content, length-content, writable_bytes_lem, content-compact}

-- The unread bytes when the write position moves on by `n`.
moved_window :
    (n : ℕ) (b : Buffer)
    → IsValid b
    → drop b.read_position (take (b.write_position + n) b.store)
      ≡ content b ++ take n (drop b.write_position b.store)
moved_window n b v =
    ap (drop b.read_position) (take-add n b.write_position b.store)
    ∙ drop-append b.read_position (take b.write_position b.store) _
        (omega (arith, length-take b.write_position b.store))

-- Advancing by `n` makes the next `n` bytes of the vector readable, or all that it has left, and
-- keeps the buffer valid.
pub content-advance :
    (n : ℕ) (b : Buffer)
    → IsValid b
    → IsValid (advance n b)
      × (content (advance n b) ≡ content b ++ take n (drop b.write_position b.store))
unfolding advance
content-advance n b v = elim (Bool-cases (leb (writable_bytes b) n)) [
  | inl all ↦
      let rest = drop b.write_position b.store in
      let spare = length b.store - b.write_position in
      let len : length (drop b.write_position b.store) ≤ n =
        omega (tests, all, writable_bytes_lem b v, length-drop b.write_position b.store) in
      rw all (
        record { ordered = omega arith; within = omega arith; small = v.small },
        subst (λ m. drop b.read_position (take m b.store) ≡ content b ++ take n rest) (omega arith)
            (moved_window spare b v
              ∙ ap (◌++◌ (content b)) (
                  take_of_length-le spare rest (omega (arith, length-drop b.write_position b.store))
                  ∙ sym (take_of_length-le n rest len))),
      )
  | inr part ↦
      let room : n < length b.store - b.write_position = ground (arith, writable_bytes_lem b v) in
      rw part (
        record { ordered = omega arith; within = omega arith; small = v.small },
        moved_window n b v,
      )
]

new_capacity_bounds :
    (old len : ℕ)
    → old ≤ max_capacity
    → len ≤ max_capacity
    → (new_capacity old len ≤ max_capacity)
      × (old ≤ new_capacity old len)
      × (min (old + len) max_capacity ≤ new_capacity old len)
unfolding new_capacity
new_capacity_bounds old len h k = ground arith

-- Extension keeps the unread bytes; either it moved them to the front, or the vector grew to the
-- capacity asked for or to the limit.
pub content-extend_buffer :
    (len : ℕ) (b : Buffer)
    → IsValid b
    → len ≤ max_capacity
    → IsValid (extend_buffer len b) × (content (extend_buffer len b) ≡ content b)
unfolding extend_buffer
content-extend_buffer len b v h = elim (Bool-cases (leb len b.read_position)) [
  | inl front ↦ let (w, same, _, _) = content-compact b v in rw front (w, same)
  | inr grow ↦
      let bounds = new_capacity_bounds (length b.store) len v.small h in
      let size = length-resize (new_capacity (length b.store) len) 0 b.store in
      rw grow (
        record { ordered = v.ordered; within = omega arith; small = omega arith },
        ap (drop b.read_position) (take-resize b.write_position _ 0 b.store (omega arith) v.within),
      )
]

-- The room behind the write position grows by what was asked for, while that is within the limit.
room-extend_buffer :
    (len : ℕ) (b : Buffer)
    → IsValid b
    → length b.store + len ≤ max_capacity
    → (extend_buffer len b).write_position + length b.store + len
      ≤ length (extend_buffer len b).store + b.write_position
unfolding extend_buffer
room-extend_buffer len b v h = elim (Bool-cases (leb len b.read_position)) [
  | inl front ↦
      let (w, same, at_front, size) = content-compact b v in
      rw front (
        omega (
          tests,
          front,
          at_front,
          size,
          ap length same,
          length-content b v,
          length-content (compact b) w,
        ))
  | inr grow ↦
      let bounds = new_capacity_bounds (length b.store) len v.small (omega arith) in
      let size = length-resize (new_capacity (length b.store) len) 0 b.store in
      rw grow (omega arith)
]

-- Asked for something, a buffer with nothing before its read position grows.
extend_buffer_grow :
    (len : ℕ) (b : Buffer)
    → b.read_position < len
    → extend_buffer len b
      ≡ record b { store = resize (new_capacity (length b.store) len) 0 b.store }
unfolding extend_buffer
extend_buffer_grow len b h = ground arith

pub ensure_room :
    (len : ℕ) (b : Buffer)
    → IsValid b
    → b.write_position + len ≤ max_capacity
    → IsValid (ensure_writable_bytes len b)
      × (content (ensure_writable_bytes len b) ≡ content b)
      × ((ensure_writable_bytes len b).write_position + len
          ≤ length (ensure_writable_bytes len b).store)
unfolding ensure_writable_bytes
ensure_room len b v h = elim (Bool-cases (ltb (writable_bytes b) len)) [
  | inl short ↦
      let lt : writable_bytes b < len = ltb→lt _ _ short in
      let e : sub64 len (writable_bytes b) ≡ len - writable_bytes b =
        sub64_of_le len (writable_bytes b) (omega arith) (omega arith) in
      let d = len - writable_bytes b in
      let (w, same) = content-extend_buffer d b v (omega arith) in
      rw (short, e) (w, same, omega (arith, room-extend_buffer d b v, writable_bytes_lem b v))
  | inr roomy ↦
      let le : len ≤ writable_bytes b = ground arith in
      rw roomy (v, refl, omega (arith, writable_bytes_lem b v))
]

content-write_bytes :
    (d : Bytes) (b : Buffer)
    → IsValid b
    → b.write_position + length d ≤ length b.store
    → IsValid (write_bytes d b) × (content (write_bytes d b) ≡ content b ++ d)
unfolding write_bytes
content-write_bytes d b v h =
    let size = length-overlay b.write_position d b.store in
    (
      record { ordered = omega arith; within = omega arith; small = omega arith },
      ap (drop b.read_position) (take-overlay b.write_position d b.store h)
          ∙ drop-append b.read_position (take b.write_position b.store) d
              (omega (arith, length-take b.write_position b.store)),
    )

-- Appending adds the bytes behind the unread ones, whether the vector has room, is compacted or
-- grows, as long as the write position stays within the limit; the buffer stays valid.
pub content-append :
    (d : Bytes) (b : Buffer)
    → IsValid b
    → b.write_position + length d ≤ max_capacity
    → IsValid (append d b) × (content (append d b) ≡ content b ++ d)
unfolding append
content-append [] b v h = (v, sym (append-nil (content b)))
content-append (x ∷ xs) b v h =
    let (w, same, room) = ensure_room (length (x ∷ xs)) b v h in
    let (u, written) =
      content-write_bytes (x ∷ xs) (ensure_writable_bytes (length (x ∷ xs)) b) w room in
    (u, written ∙ ap (λ c. c ++ (x ∷ xs)) same)

-- Doubling keeps the unread bytes, moves them to the front and at least doubles the vector, up to
-- the limit, if it is not empty.
pub content-double_size :
    (b : Buffer)
    → IsValid b
    → 0 < length b.store
    → IsValid (double_size b)
      × (content (double_size b) ≡ content b)
      × ((double_size b).read_position ≡ 0)
      × (min (2 * length b.store) max_capacity ≤ length (double_size b).store)
unfolding double_size extend_size
content-double_size b v h =
    let (w, same, at_front, size) = content-compact b v in
    let (u, kept) = content-extend_buffer (length b.store) (compact b) w v.small in
    let bounds = new_capacity_bounds (length (compact b).store) (length b.store) w.small v.small in
    let grown = extend_buffer_grow (length b.store) (compact b) (omega arith) in
    (
      u,
      kept ∙ same,
      ap (λ (c : Buffer). c.read_position) grown ∙ at_front,
      omega (
        arith,
        size,
        ap (λ (c : Buffer). length c.store) grown,
        length-resize (new_capacity (length (compact b).store) (length b.store)) 0
            (compact b).store,
      ),
    )

-- A position behind the read position and short of the write position becomes the read position;
-- any other, the write position included, leaves the buffer as it is.
pub retrieve_until_lem :
    (pos : ℕ) (b : Buffer)
    → IsValid b
    → retrieve_until pos b ≡ (
        if ltb b.read_position pos && ltb pos b.write_position
        then record b { read_position = pos }
        else b)
unfolding retrieve_until retrieve readable_bytes
retrieve_until_lem pos b v =
    ground (arith, sub64_of_le pos b.read_position, sub64_of_le b.write_position b.read_position)
