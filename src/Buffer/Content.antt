-- ===== src/Buffer/Content.antt =====
-- The buffer of core/ubuffer.h as a queue of bytes: what each operation does to the unread bytes.
use uco.Prelude.{
  ℕ, ◌+◌, ◌-◌, ◌≤◌, ◌<◌, ◌≡◌, refl, ap, sym, ◌∙◌, [], inl, inr, leb, ◌==◌, length, take, drop,
  arith, Bool-cases, subst, tests, ==_iff, length-take, length-drop, length-replicate,
}
use uco.Prelude.Bytes.{Bytes}
use uco.Prelude.Word.{sub64_of_le}
use uco.Prelude.Segments.{
  overlay, length-overlay, take-overlay, drop-drop, take-drop, drop_of_length-le,
}
use uco.Buffer.{
  Buffer, max_capacity, init, readable_bytes, writable_bytes, reset, retrieve, compact,
}

-- The positions are in order and within the vector, which is no larger than the buffer may grow.
pub record IsValid (b : Buffer) : Type 0 where
  pub ordered : b.read_position ≤ b.write_position
  pub within : b.write_position ≤ length b.store
  pub small : length b.store ≤ max_capacity

-- The bytes that were written and not yet read.
abbrev pub content : Buffer → Bytes
content b = drop b.read_position (take b.write_position b.store)

pub length-content :
    (b : Buffer) → IsValid b → length (content b) ≡ b.write_position - b.read_position
length-content b v = omega (
  arith,
  length-drop b.read_position (take b.write_position b.store),
  length-take b.write_position b.store,
)

pub readable_bytes-content : (b : Buffer) → IsValid b → readable_bytes b ≡ length (content b)
unfolding readable_bytes
readable_bytes-content b v =
    omega (arith, length-content b v, sub64_of_le b.write_position b.read_position)

pub writable_bytes_lem :
    (b : Buffer) → IsValid b → writable_bytes b ≡ length b.store - b.write_position
unfolding writable_bytes
writable_bytes_lem b v = sub64_of_le _ _ v.within (omega arith)

pub init-IsValid : (sz : ℕ) → sz ≤ max_capacity → IsValid (init sz) × (content (init sz) ≡ [])
unfolding init
init-IsValid sz h = (
  record {
    ordered = omega arith;
    within = omega arith;
    small = omega (arith, length-replicate {A = ℕ} sz 0);
  },
  refl,
)

pub reset-IsValid : (b : Buffer) → IsValid b → IsValid (reset b)
unfolding reset
reset-IsValid b v = record {
  ordered = omega arith;
  within = omega arith;
  small = omega (arith, length-replicate {A = ℕ} (length b.store) 0);
}

content-eq-nil : (b : Buffer) → IsValid b → readable_bytes b ≡ 0 → content b ≡ []
content-eq-nil b v e = drop_of_length-le b.read_position (take b.write_position b.store) (
    omega
      (arith, readable_bytes-content b v, length-content b v, length-take b.write_position b.store))

-- Retrieving `n` bytes drops them from the front of the unread bytes, or drops all if there are
-- fewer, and reports how many were dropped; the buffer stays valid.
pub content-retrieve :
    (n : ℕ) (b : Buffer)
    → IsValid b
    → IsValid (retrieve n b).0
      × (content (retrieve n b).0 ≡ drop n (content b))
      × ((retrieve n b).1 + length (content (retrieve n b).0) ≡ length (content b))
unfolding retrieve reset
content-retrieve n b v = elim (Bool-cases (leb (readable_bytes b) n)) [
  | inl all ↦
      let e : length (content b) ≤ n = omega (tests, all, readable_bytes-content b v) in
      rw all (
        reset-IsValid b v,
        sym (drop_of_length-le n (content b) e),
        omega (arith, readable_bytes-content b v),
      )
  | inr rest ↦
      let e : n < length (content b) = ground (arith, readable_bytes-content b v) in
      let moved : drop (b.read_position + n) (take b.write_position b.store) ≡ drop n (content b) =
        sym (drop-drop n b.read_position (take b.write_position b.store)) in
      rw rest (
        record { ordered = omega (arith, length-content b v); within = v.within; small = v.small },
        moved,
        omega (arith, ap length moved, length-drop n (content b)),
      )
]

window :
    (b : Buffer) → IsValid b → take (readable_bytes b) (drop b.read_position b.store) ≡ content b
window b v =
    take-drop (readable_bytes b) b.read_position b.store
    ∙ ap (λ n. drop b.read_position (take n b.store))
        (omega (arith, readable_bytes-content b v, length-content b v))

front_lem :
    (b : Buffer) (n : ℕ)
    → length (content b) ≡ n
    → n ≤ length b.store
    → take n (overlay 0 (content b) b.store) ≡ content b
front_lem b n len room =
    subst (λ m. take m (overlay 0 (content b) b.store) ≡ content b) (omega (arith, len))
      (take-overlay 0 (content b) b.store (omega (arith, len)))

-- Compaction moves the unread bytes to the front, in a vector of the same size.
pub content-compact :
    (b : Buffer)
    → IsValid b
    → IsValid (compact b)
      × (content (compact b) ≡ content b)
      × ((compact b).read_position ≡ 0)
      × (length (compact b).store ≡ length b.store)
unfolding compact reset
content-compact b v = elim (Bool-cases (readable_bytes b == 0)) [
  | inl empty ↦ rw empty (
    reset-IsValid b v,
    sym (content-eq-nil b v ((==_iff _ _).0 empty)),
    refl,
    length-replicate {A = ℕ} (length b.store) 0,
  )
  | inr rest ↦
      let n = readable_bytes b in
      let front : take n (drop b.read_position b.store) ≡ content b = window b v in
      let len : length (content b) ≡ n = sym (readable_bytes-content b v) in
      let room : n ≤ length b.store = omega (arith, len, length-content b v) in
      rw (rest, front)
        (
          record {
            ordered = omega arith;
            within = omega (arith, length-overlay 0 (content b) b.store);
            small = omega (arith, length-overlay 0 (content b) b.store);
          },
          front_lem b n len room,
          refl,
          length-overlay 0 (content b) b.store,
        )
]
