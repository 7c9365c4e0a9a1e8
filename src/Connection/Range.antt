-- ===== src/Connection/Range.antt =====
-- `parse_range` of http/httpconnection.cpp: the `Range` header. An `int` is its 32-bit pattern.
use uco.Prelude.{
  ℕ, ◌-◌, ◌%◌, ◌^◌, ◌≤◌, ◌<◌, ◌≡◌, refl, Bool, true, false, [], ◌∷◌, Option, none, some, leb, ltb,
  ◌==◌, ◌||◌, if◌then◌else◌, drop, arith, Bool-cases, inl, inr,
}
use uco.Prelude.Bytes.{Bytes, cut_at}
use uco.Prelude.Word.{int_of_size, size_of_int, int_lt, sub64}
use uco.Text.Search.{starts_with}
use uco.Request.Numbers.{leading, is_space}

-- `strtoull` behind the blanks: a `-` negates, and a value out of range raises.
unfoldable pub in_range : Bool → Option ℕ → Option ℕ
in_range negative none = none
in_range negative (some v) =
    if ltb (2 ^ 64 - 1) v then none else if negative then some ((2 ^ 64 - v) % 2 ^ 64) else some v

unfoldable pub unsigned_value : Bytes → Option ℕ
unsigned_value [] = none
unsigned_value (c ∷ s) =
    if c == b'-'
    then in_range true (leading s)
    else if c == b'+'
    then in_range false (leading s)
    else in_range false (leading (c ∷ s))

-- `std::stoull`; `none` is an exception.
unfoldable pub stoull : Bytes → Option ℕ
stoull [] = none
stoull (c ∷ s) = let rest = stoull s in if is_space c then rest else unsigned_value (c ∷ s)

abbrev pub bytes_prefix : Bytes
bytes_prefix = (b'b' ∷ b'y' ∷ b't' ∷ b'e' ∷ b's' ∷ b'=' ∷ [])

-- `from` and `to` as they stand, and the result.
abbrev pub RangeResult : Type 0
RangeResult = ℕ × ℕ × Bool

abbrev pub no_range : RangeResult
no_range = (0, 0, false)

-- From the test `from > to` on.
unfoldable pub check_range : ℕ → ℕ → ℕ → RangeResult
check_range from to filesz =
    if int_lt to from || leb filesz (size_of_int from)
    then no_range
    else if leb filesz (size_of_int to)
    then (from, int_of_size (sub64 filesz 1), true)
    else (from, to, true)

-- `from = filesz - lastN`, with `lastN` cut to the size.
unfoldable pub last_bytes : Option ℕ → ℕ → RangeResult
last_bytes none filesz = no_range
last_bytes (some n) filesz =
    let last_n = if ltb filesz n then filesz else n in
    check_range (int_of_size (sub64 filesz last_n)) (int_of_size (sub64 filesz 1)) filesz

unfoldable pub with_end : ℕ → Option ℕ → ℕ → RangeResult
with_end from none filesz = no_range
with_end from (some to) filesz = check_range from (int_of_size to) filesz

unfoldable pub with_start : Option ℕ → Bytes → ℕ → RangeResult
with_start none end filesz = no_range
with_start (some from) [] filesz =
    check_range (int_of_size from) (int_of_size (sub64 filesz 1)) filesz
with_start (some from) (c ∷ s) filesz = with_end (int_of_size from) (stoull (c ∷ s)) filesz

unfoldable pub range_parts : Option (Bytes × Bytes) → ℕ → RangeResult
range_parts none filesz = no_range
range_parts (some ([], end)) filesz = last_bytes (stoull end) filesz
range_parts (some (c ∷ s, end)) filesz = with_start (stoull (c ∷ s)) end filesz

unfoldable pub parse_range : Bytes → ℕ → RangeResult
parse_range value filesz =
    if starts_with value bytes_prefix
    then range_parts (cut_at b'-' (drop 6 value)) filesz
    else no_range

-- A range that was accepted lies in the file; one that was not is 0 to 0.
abbrev pub InFile : ℕ → RangeResult → Type 0
InFile filesz (from, to, true) = (from ≤ to) × (to < filesz)
InFile filesz (from, to, false) = (from ≡ 0) × (to ≡ 0)

check_range-InFile :
    (from to filesz : ℕ)
    → from < 2 ^ 32
    → to < 2 ^ 32
    → filesz < 2 ^ 31
    → InFile filesz (check_range from to filesz)
unfolding check_range int_lt size_of_int int_of_size sub64
check_range-InFile from to filesz f t h =
    elim (Bool-cases (int_lt to from || leb filesz (size_of_int from))) [
      | inl refused ↦ rw refused (refl, refl)
      | inr accepted ↦ elim (Bool-cases (leb filesz (size_of_int to))) [
        | inl cut ↦ rw (accepted, cut) (ground arith)
        | inr whole ↦ rw (accepted, whole) (ground arith)
      ]
    ]

int_of_size-lt : (n : ℕ) → int_of_size n < 2 ^ 32
unfolding int_of_size
int_of_size-lt n = omega arith

last_bytes-InFile :
    (o : Option ℕ) (filesz : ℕ) → filesz < 2 ^ 31 → InFile filesz (last_bytes o filesz)
unfolding last_bytes
last_bytes-InFile none filesz h = (refl, refl)
last_bytes-InFile (some n) filesz h =
    check_range-InFile _ _ filesz (int_of_size-lt _) (int_of_size-lt _) h

with_start-InFile :
    (o : Option ℕ) (end : Bytes) (filesz : ℕ)
    → filesz < 2 ^ 31
    → InFile filesz (with_start o end filesz)
unfolding with_start with_end
with_start-InFile none end filesz h = (refl, refl)
with_start-InFile (some from) [] filesz h =
    check_range-InFile _ _ filesz (int_of_size-lt from) (int_of_size-lt _) h
with_start-InFile (some from) (c ∷ s) filesz h = go (stoull (c ∷ s))
  where
    go : (o : Option ℕ) → InFile filesz (with_end (int_of_size from) o filesz)
    go none = (refl, refl)
    go (some to) = check_range-InFile _ _ filesz (int_of_size-lt from) (int_of_size-lt to) h

-- Whatever the header says, for a file whose size fits an `int`: an accepted range lies within the
-- file, its first byte not behind its last, and a refused one is set to 0 and 0.
pub parse_range-InFile :
    (value : Bytes) (filesz : ℕ) → filesz < 2 ^ 31 → InFile filesz (parse_range value filesz)
unfolding parse_range range_parts with_end
parse_range-InFile value filesz h = elim (Bool-cases (starts_with value bytes_prefix)) [
  | inl named ↦ rw named (parts (cut_at b'-' (drop 6 value)))
  | inr other ↦ rw other (refl, refl)
]
  where
    parts : (o : Option (Bytes × Bytes)) → InFile filesz (range_parts o filesz)
    parts none = (refl, refl)
    parts (some ([], end)) = last_bytes-InFile (stoull end) filesz h
    parts (some (c ∷ s, end)) = with_start-InFile (stoull (c ∷ s)) end filesz h
