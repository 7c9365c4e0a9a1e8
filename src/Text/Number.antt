-- ===== src/Text/Number.antt =====
-- `StrToInt32`, `StrToUint32`, `StrToInt64` and `StrToUint64` of core/ustring.cpp. `std::from_chars`
-- in base 10 that must reach the end of the text: digits alone, with a `-` for signed types only.
use uco.Prelude.{
  ℕ, zero, suc, ◌-◌, ◌^◌, ◌≤◌, ◌<◌, ◌≡◌, ◌↔◌, refl, subst, Bool, true, false, [], ◌∷◌, Option, none,
  some, ◌==◌, ltb, leb, if◌then◌else◌, arith, inl, inr, Option-cases,
}
use mathlib.Core.Option
use uco.Prelude.Bytes.{Bytes}
use uco.Prelude.Int.{ℤ, pos, negsuc}
use uco.Prelude.Decimal.{digits, is_digit, to_string, to_string_lem, IsDigits}

-- The value of a digit text that is not empty, if it is no greater than `limit`.
unfoldable pub magnitude : ℕ → Bytes → Option ℕ
magnitude limit [] = none
magnitude limit (c ∷ s) = elim (digits 0 (c ∷ s)) [
  | none ↦ none
  | some v ↦ if leb v limit then some v else none
]

unfoldable pub negate : ℕ → ℤ
negate zero = pos 0
negate (suc n) = negsuc n

unfoldable pub from_chars_u64 : Bytes → Option ℕ
from_chars_u64 s = magnitude (2 ^ 64 - 1) s

unfoldable pub from_chars_i64 : Bytes → Option ℤ
from_chars_i64 [] = none
from_chars_i64 (c ∷ s) =
    if c == b'-'
    then Option.map negate (magnitude (2 ^ 63) s)
    else Option.map pos (magnitude (2 ^ 63 - 1) (c ∷ s))

-- One leading `+` is dropped; nothing may be left of the text but then the call fails.
unfoldable pub str_to_uint64 : Bytes → Option ℕ
str_to_uint64 [] = none
str_to_uint64 (c ∷ s) =
    if c == b'-' then none else if c == b'+' then from_chars_u64 s else from_chars_u64 (c ∷ s)

unfoldable pub str_to_int64 : Bytes → Option ℤ
str_to_int64 [] = none
str_to_int64 (c ∷ s) = if c == b'+' then from_chars_i64 s else from_chars_i64 (c ∷ s)

unfoldable pub narrow_u32 : Option ℕ → Option ℕ
narrow_u32 none = none
narrow_u32 (some v) = if ltb (2 ^ 32 - 1) v then none else some v

unfoldable pub str_to_uint32 : Bytes → Option ℕ
str_to_uint32 s = narrow_u32 (str_to_uint64 s)

unfoldable pub narrow_i32 : Option ℤ → Option ℤ
narrow_i32 none = none
narrow_i32 (some (pos n)) = if ltb (2 ^ 31 - 1) n then none else some (pos n)
narrow_i32 (some (negsuc n)) = if ltb (2 ^ 31 - 1) n then none else some (negsuc n)

unfoldable pub str_to_int32 : Bytes → Option ℤ
str_to_int32 s = narrow_i32 (str_to_int64 s)

-- The canonical text of an integer.
unfoldable pub print : ℤ → Bytes
print (pos n) = to_string n
print (negsuc n) = b'-' ∷ to_string (suc n)

magnitude_of :
    (limit v c : ℕ) (s : Bytes)
    → digits 0 (c ∷ s) ≡ some v
    → magnitude limit (c ∷ s) ≡ (if leb v limit then some v else none)
unfolding magnitude
magnitude_of limit v c s h = rw (h, magnitude) refl

magnitude-to_string :
    (limit n : ℕ) → magnitude limit (to_string n) ≡ (if leb n limit then some n else none)
magnitude-to_string limit n =
    let (value, ds, c, s, e) = to_string_lem n in rw e (magnitude_of limit n c s (rw e at value))

magnitude-le : (limit v : ℕ) (s : Bytes) → magnitude limit s ≡ some v → v ≤ limit
unfolding magnitude
magnitude-le limit v [] h = absurd (ground arith)
magnitude-le limit v (c ∷ s) h = elim (Option-cases (digits 0 (c ∷ s))) [
  | inl e ↦ absurd (ground arith)
  | inr (w, e) ↦ ground arith
]

digit_plain : (c : ℕ) → is_digit c ≡ true → ((c == b'-') ≡ false) × ((c == b'+') ≡ false)
unfolding is_digit
digit_plain c h = ground arith

to_string_head :
    (n : ℕ)
    → (c : ℕ) × (s : Bytes) × (to_string n ≡ c ∷ s) × ((c == b'-') ≡ false) × ((c == b'+') ≡ false)
to_string_head n =
    let (value, ds, c, s, e) = to_string_lem n in
    let (minus, plus) = digit_plain c (subst IsDigits e ds).0 in (c, s, e, minus, plus)

-- Every number below 2^64 is read back from its decimal text, with or without a `+` before it;
-- a number that does not fit and any text with a `-` before it are refused.
pub str_to_uint64_lem :
    (n : ℕ)
    → (str_to_uint64 (to_string n) ≡ (if ltb n (2 ^ 64) then some n else none))
      × (str_to_uint64 (b'+' ∷ to_string n) ≡ (if ltb n (2 ^ 64) then some n else none))
      × ((s : Bytes) → str_to_uint64 (b'-' ∷ s) ≡ none)
unfolding str_to_uint64 from_chars_u64
str_to_uint64_lem n =
    let (c, s, e, minus, plus) = to_string_head n in
    let m = magnitude-to_string (2 ^ 64 - 1) n in
    (rw e (rw (minus, plus, ← e) (ground (arith, m))), ground (arith, m), λ t. refl)

from_chars_i64-print :
    (n : ℕ) → from_chars_i64 (to_string n) ≡ (if ltb n (2 ^ 63) then some (pos n) else none)
unfolding from_chars_i64
from_chars_i64-print n =
    let (c, s, e, minus, plus) = to_string_head n in
    rw e (rw (minus, ← e) (ground (arith, magnitude-to_string (2 ^ 63 - 1) n)))

from_chars_i64-minus :
    (n : ℕ)
    → from_chars_i64 (b'-' ∷ to_string (suc n)) ≡ (if ltb n (2 ^ 63) then some (negsuc n) else none)
unfolding from_chars_i64 negate
from_chars_i64-minus n = ground (arith, magnitude-to_string (2 ^ 63) (suc n))

-- Whether an integer is in the range of `int64_t`.
abbrev pub fits_i64 : ℤ → Bool
fits_i64 (pos n) = ltb n (2 ^ 63)
fits_i64 (negsuc n) = ltb n (2 ^ 63)

-- Every integer in the range of `int64_t` is read back from its canonical text, and from that text
-- with a `+` before it, even where the text begins with a `-`; one out of range is refused.
pub str_to_int64_lem :
    (z : ℤ)
    → (str_to_int64 (print z) ≡ (if fits_i64 z then some z else none))
      × (str_to_int64 (b'+' ∷ print z) ≡ (if fits_i64 z then some z else none))
unfolding str_to_int64 print
str_to_int64_lem (pos n) =
    let (c, s, e, minus, plus) = to_string_head n in
    let m = from_chars_i64-print n in (rw e (rw (plus, ← e) m), m)
str_to_int64_lem (negsuc n) = (from_chars_i64-minus n, from_chars_i64-minus n)

abbrev pub fits_i32 : ℤ → Bool
fits_i32 (pos n) = ltb n (2 ^ 31)
fits_i32 (negsuc n) = ltb n (2 ^ 31)

narrow_i32_iff :
    (o : Option ℤ) (z : ℤ) → (narrow_i32 o ≡ some z) ↔ ((o ≡ some z) × (fits_i32 z ≡ true))
unfolding narrow_i32
narrow_i32_iff none z = (λ h. absurd (ground arith), λ h. absurd (ground arith))
narrow_i32_iff (some (pos n)) z = (λ h. ground arith, λ h. ground arith)
narrow_i32_iff (some (negsuc n)) z = (λ h. ground arith, λ h. ground arith)

narrow_u32_iff : (o : Option ℕ) (n : ℕ) → (narrow_u32 o ≡ some n) ↔ ((o ≡ some n) × (n < 2 ^ 32))
unfolding narrow_u32
narrow_u32_iff none n = (λ h. absurd (ground arith), λ h. absurd (ground arith))
narrow_u32_iff (some m) n = (λ h. ground arith, λ h. ground arith)

-- The 32-bit readers accept exactly the texts of the 64-bit readers whose value fits.
pub str_to_int32_lem :
    (s : Bytes)
    → ((z : ℤ) → (str_to_int32 s ≡ some z) ↔ ((str_to_int64 s ≡ some z) × (fits_i32 z ≡ true)))
      × ((n : ℕ) → (str_to_uint32 s ≡ some n) ↔ ((str_to_uint64 s ≡ some n) × (n < 2 ^ 32)))
unfolding str_to_int32 str_to_uint32
str_to_int32_lem s = (narrow_i32_iff (str_to_int64 s), narrow_u32_iff (str_to_uint64 s))
