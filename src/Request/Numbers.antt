-- ===== src/Request/Numbers.antt =====
-- The numbers that http/httprequest.cpp reads with the C++ and C libraries: `std::from_chars` on
-- `int` and `std::atoi`. Values are 32-bit patterns.
use uco.Prelude.{
  ℕ, ◌-◌, ◌%◌, ◌^◌, Bool, [], ◌∷◌, Option, none, some, leb, ◌==◌, ◌&&◌, ◌||◌, if◌then◌else◌,
}
use Prim.Native.Nat.{min}
use uco.Prelude.Bytes.{Bytes}
use uco.Prelude.Decimal.{is_digit, digits}

-- The digits at the front of a text.
unfoldable pub digit_run : Bytes → Bytes
digit_run [] = []
digit_run (c ∷ s) = let rest = digit_run s in if is_digit c then c ∷ rest else []

-- The value of the digits at the front; `none` if there are none.
unfoldable pub leading : Bytes → Option ℕ
leading [] = none
leading (c ∷ s) = if is_digit c then digits 0 (digit_run (c ∷ s)) else none

unfoldable pub minus32 : ℕ → ℕ
minus32 v = (2 ^ 32 - v % 2 ^ 32) % 2 ^ 32

-- A value in range is stored; otherwise the variable keeps what it had.
unfoldable pub store_in : ℕ → (ℕ → ℕ) → ℕ → Option ℕ → ℕ
store_in limit signed old none = old
store_in limit signed old (some v) = if leb v limit then signed v else old

-- `std::from_chars(first, last, value)`.
unfoldable pub from_chars_int : Bytes → ℕ → ℕ
from_chars_int [] old = old
from_chars_int (c ∷ s) old =
    if c == b'-'
    then store_in (2 ^ 31) minus32 old (leading s)
    else store_in (2 ^ 31 - 1) (λ v. v) old (leading (c ∷ s))

unfoldable pub is_space : ℕ → Bool
is_space c = c == b' ' || leb 9 c && leb c 13

-- `strtol` clamps to `long`, and `atoi` keeps the low 32 bits.
unfoldable pub clamped : ℕ → (ℕ → ℕ) → Option ℕ → ℕ
clamped limit signed none = 0
clamped limit signed (some v) = signed (min v limit) % 2 ^ 32

unfoldable pub signed_value : Bytes → ℕ
signed_value [] = 0
signed_value (c ∷ s) =
    if c == b'-'
    then clamped (2 ^ 63) minus32 (leading s)
    else if c == b'+'
    then clamped (2 ^ 63 - 1) (λ v. v) (leading s)
    else clamped (2 ^ 63 - 1) (λ v. v) (leading (c ∷ s))

unfoldable pub atoi : Bytes → ℕ
atoi [] = 0
atoi (c ∷ s) = let rest = atoi s in if is_space c then rest else signed_value (c ∷ s)
