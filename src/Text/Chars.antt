-- ===== src/Text/Chars.antt =====
-- Single characters and letter case of core/ustring.cpp.
use uco.Prelude.{
  ℕ, ◌+◌, ◌-◌, ◌<◌, ◌≡◌, refl, Bool, true, false, [], ◌∷◌, Option, none, some, leb, ◌==◌, ◌&&◌,
  if◌then◌else◌, length, map, arith,
}
use uco.Prelude.Bytes.{Bytes, bytes_eq}

-- `CharToHex`; `none` is the -1 of a character that is no hexadecimal digit.
unfoldable pub char_to_hex : ℕ → Option ℕ
char_to_hex c =
    if leb b'0' c && leb c b'9'
    then some (c - b'0')
    else if leb b'a' c && leb c b'f'
    then some (c - b'a' + 10)
    else if leb b'A' c && leb c b'F'
    then some (c - b'A' + 10)
    else none

-- `HexToChar`, of a value that is not negative; `none` is -1.
unfoldable pub hex_to_char : ℕ → Option ℕ
hex_to_char v =
    if leb v 9 then some (b'0' + v) else if leb 10 v && leb v 15 then some (b'a' + v - 10) else none

-- A digit read back is the digit printed, and every value below 16 has one.
pub char_to_hex-hex_to_char :
    (v c : ℕ) → hex_to_char v ≡ some c → (v < 16) × (char_to_hex c ≡ some v)
unfolding hex_to_char char_to_hex
char_to_hex-hex_to_char v c h = ground arith

pub char_to_hex-lt : (c v : ℕ) → char_to_hex c ≡ some v → v < 16
unfolding char_to_hex
char_to_hex-lt c v h = ground arith

-- `std::tolower` and `std::toupper` on one byte.
unfoldable pub lower : ℕ → ℕ
lower c = if leb b'A' c && leb c b'Z' then c + 32 else c

unfoldable pub upper : ℕ → ℕ
upper c = if leb b'a' c && leb c b'z' then c - 32 else c

unfoldable pub to_lower : Bytes → Bytes
to_lower = map lower

unfoldable pub to_upper : Bytes → Bytes
to_upper = map upper

-- The loop of `EqualsIgnoreCase` over texts of the same size.
unfoldable pub equals_from : Bytes → Bytes → Bool
equals_from [] ys = true
equals_from (x ∷ xs) [] = true
equals_from (x ∷ xs) (y ∷ ys) = if lower x == lower y then equals_from xs ys else false

unfoldable pub equals_ignore_case : Bytes → Bytes → Bool
equals_ignore_case a b = if length a == length b then equals_from a b else false

equals_from_lem :
    (a b : Bytes)
    → (if length a == length b then equals_from a b else false) ≡ bytes_eq (to_lower a) (to_lower b)
unfolding equals_from to_lower bytes_eq
equals_from_lem [] [] = refl
equals_from_lem [] (y ∷ ys) = ground arith
equals_from_lem (x ∷ xs) [] = ground arith
equals_from_lem (x ∷ xs) (y ∷ ys) = ground (arith, equals_from_lem xs ys)

-- Two texts are equal but for case exactly when their lower-case forms are the same.
pub equals_ignore_case_lem :
    (a b : Bytes) → equals_ignore_case a b ≡ bytes_eq (to_lower a) (to_lower b)
unfolding equals_ignore_case
equals_ignore_case_lem a b = equals_from_lem a b
