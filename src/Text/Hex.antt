-- ===== src/Text/Hex.antt =====
-- `HexEncode` and `HexDecode` of core/ustring.cpp.
use uco.Prelude.{
  ℕ, ◌+◌, ◌-◌, ◌*◌, ◌/◌, ◌%◌, ◌<◌, ◌≡◌, refl, ap, ap₂, subst, ◌∙◌, [], ◌∷◌, Option, none, some, ltb,
  if◌then◌else◌, length, arith,
}
use mathlib.Core.Option.{some-injective}
use uco.Prelude.Bytes.{Bytes, IsBytes}
use uco.Text.Chars.{char_to_hex, lower, to_lower, char_to_hex-lt}

-- `kHex[v]`, the lower-case digit of a value below 16.
unfoldable pub hex_digit : ℕ → ℕ
hex_digit v = if ltb v 10 then b'0' + v else b'a' + v - 10

unfoldable pub hex_encode : Bytes → Bytes
hex_encode [] = []
hex_encode (c ∷ s) = hex_digit (c / 16) ∷ hex_digit (c % 16) ∷ hex_encode s

-- The byte of two hexadecimal digits in front of what was decoded behind them.
unfoldable pub decode_pair : Option ℕ → Option ℕ → Option Bytes → Option Bytes
decode_pair (some hi) (some lo) (some rest) = some ((hi * 16 + lo) ∷ rest)
decode_pair _ _ _ = none

-- `HexDecode`; `none` is `false`, which leaves the output alone.
unfoldable pub hex_decode : Bytes → Option Bytes
hex_decode [] = some []
hex_decode (c ∷ []) = none
hex_decode (c ∷ d ∷ s) = decode_pair (char_to_hex c) (char_to_hex d) (hex_decode s)

pub char_to_hex-hex_digit : (v : ℕ) → v < 16 → char_to_hex (hex_digit v) ≡ some v
unfolding char_to_hex hex_digit
char_to_hex-hex_digit v h = ground arith

-- Every byte string comes back from its hexadecimal form, which is twice as long.
pub hex_decode-hex_encode :
    (s : Bytes)
    → IsBytes s
    → (hex_decode (hex_encode s) ≡ some s) × (length (hex_encode s) ≡ 2 * length s)
unfolding hex_encode hex_decode decode_pair
hex_decode-hex_encode [] h = (refl, omega arith)
hex_decode-hex_encode (c ∷ s) h =
    let (back, size) = hex_decode-hex_encode s h.1 in
    (
      rw
          (
            char_to_hex-hex_digit (c / 16) (omega arith),
            char_to_hex-hex_digit (c % 16) (omega arith),
            back,
          )
          (ground arith),
      omega arith,
    )

hex_digit-char_to_hex : (c v : ℕ) → char_to_hex c ≡ some v → hex_digit v ≡ lower c
unfolding char_to_hex hex_digit lower
hex_digit-char_to_hex c v h = ground arith

decode_pair-some :
    (a b : Option ℕ) (r : Option Bytes) (s : Bytes)
    → decode_pair a b r ≡ some s
    → (hi : ℕ) × (lo : ℕ) × (t : Bytes) × (a ≡ some hi)
      × (b ≡ some lo)
      × (r ≡ some t)
      × (s ≡ (hi * 16 + lo) ∷ t)
unfolding decode_pair
decode_pair-some (some hi) (some lo) (some t) s h = (hi, lo, t, refl, refl, refl, ground arith)
decode_pair-some none b r s h = absurd (ground arith)
decode_pair-some (some hi) none r s h = absurd (ground arith)
decode_pair-some (some hi) (some lo) none s h = absurd (ground arith)

-- What is decoded is a byte string whose hexadecimal form is the text read, in lower case: a text
-- is refused unless it is a sequence of pairs of digits.
pub hex_encode-hex_decode :
    (h s : Bytes) → hex_decode h ≡ some s → IsBytes s × (hex_encode s ≡ to_lower h)
unfolding hex_encode hex_decode to_lower
hex_encode-hex_decode [] s e =
    subst (λ t. IsBytes t × (hex_encode t ≡ [])) (some-injective [] s e) (tt, refl)
hex_encode-hex_decode (c ∷ []) s e = absurd (ground arith)
hex_encode-hex_decode (c ∷ d ∷ h) s e =
    let (hi, lo, t, ehi, elo, et, es) =
      decode_pair-some (char_to_hex c) (char_to_hex d) (hex_decode h) s e in
    let (bytes, same) = hex_encode-hex_decode h t et in
    let high = char_to_hex-lt c hi ehi in
    let low = char_to_hex-lt d lo elo in
    let first : (hi * 16 + lo) / 16 ≡ hi = omega arith in
    let second : (hi * 16 + lo) % 16 ≡ lo = omega arith in
    rw es (
      (omega arith, bytes),
      ap₂ ◌∷◌ (ap hex_digit first ∙ hex_digit-char_to_hex c hi ehi)
          (ap₂ ◌∷◌ (ap hex_digit second ∙ hex_digit-char_to_hex d lo elo) same),
    )
