-- ===== src/Text/Tests.antt =====
-- The text utilities of core/ustring.cpp run on small inputs, and their theorems at them.
use uco.Prelude.{◌≡◌, refl, true, false, [], ◌∷◌, none, some, arith}
use uco.Prelude.Bytes.{Bytes, has_byte, bytes_eq, cut_at, cut_step}
use uco.Prelude.Int.{negsuc}
use uco.Prelude.Decimal.{is_digit, digits, decimal_loop, to_string}
use uco.Text.Chars.{
  char_to_hex, hex_to_char, lower, upper, to_lower, to_upper, equals_from, equals_ignore_case,
}
use uco.Text.Hex.{hex_digit, hex_encode, decode_pair, hex_decode}
use uco.Text.Url.{
  is_alnum, is_unreserved, upper_hex_digit, url_encode, hex_pair, plain_char, percent, url_decode,
  emit, emit_pair, decode_component, url_decode-url_encode,
}
use uco.Text.Trim.{trim_left, keep_before, trim_right, trim, blanks}
use uco.Text.Search.{
  starts_with, ends_with, step_cut, cut_sub, contains, join_rest, join, replace_loop, replace_all,
}
use uco.Text.Split.{is_empty, part_of, push_part, split_loop, split}
use uco.Text.Number.{
  magnitude, negate, from_chars_u64, from_chars_i64, str_to_uint64, str_to_int64, narrow_u32,
  str_to_uint32, narrow_i32, str_to_int32, print,
}

program : Unit {0}
unfolding has_byte bytes_eq cut_at cut_step is_digit digits decimal_loop to_string char_to_hex
    hex_to_char lower upper to_lower to_upper equals_from equals_ignore_case hex_digit hex_encode
    decode_pair hex_decode is_alnum is_unreserved upper_hex_digit url_encode hex_pair plain_char
    percent url_decode emit emit_pair decode_component trim_left keep_before trim_right trim
    starts_with ends_with step_cut cut_sub contains join_rest join replace_loop replace_all is_empty
    part_of push_part split_loop split magnitude negate from_chars_u64 from_chars_i64 str_to_uint64
    str_to_int64 narrow_u32 str_to_uint32 narrow_i32 str_to_int32 print
program = tt

-- "a&b", a text with a reserved byte.
abbrev mixed : Bytes
mixed = b'a' ∷ b'&' ∷ b'b' ∷ []

encoded : url_encode mixed ≡ b'a' ∷ b'%' ∷ b'2' ∷ b'6' ∷ b'b' ∷ []
unfolding program
encoded = refl

-- An escape that is cut short stands for itself.
literal : url_decode false (b'%' ∷ b'4' ∷ []) ≡ b'%' ∷ b'4' ∷ []
unfolding program
literal = refl

rejected : decode_component (b'%' ∷ b'4' ∷ []) ≡ none
unfolding program
rejected = refl

trimmed : trim (32 ∷ b'x' ∷ 9 ∷ []) blanks ≡ b'x' ∷ []
unfolding program
trimmed = refl

pieces :
    split (b'a' ∷ 32 ∷ b',' ∷ b',' ∷ b'b' ∷ []) b',' (record { trims = true; skips_empty = true })
    ≡ some ((b'a' ∷ []) ∷ (b'b' ∷ []) ∷ [])
unfolding program
pieces = refl

replaced :
    replace_all (b'a' ∷ b'b' ∷ b'a' ∷ []) (b'a' ∷ []) (b'c' ∷ b'c' ∷ [])
    ≡ some (b'c' ∷ b'c' ∷ b'b' ∷ b'c' ∷ b'c' ∷ [])
unfolding program
replaced = refl

suffix : ends_with mixed (b'&' ∷ b'b' ∷ []) ≡ true
unfolding program
suffix = refl

inside : contains mixed (b'&' ∷ []) ≡ true
unfolding program
inside = refl

signs : str_to_int64 (b'+' ∷ b'-' ∷ b'5' ∷ []) ≡ some (negsuc 4)
unfolding program
signs = refl

url_decode-url_encode_example : url_decode true (url_encode mixed) ≡ mixed
url_decode-url_encode_example = url_decode-url_encode true mixed (omega arith)
