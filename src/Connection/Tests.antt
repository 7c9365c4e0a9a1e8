-- ===== src/Connection/Tests.antt =====
-- The functions of http/httpconnection.cpp on small inputs, and their theorems at them.
use uco.Prelude.{none, some, ◌+◌, ◌^◌, ◌≤◌, ◌<◌, ◌≡◌, ◌≢◌, ◌↔◌, refl, true, false, [], ◌∷◌, arith}
use uco.Prelude.Bytes.{Bytes, All, bytes_eq, cut_at, cut_step}
use uco.Prelude.Dict.{lookup, insert}
use uco.Prelude.Decimal.{is_digit, digits}
use uco.Prelude.Word.{int_of_size, size_of_int, int_lt, sub64}
use uco.Text.Search.{starts_with}
use uco.Text.Chars.{char_to_hex}
use uco.Text.Url.{
  url_encode, url_decode, is_unreserved, is_alnum, upper_hex_digit, hex_pair, plain_char, percent,
  decode_component, emit, emit_pair,
}
use uco.Request.Numbers.{leading, digit_run, is_space}
use uco.Router.Segments.{push_segment, split_from, split_path}
use uco.Connection.SafePath.{is_dots, safe_from, is_safe_path, is_safe_path_lem}
use uco.Connection.Range.{
  in_range, unsigned_value, stoull, check_range, last_bytes, with_end, with_start, range_parts,
  parse_range, parse_range-InFile,
}
use uco.Connection.Write.{any_left, advance_entries, advance_iov, advance_ts}
use uco.Connection.Query.{
  last_piece, pieces_from, set_param, set_params, split_query, split_path_and_query,
  split_path_and_query-query_text,
}
use uco.Connection.Form.{
  emplaced, add_field, add_decoded, add_item, and_then, add_items, some_fields, parse_urlencoded,
  has_key, keys_fresh, parse_urlencoded-query_text,
}

program : Unit {0}
unfolding bytes_eq cut_at cut_step insert is_digit digits int_of_size size_of_int int_lt sub64
    starts_with char_to_hex url_encode url_decode is_unreserved is_alnum upper_hex_digit hex_pair
    plain_char percent leading digit_run is_space push_segment split_from split_path is_dots
    safe_from is_safe_path in_range unsigned_value stoull check_range last_bytes with_end with_start
    range_parts parse_range any_left advance_entries advance_iov advance_ts last_piece pieces_from
    set_param set_params split_query split_path_and_query emplaced add_field add_decoded add_item
    and_then add_items some_fields parse_urlencoded has_key keys_fresh lookup decode_component emit
    emit_pair
program = tt

climbs : is_safe_path (b'/' ∷ b'a' ∷ b'/' ∷ b'.' ∷ b'.' ∷ b'/' ∷ b'b' ∷ []) ≡ false
unfolding program
climbs = refl

dotted :
    is_safe_path (b'/' ∷ b'/' ∷ b'a' ∷ b'/' ∷ b'.' ∷ b'.' ∷ b'.' ∷ b'/' ∷ b'b' ∷ b'.' ∷ []) ≡ true
unfolding program
dotted = refl

suffix_range :
    parse_range (b'b' ∷ b'y' ∷ b't' ∷ b'e' ∷ b's' ∷ b'=' ∷ b'-' ∷ b'3' ∷ []) 10 ≡ (7, 9, true)
unfolding program
suffix_range = refl

open_range :
    parse_range (b'b' ∷ b'y' ∷ b't' ∷ b'e' ∷ b's' ∷ b'=' ∷ b'4' ∷ b'-' ∷ []) 10 ≡ (4, 9, true)
unfolding program
open_range = refl

cut_range :
    parse_range (b'b' ∷ b'y' ∷ b't' ∷ b'e' ∷ b's' ∷ b'=' ∷ b'4' ∷ b'-' ∷ b'9' ∷ b'9' ∷ []) 10
    ≡ (4, 9, true)
unfolding program
cut_range = refl

-- The size of a file of more than 4 GiB does not fit an `int`: the whole file becomes ten bytes.
large_file :
    parse_range (b'b' ∷ b'y' ∷ b't' ∷ b'e' ∷ b's' ∷ b'=' ∷ b'0' ∷ b'-' ∷ []) (2 ^ 32 + 10)
    ≡ (0, 9, true)
unfolding program
large_file = refl

partial_write :
    advance_iov ((b'a' ∷ b'b' ∷ []) ∷ (b'c' ∷ b'd' ∷ b'e' ∷ []) ∷ []) 3
    ≡ ((b'd' ∷ b'e' ∷ []) ∷ [], true)
unfolding program
partial_write = refl

time_left : advance_ts (record { sec = 2; nsec = 5 }) 6 ≡ record { sec = 1; nsec = 999999999 }
unfolding program
time_left = refl

empty_pieces :
    split_path_and_query (b'/' ∷ b'p' ∷ b'?' ∷ b'a' ∷ b'=' ∷ b'1' ∷ b'&' ∷ b'&' ∷ b'b' ∷ b'&' ∷ [])
    ≡ ((b'/' ∷ b'p' ∷ []), ((b'a' ∷ []), (b'1' ∷ [])) ∷ ([], []) ∷ ((b'b' ∷ []), []) ∷ [])
unfolding program
empty_pieces = refl

parse_range-InFile_example : (7 ≤ 9) × (9 < 10)
unfolding program
parse_range-InFile_example =
    parse_range-InFile (b'b' ∷ b'y' ∷ b't' ∷ b'e' ∷ b's' ∷ b'=' ∷ b'-' ∷ b'3' ∷ []) 10 (omega arith)

split_path_and_query-query_text_example :
    split_path_and_query (
      b'/' ∷ b'p' ∷ b'?' ∷ b'a' ∷ b'%' ∷ b'2' ∷ b'6' ∷ b'=' ∷ b'x' ∷ b'&' ∷ b'b' ∷ b'=' ∷ b'%'
      ∷ b'3' ∷ b'D' ∷ [])
    ≡ ((b'/' ∷ b'p' ∷ []), ((b'a' ∷ b'&' ∷ []), (b'x' ∷ [])) ∷ ((b'b' ∷ []), (b'=' ∷ [])) ∷ [])
unfolding program
split_path_and_query-query_text_example =
    split_path_and_query-query_text (b'/' ∷ b'p' ∷ [])
      (((b'a' ∷ b'&' ∷ []), (b'x' ∷ [])) ∷ ((b'b' ∷ []), (b'=' ∷ [])) ∷ []) (ground arith)
      (ground arith)

is_safe_path_lem_example :
    (is_safe_path (b'/' ∷ b'a' ∷ []) ≡ true)
    ↔ All (λ (t : Bytes). (t ≢ b'.' ∷ []) × (t ≢ b'.' ∷ b'.' ∷ [])) ((b'a' ∷ []) ∷ [])
unfolding program
is_safe_path_lem_example = is_safe_path_lem (b'/' ∷ b'a' ∷ [])

duplicate : parse_urlencoded (b'a' ∷ b'=' ∷ b'1' ∷ b'&' ∷ b'a' ∷ b'=' ∷ b'2' ∷ []) ≡ none
unfolding program
duplicate = refl

parse_urlencoded-query_text_example :
    parse_urlencoded (b'a' ∷ b'=' ∷ b'x' ∷ b'%' ∷ b'2' ∷ b'0' ∷ b'&' ∷ b'b' ∷ b'=' ∷ [])
    ≡ some (((b'a' ∷ []), (b'x' ∷ b' ' ∷ [])) ∷ ((b'b' ∷ []), []) ∷ [])
unfolding program
parse_urlencoded-query_text_example =
    parse_urlencoded-query_text (((b'a' ∷ []), (b'x' ∷ b' ' ∷ [])) ∷ ((b'b' ∷ []), []) ∷ [])
      (ground arith)
