-- ===== src/Response/Tests.antt =====
-- Responses of http/httpresponce.cpp, and the theorems at them.
use uco.Prelude.{ℕ, ◌≤◌, ◌≡◌, refl, true, false, [], ◌∷◌, ◌++◌, none, some, arith}
use uco.Prelude.Bytes.{bytes_eq}
use uco.Prelude.Ascii.{ascii}
use uco.Prelude.Decimal.{to_string, decimal_loop}
use uco.Text.Chars.{equals_ignore_case, equals_from, lower, to_lower}
use uco.Response.{
  Response, find_status, status_text, find_type, path_suffix_to_file_type, overwrite, set_field,
  set_header, has_field, with_cache_control, is_partial, file_length, content_length,
  gen_http_header, header_text, add_header_text, connection_text, fields_text,
}
use uco.Response.Lines.{read_lines, read_from, is_clean}
use uco.Response.Framing.{lines_of, headers_clean, read_lines-gen_http_header}
use uco.Response.Names.{values_of, values_of-set_field}
use uco.Response.Send.{bytes_sent, send_loop, send_file, send_file-content_length}

program : Unit {0}
unfolding equals_ignore_case equals_from lower to_lower find_status status_text find_type
    path_suffix_to_file_type overwrite set_field set_header has_field with_cache_control is_partial
    file_length content_length header_text gen_http_header add_header_text connection_text
    fields_text read_lines read_from is_clean headers_clean values_of send_loop send_file bytes_eq
    to_string decimal_loop
program = tt

abbrev hello : Response
hello = record {
  ret_code = 200;
  partial_from = 0;
  partial_to = 0;
  keep_alive_count = 5;
  keep_alive_time = 60;
  keep_alive = false;
  should_gen_error_page = false;
  resource_is_template = false;
  cache = none;
  more_headers = (ascii "X-Name", ascii "v") ∷ [];
  template_args = [];
  content_type = ascii "text/plain";
  resource_path = [];
  header = [];
  content = ascii "hi";
}

read_lines-gen_http_header_example :
    read_lines ((gen_http_header hello).header ++ ascii "hi")
    ≡ some (
      lines_of
          ((ascii "X-Name", ascii "v") ∷ (ascii "Cache-Control", ascii "no-cache") ∷ [])
          2
          hello,
      ascii "hi",
    )
unfolding program
read_lines-gen_http_header_example = read_lines-gen_http_header hello (ascii "hi") refl refl refl

css_type : path_suffix_to_file_type (ascii ".css") ≡ ascii "text/css"
unfolding program
css_type = refl

values_of-set_field_example :
    values_of (ascii "x-name") (set_field (ascii "X-NAME") (ascii "w") hello.more_headers)
    ≡ ascii "w" ∷ []
unfolding program
values_of-set_field_example =
    values_of-set_field (ascii "x-name") (ascii "X-NAME") (ascii "w") hello.more_headers
      (λ e. ground arith)

-- The first three bytes of a file of ten.
abbrev ranged : Response
ranged = record hello { cache = some 10; partial_to = 2 }

-- The second call asks for more than the range has left.
asks_too_much :
    send_file (bytes_sent 2 ∷ bytes_sent 4 ∷ []) ranged 10 ≡ (some (6, true), (0, 3) ∷ (2, 5) ∷ [])
unfolding program
asks_too_much = refl

send_file-content_length_example :
    (n : ℕ) × ((send_file (bytes_sent 2 ∷ bytes_sent 1 ∷ bytes_sent 1 ∷ []) ranged 10).0
      ≡ some (n, true))
    × (3 ≤ n)
    × (n ≤ 10)
unfolding program
send_file-content_length_example =
    send_file-content_length (2 ∷ 1 ∷ 1 ∷ []) ranged 10 refl (λ e. (ground arith, ground arith))
      (
        λ h. (ground arith, ground arith),
        (λ h. (ground arith, ground arith), (λ h. absurd (ground arith), tt)),
      )
      (ground arith)

-- The single byte that `bytes=0-0` asks for is taken for the whole file.
one_byte_range : content_length (record ranged { partial_to = 0 }) ≡ 10
unfolding program
one_byte_range = refl
