-- ===== src/Request/Tests.antt =====
-- The parser of http/httprequest.cpp on small requests, and its theorems at them.
use uco.Prelude.{
  ℕ, ◌-◌, ◌^◌, ◌≤◌, ◌≡◌, refl, Option, true, [], ◌∷◌, ◌++◌, none, some, length, arith,
}
use uco.Prelude.Bytes.{Bytes, bytes_eq, has_byte, cut_at, cut_step}
use uco.Prelude.Dict.{insert}
use uco.Prelude.Decimal.{is_digit, digits}
use uco.Prelude.Word.{sub64, int_of_size, size_of_int, int_lt}
use uco.Prelude.Segments.{overlay, resize}
use uco.Text.Trim.{trim_left, trim_right, keep_before}
use uco.Text.Search.{starts_with}
use uco.Buffer.{
  Buffer, init, readable_bytes, writable_bytes, reset, retrieve, retrieve_until, append,
  write_bytes, ensure_writable_bytes, extend_buffer, new_capacity, compact,
}
use uco.Buffer.Content.{IsValid, content}
use uco.Request.Numbers.{
  digit_run, leading, minus32, store_in, from_chars_int, is_space, clamped, signed_value, atoi,
}
use uco.Request.Scan.{scan, scan_from, at_cr, is_cr, byte_before}
use uco.Prelude.Ascii.{ascii}
use uco.Request.State.{
  parsing_header, Request, line_ok, parsing_start, parsing_finish, HttpState, request_ok,
  request_bad, request_incomplete, reset_request, c_string, current_line, readable, zeroed, taken,
  after_scan, start_offset, parse_line,
}
use uco.Request.Parse.{
  strip_end, set_connection, set_length, set_type, set_header, split_header, parse_header,
  parse_body, set_version, set_protocol, split_path_end, split_method_end, parse_request_line,
  header_or_end, dispatch, after_dispatch, after_line, is_body, parse_loop, body_state,
  finish_parse, begin_parse, parse, read_body,
}
use uco.Request.Lines.{parse_line_lem}
use uco.Request.Receive.{parse_line-append}
use uco.Request.Progress.{parse_total}
use uco.Request.Fields.{set_headers, moved}
use uco.Request.Whole.{parse_request}

program : Unit {0}
unfolding bytes_eq has_byte cut_at cut_step insert is_digit digits sub64 int_of_size size_of_int
    int_lt overlay resize trim_left trim_right keep_before starts_with init readable_bytes
    writable_bytes reset retrieve retrieve_until append write_bytes ensure_writable_bytes
    extend_buffer new_capacity compact digit_run leading minus32 store_in from_chars_int is_space
    clamped signed_value atoi scan scan_from at_cr is_cr byte_before reset_request c_string
    current_line readable zeroed taken after_scan start_offset parse_line strip_end set_connection
    set_length set_type set_header split_header parse_header parse_body set_version set_protocol
    split_path_end split_method_end parse_request_line header_or_end dispatch after_dispatch
    after_line is_body parse_loop body_state finish_parse begin_parse parse read_body set_headers
program = tt

-- A request after `Reset`, whose buffer holds these bytes.
abbrev holding : Bytes → Request
holding s = record {
  method = [];
  path = [];
  protocol = [];
  content_type = [];
  headers = [];
  cur_line = 0;
  version_major = 1;
  version_minor = 1;
  content_length = 0;
  read_offset = 2 ^ 32 - 1;
  keep_alive = true;
  state = parsing_start;
  buffer = record { store = s; read_position = 0; write_position = length s };
}

abbrev first_line : Bytes
first_line =
    (b'G' ∷ b' ' ∷ b'/' ∷ b' ' ∷ b'H' ∷ b'T' ∷ b'T' ∷ b'P' ∷ b'/' ∷ b'1' ∷ b'.' ∷ b'1' ∷ [])
    ++ (13 ∷ 10 ∷ [])

abbrev whole : Bytes
whole =
    first_line
    ++ ((b'C' ∷ b'o' ∷ b'n' ∷ b't' ∷ b'e' ∷ b'n' ∷ b't' ∷ b'-' ∷ b'L' ∷ b'e' ∷ b'n' ∷ b'g' ∷ b't'
          ∷ b'h' ∷ b':' ∷ b' ' ∷ b'1' ∷ [])
        ++ (13 ∷ 10 ∷ 13 ∷ 10 ∷ (b'x' ∷ [])))

abbrev status : Request → Bytes → Option HttpState
status r d = elim (parse (record r { buffer = append d r.buffer })) [
  | none ↦ none
  | some (s, h) ↦ some h
]

accepted :
    parse (holding whole)
    ≡ some (
      record (holding whole) {
        method = (b'G' ∷ []);
        path = (b'/' ∷ []);
        protocol = (b'1' ∷ b'.' ∷ b'1' ∷ []);
        content_length = 1;
        headers =
            (
              (b'C' ∷ b'o' ∷ b'n' ∷ b't' ∷ b'e' ∷ b'n' ∷ b't' ∷ b'-' ∷ b'L' ∷ b'e' ∷ b'n' ∷ b'g'
                  ∷ b't' ∷ b'h' ∷ []),
              (b'1' ∷ []),
            )
            ∷ [];
        cur_line = 33;
        read_offset = 0;
        state = parsing_finish;
        buffer = record {
          store =
              (b'G' ∷ b' ' ∷ b'/' ∷ b' ' ∷ b'H' ∷ b'T' ∷ b'T' ∷ b'P' ∷ b'/' ∷ b'1' ∷ b'.' ∷ b'1'
                ∷ [])
              ++ (0
                  ∷ 0
                  ∷ ((b'C' ∷ b'o' ∷ b'n' ∷ b't' ∷ b'e' ∷ b'n' ∷ b't' ∷ b'-' ∷ b'L' ∷ b'e' ∷ b'n'
                        ∷ b'g' ∷ b't' ∷ b'h' ∷ b':' ∷ b' ' ∷ b'1' ∷ [])
                      ++ (0 ∷ 0 ∷ 0 ∷ 0 ∷ (b'x' ∷ []))));
          read_position = 35;
          write_position = 36;
        };
      },
      request_ok,
    )
unfolding program
accepted = refl

-- Received in two pieces: what the second call makes of it.
abbrev second : Bytes → Bytes → Option HttpState
second a d = elim (parse (holding a)) [ none ↦ none | some (s, h) ↦ status s d ]

-- The head alone, with two bytes of body to come: finished already, with the two zeros as its body.
phantom_body :
    status (holding first_line) (
      (b'C' ∷ b'o' ∷ b'n' ∷ b't' ∷ b'e' ∷ b'n' ∷ b't' ∷ b'-' ∷ b'L' ∷ b'e' ∷ b'n' ∷ b'g' ∷ b't'
        ∷ b'h' ∷ b':' ∷ b' ' ∷ b'2' ∷ [])
      ++ (13 ∷ 10 ∷ 13 ∷ 10 ∷ []))
    ≡ some request_ok
unfolding program
phantom_body = refl

-- The same header behind a request line that came alone is refused.
line_alone :
    second first_line ((b'A' ∷ b':' ∷ b' ' ∷ b'b' ∷ []) ++ (13 ∷ 10 ∷ 13 ∷ 10 ∷ []))
    ≡ some request_bad
unfolding program
line_alone = refl

-- A `\r` that is not followed by `\n` is refused, but not when the bytes received end with it.
stray_return :
    status (holding []) (
      (b'G' ∷ b' ' ∷ b'/' ∷ [])
      ++ (13 ∷ (b' ' ∷ b'H' ∷ b'T' ∷ b'T' ∷ b'P' ∷ b'/' ∷ b'1' ∷ b'.' ∷ b'1' ∷ [])
          ++ (13 ∷ 10 ∷ 65 ∷ [])))
    ≡ some request_bad
unfolding program
stray_return = refl

stray_return_split :
    second
      ((b'G' ∷ b' ' ∷ b'/' ∷ []) ++ (13 ∷ []))
      ((b' ' ∷ b'H' ∷ b'T' ∷ b'T' ∷ b'P' ∷ b'/' ∷ b'1' ∷ b'.' ∷ b'1' ∷ []) ++ (13 ∷ 10 ∷ 65 ∷ []))
    ≡ some request_incomplete
unfolding program
stray_return_split = refl

holding-IsValid : (s : Bytes) → length s ≤ 2 ^ 31 - 1 → IsValid (holding s).buffer
holding-IsValid s h = record { ordered = omega arith; within = omega arith; small = h }

parse_line_lem_example :
    (parse_line (holding first_line) ≡ (taken 12 (holding first_line), line_ok))
    × (current_line (taken 12 (holding first_line))
        ≡ (b'G' ∷ b' ' ∷ b'/' ∷ b' ' ∷ b'H' ∷ b'T' ∷ b'T' ∷ b'P' ∷ b'/' ∷ b'1' ∷ b'.' ∷ b'1' ∷ []))
    × IsValid (taken 12 (holding first_line)).buffer
    × (content (taken 12 (holding first_line)).buffer
        ≡ (b'G' ∷ b' ' ∷ b'/' ∷ b' ' ∷ b'H' ∷ b'T' ∷ b'T' ∷ b'P' ∷ b'/' ∷ b'1' ∷ b'.' ∷ b'1' ∷ [])
          ++ (0 ∷ 0 ∷ []))
unfolding program
parse_line_lem_example =
    parse_line_lem
      (b'G' ∷ b' ' ∷ b'/' ∷ b' ' ∷ b'H' ∷ b'T' ∷ b'T' ∷ b'P' ∷ b'/' ∷ b'1' ∷ b'.' ∷ b'1' ∷ []) []
      (holding first_line) (holding-IsValid first_line (omega arith)) refl refl (ground arith)
      (ground arith)

parse_line-append_example :
    let received = record (parse_line (holding (b'G' ∷ b' ' ∷ b'/' ∷ []))).0 {
      buffer =
          append
            ((b' ' ∷ b'H' ∷ b'T' ∷ b'T' ∷ b'P' ∷ b'/' ∷ b'1' ∷ b'.' ∷ b'1' ∷ []) ++ (13 ∷ 10 ∷ []))
            (holding (b'G' ∷ b' ' ∷ b'/' ∷ [])).buffer;
    } in
    parse_line received ≡ parse_line (record received { read_offset = 0 })
unfolding program
parse_line-append_example =
    parse_line-append (holding (b'G' ∷ b' ' ∷ b'/' ∷ []))
      ((b' ' ∷ b'H' ∷ b'T' ∷ b'T' ∷ b'P' ∷ b'/' ∷ b'1' ∷ b'.' ∷ b'1' ∷ []) ++ (13 ∷ 10 ∷ []))
      (holding-IsValid (b'G' ∷ b' ' ∷ b'/' ∷ []) (omega arith)) refl refl (omega arith)
      (λ e. absurd (ground (arith, e)))

parse_total_example :
    (s : Request) × (h : HttpState) × (parse (holding whole) ≡ some (s, h)) × IsValid s.buffer
parse_total_example = parse_total (holding whole) (holding-IsValid whole (omega arith))

parse_request_example :
    let head = record (holding whole) {
      method = b'G' ∷ [];
      path = b'/' ∷ [];
      protocol = b'1' ∷ b'.' ∷ b'1' ∷ [];
      headers = (ascii "Content-Length", b'1' ∷ []) ∷ [];
      content_length = 1;
      state = parsing_header;
    } in
    (b : Buffer) × (c : ℕ) × (o : ℕ) × (content b ≡ (b'x' ∷ []))
    × (parse (holding whole) ≡ some (moved b c o parsing_finish head, request_ok))
unfolding program
parse_request_example =
    parse_request (b'G' ∷ []) (b'/' ∷ []) (b'1' ∷ b'.' ∷ b'1' ∷ [])
      ((
        (b'C' ∷ b'o' ∷ b'n' ∷ b't' ∷ b'e' ∷ b'n' ∷ b't' ∷ b'-' ∷ b'L' ∷ b'e' ∷ b'n' ∷ b'g' ∷ b't'
            ∷ b'h' ∷ []),
        (b'1' ∷ []),
      )
        ∷ [])
      (b'x' ∷ []) (holding whole)
      (record {
        method_plain = ground arith;
        path_plain = ground arith;
        version_plain = ground arith;
        method_word = ground arith;
        path_word = ground arith;
      })
      (
        record {
          key_plain = ground arith;
          value_plain = ground arith;
          no_colon = ground arith;
          key_end = refl;
          value_begin = refl;
          value_end = refl;
        },
        tt,
      )
      (holding-IsValid whole (omega arith)) refl refl refl
