-- ===== src/Request/Parse.antt =====
-- `Parse` of http/httprequest.cpp, and what it does with a line.
use uco.Prelude.{
  ℕ, zero, suc, ◌+◌, Bool, true, false, [], ◌∷◌, Option, none, some, leb, ◌==◌, if◌then◌else◌,
  length, take, drop,
}
use mathlib.Core.Option
use uco.Prelude.Bytes.{Bytes, bytes_eq, cut_at}
use uco.Prelude.Dict.{insert}
use uco.Prelude.Word.{size_of_int}
use uco.Text.Trim.{trim_left, trim_right}
use uco.Text.Search.{starts_with}
use uco.Buffer.{readable_bytes}
use uco.Request.Numbers.{from_chars_int, atoi}
use uco.Request.State.{
  ParseState, parsing_start, parsing_request_line, parsing_header, parsing_body, parsing_finish,
  LineState, line_ok, line_bad, line_open, HttpState, request_incomplete, request_ok, request_bad,
  Request, current_line, readable, parse_line,
}

abbrev pub connection_key : Bytes
connection_key = (b'C' ∷ b'o' ∷ b'n' ∷ b'n' ∷ b'e' ∷ b'c' ∷ b't' ∷ b'i' ∷ b'o' ∷ b'n' ∷ [])

abbrev pub keep_alive_value : Bytes
keep_alive_value = (b'k' ∷ b'e' ∷ b'e' ∷ b'p' ∷ b'-' ∷ b'a' ∷ b'l' ∷ b'i' ∷ b'v' ∷ b'e' ∷ [])

abbrev pub length_key : Bytes
length_key =
    (b'C' ∷ b'o' ∷ b'n' ∷ b't' ∷ b'e' ∷ b'n' ∷ b't' ∷ b'-' ∷ b'L' ∷ b'e' ∷ b'n' ∷ b'g' ∷ b't' ∷ b'h'
      ∷ [])

abbrev pub type_key : Bytes
type_key = (b'C' ∷ b'o' ∷ b'n' ∷ b't' ∷ b'e' ∷ b'n' ∷ b't' ∷ b'-' ∷ b'T' ∷ b'y' ∷ b'p' ∷ b'e' ∷ [])

-- `find_last_not_of(' ')` and `substr`: a text of spaces alone stays.
unfoldable pub strip_end : Bytes → Bytes
strip_end s = let cut = trim_right (b' ' ∷ []) s in if bytes_eq cut [] then s else cut

unfoldable pub set_connection : Bytes → Bytes → Request → Request
set_connection key val r =
    if bytes_eq key connection_key
    then record r { keep_alive = bytes_eq val keep_alive_value }
    else r

unfoldable pub set_length : Bytes → Bytes → Request → Request
set_length key val r = if bytes_eq key length_key then record r { content_length = atoi val } else r

unfoldable pub set_type : Bytes → Bytes → Request → Request
set_type key val r = if bytes_eq key type_key then record r { content_type = val } else r

-- The end of `ParseHeader`, from the key and the value on.
unfoldable pub set_header : Bytes → Bytes → Request → Request
set_header key val r =
    let r' = set_type key val (set_length key val (set_connection key val r)) in
    record r' { headers = insert key val r'.headers }

unfoldable pub split_header : Option (Bytes × Bytes) → Request → Request × Bool
split_header none r = (r, false)
split_header (some (key, val)) r =
    (set_header (strip_end key) (strip_end (trim_left (b' ' ∷ []) val)) r, true)

unfoldable pub parse_header : Request → Request × Bool
parse_header r = split_header (cut_at b':' (current_line r)) r

unfoldable pub parse_body : Request → Request × Bool
parse_body r =
    if leb (size_of_int r.content_length) (readable_bytes r.buffer)
    then (record r { state = parsing_finish }, true)
    else (r, false)

-- `parse_http_version`, from the search for the dot on.
unfoldable pub set_version : Bytes → Option (Bytes × Bytes) → Request → Request
set_version protocol none r = record r { version_major = from_chars_int protocol r.version_major }
set_version protocol (some (major, minor)) r = record r {
  version_major = from_chars_int major r.version_major;
  version_minor = from_chars_int minor r.version_minor;
}

abbrev pub http_prefix : Bytes
http_prefix = (b'H' ∷ b'T' ∷ b'T' ∷ b'P' ∷ b'/' ∷ [])

-- The end of `ParseRequestLine`, after the protocol has been found.
unfoldable pub set_protocol : Bytes → Request → Request
set_protocol protocol r =
    let r' = set_version protocol (cut_at b'.' protocol) (record r { protocol = protocol }) in
    let old = if r'.version_major == 1 then r'.version_minor == 0 else false in
    record r' { keep_alive = if old then false else r'.keep_alive; state = parsing_header }

unfoldable pub split_path_end : Option (Bytes × Bytes) → Request → Request × Bool
split_path_end none r = (r, false)
split_path_end (some (path, protocol)) r =
    if starts_with protocol http_prefix
    then (set_protocol (drop 5 protocol) (record r { path = path }), true)
    else (record r { path = path }, false)

unfoldable pub split_method_end : Option (Bytes × Bytes) → Request → Request × Bool
split_method_end none r = (r, false)
split_method_end (some (method, rest)) r =
    split_path_end (cut_at b' ' rest) (record r { method = method })

unfoldable pub parse_request_line : Request → Request × Bool
parse_request_line r = split_method_end (cut_at b' ' (current_line r)) r

unfoldable pub header_or_end : Bytes → Request → Request × Bool
header_or_end [] r = (record r { state = parsing_body }, true)
header_or_end (c ∷ s) r = parse_header r

-- The `switch` of `Parse`; `false` is its `return eRequestBad`.
unfoldable pub dispatch : ParseState → Request → Request × Bool
dispatch parsing_request_line r = parse_request_line r
dispatch parsing_header r = header_or_end (current_line r) r
dispatch _ r = (r, true)

-- How the loop of `Parse` ends.
pub data Stop : Type 0 where
  rejected : Stop
  stopped : LineState → Stop

unfoldable pub after_dispatch :
    (Request → Option (Request × Stop)) → Request × Bool → Option (Request × Stop)
after_dispatch next (r, true) = next r
after_dispatch next (r, false) = some (r, rejected)

unfoldable pub after_line :
    (Request → Option (Request × Stop)) → Request × LineState → Option (Request × Stop)
after_line next (r, line_ok) = after_dispatch next (dispatch r.state r)
after_line next (r, line_bad) = some (r, stopped line_bad)
after_line next (r, line_open) = some (r, stopped line_open)

unfoldable pub is_body : ParseState → Bool
is_body parsing_body = true
is_body _ = false

-- The loop of `Parse` on fuel; `none` means that the fuel ran out.
unfoldable pub parse_loop : ℕ → Request → Option (Request × Stop)
parse_loop zero r = none
parse_loop (suc fuel) r =
    if is_body r.state
    then some (r, stopped line_ok)
    else after_line (parse_loop fuel) (parse_line r)

unfoldable pub body_state : Request × Bool → Request × HttpState
body_state (r, true) = (r, request_ok)
body_state (r, false) = (r, request_incomplete)

unfoldable pub finish_parse : Request × Stop → Request × HttpState
finish_parse (r, rejected) = (r, request_bad)
finish_parse (r, stopped l) = if is_body r.state then body_state (parse_body r) else (
  r,
  elim l [ line_open ↦ request_incomplete | line_ok ↦ request_bad | line_bad ↦ request_bad ],
)

unfoldable pub begin_parse : Request → Request
begin_parse r = elim r.state [
  | parsing_start ↦ record r { state = parsing_request_line }
  | parsing_request_line ↦ r
  | parsing_header ↦ r
  | parsing_body ↦ r
  | parsing_finish ↦ r
]

unfoldable pub parse : Request → Option (Request × HttpState)
parse r = Option.map finish_parse (parse_loop (length (readable r.buffer) + 1) (begin_parse r))

-- `ReadBody`.
unfoldable pub read_body : Request → Bytes
read_body r = elim r.state [
  | parsing_finish ↦
      take (size_of_int r.content_length) (drop r.buffer.read_position r.buffer.store)
  | parsing_start ↦ []
  | parsing_request_line ↦ []
  | parsing_header ↦ []
  | parsing_body ↦ []
]
