-- ===== src/Request/State.antt =====
-- The state of `HttpRequest` (http/httprequest.h) and its operations (http/httprequest.cpp).
use uco.Prelude.{ℕ, ◌+◌, ◌-◌, ◌^◌, Bool, true, List, [], ◌∷◌, ◌==◌, if◌then◌else◌, take, drop}
use uco.Prelude.Bytes.{Bytes}
use uco.Prelude.Word.{int_of_size, int_lt}
use uco.Prelude.Segments.{overlay}
use uco.Buffer.{Buffer, reset, readable_bytes, retrieve_until}
use uco.Request.Scan.{Scan, pending, stray, line_at, scan_from}

pub data ParseState : Type 0 where
  parsing_start parsing_request_line parsing_header parsing_body parsing_finish : ParseState

pub data LineState : Type 0 where
  line_ok line_bad line_open : LineState

pub data HttpState : Type 0 where
  request_incomplete request_ok request_bad : HttpState

pub record Request : Type 0 where
  pub method : Bytes
  pub path : Bytes
  pub protocol : Bytes
  pub content_type : Bytes
  pub headers : List (Bytes × Bytes)
  pub cur_line : ℕ
  pub version_major : ℕ
  pub version_minor : ℕ
  pub content_length : ℕ
  pub read_offset : ℕ
  pub keep_alive : Bool
  pub state : ParseState
  pub buffer : Buffer

-- `Reset`, of a request that owns this buffer; -1 is the offset.
unfoldable pub reset_request : Request → Request
reset_request r = record {
  method = [];
  path = [];
  protocol = [];
  content_type = [];
  headers = [];
  cur_line = 0;
  version_major = 1;
  version_minor = 1;
  content_length = 0;
  read_offset = 2 ^ 32 - 1;
  keep_alive = true;
  state = parsing_start;
  buffer = reset r.buffer;
}

-- A C string: the bytes before the first zero.
unfoldable pub c_string : Bytes → Bytes
c_string [] = []
c_string (c ∷ s) = let rest = c_string s in if c == 0 then [] else c ∷ rest

-- What `m_sCurLine` points to.
unfoldable pub current_line : Request → Bytes
current_line r = c_string (drop r.cur_line r.buffer.store)

-- The bytes from `CurReadPos` to `CurWritePos`.
unfoldable pub readable : Buffer → Bytes
readable b = take (readable_bytes b) (drop b.read_position b.store)

-- The two bytes of the line end become zeros.
unfoldable pub zeroed : ℕ → Buffer → Buffer
zeroed i b = record b { store = overlay (b.read_position + i) (0 ∷ 0 ∷ []) b.store }

-- A line whose `\r` is at this index is taken out of the buffer.
unfoldable pub taken : ℕ → Request → Request
taken i r = record r {
  read_offset = 0;
  cur_line = r.buffer.read_position;
  buffer = retrieve_until (r.buffer.read_position + i + 2) (zeroed i r.buffer);
}

unfoldable pub after_scan : Request → Scan → Request × LineState
after_scan r pending = (record r { read_offset = int_of_size (readable_bytes r.buffer) }, line_open)
after_scan r stray = (record r { read_offset = 0 }, line_bad)
after_scan r (line_at i) = (taken i r, line_ok)

-- Where the scan starts, relative to the read position.
unfoldable pub start_offset : ℕ → ℕ
start_offset offset = if int_lt 0 offset then offset else 0

unfoldable pub parse_line : Request → Request × LineState
parse_line r = after_scan r (scan_from (start_offset r.read_offset) (readable r.buffer))
