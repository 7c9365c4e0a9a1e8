-- ===== src/Response/Framing.antt =====
-- `GenHttpHeader` of http/httpresponce.cpp, read by a client.
use Prim.Native.String.{String}
use uco.Prelude.{
  ℕ, ◌+◌, ◌-◌, ◌≡◌, refl, sym, ap, ◌∙◌, Bool, true, false, ◌&&◌, ◌||◌, ◌==◌, List, [], ◌∷◌, ◌++◌,
  map, Option, none, some, if◌then◌else◌, arith, length, Bool-cases, inl, inr,
}
use mathlib.Core.List.{append_assoc}
use uco.Prelude.Bytes.{Bytes, bytes_eq}
use uco.Prelude.Ascii.{ascii}
use uco.Prelude.Decimal.{to_string}
use uco.Text.Chars.{equals_ignore_case, equals_ignore_case_lem, equals_from, lower, to_lower}
use uco.Response.{
  Response, status_table, find_status, status_text, content_length, file_length, is_partial, crlf,
  connection_text, fields_text, header_text, with_cache_control, set_header, set_field, overwrite,
  has_field, gen_http_header, add_header_text,
}
use uco.Response.Lines.{
  is_clean, is_line, all_lines, lines_text, read_lines, is_clean-append, to_string-clean,
  read_lines-text,
}

-- The lines that a header is meant to have.
abbrev pub field_line : Bytes × Bytes → Bytes
field_line (key, value) = key ++ (ascii ": " ++ value)

abbrev pub connection_lines : Response → List Bytes
connection_lines r =
    if r.keep_alive
    then ascii "Connection: keep-alive"
      ∷ (ascii "keep-alive: max="
          ++ (to_string r.keep_alive_count ++ (ascii ", timeout=" ++ to_string r.keep_alive_time)))
      ∷ []
    else ascii "Connection: close" ∷ []

abbrev pub lines_of : List (Bytes × Bytes) → ℕ → Response → List Bytes
lines_of fields size r =
    (ascii "HTTP/1.1 " ++ (to_string r.ret_code ++ (ascii " " ++ status_text r.ret_code)))
    ∷ (connection_lines r
        ++ (map field_line fields
            ++ ((ascii "Content-type: " ++ r.content_type)
                ∷ (ascii "Content-length: " ++ to_string size)
                ∷ [])))

-- The fields that were set, and a Cache-Control behind them if none of them is one in any case.
abbrev pub has_cache_control : List (Bytes × Bytes) → Bool
has_cache_control [] = false
has_cache_control (f ∷ l) = bytes_eq (to_lower f.0) (ascii "cache-control") || has_cache_control l

abbrev pub sent_fields : List (Bytes × Bytes) → List (Bytes × Bytes)
sent_fields l =
    if has_cache_control l then l else l ++ ((ascii "Cache-Control", ascii "no-cache") ∷ [])

-- How long the body is: that of the content, of the file, or of the range of it from the first to the
-- last byte, where 0 to 0 stands for no range.
abbrev pub sent_length : Option ℕ → Response → ℕ
sent_length none r = length r.content
sent_length (some size) r =
    if r.partial_from == 0 && r.partial_to == 0 then size else r.partial_to - r.partial_from + 1

abbrev pub header_lines : Response → List Bytes
header_lines r = lines_of r.more_headers (content_length r) r

lines_text-append : (a b : List Bytes) → lines_text (a ++ b) ≡ lines_text a ++ lines_text b
lines_text-append [] b = refl
lines_text-append (l ∷ a) b =
    rw (lines_text-append a b, append_assoc l (13 ∷ 10 ∷ lines_text a) (lines_text b)) refl

fields_text-lines : (l : List (Bytes × Bytes)) → fields_text l ≡ lines_text (map field_line l)
unfolding fields_text
fields_text-lines [] = refl
fields_text-lines ((key, value) ∷ l) = simp (append_assoc, fields_text-lines l)

header_text-lines : (r : Response) → header_text r ≡ lines_text (header_lines r) ++ crlf
unfolding header_text connection_text
header_text-lines r = elim (Bool-cases r.keep_alive) [
  | inl e ↦ simp (e, append_assoc, lines_text-append, fields_text-lines)
  | inr e ↦ simp (e, append_assoc, lines_text-append, fields_text-lines)
]

-- No field, and no entry of the table of statuses, has a CR or an LF.
unfoldable pub headers_clean : List (Bytes × Bytes) → Bool
headers_clean [] = true
headers_clean ((key, value) ∷ l) = (is_clean key && is_clean value) && headers_clean l

unfoldable statuses_clean : List (ℕ × String) → Bool
statuses_clean [] = true
statuses_clean ((code, text) ∷ l) = is_clean (ascii text) && statuses_clean l

find_status-clean :
    (l : List (ℕ × String)) (code : ℕ)
    → statuses_clean l ≡ true
    → is_clean (find_status l code) ≡ true
unfolding find_status statuses_clean is_clean
find_status-clean [] code h = refl
find_status-clean ((c, text) ∷ l) code h = ground (arith, find_status-clean l code)

status_text-clean : (code : ℕ) → is_clean (status_text code) ≡ true
unfolding status_text statuses_clean is_clean
status_text-clean code = find_status-clean status_table code refl

all_lines-append : (a b : List Bytes) → all_lines (a ++ b) ≡ all_lines a && all_lines b
unfolding all_lines
all_lines-append [] b = refl
all_lines-append (l ∷ a) b = ground (arith, all_lines-append a b)

is_line-field_line :
    (key value : Bytes)
    → is_clean key ≡ true
    → is_clean value ≡ true
    → is_line (field_line (key, value)) ≡ true
unfolding is_line is_clean
is_line-field_line [] value h k = ground arith
is_line-field_line (c ∷ key) value h k = ground (arith, is_clean-append key (ascii ": " ++ value))

all_lines-fields :
    (l : List (Bytes × Bytes)) → headers_clean l ≡ true → all_lines (map field_line l) ≡ true
unfolding all_lines headers_clean
all_lines-fields [] h = refl
all_lines-fields ((key, value) ∷ l) h =
    ground (arith, is_line-field_line key value, all_lines-fields l)

all_lines-connection : (r : Response) → all_lines (connection_lines r) ≡ true
unfolding all_lines is_line is_clean
all_lines-connection r =
    let tail = ascii ", timeout=" ++ to_string r.keep_alive_time in
    elim (Bool-cases r.keep_alive) [
      | inl e ↦ simp (
        e,
        is_clean-append (to_string r.keep_alive_count) tail,
        to_string-clean r.keep_alive_count,
        to_string-clean r.keep_alive_time,
      )
      | inr e ↦ simp (e)
    ]

all_lines-header :
    (r : Response)
    → headers_clean r.more_headers ≡ true
    → is_clean r.content_type ≡ true
    → all_lines (header_lines r) ≡ true
unfolding all_lines is_line is_clean
all_lines-header r h k = simp (
  is_clean-append (to_string r.ret_code) (ascii " " ++ status_text r.ret_code),
  to_string-clean r.ret_code,
  status_text-clean r.ret_code,
  all_lines-append,
  all_lines-connection r,
  all_lines-fields r.more_headers h,
  k,
  to_string-clean (content_length r),
)

has_field-cache :
    (l : List (Bytes × Bytes)) → has_field (ascii "Cache-Control") l ≡ has_cache_control l
unfolding has_field to_lower lower
has_field-cache [] = refl
has_field-cache ((k, v) ∷ l) =
    ground (arith, equals_ignore_case_lem k (ascii "Cache-Control"), has_field-cache l)

overwrite-absent :
    (key value : Bytes) (l : List (Bytes × Bytes))
    → has_field key l ≡ false
    → overwrite key value l ≡ l ++ ((key, value) ∷ [])
unfolding overwrite has_field
overwrite-absent key value [] h = refl
overwrite-absent key value ((k, v) ∷ l) h = ground (arith, overwrite-absent key value l)

with_cache_control_lem :
    (r : Response) → with_cache_control r ≡ record r { more_headers = sent_fields r.more_headers }
unfolding with_cache_control set_header set_field equals_ignore_case equals_from lower
with_cache_control_lem r =
    let fields = has_field-cache r.more_headers in
    elim (Bool-cases (has_field (ascii "Cache-Control") r.more_headers)) [
      | inl e ↦ simp (e, sym fields ∙ e)
      | inr e ↦ simp (
        e,
        sym fields ∙ e,
        overwrite-absent (ascii "Cache-Control") (ascii "no-cache") r.more_headers e,
      )
    ]

headers_clean-append :
    (a b : List (Bytes × Bytes)) → headers_clean (a ++ b) ≡ headers_clean a && headers_clean b
unfolding headers_clean
headers_clean-append [] b = refl
headers_clean-append ((k, v) ∷ a) b = ground (arith, headers_clean-append a b)

sent_fields-clean :
    (l : List (Bytes × Bytes)) → headers_clean l ≡ true → headers_clean (sent_fields l) ≡ true
unfolding headers_clean is_clean
sent_fields-clean l h =
    let added = (ascii "Cache-Control", ascii "no-cache") ∷ [] in
    elim (Bool-cases (has_cache_control l)) [
      | inl e ↦ rw e h
      | inr e ↦ rw e (headers_clean-append l added ∙ ap (λ b. b && headers_clean added) h)
    ]

content_length-sent :
    (r : Response) (l : List (Bytes × Bytes))
    → content_length (record r { more_headers = l }) ≡ sent_length r.cache r
unfolding content_length file_length is_partial
content_length-sent r l = by_file r.cache
  where
    by_file : (o : Option ℕ) → file_length (record r { more_headers = l }) o ≡ sent_length o r
    by_file none = refl
    by_file (some size) = ground arith

read_lines-header_text :
    (r : Response) (body : Bytes)
    → headers_clean r.more_headers ≡ true
    → is_clean r.content_type ≡ true
    → read_lines (header_text r ++ body) ≡ some (header_lines r, body)
read_lines-header_text r body h k =
    rw (header_text-lines r, append_assoc (lines_text (header_lines r)) crlf body)
      (read_lines-text (header_lines r) body (all_lines-header r h k))

-- A response whose header fields and type have no CR and no LF is written so that a strict client
-- finds the end of the header exactly where it ends, whatever the body: it reads the status line, the
-- lines of the connection, one line for each field in order, a Cache-Control of no-cache if none was
-- set, the type, the length of the content, of the file or of its range, and then the body.
pub read_lines-gen_http_header :
    (r : Response) (body : Bytes)
    → r.header ≡ []
    → headers_clean r.more_headers ≡ true
    → is_clean r.content_type ≡ true
    → read_lines ((gen_http_header r).header ++ body)
      ≡ some (lines_of (sent_fields r.more_headers) (sent_length r.cache r) r, body)
unfolding gen_http_header add_header_text
read_lines-gen_http_header r body e h k =
    let sent = record r { more_headers = sent_fields r.more_headers } in
    ap (λ x. read_lines ((x.header ++ header_text x) ++ body)) (with_cache_control_lem r)
    ∙ (ap (λ t. read_lines ((t ++ header_text sent) ++ body)) e
        ∙ (read_lines-header_text sent body (sent_fields-clean r.more_headers h) k
            ∙ ap (λ n. some (lines_of (sent_fields r.more_headers) n r, body))
                (content_length-sent r (sent_fields r.more_headers))))
