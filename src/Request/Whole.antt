-- ===== src/Request/Whole.antt =====
-- A whole request in the buffer of http/httprequest.cpp, from the request line to the body: what
-- `Parse` makes of it.
use uco.Prelude.{
  ℕ, suc, ◌+◌, ◌≤◌, ◌≡◌, refl, ap, ap₂, subst, ◌∙◌, true, false, List, [], ◌∷◌, ◌++◌, Option, none,
  some, ◌==◌, if◌then◌else◌, leb, length, length-append, arith, Bool-cases, inl, inr,
}
use mathlib.Core.Option
use uco.Prelude.Bytes.{Bytes, All, Free, cut_at, cut_at-append}
use uco.Prelude.Word.{size_of_int}
use uco.Text.Search.{starts_with-append}
use uco.Buffer.{Buffer}
use uco.Buffer.Content.{IsValid, content, readable_bytes-content}
use uco.Request.State.{
  ParseState, parsing_start, parsing_request_line, parsing_header, parsing_body, parsing_finish,
  line_ok, Request, request_ok, request_incomplete, readable, taken, start_offset, current_line,
}
use uco.Request.Parse.{
  stopped, dispatch, after_dispatch, after_line, is_body, parse_loop, http_prefix, set_version,
  set_protocol, split_path_end, split_method_end, parse_request_line, parse_body, body_state,
  finish_parse, begin_parse, parse,
}
use uco.Request.Lines.{left, readable-content, parse_line_lem}
use uco.Request.Fields.{
  IsPlain, IsField, field_line, head_text, set_headers, moved, Plain-append, c_string-plain,
  set_headers-moved, parse_loop-going,
}
use uco.Request.Described.{request_of, described, request_of_lem}
use uco.Request.Head.{left-head, Reads, parse_loop-headers, start_offset-zero}

-- The request line of a method, a path and a version.
abbrev pub request_line : Bytes → Bytes → Bytes → Bytes
request_line m p q = m ++ (b' ' ∷ (p ++ (b' ' ∷ (http_prefix ++ q))))

module _ (b : Buffer) (c o : ℕ) (s : ParseState) where
  set_version-moved :
      (p : Bytes) (v : Option (Bytes × Bytes)) (r : Request)
      → set_version p v (moved b c o s r) ≡ moved b c o s (set_version p v r)
  unfolding set_version
  set_version-moved p none r = refl
  set_version-moved p (some (x, y)) r = refl

  set_protocol-moved :
      (p : Bytes) (r : Request)
      → set_protocol p (moved b c o s r) ≡ moved b c o parsing_header (set_protocol p r)
  unfolding set_protocol
  set_protocol-moved p r =
      ap
        (λ (q : Request). record q {
          keep_alive =
              (if (if q.version_major == 1 then q.version_minor == 0 else false)
                then false
                else q.keep_alive);
          state = parsing_header;
        })
        (set_version-moved p (cut_at b'.' p) (record r { protocol = p }))

-- A request line as a client writes it.
pub record IsRequestLine (m p q : Bytes) : Type 0 where
  pub method_plain : IsPlain m
  pub path_plain : IsPlain p
  pub version_plain : IsPlain q
  pub method_word : Free b' ' m
  pub path_word : Free b' ' p

request_line-IsPlain : (m p q : Bytes) → IsRequestLine m p q → IsPlain (request_line m p q)
request_line-IsPlain m p q h =
    Plain-append m (b' ' ∷ (p ++ (b' ' ∷ (http_prefix ++ q)))) h.method_plain (
      Plain-append (b' ' ∷ []) (p ++ (b' ' ∷ (http_prefix ++ q))) blank_plain (
        Plain-append p (b' ' ∷ (http_prefix ++ q)) h.path_plain (
          Plain-append (b' ' ∷ []) (http_prefix ++ q) blank_plain
            (Plain-append http_prefix q prefix_plain h.version_plain))))
  where
    blank_plain : IsPlain (b' ' ∷ [])
    blank_plain = ((omega arith, tt), (omega arith, tt), (omega arith, tt))

    prefix_plain : IsPlain http_prefix
    prefix_plain = ground arith

split_method_end-line :
    (m p q : Bytes) (r : Request)
    → IsRequestLine m p q
    → split_method_end (cut_at b' ' (request_line m p q)) r
      ≡ (set_protocol q (record r { method = m; path = p }), true)
unfolding split_method_end split_path_end
split_method_end-line m p q r h =
    let named = record r { method = m } in
    ap (λ o. split_method_end o r)
      (cut_at-append b' ' m (p ++ (b' ' ∷ (http_prefix ++ q))) h.method_word)
    ∙ (ap (λ o. split_path_end o named) (cut_at-append b' ' p (http_prefix ++ q) h.path_word)
        ∙ rw (starts_with-append http_prefix q) refl)

dispatch-line :
    (m p q : Bytes) (r : Request)
    → IsRequestLine m p q
    → current_line r ≡ request_line m p q
    → dispatch parsing_request_line r ≡ (set_protocol q (record r { method = m; path = p }), true)
unfolding dispatch parse_request_line
dispatch-line m p q r h e =
    ap (λ l. split_method_end (cut_at b' ' l) r) e ∙ split_method_end-line m p q r h

request_line_not_body : is_body parsing_request_line ≡ false
unfolding is_body
request_line_not_body = refl

parse_loop-request :
    (m p q : Bytes) (fs : List (Bytes × Bytes)) (body : Bytes) (fuel : ℕ) (r : Request)
    → IsRequestLine m p q
    → All IsField fs
    → IsValid r.buffer
    → start_offset r.read_offset ≡ 0
    → r.state ≡ parsing_request_line
    → content r.buffer ≡ request_line m p q ++ (13 ∷ 10 ∷ head_text fs body)
    → length fs + 2 ≤ fuel
    → Reads (parse_loop (suc fuel) r) (left [] body) (request_of m p q fs r)
unfolding request_of after_line after_dispatch taken
parse_loop-request m p q fs body fuel r h hs v fresh s text enough =
    let (f13, f10, f0) = request_line-IsPlain m p q h in
    let rest = head_text fs body in
    let t = taken (length (request_line m p q)) r in
    let (e, l, w, u) = parse_line_lem (request_line m p q) rest r v fresh text f13 f10 in
    let named = record r { method = m; path = p } in
    let pos = r.buffer.read_position in
    let next = moved t.buffer pos 0 parsing_header (set_protocol q named) in
    let (b, c, o, found, ok, unread) =
      parse_loop-headers fs body fuel next hs w start_offset-zero refl
        (u ∙ left-head (request_line m p q) fs body) enough in
    (
      b,
      c,
      o,
      parse_loop-going fuel r (ap is_body s ∙ request_line_not_body)
          ∙ (ap (after_line (parse_loop fuel)) e
              ∙ (ap (after_dispatch (parse_loop fuel)) (
                    ap (λ k. dispatch k t) s
                    ∙ (dispatch-line m p q t h (l ∙ c_string-plain (request_line m p q) f0)
                        ∙ ap (λ k. (k, true)) (set_protocol-moved t.buffer pos 0 r.state q named)))
                  ∙ (found
                      ∙ ap (λ k. some (moved b c o parsing_body k, stopped line_ok))
                          (set_headers-moved t.buffer pos 0 parsing_header fs
                            (set_protocol q named))))),
      ok,
      unread,
    )

length-head_text :
    (fs : List (Bytes × Bytes)) (body : Bytes) → length fs + 2 ≤ length (head_text fs body)
length-head_text [] body = omega arith
length-head_text (f ∷ fs) body =
    omega
      (arith, length-head_text fs body, length-append (field_line f) (13 ∷ 10 ∷ head_text fs body))

finish-body :
    (b : Buffer) (c o : ℕ) (r : Request)
    → IsValid b
    → finish_parse (moved b c o parsing_body r, stopped line_ok) ≡ (
        if leb (size_of_int r.content_length) (length (content b))
        then (moved b c o parsing_finish r, request_ok)
        else (moved b c o parsing_body r, request_incomplete))
unfolding finish_parse parse_body body_state is_body
finish-body b c o r v =
    elim (Bool-cases (leb (size_of_int r.content_length) (length (content b)))) [
      | inl enough ↦ rw (readable_bytes-content b v, enough) refl
      | inr short ↦ rw (readable_bytes-content b v, short) refl
    ]

begin_parse-start :
    (r : Request)
    → r.state ≡ parsing_start
    → begin_parse r ≡ record r { state = parsing_request_line }
unfolding begin_parse
begin_parse-start r s = rw s refl

request_of-moved :
    (b : Buffer) (c o : ℕ) (s : ParseState) (m p q : Bytes) (fs : List (Bytes × Bytes))
    (r : Request)
    → request_of m p q fs (moved b c o s r) ≡ moved b c o parsing_header (request_of m p q fs r)
unfolding request_of
request_of-moved b c o s m p q fs r =
    let named = record r { method = m; path = p } in
    ap (set_headers fs) (set_protocol-moved b c o s q named)
    ∙ set_headers-moved b c o parsing_header fs (set_protocol q named)

parse-request_of :
    (m p q : Bytes) (fs : List (Bytes × Bytes)) (body : Bytes) (r : Request)
    → IsRequestLine m p q
    → All IsField fs
    → IsValid r.buffer
    → start_offset r.read_offset ≡ 0
    → r.state ≡ parsing_start
    → content r.buffer ≡ request_line m p q ++ (13 ∷ 10 ∷ head_text fs body)
    → let head = request_of m p q fs r in
      (b : Buffer) × (c : ℕ) × (o : ℕ) × (content b ≡ left [] body)
      × (parse r
          ≡ some (
              if leb (size_of_int head.content_length) (length (left [] body))
              then (moved b c o parsing_finish head, request_ok)
              else (moved b c o parsing_body head, request_incomplete)))
unfolding parse
parse-request_of m p q fs body r h hs v fresh s text =
    let rest = head_text fs body in
    let n = length (readable r.buffer) in
    let size : length fs + 2 ≤ n = omega (
      arith,
      ap length (readable-content r.buffer v ∙ text),
      length-head_text fs body,
      length-append (request_line m p q) (13 ∷ 10 ∷ rest),
    ) in
    let started = record r { state = parsing_request_line } in
    let (b, c, o, found, ok, unread) =
      parse_loop-request m p q fs body n started h hs v fresh refl text size in
    let n' : n + 1 ≡ suc n = omega arith in
    (
      b,
      c,
      o,
      unread,
      ap (Option.map finish_parse) (
            ap₂ parse_loop n' (begin_parse-start r s)
            ∙ (found
                ∙ ap (λ k. some (moved b c o parsing_body k, stopped line_ok))
                    (request_of-moved r.buffer r.cur_line r.read_offset parsing_request_line m p q
                      fs r)))
          ∙ ap some (
              finish-body b c o (request_of m p q fs r) ok
              ∙ ap
                  (λ k.
                    if leb (size_of_int (request_of m p q fs r).content_length) k
                    then (moved b c o parsing_finish (request_of m p q fs r), request_ok)
                    else (moved b c o parsing_body (request_of m p q fs r), request_incomplete))
                  (ap length unread)),
    )

-- A request that has arrived with its whole head, in a buffer that holds nothing else before it, is
-- read field by field: method, path and protocol are those sent; the version's numbers are what
-- from_chars reads before and behind the first dot of the protocol; the headers are put into the map
-- in order; length, type and keep-alive follow the last field of each name, and without a Connection
-- field a request of version 1.0 does not keep the connection. What is left in the buffer is what came
-- behind the empty line, or two zeros if nothing did; the request is finished if that is at least
-- the content length, and incomplete otherwise.
pub parse_request :
    (m p q : Bytes) (fs : List (Bytes × Bytes)) (body : Bytes) (r : Request)
    → IsRequestLine m p q
    → All IsField fs
    → IsValid r.buffer
    → start_offset r.read_offset ≡ 0
    → r.state ≡ parsing_start
    → content r.buffer ≡ request_line m p q ++ (13 ∷ 10 ∷ head_text fs body)
    → let head = described m p q fs r in
      (b : Buffer) × (c : ℕ) × (o : ℕ) × (content b ≡ left [] body)
      × (parse r
          ≡ some (
              if leb (size_of_int head.content_length) (length (left [] body))
              then (moved b c o parsing_finish head, request_ok)
              else (moved b c o parsing_body head, request_incomplete)))
parse_request m p q fs body r h hs v fresh s text =
    subst
      (λ (head : Request).
        (b : Buffer) × (c : ℕ) × (o : ℕ) × (content b ≡ left [] body)
        × (parse r
            ≡ some (
                if leb (size_of_int head.content_length) (length (left [] body))
                then (moved b c o parsing_finish head, request_ok)
                else (moved b c o parsing_body head, request_incomplete))))
      (request_of_lem m p q fs r) (parse-request_of m p q fs body r h hs v fresh s text)
