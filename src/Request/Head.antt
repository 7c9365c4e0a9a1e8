-- ===== src/Request/Head.antt =====
-- A whole request in the buffer of http/httprequest.cpp: what `Parse` makes of it.
use uco.Prelude.{
  ℕ, zero, suc, ◌+◌, ◌≤◌, ◌≡◌, refl, ap, ◌∙◌, true, List, [], ◌∷◌, Option, some, length, arith,
}
use uco.Prelude.Bytes.{Bytes, All}
use uco.Prelude.Word.{int_lt}
use uco.Buffer.{Buffer}
use uco.Buffer.Content.{IsValid, content}
use uco.Request.State.{parsing_header, parsing_body, line_ok, Request, taken, start_offset}
use uco.Request.Parse.{
  Stop, stopped, set_header, header_or_end, dispatch, after_dispatch, after_line, is_body,
  parse_loop,
}
use uco.Request.Lines.{left, parse_line_lem}
use uco.Request.Fields.{
  IsField, field_line, head_text, set_headers, moved, c_string-plain, set_header-moved,
  set_headers-moved, parse_loop-field, parse_loop-going, parse_loop-stopped, header_not_body,
  line_read,
}

pub left-head :
    (l : Bytes) (fs : List (Bytes × Bytes)) (body : Bytes)
    → left l (head_text fs body) ≡ head_text fs body
left-head l [] body = refl
left-head l (([], v) ∷ fs) body = refl
left-head l ((c ∷ k, v) ∷ fs) body = refl

-- The loop has read a head: the buffer holds what is left, and the request has these fields.
abbrev pub Reads : Option (Request × Stop) → Bytes → Request → Type 0
Reads o unread r =
    (b : Buffer) × (c : ℕ) × (offset : ℕ) × (o
      ≡ some (moved b c offset parsing_body r, stopped line_ok))
    × IsValid b
    × (content b ≡ unread)

pub body_is_body : is_body parsing_body ≡ true
unfolding is_body
body_is_body = refl

pub start_offset-zero : start_offset 0 ≡ 0
unfolding start_offset int_lt
start_offset-zero = refl

parse_loop-end :
    (body : Bytes) (fuel : ℕ) (r : Request)
    → IsValid r.buffer
    → start_offset r.read_offset ≡ 0
    → r.state ≡ parsing_header
    → content r.buffer ≡ 13 ∷ 10 ∷ body
    → Reads (parse_loop (suc (suc fuel)) r) (left [] body) r
unfolding after_line after_dispatch taken dispatch header_or_end
parse_loop-end body fuel r v fresh at_header text =
    let (e, l, w, u) = parse_line_lem [] body r v fresh text tt tt in
    let t = taken 0 r in
    (
      t.buffer,
      r.buffer.read_position,
      0,
      parse_loop-going (suc fuel) r (ap is_body at_header ∙ header_not_body)
          ∙ (ap (after_line (parse_loop (suc fuel))) e
              ∙ (ap (after_dispatch (parse_loop (suc fuel))) (
                    ap (λ s. dispatch s t) at_header
                    ∙ ap (λ q. header_or_end q t) (l ∙ c_string-plain [] tt))
                  ∙ parse_loop-stopped fuel (record t { state = parsing_body }) body_is_body)),
      w,
      u,
    )

pub parse_loop-headers :
    (fs : List (Bytes × Bytes)) (body : Bytes) (fuel : ℕ) (r : Request)
    → All IsField fs
    → IsValid r.buffer
    → start_offset r.read_offset ≡ 0
    → r.state ≡ parsing_header
    → content r.buffer ≡ head_text fs body
    → length fs + 2 ≤ fuel
    → Reads (parse_loop fuel r) (left [] body) (set_headers fs r)
unfolding set_headers taken
parse_loop-headers [] body zero r hs v fresh s text h = absurd (omega arith)
parse_loop-headers [] body (suc zero) r hs v fresh s text h = absurd (omega arith)
parse_loop-headers [] body (suc (suc fuel)) r hs v fresh s text h =
    parse_loop-end body fuel r v fresh s text
parse_loop-headers (f ∷ fs) body zero r hs v fresh s text h = absurd (omega arith)
parse_loop-headers (f ∷ fs) body (suc fuel) r hs v fresh s text h =
    let rest = head_text fs body in
    let t = taken (length (field_line f)) r in
    let (e, l, w, u) = line_read f rest r hs.0 v fresh s text in
    let next = moved t.buffer r.buffer.read_position 0 r.state (set_header f.0 f.1 r) in
    let (b, c, o, found, ok, unread) =
      parse_loop-headers fs body fuel next hs.1 w start_offset-zero s
        (u ∙ left-head (field_line f) fs body) (omega arith) in
    (
      b,
      c,
      o,
      parse_loop-field f rest r hs.0 v fresh s text fuel
          ∙ (ap (parse_loop fuel)
                (set_header-moved t.buffer r.buffer.read_position 0 r.state f.0 f.1 r)
              ∙ (found
                  ∙ ap (λ q. some (moved b c o parsing_body q, stopped line_ok))
                      (set_headers-moved t.buffer r.buffer.read_position 0 r.state fs
                        (set_header f.0 f.1 r)))),
      ok,
      unread,
    )
