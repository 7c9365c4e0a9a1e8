-- ===== src/Request/Fields.antt =====
-- The header lines of http/httprequest.cpp: what `Parse` does with a block of `key: value` lines
-- and the empty line behind it.
use uco.Prelude.{
  ℕ, suc, ◌≡◌, ◌≢◌, refl, ap, ◌∙◌, Bool, true, false, List, [], ◌∷◌, ◌++◌, some, if◌then◌else◌,
  length, arith,
}
use uco.Prelude.Bytes.{Bytes, All-append, Free, has_byte, bytes_eq, cut_at, cut_at-append}
use uco.Prelude.Dict.{insert}
use uco.Text.Trim.{trim_left, trim_right}
use uco.Buffer.{Buffer}
use uco.Buffer.Content.{IsValid, content}
use uco.Request.State.{
  ParseState, parsing_header, line_ok, Request, c_string, taken, start_offset, parse_line,
  current_line,
}
use uco.Request.Parse.{
  stopped, strip_end, set_connection, set_length, set_type, set_header, split_header, parse_header,
  header_or_end, dispatch, after_dispatch, after_line, is_body, parse_loop, connection_key,
  length_key, type_key,
}
use uco.Request.Lines.{left, parse_line_lem}

abbrev pub blank : Bytes
blank = b' ' ∷ []

-- No byte ends a line or a C string.
abbrev pub IsPlain : Bytes → Type 0
IsPlain s = Free 13 s × Free 10 s × Free 0 s

-- A header as a client writes it: a key without a colon, and no space around key and value.
pub record IsField (f : Bytes × Bytes) : Type 0 where
  pub key_plain : IsPlain f.0
  pub value_plain : IsPlain f.1
  pub no_colon : Free b':' f.0
  pub key_end : trim_right blank f.0 ≡ f.0
  pub value_begin : trim_left blank f.1 ≡ f.1
  pub value_end : trim_right blank f.1 ≡ f.1

abbrev pub field_line : Bytes × Bytes → Bytes
field_line f = f.0 ++ (b':' ∷ b' ' ∷ f.1)

-- The header lines, the empty line and the body.
abbrev pub head_text : List (Bytes × Bytes) → Bytes → Bytes
head_text [] body = 13 ∷ 10 ∷ body
head_text (f ∷ fs) body = field_line f ++ (13 ∷ 10 ∷ head_text fs body)

-- The headers in order.
unfoldable pub set_headers : List (Bytes × Bytes) → Request → Request
set_headers [] r = r
set_headers (f ∷ fs) r = set_headers fs (set_header f.0 f.1 r)

-- The same request with another buffer and place in it.
abbrev pub moved : Buffer → ℕ → ℕ → ParseState → Request → Request
moved b c o s r = record r { buffer = b; cur_line = c; read_offset = o; state = s }

pub Plain-append : (s t : Bytes) → IsPlain s → IsPlain t → IsPlain (s ++ t)
Plain-append s t (a, b, c) (d, e, f) = (
  All-append (λ x. x ≢ 13) s t a d,
  All-append (λ x. x ≢ 10) s t b e,
  All-append (λ x. x ≢ 0) s t c f,
)

pub c_string-plain : (s : Bytes) → Free 0 s → c_string s ≡ s
unfolding c_string
c_string-plain [] f = refl
c_string-plain (c ∷ s) f = ground (arith, c_string-plain s f.1)

field_line-IsPlain : (f : Bytes × Bytes) → IsField f → IsPlain (field_line f)
field_line-IsPlain f h =
    let (a, b, c) = h.value_plain in
    Plain-append f.0 (b':' ∷ b' ' ∷ f.1) h.key_plain (
      (omega arith, (omega arith, a)),
      (omega arith, (omega arith, b)),
      (omega arith, (omega arith, c)),
    )

module _ (b : Buffer) (c o : ℕ) (s : ParseState) where
  if-moved :
      (t : Bool) (p q : Request)
      → (if t then moved b c o s p else moved b c o s q) ≡ moved b c o s (if t then p else q)
  if-moved true p q = refl
  if-moved false p q = refl

  module _ (k v : Bytes) where
    set_connection-moved :
        (r : Request) → set_connection k v (moved b c o s r) ≡ moved b c o s (set_connection k v r)
    unfolding set_connection
    set_connection-moved r = if-moved (bytes_eq k connection_key) _ r

    set_length-moved :
        (r : Request) → set_length k v (moved b c o s r) ≡ moved b c o s (set_length k v r)
    unfolding set_length
    set_length-moved r = if-moved (bytes_eq k length_key) _ r

    set_type-moved : (r : Request) → set_type k v (moved b c o s r) ≡ moved b c o s (set_type k v r)
    unfolding set_type
    set_type-moved r = if-moved (bytes_eq k type_key) _ r

    pub set_header-moved :
        (r : Request) → set_header k v (moved b c o s r) ≡ moved b c o s (set_header k v r)
    unfolding set_header
    set_header-moved r =
        ap (λ (q : Request). record q { headers = insert k v q.headers })
          (ap (λ q. set_type k v (set_length k v q)) (set_connection-moved r)
            ∙ (ap (set_type k v) (set_length-moved (set_connection k v r))
                ∙ set_type-moved (set_length k v (set_connection k v r))))

  pub set_headers-moved :
      (fs : List (Bytes × Bytes)) (r : Request)
      → set_headers fs (moved b c o s r) ≡ moved b c o s (set_headers fs r)
  unfolding set_headers
  set_headers-moved [] r = refl
  set_headers-moved (f ∷ fs) r =
      ap (set_headers fs) (set_header-moved f.0 f.1 r) ∙ set_headers-moved fs (set_header f.0 f.1 r)

strip_end-tidy : (s : Bytes) → trim_right blank s ≡ s → strip_end s ≡ s
unfolding strip_end
strip_end-tidy s h = rw h (same (bytes_eq s []))
  where
    same : (t : Bool) → (if t then s else s) ≡ s
    same true = refl
    same false = refl

split_header-field :
    (f : Bytes × Bytes) (r : Request)
    → IsField f
    → split_header (cut_at b':' (field_line f)) r ≡ (set_header f.0 f.1 r, true)
unfolding split_header trim_left has_byte
split_header-field f r h =
    rw
      (
        cut_at-append b':' f.0 (b' ' ∷ f.1) h.no_colon,
        split_header,
        strip_end-tidy f.0 h.key_end,
        h.value_begin,
        strip_end-tidy f.1 h.value_end,
      )
      refl

-- A field's line is read in one round of the loop, and the rest of the loop goes on with the
-- header set and the line taken out.
pub parse_loop-going :
    (fuel : ℕ) (r : Request)
    → is_body r.state ≡ false
    → parse_loop (suc fuel) r ≡ after_line (parse_loop fuel) (parse_line r)
unfolding parse_loop
parse_loop-going fuel r h = rw h refl

pub header_not_body : is_body parsing_header ≡ false
unfolding is_body
header_not_body = refl

pub parse_loop-stopped :
    (fuel : ℕ) (r : Request)
    → is_body r.state ≡ true
    → parse_loop (suc fuel) r ≡ some (r, stopped line_ok)
unfolding parse_loop
parse_loop-stopped fuel r h = rw h refl

header_or_end-filled :
    (k v : Bytes) (r : Request) → header_or_end (k ++ (b':' ∷ v)) r ≡ parse_header r
unfolding header_or_end
header_or_end-filled [] v r = refl
header_or_end-filled (c ∷ k) v r = refl

module _ (f : Bytes × Bytes) (rest : Bytes) (r : Request) (h : IsField f) (v : IsValid r.buffer)
    (fresh : start_offset r.read_offset ≡ 0) (at_header : r.state ≡ parsing_header)
    (text : content r.buffer ≡ field_line f ++ (13 ∷ 10 ∷ rest)) where
  abbrev pub read : Request
  read = taken (length (field_line f)) r

  pub line_read :
      (parse_line r ≡ (read, line_ok))
      × (current_line read ≡ field_line f)
      × IsValid read.buffer
      × (content read.buffer ≡ left (field_line f) rest)
  line_read =
      let (a, b, c) = field_line-IsPlain f h in
      let (e, l, w, u) = parse_line_lem (field_line f) rest r v fresh text a b in
      (e, l ∙ c_string-plain (field_line f) c, w, u)

  header_read : dispatch parsing_header read ≡ (set_header f.0 f.1 read, true)
  unfolding dispatch parse_header
  header_read =
      ap (λ l. header_or_end l read) line_read.1
      ∙ (header_or_end-filled f.0 (b' ' ∷ f.1) read
          ∙ (ap (λ l. split_header (cut_at b':' l) read) line_read.1 ∙ split_header-field f read h))

  pub parse_loop-field :
      (fuel : ℕ) → parse_loop (suc fuel) r ≡ parse_loop fuel (set_header f.0 f.1 read)
  unfolding after_line after_dispatch taken
  parse_loop-field fuel =
      parse_loop-going fuel r (ap is_body at_header ∙ header_not_body)
      ∙ (ap (after_line (parse_loop fuel)) line_read.0
          ∙ ap (after_dispatch (parse_loop fuel))
              (ap (λ s. dispatch s read) at_header ∙ header_read))
