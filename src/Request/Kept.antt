-- ===== src/Request/Kept.antt =====
-- What `Parse` of http/httprequest.cpp does with a line leaves the buffer as it is.
use uco.Prelude.{
  ◌≡◌, refl, ◌∙◌, Bool, true, false, [], ◌∷◌, Option, none, some, if◌then◌else◌, Bool-cases, inl,
  inr,
}
use uco.Prelude.Bytes.{Bytes, bytes_eq}
use uco.Text.Search.{starts_with}
use uco.Buffer.{Buffer}
use uco.Request.State.{
  ParseState, parsing_start, parsing_request_line, parsing_header, parsing_body, parsing_finish,
  Request, current_line,
}
use uco.Request.Parse.{
  set_connection, set_length, set_type, set_header, split_header, parse_header, set_version,
  set_protocol, split_path_end, split_method_end, parse_request_line, header_or_end, dispatch,
  connection_key, length_key, type_key, http_prefix,
}

if-buffer :
    (t : Bool) (p q : Request) (b : Buffer)
    → p.buffer ≡ b
    → q.buffer ≡ b
    → (if t then p else q).buffer ≡ b
if-buffer true p q b h k = h
if-buffer false p q b h k = k

set_connection-buffer : (k v : Bytes) (r : Request) → (set_connection k v r).buffer ≡ r.buffer
unfolding set_connection
set_connection-buffer k v r = if-buffer (bytes_eq k connection_key) _ r r.buffer refl refl

set_length-buffer : (k v : Bytes) (r : Request) → (set_length k v r).buffer ≡ r.buffer
unfolding set_length
set_length-buffer k v r = if-buffer (bytes_eq k length_key) _ r r.buffer refl refl

set_type-buffer : (k v : Bytes) (r : Request) → (set_type k v r).buffer ≡ r.buffer
unfolding set_type
set_type-buffer k v r = if-buffer (bytes_eq k type_key) _ r r.buffer refl refl

set_header-buffer : (k v : Bytes) (r : Request) → (set_header k v r).buffer ≡ r.buffer
unfolding set_header
set_header-buffer k v r =
    set_type-buffer k v (set_length k v (set_connection k v r))
    ∙ (set_length-buffer k v (set_connection k v r) ∙ set_connection-buffer k v r)

split_header-buffer :
    (o : Option (Bytes × Bytes)) (r : Request) → (split_header o r).0.buffer ≡ r.buffer
unfolding split_header
split_header-buffer none r = refl
split_header-buffer (some (k, v)) r = set_header-buffer _ _ r

set_version-buffer :
    (p : Bytes) (o : Option (Bytes × Bytes)) (r : Request) → (set_version p o r).buffer ≡ r.buffer
unfolding set_version
set_version-buffer p none r = refl
set_version-buffer p (some (a, b)) r = refl

split_path_end-buffer :
    (o : Option (Bytes × Bytes)) (r : Request) → (split_path_end o r).0.buffer ≡ r.buffer
unfolding split_path_end set_protocol
split_path_end-buffer none r = refl
split_path_end-buffer (some (p, q)) r = elim (Bool-cases (starts_with q http_prefix)) [
  | inl http ↦ rw http (set_version-buffer _ _ _)
  | inr other ↦ rw other refl
]

split_method_end-buffer :
    (o : Option (Bytes × Bytes)) (r : Request) → (split_method_end o r).0.buffer ≡ r.buffer
unfolding split_method_end
split_method_end-buffer none r = refl
split_method_end-buffer (some (m, rest)) r = split_path_end-buffer _ _

header_or_end-buffer : (l : Bytes) (r : Request) → (header_or_end l r).0.buffer ≡ r.buffer
unfolding header_or_end parse_header
header_or_end-buffer [] r = refl
header_or_end-buffer (c ∷ l) r = split_header-buffer _ r

pub dispatch-buffer : (s : ParseState) (r : Request) → (dispatch s r).0.buffer ≡ r.buffer
unfolding dispatch parse_request_line
dispatch-buffer parsing_start r = refl
dispatch-buffer parsing_request_line r = split_method_end-buffer _ r
dispatch-buffer parsing_header r = header_or_end-buffer (current_line r) r
dispatch-buffer parsing_body r = refl
dispatch-buffer parsing_finish r = refl
