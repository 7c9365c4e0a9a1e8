-- ===== src/Request/Described.antt =====
-- The request that a head of http/httprequest.cpp describes, field by field.
use uco.Prelude.{
  ℕ, ◌≡◌, refl, ap, ◌∙◌, Bool, true, false, not, ◌&&◌, List, [], ◌∷◌, Option, none, some, ◌==◌,
  if◌then◌else◌, Bool-cases, inl, inr,
}
use uco.Prelude.Bytes.{Bytes, bytes_eq, cut_at}
use uco.Prelude.Ascii.{ascii}
use uco.Prelude.Dict.{insert}
use uco.Request.Numbers.{from_chars_int, atoi}
use uco.Request.State.{Request, parsing_header}
use uco.Request.Parse.{
  set_connection, set_length, set_type, set_header, set_version, set_protocol, connection_key,
  length_key, type_key,
}
use uco.Request.Fields.{set_headers}

-- What the code makes of a head.
unfoldable pub request_of : Bytes → Bytes → Bytes → List (Bytes × Bytes) → Request → Request
request_of m p q fs r = set_headers fs (set_protocol q (record r { method = m; path = p }))

-- The value of the last field with this key.
abbrev later : Option Bytes → Bool → Bytes → Option Bytes
later none found v = if found then some v else none
later (some w) found v = some w

abbrev last_of : Bytes → List (Bytes × Bytes) → Option Bytes
last_of key [] = none
last_of key (f ∷ fs) = later (last_of key fs) (bytes_eq f.0 key) f.1

abbrev from_last : {A : Type 0} → Option Bytes → (Bytes → A) → A → A
from_last none g old = old
from_last (some v) g old = g v

abbrev all_inserted : List (Bytes × Bytes) → List (Bytes × Bytes) → List (Bytes × Bytes)
all_inserted [] m = m
all_inserted (f ∷ fs) m = all_inserted fs (insert f.0 f.1 m)

-- The numbers before and behind the first dot, where they can be read; the old ones otherwise.
abbrev major_of : Bytes → Option (Bytes × Bytes) → ℕ → ℕ
major_of q none old = from_chars_int q old
major_of q (some (a, b)) old = from_chars_int a old

abbrev minor_of : Option (Bytes × Bytes) → ℕ → ℕ
minor_of none old = old
minor_of (some (a, b)) old = from_chars_int b old

abbrev pub described : Bytes → Bytes → Bytes → List (Bytes × Bytes) → Request → Request
described m p q fs r =
    let major = major_of q (cut_at b'.' q) r.version_major in
    let minor = minor_of (cut_at b'.' q) r.version_minor in
    record r {
      method = m;
      path = p;
      protocol = q;
      version_major = major;
      version_minor = minor;
      headers = all_inserted fs r.headers;
      content_length = from_last (last_of (ascii "Content-Length") fs) atoi r.content_length;
      content_type = from_last (last_of (ascii "Content-Type") fs) (λ v. v) r.content_type;
      keep_alive =
          from_last (last_of (ascii "Connection") fs) (λ v. bytes_eq v (ascii "keep-alive"))
            (not (major == 1 && minor == 0) && r.keep_alive);
      state = parsing_header;
    }

from_last-later :
    {A : Type 0} (o : Option Bytes) (found : Bool) (v : Bytes) (g : Bytes → A) (old : A)
    → from_last (later o found v) g old ≡ from_last o g (if found then g v else old)
from_last-later none true v g old = refl
from_last-later none false v g old = refl
from_last-later (some w) found v g old = refl

set_header_lem :
    (k v : Bytes) (r : Request)
    → set_header k v r ≡ record r {
      headers = insert k v r.headers;
      content_length = (if bytes_eq k length_key then atoi v else r.content_length);
      content_type = (if bytes_eq k type_key then v else r.content_type);
      keep_alive =
          (if bytes_eq k connection_key then bytes_eq v (ascii "keep-alive") else r.keep_alive);
    }
unfolding set_header set_connection set_length set_type
set_header_lem k v r = elim (Bool-cases (bytes_eq k length_key)) [
  | inl a ↦ elim (Bool-cases (bytes_eq k type_key)) [
    | inl b ↦ elim (Bool-cases (bytes_eq k connection_key)) [
      | inl c ↦ rw (a, b, c) refl
      | inr c ↦ rw (a, b, c) refl
    ]
    | inr b ↦ elim (Bool-cases (bytes_eq k connection_key)) [
      | inl c ↦ rw (a, b, c) refl
      | inr c ↦ rw (a, b, c) refl
    ]
  ]
  | inr a ↦ elim (Bool-cases (bytes_eq k type_key)) [
    | inl b ↦ elim (Bool-cases (bytes_eq k connection_key)) [
      | inl c ↦ rw (a, b, c) refl
      | inr c ↦ rw (a, b, c) refl
    ]
    | inr b ↦ elim (Bool-cases (bytes_eq k connection_key)) [
      | inl c ↦ rw (a, b, c) refl
      | inr c ↦ rw (a, b, c) refl
    ]
  ]
]

set_headers_lem :
    (fs : List (Bytes × Bytes)) (r : Request)
    → set_headers fs r ≡ record r {
      headers = all_inserted fs r.headers;
      content_length = from_last (last_of length_key fs) atoi r.content_length;
      content_type = from_last (last_of type_key fs) (λ v. v) r.content_type;
      keep_alive =
          from_last (last_of connection_key fs) (λ v. bytes_eq v (ascii "keep-alive")) r.keep_alive;
    }
unfolding set_headers
set_headers_lem [] r = refl
set_headers_lem (f ∷ fs) r =
    ap (set_headers fs) (set_header_lem f.0 f.1 r) ∙ (set_headers_lem fs _ ∙ simp (from_last-later))

keeps_unless_old :
    (a b k : Bool) → (if (if a then b else false) then false else k) ≡ not (a && b) && k
keeps_unless_old true true k = refl
keeps_unless_old true false k = refl
keeps_unless_old false b k = refl

set_version_lem :
    (q : Bytes) (o : Option (Bytes × Bytes)) (r : Request)
    → set_version q o (record r { protocol = q }) ≡ record r {
      protocol = q;
      version_major = major_of q o r.version_major;
      version_minor = minor_of o r.version_minor;
    }
unfolding set_version
set_version_lem q none r = refl
set_version_lem q (some (a, b)) r = refl

set_protocol_lem :
    (q : Bytes) (r : Request)
    → let major = major_of q (cut_at b'.' q) r.version_major in
      let minor = minor_of (cut_at b'.' q) r.version_minor in
      set_protocol q r ≡ record r {
        protocol = q;
        version_major = major;
        version_minor = minor;
        keep_alive = not (major == 1 && minor == 0) && r.keep_alive;
        state = parsing_header;
      }
unfolding set_protocol
set_protocol_lem q r =
    let major = major_of q (cut_at b'.' q) r.version_major in
    let minor = minor_of (cut_at b'.' q) r.version_minor in
    ap
      (λ (t : Request). record t {
        keep_alive =
            (if (if t.version_major == 1 then t.version_minor == 0 else false)
              then false
              else t.keep_alive);
        state = parsing_header;
      })
      (set_version_lem q (cut_at b'.' q) r)
    ∙ ap
        (λ (k : Bool). record r {
          protocol = q;
          version_major = major;
          version_minor = minor;
          keep_alive = k;
          state = parsing_header;
        })
        (keeps_unless_old (major == 1) (minor == 0) r.keep_alive)

pub request_of_lem :
    (m p q : Bytes) (fs : List (Bytes × Bytes)) (r : Request)
    → request_of m p q fs r ≡ described m p q fs r
unfolding request_of
request_of_lem m p q fs r =
    ap (set_headers fs) (set_protocol_lem q (record r { method = m; path = p }))
    ∙ set_headers_lem fs _
