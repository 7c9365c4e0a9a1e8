-- ===== src/Connection/Query.antt =====
-- `split_path_and_query` of http/httpconnection.cpp: the path and the query parameters of a URL.
use uco.Prelude.{
  ℕ, ◌/◌, ◌%◌, ◌<◌, ◌≡◌, ◌≢◌, refl, sym, ap, ap₂, ◌∙◌, true, false, List, [], ◌∷◌, ◌++◌, map,
  Option, none, some, ◌==◌, if◌then◌else◌, arith, Bool-cases, inl, inr,
}
use mathlib.Core.List.{append-nil, append_assoc}
use uco.Prelude.Bytes.{Bytes, IsBytes, All, All-append, Free, cut_at, cut_at-append}
use uco.Prelude.Dict.{insert}
use uco.Text.Url.{
  url_encode, url_decode, url_decode-url_encode, is_unreserved, is_alnum, upper_hex_digit,
}

-- The piece at the end of the text; `getline` fails where nothing is left to read.
unfoldable pub last_piece : Bytes → List Bytes
last_piece [] = []
last_piece (x ∷ piece) = (x ∷ piece) ∷ []

-- `getline(ss, kv, '&')` until it fails, with the piece so far.
unfoldable pub pieces_from : Bytes → Bytes → List Bytes
pieces_from piece [] = last_piece piece
pieces_from piece (c ∷ s) =
    let ended = pieces_from [] s in
    let longer = pieces_from (piece ++ (c ∷ [])) s in if c == b'&' then piece ∷ ended else longer

abbrev pub Params : Type 0
Params = List (Bytes × Bytes)

unfoldable pub set_param : Bytes → Option (Bytes × Bytes) → Params → Params
set_param kv none params = insert (url_decode true kv) [] params
set_param kv (some (key, val)) params = insert (url_decode true key) (url_decode true val) params

unfoldable pub set_params : List Bytes → Params → Params
set_params [] params = params
set_params (kv ∷ rest) params = set_params rest (set_param kv (cut_at b'=' kv) params)

unfoldable pub split_query : Bytes → Option (Bytes × Bytes) → Bytes × Params
split_query url none = (url, [])
split_query url (some (path, query)) = (path, set_params (pieces_from [] query) [])

unfoldable pub split_path_and_query : Bytes → Bytes × Params
split_path_and_query url = split_query url (cut_at b'?' url)

-- A parameter as a client writes it, and a query of them.
abbrev pub written : Bytes × Bytes → Bytes
written p = url_encode p.0 ++ (b'=' ∷ url_encode p.1)

abbrev pub query_text : Params → Bytes
query_text [] = []
query_text (p ∷ []) = written p
query_text (p ∷ q ∷ ps) = written p ++ (b'&' ∷ query_text (q ∷ ps))

abbrev pub insert_all : Params → Params → Params
insert_all [] m = m
insert_all (p ∷ ps) m = insert_all ps (insert p.0 p.1 m)

upper_hex_digit-plain : (v : ℕ) → v < 16 → (upper_hex_digit v ≢ b'&') × (upper_hex_digit v ≢ b'=')
unfolding upper_hex_digit
upper_hex_digit-plain v h = (ground arith, ground arith)

unreserved-plain : (c : ℕ) → is_unreserved c ≡ true → (c ≢ b'&') × (c ≢ b'=')
unfolding is_unreserved is_alnum
unreserved-plain c h = (ground arith, ground arith)

-- An encoded text has no `&` and no `=`.
pub url_encode-Free : (s : Bytes) → IsBytes s → Free b'&' (url_encode s) × Free b'=' (url_encode s)
unfolding url_encode
url_encode-Free [] h = (tt, tt)
url_encode-Free (c ∷ s) h = elim (Bool-cases (is_unreserved c)) [
  | inl plain ↦
      let (a, b) = unreserved-plain c plain in
      let (f, g) = url_encode-Free s h.1 in rw plain ((a, f), (b, g))
  | inr other ↦
      let (a, b) = upper_hex_digit-plain (c / 16) (omega (arith, h.0)) in
      let (a', b') = upper_hex_digit-plain (c % 16) (omega arith) in
      let (f, g) = url_encode-Free s h.1 in
      rw other ((omega arith, (a, (a', f))), (omega arith, (b, (b', g))))
]

pieces_from-append :
    (piece s t : Bytes) → Free b'&' s → pieces_from piece (s ++ t) ≡ pieces_from (piece ++ s) t
unfolding pieces_from
pieces_from-append piece [] t f = rw (append-nil piece)
pieces_from-append piece (c ∷ s) t f =
    let miss : (c == b'&') ≡ false = ground (arith, f.0) in
    rw miss (
      pieces_from-append (piece ++ (c ∷ [])) s t f.1
      ∙ ap (λ u. pieces_from u t) (append_assoc piece (c ∷ []) s))

-- Parameters of bytes.
abbrev pub IsParam : Bytes × Bytes → Type 0
IsParam p = IsBytes p.0 × IsBytes p.1

written-Free : (p : Bytes × Bytes) → IsParam p → Free b'&' (written p)
written-Free p h =
    All-append (λ x. x ≢ b'&') (url_encode p.0) (b'=' ∷ url_encode p.1) (url_encode-Free p.0 h.0).0
      (omega arith, (url_encode-Free p.1 h.1).0)

last_piece-written : (k v : Bytes) → last_piece (k ++ (b'=' ∷ v)) ≡ (k ++ (b'=' ∷ v)) ∷ []
unfolding last_piece
last_piece-written [] v = refl
last_piece-written (c ∷ k) v = refl

pub pieces_from-query_text :
    (ps : Params) → All IsParam ps → pieces_from [] (query_text ps) ≡ map written ps
unfolding pieces_from last_piece
pieces_from-query_text [] h = refl
pieces_from-query_text (p ∷ []) h =
    ap (pieces_from []) (sym (append-nil (written p)))
    ∙ (pieces_from-append [] (written p) [] (written-Free p h.0)
        ∙ last_piece-written (url_encode p.0) (url_encode p.1))
pieces_from-query_text (p ∷ q ∷ ps) h =
    pieces_from-append [] (written p) (b'&' ∷ query_text (q ∷ ps)) (written-Free p h.0)
    ∙ ap (λ l. written p ∷ l) (pieces_from-query_text (q ∷ ps) h.1)

set_params-written :
    (ps m : Params) → All IsParam ps → set_params (map written ps) m ≡ insert_all ps m
unfolding set_params set_param
set_params-written [] m h = refl
set_params-written (p ∷ ps) m h =
    ap (λ o. set_params (map written ps) (set_param (written p) o m))
      (cut_at-append b'=' (url_encode p.0) (url_encode p.1) (url_encode-Free p.0 h.0.0).1)
    ∙ (ap₂ (λ a b. set_params (map written ps) (insert a b m))
          (url_decode-url_encode true p.0 h.0.0) (url_decode-url_encode true p.1 h.0.1)
        ∙ set_params-written ps (insert p.0 p.1 m) h.1)

-- A URL made of a path without `?` and a query in which each key and value is encoded is cut into
-- the path and the parameters, as inserted one after the other.
pub split_path_and_query-query_text :
    (path : Bytes) (ps : Params)
    → Free b'?' path
    → All IsParam ps
    → split_path_and_query (path ++ (b'?' ∷ query_text ps)) ≡ (path, insert_all ps [])
unfolding split_path_and_query split_query
split_path_and_query-query_text path ps f h =
    ap (split_query (path ++ (b'?' ∷ query_text ps))) (cut_at-append b'?' path (query_text ps) f)
    ∙ ap (λ m. (path, m))
        (ap (λ l. set_params l []) (pieces_from-query_text ps h) ∙ set_params-written ps [] h)
