-- ===== src/Connection/Form.antt =====
-- `parse_urlencoded` of http/httpserver.cpp: the fields of a form body. Its loop cuts the body at `&`
-- as the query's `getline` does: nothing comes after a last `&`, and an empty piece is an item.
use uco.Prelude.{
  ◌≡◌, refl, sym, ap, ap₂, ◌∙◌, Bool, true, false, not, ◌&&◌, ◌||◌, List, [], ◌∷◌, ◌++◌, map,
  Option, none, some, if◌then◌else◌, arith, Bool-cases, inl, inr,
}
use mathlib.Core.List.{append-nil, append_assoc}
use uco.Prelude.Bytes.{Bytes, bytes_eq, All, cut_at, cut_at-append}
use uco.Prelude.Dict.{lookup, insert}
use uco.Text.Url.{url_encode, decode_component, decode_component-url_encode}
use uco.Connection.Query.{
  pieces_from, Params, written, query_text, IsParam, url_encode-Free, pieces_from-query_text,
}

unfoldable pub emplaced : Option Bytes → Bytes → Bytes → Params → Option Params
emplaced none key val fields = some (insert key val fields)
emplaced (some old) key val fields = none

-- `key.empty()` and `fields.emplace(...)`: a key that is empty or there already is an error.
unfoldable pub add_field : Bytes → Bytes → Params → Option Params
add_field [] val fields = none
add_field (c ∷ key) val fields = emplaced (lookup (c ∷ key) fields) (c ∷ key) val fields

unfoldable pub add_decoded : Option Bytes → Option Bytes → Params → Option Params
add_decoded (some key) (some val) fields = add_field key val fields
add_decoded _ _ fields = none

unfoldable pub add_item : Option (Bytes × Bytes) → Params → Option Params
add_item none fields = none
add_item (some (key, val)) fields = add_decoded (decode_component key) (decode_component val) fields

unfoldable pub and_then : Option Params → (Params → Option Params) → Option Params
and_then none next = none
and_then (some fields) next = next fields

unfoldable pub add_items : List Bytes → Params → Option Params
add_items [] fields = some fields
add_items (item ∷ items) fields = and_then (add_item (cut_at b'=' item) fields) (add_items items)

-- `return !fields.empty()`.
unfoldable pub some_fields : Option Params → Option Params
some_fields (some (f ∷ fields)) = some (f ∷ fields)
some_fields _ = none

unfoldable pub parse_urlencoded : Bytes → Option Params
parse_urlencoded body = some_fields (add_items (pieces_from [] body) [])

-- Whether a field has this key, and whether each key is not empty and none of those before it.
unfoldable pub has_key : Bytes → Params → Bool
has_key k [] = false
has_key k (p ∷ ps) = bytes_eq p.0 k || has_key k ps

unfoldable pub keys_fresh : Params → Params → Bool
keys_fresh before [] = true
keys_fresh before (p ∷ ps) =
    not (bytes_eq p.0 [] || has_key p.0 before) && keys_fresh (before ++ (p ∷ [])) ps

-- No field at all.
abbrev pub is_none : Params → Bool
is_none [] = true
is_none (p ∷ ps) = false

lookup-absent : (k : Bytes) (ps : Params) → has_key k ps ≡ false → lookup k ps ≡ none
unfolding lookup has_key
lookup-absent k [] h = refl
lookup-absent k (p ∷ ps) h = ground (arith, lookup-absent k ps)

insert-absent :
    (k v : Bytes) (ps : Params) → has_key k ps ≡ false → insert k v ps ≡ ps ++ ((k, v) ∷ [])
unfolding insert has_key
insert-absent k v [] h = refl
insert-absent k v (p ∷ ps) h = ground (arith, insert-absent k v ps)

lookup-present :
    (k : Bytes) (ps : Params) → has_key k ps ≡ true → (v : Bytes) × (lookup k ps ≡ some v)
unfolding lookup has_key
lookup-present k [] h = cc
lookup-present k (p ∷ ps) h = elim (Bool-cases (bytes_eq p.0 k)) [
  | inl e ↦ (p.1, rw e refl)
  | inr e ↦ let (v, f) = lookup-present k ps (ground arith) in (v, rw e f)
]

add_field-lem :
    (k v : Bytes) (ps : Params)
    → add_field k v ps
      ≡ (if bytes_eq k [] || has_key k ps then none else some (ps ++ ((k, v) ∷ [])))
unfolding add_field emplaced bytes_eq
add_field-lem [] v ps = refl
add_field-lem (c ∷ k) v ps = elim (Bool-cases (has_key (c ∷ k) ps)) [
  | inl e ↦ let (old, f) = lookup-present (c ∷ k) ps e in rw (f, e) refl
  | inr e ↦ rw (lookup-absent (c ∷ k) ps e, e) (ap some (insert-absent (c ∷ k) v ps e))
]

add_items-written :
    (ps fields : Params)
    → All IsParam ps
    → add_items (map written ps) fields
      ≡ (if keys_fresh fields ps then some (fields ++ ps) else none)
unfolding add_items keys_fresh add_item add_decoded and_then
add_items-written [] fields h = ap some (sym (append-nil fields))
add_items-written (p ∷ ps) fields h =
    ap (λ o. and_then (add_item o fields) (add_items (map written ps)))
      (cut_at-append b'=' (url_encode p.0) (url_encode p.1) (url_encode-Free p.0 h.0.0).1)
    ∙ (ap₂ (λ a b. and_then (add_decoded a b fields) (add_items (map written ps)))
          (decode_component-url_encode p.0 h.0.0) (decode_component-url_encode p.1 h.0.1)
        ∙ (ap (λ o. and_then o (add_items (map written ps))) (add_field-lem p.0 p.1 fields)
            ∙ (elim (Bool-cases (bytes_eq p.0 [] || has_key p.0 fields)) [
              | inl e ↦ rw e refl
              | inr e ↦
                  rw
                    (
                      e,
                      add_items-written ps (fields ++ (p ∷ [])) h.1,
                      append_assoc fields (p ∷ []) ps,
                    )
                    refl
            ])))

-- A form body in which each key and value is encoded gives the fields that were written, in order, if
-- there are any, no key is empty and no key stands twice; otherwise it is refused.
pub parse_urlencoded-query_text :
    (ps : Params)
    → All IsParam ps
    → parse_urlencoded (query_text ps)
      ≡ (if keys_fresh [] ps && not (is_none ps) then some ps else none)
unfolding parse_urlencoded some_fields keys_fresh
parse_urlencoded-query_text [] h =
    ap (λ l. some_fields (add_items l [])) (pieces_from-query_text [] h)
    ∙ ap some_fields (add_items-written [] [] h)
parse_urlencoded-query_text (p ∷ ps) h =
    ap (λ l. some_fields (add_items l [])) (pieces_from-query_text (p ∷ ps) h)
    ∙ (ap some_fields (add_items-written (p ∷ ps) [] h)
        ∙ (elim (Bool-cases (keys_fresh [] (p ∷ ps))) [ inl e ↦ simp (e) | inr e ↦ simp (e) ]))
