-- ===== src/Session/RoundTrip.antt =====
-- http/session.cpp: what is dumped as flat JSON is read back.
use uco.Prelude.{
  ℕ, zero, suc, ◌/◌, ◌%◌, ◌≡◌, ◌≢◌, ◌≤◌, ◌<◌, refl, ap, ◌∙◌, true, false, [], ◌∷◌, ◌++◌, Option,
  none, some, length, length-append, arith,
}
use mathlib.Core.List.{append_assoc}
use uco.Prelude.Bytes.{Bytes, IsBytes, All}
use uco.Prelude.Dict.{lookup, insert}
use uco.Text.Chars.{char_to_hex}
use uco.Text.Hex.{hex_digit, char_to_hex-hex_digit}
use uco.Session.Json.{
  escape_char, escape, json_string, Values, dump_rest, dump_session_json, is_ws, skip_ws, eat_first,
  eat, utf8, hex_value, parse_hex4, surrogates, in_front, unicode_escape, escaped, string_loop,
  string_behind, parse_string, emplace_at, emplace, after_member, member_value, behind_colon,
  member_key, members, parse_members, parse_object, is_end, whole, parse_session_json,
}

char_to_hex-zero : char_to_hex b'0' ≡ some 0
unfolding char_to_hex
char_to_hex-zero = refl

parse_hex4-control :
    (ch : ℕ) (t : Bytes)
    → ch < 32
    → parse_hex4 (b'0' ∷ b'0' ∷ hex_digit (ch / 16) ∷ hex_digit (ch % 16) ∷ t) ≡ some (ch, t)
unfolding parse_hex4 hex_value
parse_hex4-control ch t h =
    rw
      (
        char_to_hex-zero,
        char_to_hex-hex_digit (ch / 16) (omega arith),
        char_to_hex-hex_digit (ch % 16) (omega arith),
      )
      (ap (λ (v : ℕ). some (v, t)) (omega arith))

surrogates-control : (ch : ℕ) (t : Bytes) → ch < 32 → surrogates ch t ≡ (ch, t)
unfolding surrogates
surrogates-control ch [] h = ground arith
surrogates-control ch (b ∷ []) h = ground arith
surrogates-control ch (b ∷ u ∷ t) h = ground arith

utf8-control : (ch : ℕ) → ch < 32 → utf8 ch ≡ ch ∷ []
unfolding utf8
utf8-control ch h = ground arith

unicode_escape-control :
    (next : Bytes → Option (Bytes × Bytes)) (ch : ℕ) (t : Bytes)
    → ch < 32
    → unicode_escape next (some (ch, t)) ≡ in_front (ch ∷ []) (next t)
unfolding unicode_escape
unicode_escape-control next ch t h = rw (surrogates-control ch t h, utf8-control ch h) refl

escaped-control :
    (next : Bytes → Option (Bytes × Bytes)) (ch : ℕ) (t : Bytes)
    → ch < 32
    → escaped next (b'u' ∷ b'0' ∷ b'0' ∷ hex_digit (ch / 16) ∷ hex_digit (ch % 16) ∷ t)
      ≡ in_front (ch ∷ []) (next t)
unfolding escaped
escaped-control next ch t h = rw (parse_hex4-control ch t h) (unicode_escape-control next ch t h)

-- One character in its escaped form is read in one round.
string_loop-escape_char :
    (fuel ch : ℕ) (t : Bytes)
    → ch < 256
    → string_loop (suc fuel) (escape_char ch ++ t) ≡ in_front (ch ∷ []) (string_loop fuel t)
unfolding string_loop escape_char escaped in_front
string_loop-escape_char fuel ch t h = ground (arith, escaped-control (string_loop fuel) ch t)

string_loop-escape :
    (fuel : ℕ) (s rest : Bytes)
    → IsBytes s
    → length s < fuel
    → string_loop fuel (escape s ++ (b'"' ∷ rest)) ≡ some (s, rest)
unfolding escape in_front
string_loop-escape zero s rest b h = absurd (omega arith)
string_loop-escape (suc fuel) [] rest b h = unfold string_loop in refl
string_loop-escape (suc fuel) (ch ∷ s) rest b h =
    ap (string_loop (suc fuel)) (append_assoc (escape_char ch) (escape s) (b'"' ∷ rest))
    ∙ string_loop-escape_char fuel ch (escape s ++ (b'"' ∷ rest)) b.0
    ∙ ap (in_front (ch ∷ [])) (string_loop-escape fuel s rest b.1 (omega arith))

length-escape_char : (ch : ℕ) → 0 < length (escape_char ch)
unfolding escape_char
length-escape_char ch = ground arith

length-escape : (s : Bytes) → length s ≤ length (escape s)
unfolding escape
length-escape [] = omega arith
length-escape (ch ∷ s) =
    omega (arith, length-escape_char ch, length-escape s, length-append (escape_char ch) (escape s))

pub eat_self : (c : ℕ) (s : Bytes) → is_ws c ≡ false → eat c (c ∷ s) ≡ some s
unfolding eat eat_first skip_ws
eat_self c s h = ground arith

pub eat_other : (c x : ℕ) (s : Bytes) → is_ws x ≡ false → x ≢ c → eat c (x ∷ s) ≡ none
unfolding eat eat_first skip_ws
eat_other c x s h n = ground arith

-- A text is read back from its JSON form, with any bytes behind it.
pub parse_string-json_string :
    (s rest : Bytes) → IsBytes s → parse_string (json_string s ++ rest) ≡ some (s, rest)
unfolding parse_string json_string string_behind is_ws
parse_string-json_string s rest b =
    rw
      (
        append_assoc (escape s) (b'"' ∷ []) rest,
        eat_self b'"' (escape s ++ (b'"' ∷ rest)) refl,
        string_behind,
      )
      (string_loop-escape (length (escape s ++ (b'"' ∷ rest))) s rest b
        (omega (arith, length-escape s, length-append (escape s) (b'"' ∷ rest))))

-- No key stands twice, nor among the entries before.
abbrev pub Fresh : Values → Values → Type 0
Fresh kv [] = Unit
Fresh kv ((k, v) ∷ l) = (lookup k kv ≡ none) × Fresh (kv ++ ((k, v) ∷ [])) l

abbrev pub AreBytes : Values → Type 0
AreBytes l = All (λ (e : Bytes × Bytes). IsBytes e.0 × IsBytes e.1) l

insert-Fresh :
    (k v : Bytes) (kv : Values) → lookup k kv ≡ none → insert k v kv ≡ kv ++ ((k, v) ∷ [])
unfolding insert lookup
insert-Fresh k v [] h = refl
insert-Fresh k v ((j, w) ∷ kv) h = ground (arith, insert-Fresh k v kv)

abbrev body : Bytes → Bytes → Values → Bytes
body k v l = json_string k ++ (b':' ∷ (json_string v ++ dump_rest l))

members-first :
    (fuel : ℕ) (kv : Values) (k v : Bytes) (l : Values)
    → lookup k kv ≡ none
    → IsBytes k
    → IsBytes v
    → members (suc fuel) kv (body k v l)
      ≡ after_member (members fuel) (kv ++ ((k, v) ∷ [])) (dump_rest l) (eat b',' (dump_rest l))
unfolding members member_key behind_colon is_ws emplace emplace_at member_value
members-first fuel kv k v l f bk bv =
    rw
      (
        parse_string-json_string k (b':' ∷ (json_string v ++ dump_rest l)) bk,
        member_key,
        eat_self b':' (json_string v ++ dump_rest l) refl,
        behind_colon,
        parse_string-json_string v (dump_rest l) bv,
        member_value,
        f,
        emplace_at,
        insert-Fresh k v kv f,
      )
      refl

members-body :
    (fuel : ℕ) (kv : Values) (k v : Bytes) (l : Values)
    → length l < fuel
    → Fresh kv ((k, v) ∷ l)
    → AreBytes ((k, v) ∷ l)
    → members fuel kv (body k v l) ≡ (kv ++ ((k, v) ∷ l), some [])
unfolding after_member dump_rest is_ws
members-body zero kv k v l h f b = absurd (omega arith)
members-body (suc fuel) kv k v [] h f b =
    members-first fuel kv k v [] f.0 b.0.0 b.0.1
    ∙ rw (eat_other b',' b'}' [] refl (omega arith), after_member, eat_self b'}' [] refl) refl
members-body (suc fuel) kv k v ((k', v') ∷ l) h f b =
    members-first fuel kv k v ((k', v') ∷ l) f.0 b.0.0 b.0.1
    ∙ rw (eat_self b',' (body k' v' l) refl, after_member)
        (members-body fuel (kv ++ ((k, v) ∷ [])) k' v' l (omega arith) f.1 b.1)
    ∙ ap (λ (m : Values). (m, some [])) (append_assoc kv ((k, v) ∷ []) ((k', v') ∷ l))

length-dump_rest : (l : Values) → length l < length (dump_rest l)
unfolding dump_rest
length-dump_rest [] = omega arith
length-dump_rest ((k, v) ∷ l) = omega (
  arith,
  length-dump_rest l,
  length-append (json_string k) (b':' ∷ (json_string v ++ dump_rest l)),
  length-append (json_string v) (dump_rest l),
)

parse_object-body :
    (k v : Bytes) (l : Values)
    → parse_object (some (body k v l)) ≡ members (length (body k v l)) [] (body k v l)
unfolding parse_object parse_members skip_ws is_ws json_string
parse_object-body k v l = refl

-- Values with a key at most once each, of any bytes, are read back from their JSON form, and the text
-- is accepted as a whole.
pub parse_session_json-dump :
    (l : Values) → Fresh [] l → AreBytes l → parse_session_json (dump_session_json l) ≡ (l, true)
unfolding parse_session_json dump_session_json parse_object parse_members whole is_end skip_ws
    json_string eat eat_first is_ws
parse_session_json-dump [] f b = refl
parse_session_json-dump ((k, v) ∷ l) f b =
    ap (λ (p : Values × Option Bytes). (p.0, whole p.1))
      (parse_object-body k v l
        ∙ members-body (length (body k v l)) [] k v l
            (omega (
              arith,
              length-dump_rest l,
              length-append (json_string k) (b':' ∷ (json_string v ++ dump_rest l)),
              length-append (json_string v) (dump_rest l),
            ))
            f b)
