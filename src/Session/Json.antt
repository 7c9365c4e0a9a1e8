-- ===== src/Session/Json.antt =====
-- http/session.cpp: the flat JSON that session values and flash messages are kept in. `i` of the
-- parser is the text that is left; `false` is `none`.
use uco.Prelude.{
  ℕ, zero, suc, ◌+◌, ◌-◌, ◌*◌, ◌/◌, ◌%◌, Bool, true, false, ◌&&◌, ◌||◌, List, [], ◌∷◌, ◌++◌, Option,
  none, some, ltb, leb, ◌==◌, if◌then◌else◌, length,
}
use uco.Prelude.Bytes.{Bytes}
use uco.Prelude.Dict.{lookup, insert}
use uco.Text.Chars.{char_to_hex}
use uco.Text.Hex.{hex_digit}

-- The escape of one character in `JsonEscapeAppend`.
unfoldable pub escape_char : ℕ → Bytes
escape_char ch =
    if ch == b'"'
    then 92 ∷ b'"' ∷ []
    else if ch == 92
    then 92 ∷ 92 ∷ []
    else if ch == 8
    then 92 ∷ b'b' ∷ []
    else if ch == 12
    then 92 ∷ b'f' ∷ []
    else if ch == 10
    then 92 ∷ b'n' ∷ []
    else if ch == 13
    then 92 ∷ b'r' ∷ []
    else if ch == 9
    then 92 ∷ b't' ∷ []
    else if ltb ch 32
    then 92 ∷ b'u' ∷ b'0' ∷ b'0' ∷ hex_digit (ch / 16) ∷ hex_digit (ch % 16) ∷ []
    else ch ∷ []

unfoldable pub escape : Bytes → Bytes
escape [] = []
escape (ch ∷ s) = escape_char ch ++ escape s

-- What `JsonEscapeAppend` appends.
unfoldable pub json_string : Bytes → Bytes
json_string s = b'"' ∷ (escape s ++ (b'"' ∷ []))

abbrev pub Values : Type 0
Values = List (Bytes × Bytes)

-- The loop of `DumpSessionJson` behind its first round.
unfoldable pub dump_rest : Values → Bytes
dump_rest [] = b'}' ∷ []
dump_rest ((k, v) ∷ kv) = b',' ∷ (json_string k ++ (b':' ∷ (json_string v ++ dump_rest kv)))

unfoldable pub dump_session_json : Values → Bytes
dump_session_json [] = b'{' ∷ b'}' ∷ []
dump_session_json ((k, v) ∷ kv) = b'{' ∷ (json_string k ++ (b':' ∷ (json_string v ++ dump_rest kv)))

unfoldable pub is_ws : ℕ → Bool
is_ws c = c == b' ' || c == 9 || c == 10 || c == 13

unfoldable pub skip_ws : Bytes → Bytes
skip_ws [] = []
skip_ws (c ∷ s) = let rest = skip_ws s in if is_ws c then rest else c ∷ s

unfoldable pub eat_first : ℕ → Bytes → Option Bytes
eat_first c [] = none
eat_first c (x ∷ s) = if x == c then some s else none

-- `Eat`.
unfoldable pub eat : ℕ → Bytes → Option Bytes
eat c s = eat_first c (skip_ws s)

-- `Utf8Append`.
unfoldable pub utf8 : ℕ → Bytes
utf8 cp =
    if leb cp 127
    then cp ∷ []
    else if leb cp 2047
    then (192 + cp / 64) ∷ (128 + cp % 64) ∷ []
    else if leb cp 65535
    then (224 + cp / 4096) ∷ (128 + cp / 64 % 64) ∷ (128 + cp % 64) ∷ []
    else (240 + cp / 262144) ∷ (128 + cp / 4096 % 64) ∷ (128 + cp / 64 % 64) ∷ (128 + cp % 64) ∷ []

unfoldable pub hex_value : Option ℕ → Option ℕ → Option ℕ → Option ℕ → Bytes → Option (ℕ × Bytes)
hex_value (some a) (some b) (some c) (some d) s = some (((a * 16 + b) * 16 + c) * 16 + d, s)
hex_value _ _ _ _ s = none

-- `ParseHex4`.
unfoldable pub parse_hex4 : Bytes → Option (ℕ × Bytes)
parse_hex4 (a ∷ b ∷ c ∷ d ∷ s) =
    hex_value (char_to_hex a) (char_to_hex b) (char_to_hex c) (char_to_hex d) s
parse_hex4 _ = none

-- The low half of a pair of surrogates.
unfoldable pub low_half : ℕ → Bytes → Option (ℕ × Bytes) → ℕ × Bytes
low_half cp save none = (65533, save)
low_half cp save (some (lo, s)) =
    if leb 56320 lo && leb lo 57343
    then (65536 + (cp - 55296) * 1024 + (lo - 56320), s)
    else (65533, save)

unfoldable pub surrogates : ℕ → Bytes → ℕ × Bytes
surrogates cp (b ∷ u ∷ s) =
    if leb 55296 cp && leb cp 56319 && b == 92 && u == b'u'
    then low_half cp (b ∷ u ∷ s) (parse_hex4 s)
    else if leb 55296 cp && leb cp 57343
    then (65533, b ∷ u ∷ s)
    else (cp, b ∷ u ∷ s)
surrogates cp s = if leb 55296 cp && leb cp 57343 then (65533, s) else (cp, s)

-- What one round puts in front of what the later rounds read.
unfoldable pub in_front : Bytes → Option (Bytes × Bytes) → Option (Bytes × Bytes)
in_front out none = none
in_front out (some (t, s)) = some (out ++ t, s)

unfoldable pub unicode_escape :
    (Bytes → Option (Bytes × Bytes)) → Option (ℕ × Bytes) → Option (Bytes × Bytes)
unicode_escape next none = none
unicode_escape next (some (cp, s)) =
    let (code, rest) = surrogates cp s in in_front (utf8 code) (next rest)

-- The `switch` on the character behind a backslash; the text follows that character.
unfoldable pub escaped : (Bytes → Option (Bytes × Bytes)) → Bytes → Option (Bytes × Bytes)
escaped next [] = none
escaped next (e ∷ s) =
    if e == b'"' || e == 92 || e == b'/'
    then in_front (e ∷ []) (next s)
    else if e == b'b'
    then in_front (8 ∷ []) (next s)
    else if e == b'f'
    then in_front (12 ∷ []) (next s)
    else if e == b'n'
    then in_front (10 ∷ []) (next s)
    else if e == b'r'
    then in_front (13 ∷ []) (next s)
    else if e == b't'
    then in_front (9 ∷ []) (next s)
    else if e == b'u'
    then unicode_escape next (parse_hex4 s)
    else none

-- The loop of `ParseString`, on fuel for its rounds.
unfoldable pub string_loop : ℕ → Bytes → Option (Bytes × Bytes)
string_loop zero s = none
string_loop (suc fuel) [] = none
string_loop (suc fuel) (c ∷ s) =
    let next = string_loop fuel in
    if c == b'"'
    then some ([], s)
    else if ltb c 32
    then none
    else if c == 92
    then escaped next s
    else in_front (c ∷ []) (next s)

unfoldable pub string_behind : Option Bytes → Option (Bytes × Bytes)
string_behind none = none
string_behind (some s) = string_loop (length s) s

-- `ParseString`.
unfoldable pub parse_string : Bytes → Option (Bytes × Bytes)
parse_string s = string_behind (eat b'"' s)

-- `kv.emplace`: a key that is there keeps its value.
unfoldable pub emplace_at : Option Bytes → Bytes → Bytes → Values → Values
emplace_at none k v kv = insert k v kv
emplace_at (some old) k v kv = kv

unfoldable pub emplace : Bytes → Bytes → Values → Values
emplace k v kv = emplace_at (lookup k kv) k v kv

-- What follows a member: `,` and the next one, or `}`.
unfoldable pub after_member :
    (Values → Bytes → Values × Option Bytes) → Values → Bytes → Option Bytes → Values × Option Bytes
after_member next kv s (some rest) = next kv rest
after_member next kv s none = (kv, eat b'}' s)

unfoldable pub member_value :
    (Values → Bytes → Values × Option Bytes)
    → Values
    → Bytes
    → Option (Bytes × Bytes)
    → Values × Option Bytes
member_value next kv k none = (kv, none)
member_value next kv k (some (v, s)) = after_member next (emplace k v kv) s (eat b',' s)

unfoldable pub behind_colon : Option Bytes → Option (Bytes × Bytes)
behind_colon none = none
behind_colon (some s) = parse_string s

unfoldable pub member_key :
    (Values → Bytes → Values × Option Bytes)
    → Values
    → Option (Bytes × Bytes)
    → Values × Option Bytes
member_key next kv none = (kv, none)
member_key next kv (some (k, s)) = member_value next kv k (behind_colon (eat b':' s))

-- The loop of `Parse`, on fuel for its rounds: the map, also if the text is refused, and what is left.
unfoldable pub members : ℕ → Values → Bytes → Values × Option Bytes
members zero kv s = (kv, none)
members (suc fuel) kv s = member_key (members fuel) kv (parse_string s)

unfoldable pub parse_members : Bytes → Values × Option Bytes
parse_members [] = members 1 [] []
parse_members (c ∷ s) = if c == b'}' then ([], some s) else members (length (c ∷ s)) [] (c ∷ s)

unfoldable pub parse_object : Option Bytes → Values × Option Bytes
parse_object none = ([], none)
parse_object (some s) = parse_members (skip_ws s)

unfoldable pub is_end : Bytes → Bool
is_end [] = true
is_end (c ∷ s) = false

unfoldable pub whole : Option Bytes → Bool
whole none = false
whole (some s) = is_end (skip_ws s)

-- `ParseSessionJson`: the map and the result.
unfoldable pub parse_session_json : Bytes → Values × Bool
parse_session_json text = let (kv, rest) = parse_object (eat b'{' text) in (kv, whole rest)
