-- ===== src/Text/Url.antt =====
-- `UrlEncode` and `UrlDecode` of core/ustring.cpp, and the stricter form decoder of
-- http/httpserver.cpp.
use uco.Prelude.{
  ℕ, ◌+◌, ◌-◌, ◌*◌, ◌/◌, ◌%◌, ◌<◌, ◌≡◌, refl, ap, subst, ◌∙◌, Bool, true, false, [], ◌∷◌, Option,
  none, some, ◌==◌, ◌&&◌, ◌||◌, leb, ltb, if◌then◌else◌, arith, Bool-cases, ==_iff, inl, inr,
}
use uco.Prelude.Bytes.{Bytes, IsBytes}
use uco.Text.Chars.{char_to_hex}

-- `std::isalnum`.
unfoldable pub is_alnum : ℕ → Bool
is_alnum c = leb b'0' c && leb c b'9' || leb b'A' c && leb c b'Z' || leb b'a' c && leb c b'z'

-- RFC 3986's unreserved characters.
unfoldable pub is_unreserved : ℕ → Bool
is_unreserved c = is_alnum c || c == b'-' || c == b'_' || c == b'.' || c == b'~'

-- `kHex[v]`, the upper-case digit of a value below 16.
unfoldable pub upper_hex_digit : ℕ → ℕ
upper_hex_digit v = if ltb v 10 then b'0' + v else b'A' + v - 10

unfoldable pub url_encode : Bytes → Bytes
url_encode [] = []
url_encode (c ∷ s) =
    if is_unreserved c
    then c ∷ url_encode s
    else b'%' ∷ upper_hex_digit (c / 16) ∷ upper_hex_digit (c % 16) ∷ url_encode s

-- The byte of two hexadecimal digits, if both are digits.
unfoldable pub hex_pair : Option ℕ → Option ℕ → Option ℕ
hex_pair (some hi) (some lo) = some (hi * 16 + lo)
hex_pair _ _ = none

-- One position that is no `%` with two more characters behind it.
unfoldable pub plain_char : Bool → ℕ → ℕ
plain_char plus_as_space c = if c == b'+' && plus_as_space then b' ' else c

-- The outcome at a `%`: the byte and the loop's next position, or the `%` itself.
unfoldable pub percent : Option ℕ → Bytes → Bytes → Bytes
percent (some byte) skipped next = byte ∷ skipped
percent none skipped next = b'%' ∷ next

-- `UrlDecode`: the loop over the positions. An escape that is cut short or has no digits stands
-- for itself.
unfoldable pub url_decode : Bool → Bytes → Bytes
url_decode plus_as_space [] = []
url_decode plus_as_space (c ∷ []) = plain_char plus_as_space c ∷ []
url_decode plus_as_space (c ∷ d ∷ []) =
    plain_char plus_as_space c ∷ url_decode plus_as_space (d ∷ [])
url_decode plus_as_space (c ∷ d ∷ e ∷ s) =
    let skipped = url_decode plus_as_space s in
    let next = url_decode plus_as_space (d ∷ e ∷ s) in
    if c == b'%'
    then percent (hex_pair (char_to_hex d) (char_to_hex e)) skipped next
    else plain_char plus_as_space c ∷ next

-- `push_back` in front of what the rest of the loop gives.
unfoldable pub emit : ℕ → Option Bytes → Option Bytes
emit c none = none
emit c (some s) = some (c ∷ s)

unfoldable pub emit_pair : Option ℕ → Option Bytes → Option Bytes
emit_pair none rest = none
emit_pair (some byte) rest = emit byte rest

-- `decode_component`; `none` is `false`.
unfoldable pub decode_component : Bytes → Option Bytes
decode_component [] = some []
decode_component (c ∷ []) =
    if c == b'+' then some (b' ' ∷ []) else if c == b'%' then none else some (c ∷ [])
decode_component (c ∷ d ∷ []) =
    let rest = decode_component (d ∷ []) in
    if c == b'+' then emit b' ' rest else if c == b'%' then none else emit c rest
decode_component (c ∷ d ∷ e ∷ s) =
    let next = decode_component (d ∷ e ∷ s) in
    let skipped = decode_component s in
    if c == b'+'
    then emit b' ' next
    else if c == b'%'
    then emit_pair (hex_pair (char_to_hex d) (char_to_hex e)) skipped
    else emit c next

char_to_hex-upper_hex_digit : (v : ℕ) → v < 16 → char_to_hex (upper_hex_digit v) ≡ some v
unfolding char_to_hex upper_hex_digit
char_to_hex-upper_hex_digit v h = ground arith

-- An unreserved character is neither `%` nor `+`.
unreserved_plain : (c : ℕ) → is_unreserved c ≡ true → ((c == b'%') ≡ false) × ((c == b'+') ≡ false)
unfolding is_unreserved is_alnum
unreserved_plain c h = ground arith

url_decode_plain :
    (plus_as_space : Bool) (c : ℕ) (s : Bytes)
    → (c == b'%') ≡ false
    → (c == b'+') ≡ false
    → url_decode plus_as_space (c ∷ s) ≡ c ∷ url_decode plus_as_space s
unfolding url_decode plain_char
url_decode_plain p c [] h k = ground arith
url_decode_plain p c (d ∷ []) h k = ground arith
url_decode_plain p c (d ∷ e ∷ s) h k = ground arith

url_decode_percent :
    (plus_as_space : Bool) (c : ℕ) (s : Bytes)
    → c < 256
    → url_decode plus_as_space (b'%' ∷ upper_hex_digit (c / 16) ∷ upper_hex_digit (c % 16) ∷ s)
      ≡ c ∷ url_decode plus_as_space s
unfolding url_decode percent hex_pair
url_decode_percent p c s h =
    rw
      (
        char_to_hex-upper_hex_digit (c / 16) (omega arith),
        char_to_hex-upper_hex_digit (c % 16) (omega arith),
      )
      (ground arith)

url_decode_nil : (plus_as_space : Bool) → url_decode plus_as_space [] ≡ []
unfolding url_decode
url_decode_nil p = refl

-- Every byte string comes back from its URL form, whether or not `+` stands for a space.
pub url_decode-url_encode :
    (plus_as_space : Bool) (s : Bytes) → IsBytes s → url_decode plus_as_space (url_encode s) ≡ s
unfolding url_encode
url_decode-url_encode p [] h = url_decode_nil p
url_decode-url_encode p (c ∷ s) h = elim (Bool-cases (is_unreserved c)) [
  | inl plain ↦
      let (a, b) = unreserved_plain c plain in
      rw plain
        (url_decode_plain p c (url_encode s) a b ∙ ap (◌∷◌ c) (url_decode-url_encode p s h.1))
  | inr coded ↦
      rw coded
        (url_decode_percent p c (url_encode s) h.0 ∙ ap (◌∷◌ c) (url_decode-url_encode p s h.1))
]

abbrev Agrees : Option Bytes → Bytes → Type 0
Agrees none u = Unit
Agrees (some t) u = t ≡ u

emit-Agrees : (c : ℕ) (r : Option Bytes) (u : Bytes) → Agrees r u → Agrees (emit c r) (c ∷ u)
unfolding emit
emit-Agrees c none u h = tt
emit-Agrees c (some t) u h = ap (◌∷◌ c) h

emit_pair-Agrees :
    (p : Option ℕ) (r : Option Bytes) (u v : Bytes)
    → Agrees r u
    → Agrees (emit_pair p r) (percent p u v)
unfolding emit_pair percent
emit_pair-Agrees none r u v h = tt
emit_pair-Agrees (some byte) r u v h = emit-Agrees byte r u h

decode_component-Agrees : (s : Bytes) → Agrees (decode_component s) (url_decode true s)
unfolding decode_component url_decode plain_char
decode_component-Agrees [] = refl
decode_component-Agrees (c ∷ []) = ground arith
decode_component-Agrees (c ∷ d ∷ []) =
    let rest = decode_component-Agrees (d ∷ []) in
    let plain = emit-Agrees c (decode_component (d ∷ [])) (url_decode true (d ∷ [])) rest in
    let space = emit-Agrees b' ' (decode_component (d ∷ [])) (url_decode true (d ∷ [])) rest in
    elim (Bool-cases (c == b'+')) [
      | inl plus ↦ rw plus space
      | inr other ↦ elim (Bool-cases (c == b'%')) [
        | inl escape ↦ rw (other, escape) tt
        | inr simple ↦ rw (other, simple) plain
      ]
    ]
decode_component-Agrees (c ∷ d ∷ e ∷ s) =
    let next = decode_component (d ∷ e ∷ s) in
    let rest = decode_component-Agrees (d ∷ e ∷ s) in
    let plain = emit-Agrees c next (url_decode true (d ∷ e ∷ s)) rest in
    let space = emit-Agrees b' ' next (url_decode true (d ∷ e ∷ s)) rest in
    let skipped =
      emit_pair-Agrees (hex_pair (char_to_hex d) (char_to_hex e)) (decode_component s)
        (url_decode true s) (url_decode true (d ∷ e ∷ s)) (decode_component-Agrees s) in
    elim (Bool-cases (c == b'+')) [
      | inl plus ↦ rw ((==_iff c b'+').0 plus) space
      | inr other ↦ elim (Bool-cases (c == b'%')) [
        | inl escape ↦ rw (other, escape) skipped
        | inr simple ↦ rw (other, simple) plain
      ]
    ]

-- What the form decoder accepts, it decodes as `UrlDecode` does with `+` for a space.
pub decode_component-url_decode :
    (s t : Bytes) → decode_component s ≡ some t → t ≡ url_decode true s
decode_component-url_decode s t h =
    subst (λ r. Agrees r (url_decode true s)) h (decode_component-Agrees s)

decode_component_nil : decode_component [] ≡ some []
unfolding decode_component
decode_component_nil = refl

decode_component_plain :
    (c : ℕ) (s t : Bytes)
    → (c == b'%') ≡ false
    → (c == b'+') ≡ false
    → decode_component s ≡ some t
    → decode_component (c ∷ s) ≡ some (c ∷ t)
unfolding decode_component emit
decode_component_plain c [] t h k e = ground arith
decode_component_plain c (d ∷ []) t h k e = rw (k, h, e, emit)
decode_component_plain c (d ∷ f ∷ s) t h k e = rw (k, h, e, emit)

decode_component_percent :
    (c : ℕ) (s t : Bytes)
    → c < 256
    → decode_component s ≡ some t
    → decode_component (b'%' ∷ upper_hex_digit (c / 16) ∷ upper_hex_digit (c % 16) ∷ s)
      ≡ some (c ∷ t)
unfolding decode_component emit_pair emit hex_pair
decode_component_percent c s t h e =
    rw
      (
        char_to_hex-upper_hex_digit (c / 16) (omega arith),
        char_to_hex-upper_hex_digit (c % 16) (omega arith),
        e,
      )
      (ground arith)

-- The form decoder accepts every text in URL form, and gives back the text that was encoded.
pub decode_component-url_encode : (s : Bytes) → IsBytes s → decode_component (url_encode s) ≡ some s
unfolding url_encode
decode_component-url_encode [] h = decode_component_nil
decode_component-url_encode (c ∷ s) h =
    let rest = decode_component-url_encode s h.1 in
    elim (Bool-cases (is_unreserved c)) [
      | inl plain ↦
          let (a, b) = unreserved_plain c plain in
          rw plain (decode_component_plain c (url_encode s) s a b rest)
      | inr coded ↦ rw coded (decode_component_percent c (url_encode s) s h.0 rest)
    ]
