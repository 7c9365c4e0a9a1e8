-- ===== src/Session/Cookie.antt =====
-- http/session.cpp: the signed cookie. `hmac` is HMAC-SHA256 under the secret of the store.
use uco.Prelude.{
  ℕ, ◌≡◌, ◌≢◌, ◌↔◌, refl, ap, subst, ◌∙◌, Bool, true, false, ◌&&◌, [], ◌∷◌, ◌++◌, Option, none,
  some, ◌==◌, if◌then◌else◌, arith, inl, inr, Bool-cases,
}
use uco.Prelude.Bytes.{Bytes, Free, bytes_eq, bytes_eq_iff}
use uco.Text.Chars.{char_to_hex}
use uco.Text.Hex.{hex_digit, hex_encode}
use uco.Session.State.{Sign}

-- `NewSessionID`, from the random bytes.
unfoldable pub new_session_id : Bytes → Bytes
new_session_id random = hex_encode random

-- `SignID`.
unfoldable pub sign_id : (Bytes → Bytes) → Sign
sign_id hmac id = hex_encode (hmac id)

unfoldable pub last_step : ℕ → ℕ → Bytes → Option (Bytes × Bytes) → Option (Bytes × Bytes)
last_step c x s (some (a, b)) = some (x ∷ a, b)
last_step c x s none = if x == c then some ([], s) else none

-- `rfind(c)`: the text before the last `c`, and the text behind it.
unfoldable pub cut_last : ℕ → Bytes → Option (Bytes × Bytes)
cut_last c [] = none
cut_last c (x ∷ s) = last_step c x s (cut_last c s)

abbrev is_hex_char : Option ℕ → Bool
is_hex_char none = false
is_hex_char (some v) = true

unfoldable pub all_hex : Bytes → Bool
all_hex [] = true
all_hex (c ∷ s) = is_hex_char (char_to_hex c) && all_hex s

unfoldable pub check_signature : Sign → Option (Bytes × Bytes) → Option Bytes
check_signature sign none = none
check_signature sign (some ([], got)) = none
check_signature sign (some (c ∷ id, [])) = none
check_signature sign (some (c ∷ id, g ∷ got)) =
    if all_hex (c ∷ id) && bytes_eq (g ∷ got) (sign (c ∷ id)) then some (c ∷ id) else none

-- `ParseSignedCookie`.
unfoldable pub parse_signed_cookie : Sign → Bytes → Option Bytes
parse_signed_cookie sign cookie = check_signature sign (cut_last b'.' cookie)

abbrev IsCut : ℕ → Bytes → Option (Bytes × Bytes) → Type 0
IsCut c s none = Free c s
IsCut c s (some (a, b)) = (s ≡ a ++ (c ∷ b)) × Free c b

last_step-IsCut :
    (c x : ℕ) (s : Bytes) (o : Option (Bytes × Bytes))
    → IsCut c s o
    → IsCut c (x ∷ s) (last_step c x s o)
unfolding last_step
last_step-IsCut c x s (some (a, b)) h = (ap (◌∷◌ x) h.0, h.1)
last_step-IsCut c x s none h = elim (Bool-cases (x == c)) [
  | inl e ↦ rw e (ground arith, h)
  | inr e ↦ rw e (ground arith, h)
]

cut_last-IsCut : (c : ℕ) (s : Bytes) → IsCut c s (cut_last c s)
unfolding cut_last
cut_last-IsCut c [] = tt
cut_last-IsCut c (x ∷ s) = last_step-IsCut c x s (cut_last c s) (cut_last-IsCut c s)

cut_last-none : (c : ℕ) (s : Bytes) → Free c s → cut_last c s ≡ none
unfolding cut_last last_step
cut_last-none c [] h = refl
cut_last-none c (x ∷ s) h = ground (arith, cut_last-none c s h.1)

cut_last-append : (c : ℕ) (a b : Bytes) → Free c b → cut_last c (a ++ (c ∷ b)) ≡ some (a, b)
unfolding cut_last last_step
cut_last-append c [] b h = ground (arith, cut_last-none c b h)
cut_last-append c (x ∷ a) b h = ground (arith, cut_last-append c a b h)

hex_encode-Free : (s : Bytes) → Free b'.' (hex_encode s)
unfolding hex_encode hex_digit
hex_encode-Free [] = tt
hex_encode-Free (c ∷ s) = (ground arith, (ground arith, hex_encode-Free s))

sign_id-Free : (hmac : Bytes → Bytes) (id : Bytes) → Free b'.' (sign_id hmac id)
unfolding sign_id
sign_id-Free hmac id = hex_encode-Free (hmac id)

-- The id is a text of hexadecimal digits, and the cookie is it with its signature.
abbrev pub IsSigned : Sign → Bytes → Bytes → Type 0
IsSigned sign cookie id =
    (cookie ≡ id ++ (b'.' ∷ sign id)) × (id ≢ []) × (all_hex id ≡ true) × (sign id ≢ [])

some_id : {a b : Bytes} → some a ≡ some b → a ≡ b
some_id h = cc

no_id : {b : Bytes} → none ≡ some b → ⊥
no_id h = cc

IsSigned-of_cut :
    (sign : Sign) (cookie id : Bytes) (o : Option (Bytes × Bytes))
    → IsCut b'.' cookie o
    → check_signature sign o ≡ some id
    → IsSigned sign cookie id
unfolding check_signature
IsSigned-of_cut sign cookie id none cut h = cc
IsSigned-of_cut sign cookie id (some ([], got)) cut h = cc
IsSigned-of_cut sign cookie id (some (c ∷ a, [])) cut h = cc
IsSigned-of_cut sign cookie id (some (c ∷ a, g ∷ got)) cut h =
    elim (Bool-cases (all_hex (c ∷ a) && bytes_eq (g ∷ got) (sign (c ∷ a)))) [
      | inr e ↦ absurd (no_id (rw e at h))
      | inl e ↦
          let same : c ∷ a ≡ id = some_id (rw e at h) in
          let signature : g ∷ got ≡ sign (c ∷ a) =
            (bytes_eq_iff (g ∷ got) (sign (c ∷ a))).0 (ground arith) in
          subst (IsSigned sign cookie) same
            (cut.0 ∙ ap (λ t. (c ∷ a) ++ (b'.' ∷ t)) signature, λ z. cc, ground arith, λ z. cc)
    ]

check_signature-signed :
    (sign : Sign) (id s : Bytes)
    → id ≢ []
    → all_hex id ≡ true
    → s ≡ sign id
    → s ≢ []
    → check_signature sign (some (id, s)) ≡ some id
unfolding check_signature
check_signature-signed sign [] s ne hex e n = absurd (ne refl)
check_signature-signed sign (c ∷ id) [] ne hex e n = absurd (n refl)
check_signature-signed sign (c ∷ id) (g ∷ s) ne hex e n =
    rw (hex, (bytes_eq_iff (g ∷ s) (sign (c ∷ id))).1 e) refl

-- A cookie is accepted, and as the session `id`, exactly if it is a hexadecimal `id` that is not empty,
-- a dot and the signature of `id`. The signature is the hexadecimal form of a code that is not empty.
pub parse_signed_cookie_lem :
    (hmac : Bytes → Bytes) (cookie id : Bytes)
    → (parse_signed_cookie (sign_id hmac) cookie ≡ some id) ↔ IsSigned (sign_id hmac) cookie id
unfolding parse_signed_cookie
parse_signed_cookie_lem hmac cookie id = (
  IsSigned-of_cut (sign_id hmac) cookie id (cut_last b'.' cookie) (cut_last-IsCut b'.' cookie),
  λ h.
      let (e, ne, hex, n) = h in
      ap (λ t. check_signature (sign_id hmac) (cut_last b'.' t)) e
      ∙ ap (check_signature (sign_id hmac))
          (cut_last-append b'.' id (sign_id hmac id) (sign_id-Free hmac id))
      ∙ check_signature-signed (sign_id hmac) id (sign_id hmac id) ne hex refl n,
)
