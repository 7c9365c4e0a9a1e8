-- ===== src/Prelude/Decimal.antt =====
-- Decimal numbers in text: `std::to_string`, and the digit loop of `std::from_chars` and its kin.
use uco.Prelude.Tests.{ltb, leb, if◌then◌else◌, Bool-cases}
use uco.Prelude.Bytes.{Bytes, All, All-append}
use Prim.Native.Nat.{ℕ, zero, suc, ◌+◌, ◌-◌, ◌*◌, ◌/◌, ◌%◌, ◌<◌}
use mathlib.Core.Path.{◌≡◌, refl, ap, ◌∙◌}
use mathlib.Core.Logic.{inl, inr}
use mathlib.Core.Bool.{Bool, true, ◌&&◌}
use mathlib.Core.List.{[], ◌∷◌, ◌++◌}
use mathlib.Core.Option.{Option, none, some}
use native.Mathlib.Omega.{arith}

unfoldable pub is_digit : ℕ → Bool
is_digit c = leb b'0' c && leb c b'9'

-- The value of a text of digits alone, after those that gave `acc`.
unfoldable pub digits : ℕ → Bytes → Option ℕ
digits acc [] = some acc
digits acc (c ∷ s) =
    let rest = digits (acc * 10 + (c - b'0')) s in if is_digit c then rest else none

unfoldable pub decimal_loop : ℕ → ℕ → Bytes
decimal_loop zero n = []
decimal_loop (suc fuel) n =
    let front = decimal_loop fuel (n / 10) in
    if ltb n 10 then (b'0' + n) ∷ [] else front ++ ((b'0' + n % 10) ∷ [])

-- `std::to_string` of a number that is not negative.
unfoldable pub to_string : ℕ → Bytes
to_string n = decimal_loop (suc n) n

abbrev pub IsDigits : Bytes → Type 0
IsDigits = All (λ c. is_digit c ≡ true)

digits-snoc :
    (acc v d : ℕ) (s : Bytes)
    → digits acc s ≡ some v
    → d < 10
    → digits acc (s ++ ((b'0' + d) ∷ [])) ≡ some (v * 10 + d)
unfolding digits is_digit
digits-snoc acc v d [] e h = ground arith
digits-snoc acc v d (c ∷ s) e h = ground (arith, digits-snoc (acc * 10 + (c - b'0')) v d s)

digits-decimal_loop :
    (fuel n : ℕ)
    → n < fuel
    → (digits 0 (decimal_loop fuel n) ≡ some n)
      × IsDigits (decimal_loop fuel n)
      × (c : ℕ) × (s : Bytes) × (decimal_loop fuel n ≡ c ∷ s)
unfolding decimal_loop digits is_digit
digits-decimal_loop zero n h = absurd (omega arith)
digits-decimal_loop (suc fuel) n h = elim (Bool-cases (ltb n 10)) [
  | inl small ↦ rw small (ground arith, (ground arith, tt), b'0' + n, [], refl)
  | inr large ↦
      let (value, ds, c, s, e) = digits-decimal_loop fuel (n / 10) (ground arith) in
      let last : Bytes = (b'0' + n % 10) ∷ [] in
      rw large (
        digits-snoc 0 (n / 10) (n % 10) (decimal_loop fuel (n / 10)) value (omega arith)
            ∙ ap some (omega arith),
        All-append (λ c. is_digit c ≡ true) (decimal_loop fuel (n / 10)) last ds (ground arith, tt),
        c,
        s ++ last,
        ap (λ t. t ++ last) e,
      )
]

-- A printed number is a text of digits, not empty, that is read back as the number.
pub to_string_lem :
    (n : ℕ)
    → (digits 0 (to_string n) ≡ some n)
      × IsDigits (to_string n)
      × (c : ℕ) × (s : Bytes) × (to_string n ≡ c ∷ s)
unfolding to_string
to_string_lem n = digits-decimal_loop (suc n) n (omega arith)
