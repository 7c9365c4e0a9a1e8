-- ===== src/Prelude/Bytes.antt =====
-- Byte strings, as `std::string` and `std::string_view` hold them: lists of numbers, each below 256.
use uco.Prelude.Tests.{◌==◌, if◌then◌else◌}
use Prim.Native.Nat.{ℕ, ◌<◌}
use mathlib.Core.Path.{◌≡◌, refl, ap, subst}
use mathlib.Core.Logic.{◌↔◌, ◌≢◌}
use mathlib.Core.Bool.{Bool, true, false, ◌&&◌}
use mathlib.Core.List.{List, [], ◌∷◌, ◌++◌}
use mathlib.Core.Option.{Option, none, some}
use native.Mathlib.Omega.{arith}

abbrev pub Bytes : Type 0
Bytes = List ℕ

abbrev pub All {ℓ κ} : {A : Type ℓ} → (A → Type κ) → List A → Type κ
All P [] = Unit
All P (a ∷ l) = P a × All P l

pub All-append {ℓ κ} :
    {A : Type ℓ} (P : A → Type κ) (l r : List A) → All P l → All P r → All P (l ++ r)
All-append P [] r p q = q
All-append P (a ∷ l) r p q = (p.0, All-append P l r p.1 q)

-- Every element is a byte.
abbrev pub IsBytes : Bytes → Type 0
IsBytes = All (λ c. c < 256)

-- `operator==` on strings.
unfoldable pub bytes_eq : Bytes → Bytes → Bool
bytes_eq [] [] = true
bytes_eq [] (y ∷ ys) = false
bytes_eq (x ∷ xs) [] = false
bytes_eq (x ∷ xs) (y ∷ ys) = x == y && bytes_eq xs ys

eq_of_bytes_eq : (xs ys : Bytes) → bytes_eq xs ys ≡ true → xs ≡ ys
unfolding bytes_eq
eq_of_bytes_eq [] [] h = refl
eq_of_bytes_eq [] (y ∷ ys) h = cc
eq_of_bytes_eq (x ∷ xs) [] h = cc
eq_of_bytes_eq (x ∷ xs) (y ∷ ys) h = ground (arith, eq_of_bytes_eq xs ys)

pub bytes_eq_refl : (xs : Bytes) → bytes_eq xs xs ≡ true
unfolding bytes_eq
bytes_eq_refl [] = refl
bytes_eq_refl (x ∷ xs) = ground (arith, bytes_eq_refl xs)

pub bytes_eq_iff : (xs ys : Bytes) → (bytes_eq xs ys ≡ true) ↔ (xs ≡ ys)
bytes_eq_iff xs ys = (eq_of_bytes_eq xs ys, λ e. rw e (bytes_eq_refl ys))

-- Membership of a byte, as `view.find(c) != npos` tests it.
unfoldable pub has_byte : ℕ → Bytes → Bool
has_byte c [] = false
has_byte c (x ∷ xs) = if x == c then true else has_byte c xs

unfoldable pub cut_step : Bool → ℕ → Bytes → Option (Bytes × Bytes) → Option (Bytes × Bytes)
cut_step true x xs rest = some ([], xs)
cut_step false x xs none = none
cut_step false x xs (some (a, b)) = some (x ∷ a, b)

-- `find(c)` and the two substrings around the hit: what is before the first `c`, and what follows
-- it; `none` for `npos`.
unfoldable pub cut_at : ℕ → Bytes → Option (Bytes × Bytes)
unfolding cut_step
cut_at c [] = none
cut_at c (x ∷ xs) = cut_step (x == c) x xs (cut_at c xs)

-- No byte of the text is `c`.
abbrev pub Free : ℕ → Bytes → Type 0
Free c = All (λ x. x ≢ c)

-- The result of a search for `c` in `s`: the text is the two parts with `c` between them, and the
-- part before has no `c`; or the text has none.
abbrev pub Found : ℕ → Bytes → Option (Bytes × Bytes) → Type 0
Found c s none = Free c s
Found c s (some (a, b)) = (s ≡ a ++ (c ∷ b)) × Free c a

cut_step-Found :
    (c x : ℕ) (xs : Bytes) (t : Bool) (r : Option (Bytes × Bytes))
    → (x == c) ≡ t
    → Found c xs r
    → Found c (x ∷ xs) (cut_step t x xs r)
unfolding cut_step
cut_step-Found c x xs true r e ih = (ground arith, tt)
cut_step-Found c x xs false none e ih = (ground arith, ih)
cut_step-Found c x xs false (some (a, b)) e ih = (ap (◌∷◌ x) ih.0, (ground arith, ih.1))

pub cut_at-Found : (c : ℕ) (s : Bytes) → Found c s (cut_at c s)
unfolding cut_at
cut_at-Found c [] = tt
cut_at-Found c (x ∷ xs) = cut_step-Found c x xs (x == c) (cut_at c xs) refl (cut_at-Found c xs)

pub cut_at-some :
    (c : ℕ) (s : Bytes) {a b : Bytes} → cut_at c s ≡ some (a, b) → (s ≡ a ++ (c ∷ b)) × Free c a
cut_at-some c s h = subst (Found c s) h (cut_at-Found c s)

pub cut_at-append : (c : ℕ) (a b : Bytes) → Free c a → cut_at c (a ++ (c ∷ b)) ≡ some (a, b)
unfolding cut_at
cut_at-append c [] b h = ground arith
cut_at-append c (x ∷ xs) b h = ground (arith, cut_at-append c xs b h.1)

pub cut_at-none : (c : ℕ) (s : Bytes) → Free c s → cut_at c s ≡ none
unfolding cut_at
cut_at-none c [] h = refl
cut_at-none c (x ∷ xs) h = ground (arith, cut_at-none c xs h.1)

pub Free-of_none : (c : ℕ) (s : Bytes) → cut_at c s ≡ none → Free c s
Free-of_none c s h = subst (Found c s) h (cut_at-Found c s)
