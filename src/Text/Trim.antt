-- ===== src/Text/Trim.antt =====
-- `Trim` of core/ustring.cpp.
use uco.Prelude.{
  ℕ, ◌≡◌, refl, ap, sym, ◌∙◌, true, false, [], ◌∷◌, ◌++◌, Option, none, some, if◌then◌else◌, arith,
  Bool-cases, inl, inr,
}
use uco.Prelude.Bytes.{Bytes, All, has_byte}

-- The default of `chars`: blank, tab, carriage return, line feed.
abbrev pub blanks : Bytes
blanks = 32 ∷ 9 ∷ 13 ∷ 10 ∷ []

-- The first loop: `b` moves past the characters of the set.
unfoldable pub trim_left : Bytes → Bytes → Bytes
trim_left chars [] = []
trim_left chars (x ∷ xs) = if has_byte x chars then trim_left chars xs else x ∷ xs

unfoldable pub keep_before : Bytes → ℕ → Bytes → Bytes
keep_before chars x [] = if has_byte x chars then [] else x ∷ []
keep_before chars x (y ∷ ys) = x ∷ y ∷ ys

-- The second loop: `e` moves back over the characters of the set, from the end.
unfoldable pub trim_right : Bytes → Bytes → Bytes
trim_right chars [] = []
trim_right chars (x ∷ xs) = keep_before chars x (trim_right chars xs)

unfoldable pub trim : Bytes → Bytes → Bytes
trim s chars = trim_right chars (trim_left chars s)

abbrev pub first_of : Bytes → Option ℕ
first_of [] = none
first_of (x ∷ xs) = some x

abbrev pub last_of : Bytes → Option ℕ
last_of [] = none
last_of (x ∷ []) = some x
last_of (x ∷ y ∷ ys) = last_of (y ∷ ys)

abbrev pub Within : Bytes → Bytes → Type 0
Within chars = All (λ x. has_byte x chars ≡ true)

trim_left_lem :
    (chars s : Bytes)
    → (l : Bytes) × (s ≡ l ++ trim_left chars s)
      × Within chars l
      × ((x : ℕ) → first_of (trim_left chars s) ≡ some x → has_byte x chars ≡ false)
unfolding trim_left
trim_left_lem chars [] = ([], refl, tt, λ x h. cc)
trim_left_lem chars (x ∷ xs) = elim (Bool-cases (has_byte x chars)) [
  | inl blank ↦
      let (l, split, inside, clean) = trim_left_lem chars xs in
      rw blank (x ∷ l, ap (◌∷◌ x) split, (blank, inside), clean)
  | inr solid ↦ rw solid ([], refl, tt, λ y h. ground arith)
]

keep_before_lem :
    (chars : Bytes) (x : ℕ) (t r : Bytes)
    → Within chars r
    → ((y : ℕ) → last_of t ≡ some y → has_byte y chars ≡ false)
    → (r' : Bytes) × (x ∷ (t ++ r) ≡ keep_before chars x t ++ r')
      × Within chars r'
      × ((y : ℕ) → last_of (keep_before chars x t) ≡ some y → has_byte y chars ≡ false)
unfolding keep_before
keep_before_lem chars x (z ∷ zs) r inside clean = (r, refl, inside, clean)
keep_before_lem chars x [] r inside clean = elim (Bool-cases (has_byte x chars)) [
  | inl blank ↦ rw blank (x ∷ r, refl, (blank, inside), λ y h. cc)
  | inr solid ↦ rw solid (r, refl, inside, λ y h. ground arith)
]

pub trim_right_lem :
    (chars s : Bytes)
    → (r : Bytes) × (s ≡ trim_right chars s ++ r)
      × Within chars r
      × ((y : ℕ) → last_of (trim_right chars s) ≡ some y → has_byte y chars ≡ false)
unfolding trim_right
trim_right_lem chars [] = ([], refl, tt, λ y h. cc)
trim_right_lem chars (x ∷ xs) =
    let (r, split, inside, clean) = trim_right_lem chars xs in
    let (r', split', inside', clean') =
      keep_before_lem chars x (trim_right chars xs) r inside clean in
    (r', ap (◌∷◌ x) split ∙ split', inside', clean')

first-keep_before :
    (chars : Bytes) (x : ℕ) (t : Bytes)
    → has_byte x chars ≡ false
    → first_of (keep_before chars x t) ≡ some x
unfolding keep_before
first-keep_before chars x [] h = ground arith
first-keep_before chars x (y ∷ ys) h = refl

first-trim_right :
    (chars s : Bytes)
    → ((x : ℕ) → first_of s ≡ some x → has_byte x chars ≡ false)
    → first_of (trim_right chars s) ≡ first_of s
unfolding trim_right
first-trim_right chars [] h = refl
first-trim_right chars (x ∷ xs) h = first-keep_before chars x (trim_right chars xs) (h x refl)

-- Trimming cuts characters of the set from both ends, and nothing else: what it cut off lies in
-- the set, and what is left neither begins nor ends with a character of it.
pub trim_lem :
    (s chars : Bytes)
    → (l : Bytes) × (r : Bytes) × (s ≡ l ++ (trim s chars ++ r))
      × Within chars l
      × Within chars r
      × ((x : ℕ) → first_of (trim s chars) ≡ some x → has_byte x chars ≡ false)
      × ((x : ℕ) → last_of (trim s chars) ≡ some x → has_byte x chars ≡ false)
unfolding trim
trim_lem s chars =
    let (l, split, inside, clean) = trim_left_lem chars s in
    let (r, split', inside', clean') = trim_right_lem chars (trim_left chars s) in
    (
      l,
      r,
      split ∙ ap (◌++◌ l) split',
      inside,
      inside',
      (λ x h. clean x (sym (first-trim_right chars (trim_left chars s) clean) ∙ h)),
      clean',
    )
