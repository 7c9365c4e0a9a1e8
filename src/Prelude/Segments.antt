-- ===== src/Prelude/Segments.antt =====
-- Stretches of an array: overwriting in place, resizing, and the window between two positions.
use uco.Prelude.Lists.{length, take, drop, replicate, length-append, length-take, length-replicate}
use Prim.Native.Nat.{ℕ, zero, suc, ◌+◌, ◌-◌, ◌≤◌}
use mathlib.Core.Path.{◌≡◌, refl, ap, ◌∙◌}
use mathlib.Core.List.{List, [], ◌∷◌, ◌++◌}
use native.Mathlib.Nat.{zero-add, suc-add}
use native.Mathlib.Omega.{arith}

module _ {ℓ} {A : Type ℓ} where
  -- `std::copy` of the first list over the second from a position on; what lies beyond the end of
  -- the array is not written.
  unfoldable pub overlay : ℕ → List A → List A → List A
  overlay n d [] = []
  overlay zero [] (y ∷ ys) = y ∷ ys
  overlay zero (x ∷ xs) (y ∷ ys) = x ∷ overlay zero xs ys
  overlay (suc n) d (y ∷ ys) = y ∷ overlay n d ys

  pub length-overlay : (n : ℕ) (d s : List A) → length (overlay n d s) ≡ length s
  unfolding overlay
  length-overlay n d [] = refl
  length-overlay zero [] (y ∷ ys) = refl
  length-overlay zero (x ∷ xs) (y ∷ ys) = ap suc (length-overlay zero xs ys)
  length-overlay (suc n) d (y ∷ ys) = ap suc (length-overlay n d ys)

  pub take-overlay :
      (n : ℕ) (d s : List A)
      → n + length d ≤ length s
      → take (n + length d) (overlay n d s) ≡ take n s ++ d
  unfolding overlay
  take-overlay zero [] [] h = refl
  take-overlay (suc n) d [] h = absurd (omega arith)
  take-overlay zero (x ∷ xs) [] h = absurd (omega arith)
  take-overlay zero [] (y ∷ ys) h = refl
  take-overlay zero (x ∷ xs) (y ∷ ys) h =
      rw zero-add (ap (◌∷◌ x) (rw zero-add at (take-overlay zero xs ys (omega arith))))
  take-overlay (suc n) d (y ∷ ys) h = rw suc-add (ap (◌∷◌ y) (take-overlay n d ys (omega arith)))

  pub drop-append : (n : ℕ) (xs ys : List A) → n ≤ length xs → drop n (xs ++ ys) ≡ drop n xs ++ ys
  drop-append zero xs ys h = refl
  drop-append (suc n) [] ys h = absurd (omega arith)
  drop-append (suc n) (x ∷ xs) ys h = drop-append n xs ys (omega arith)

  drop-nil : (n : ℕ) → drop {A = A} n [] ≡ []
  drop-nil zero = refl
  drop-nil (suc n) = refl

  pub drop-drop : (n m : ℕ) (xs : List A) → drop n (drop m xs) ≡ drop (m + n) xs
  drop-drop n zero xs = rw zero-add
  drop-drop n (suc m) [] = rw suc-add (drop-nil n)
  drop-drop n (suc m) (x ∷ xs) = rw suc-add (drop-drop n m xs)

  pub drop_of_length-le : (n : ℕ) (xs : List A) → length xs ≤ n → drop n xs ≡ []
  drop_of_length-le zero [] h = refl
  drop_of_length-le zero (x ∷ xs) h = absurd (omega arith)
  drop_of_length-le (suc n) [] h = refl
  drop_of_length-le (suc n) (x ∷ xs) h = drop_of_length-le n xs (omega arith)

  pub take_of_length-le : (k : ℕ) (l : List A) → length l ≤ k → take k l ≡ l
  take_of_length-le zero [] short = refl
  take_of_length-le zero (a ∷ l) short = absurd (omega arith)
  take_of_length-le (suc k) [] short = refl
  take_of_length-le (suc k) (a ∷ l) short = ap (◌∷◌ a) (take_of_length-le k l (omega arith))

  pub take-append : (n : ℕ) (xs ys : List A) → n ≤ length xs → take n (xs ++ ys) ≡ take n xs
  take-append zero xs ys h = refl
  take-append (suc n) [] ys h = absurd (omega arith)
  take-append (suc n) (x ∷ xs) ys h = ap (◌∷◌ x) (take-append n xs ys (omega arith))

  pub take-take : (n m : ℕ) (xs : List A) → n ≤ m → take n (take m xs) ≡ take n xs
  take-take zero m xs h = refl
  take-take (suc n) zero xs h = absurd (omega arith)
  take-take (suc n) (suc m) [] h = refl
  take-take (suc n) (suc m) (x ∷ xs) h = ap (◌∷◌ x) (take-take n m xs (omega arith))

  -- `vector::resize`: cut, or padded with the value given.
  unfoldable pub resize : ℕ → A → List A → List A
  resize n a s = take n s ++ replicate (n - length s) a

  pub length-resize : (n : ℕ) (a : A) (s : List A) → length (resize n a s) ≡ n
  unfolding resize
  length-resize n a s = omega (
    arith,
    length-append (take n s) (replicate (n - length s) a),
    length-take n s,
    length-replicate (n - length s) a,
  )

  pub take-resize :
      (m n : ℕ) (a : A) (s : List A) → m ≤ n → m ≤ length s → take m (resize n a s) ≡ take m s
  unfolding resize
  take-resize m n a s h k =
      take-append m (take n s) _ (omega (arith, length-take n s)) ∙ take-take m n s h

  pub take-drop : (n m : ℕ) (xs : List A) → take n (drop m xs) ≡ drop m (take (m + n) xs)
  take-drop n zero xs = rw zero-add
  take-drop n (suc m) [] = rw suc-add (take-nil n)
    where
      take-nil : (n : ℕ) → take {A = A} n [] ≡ []
      take-nil zero = refl
      take-nil (suc n) = refl
  take-drop n (suc m) (x ∷ xs) = rw suc-add (take-drop n m xs)

  pub take-add : (n m : ℕ) (xs : List A) → take (m + n) xs ≡ take m xs ++ take n (drop m xs)
  take-add n zero xs = rw zero-add
  take-add zero (suc m) [] = rw suc-add
  take-add (suc n) (suc m) [] = rw suc-add
  take-add n (suc m) (x ∷ xs) = rw suc-add (ap (◌∷◌ x) (take-add n m xs))

  pub take-length-append : (xs ys : List A) → take (length xs) (xs ++ ys) ≡ xs
  take-length-append [] ys = refl
  take-length-append (x ∷ xs) ys = ap (◌∷◌ x) (take-length-append xs ys)

  pub drop-length-append : (xs ys : List A) → drop (length xs) (xs ++ ys) ≡ ys
  drop-length-append [] ys = refl
  drop-length-append (x ∷ xs) ys = drop-length-append xs ys

  pub drop-length_add-append :
      (n : ℕ) (xs ys : List A) → drop (length xs + n) (xs ++ ys) ≡ drop n ys
  drop-length_add-append n [] ys = rw zero-add
  drop-length_add-append n (x ∷ xs) ys = rw suc-add (drop-length_add-append n xs ys)
