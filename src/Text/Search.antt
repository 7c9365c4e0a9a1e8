-- ===== src/Text/Search.antt =====
-- `StartsWith`, `EndsWith`, `Contains`, `Join` and `ReplaceAll` of core/ustring.cpp.
use uco.Prelude.{
  ℕ, zero, suc, ◌+◌, ◌-◌, ◌<◌, ◌≡◌, refl, ap, sym, subst, ◌∙◌, Bool, true, false, List, [], ◌∷◌,
  ◌++◌, Option, none, some, ◌==◌, ◌&&◌, if◌then◌else◌, length, drop, arith, Bool-cases,
  Option-cases, inl, inr, ltb, length-append,
}
use mathlib.Core.List.{append-nil}
use mathlib.Core.Option
use uco.Prelude.Bytes.{Bytes, All, bytes_eq}

unfoldable pub starts_with : Bytes → Bytes → Bool
starts_with s [] = true
starts_with [] (p ∷ ps) = false
starts_with (x ∷ xs) (p ∷ ps) = x == p && starts_with xs ps

unfoldable pub ends_with : Bytes → Bytes → Bool
ends_with s suffix =
    if ltb (length s) (length suffix)
    then false
    else bytes_eq (drop (length s - length suffix) s) suffix

pub starts_with-append : (p s : Bytes) → starts_with (p ++ s) p ≡ true
unfolding starts_with
starts_with-append [] s = refl
starts_with-append (x ∷ p) s = ground (arith, starts_with-append p s)

pub starts_with-drop : (s p : Bytes) → starts_with s p ≡ true → s ≡ p ++ drop (length p) s
unfolding starts_with
starts_with-drop s [] h = refl
starts_with-drop [] (p ∷ ps) h = absurd (ground arith)
starts_with-drop (x ∷ xs) (p ∷ ps) h = ground (arith, starts_with-drop xs ps)

unfoldable pub step_cut : ℕ → Option (Bytes × Bytes) → Option (Bytes × Bytes)
step_cut x none = none
step_cut x (some (a, b)) = some (x ∷ a, b)

-- `find(from)` with the text before the hit and the text behind it; the pattern is not empty.
unfoldable pub cut_sub : Bytes → Bytes → Option (Bytes × Bytes)
cut_sub from [] = none
cut_sub from (x ∷ xs) =
    if starts_with (x ∷ xs) from
    then some ([], drop (length from) (x ∷ xs))
    else step_cut x (cut_sub from xs)

unfoldable pub contains : Bytes → Bytes → Bool
contains s [] = true
contains s (p ∷ ps) = elim (cut_sub (p ∷ ps) s) [ none ↦ false | some c ↦ true ]

-- The rounds of `Join` after the first.
unfoldable pub join_rest : Bytes → List Bytes → Bytes
join_rest delim [] = []
join_rest delim (p ∷ ps) = delim ++ (p ++ join_rest delim ps)

unfoldable pub join : List Bytes → Bytes → Bytes
join [] delim = []
join (p ∷ ps) delim = p ++ join_rest delim ps

-- The loop of `ReplaceAll` on fuel; `none` means that the fuel ran out.
unfoldable pub replace_loop : ℕ → Bytes → Bytes → Bytes → Option Bytes
replace_loop zero from to s = none
replace_loop (suc fuel) from to s = elim (cut_sub from s) [
  | none ↦ some s
  | some (a, b) ↦ Option.map (λ rest. a ++ (to ++ rest)) (replace_loop fuel from to b)
]

unfoldable pub replace_all : Bytes → Bytes → Bytes → Option Bytes
replace_all s [] to = some s
replace_all s (p ∷ ps) to = replace_loop (length s + 1) (p ∷ ps) to s

pub starts_with_nil : (s : Bytes) → starts_with s [] ≡ true
unfolding starts_with
starts_with_nil [] = refl
starts_with_nil (x ∷ s) = refl

cc_false : true ≡ false → ⊥
cc_false h = cc

starts_with-append_left : (a t p : Bytes) → starts_with a p ≡ true → starts_with (a ++ t) p ≡ true
unfolding starts_with
starts_with-append_left a t [] h = starts_with_nil (a ++ t)
starts_with-append_left [] t (p ∷ ps) h = absurd (ground arith)
starts_with-append_left (x ∷ a) t (p ∷ ps) h = ground (arith, starts_with-append_left a t ps)

-- A cut is a first occurrence: the text is the part before, the pattern and the part behind, and
-- the part before does not have the pattern.
abbrev Cuts : Bytes → Bytes → Option (Bytes × Bytes) → Type 0
Cuts from s none = Unit
Cuts from s (some (a, b)) = (s ≡ a ++ (from ++ b)) × (cut_sub from a ≡ none)

step_cut-Cuts :
    (from xs : Bytes) (x : ℕ) (r : Option (Bytes × Bytes))
    → starts_with (x ∷ xs) from ≡ false
    → Cuts from xs r
    → Cuts from (x ∷ xs) (step_cut x r)
unfolding step_cut cut_sub
step_cut-Cuts from xs x none miss h = tt
step_cut-Cuts from xs x (some (a, b)) miss h = (
  ap (◌∷◌ x) h.0,
  elim (Bool-cases (starts_with (x ∷ a) from)) [
    | inl hit ↦ absurd (
        cc_false (
          sym (starts_with-append_left (x ∷ a) (from ++ b) from hit)
          ∙ ap (λ t. starts_with (x ∷ t) from) (sym h.0)
          ∙ miss))
    | inr other ↦ rw (other, h.1) refl
  ],
)

cut_sub-Cuts : (from s : Bytes) → Cuts from s (cut_sub from s)
unfolding cut_sub
cut_sub-Cuts from [] = tt
cut_sub-Cuts from (x ∷ xs) = elim (Bool-cases (starts_with (x ∷ xs) from)) [
  | inl hit ↦ rw hit (starts_with-drop (x ∷ xs) from hit, refl)
  | inr miss ↦ rw miss (step_cut-Cuts from xs x (cut_sub from xs) miss (cut_sub-Cuts from xs))
]

pub cut_sub-some :
    (from s : Bytes) {a b : Bytes}
    → cut_sub from s ≡ some (a, b)
    → (s ≡ a ++ (from ++ b)) × (cut_sub from a ≡ none)
cut_sub-some from s h = subst (Cuts from s) h (cut_sub-Cuts from s)

-- The pieces between the occurrences that are replaced: the same for every replacement text.
replace_loop_lem :
    (fuel p : ℕ) (ps s : Bytes)
    → length s < fuel
    → (piece : Bytes) × (pieces : List Bytes) × (s ≡ piece ++ join_rest (p ∷ ps) pieces)
      × All (λ t. cut_sub (p ∷ ps) t ≡ none) (piece ∷ pieces)
      × ((to : Bytes) → replace_loop fuel (p ∷ ps) to s ≡ some (piece ++ join_rest to pieces))
unfolding replace_loop join_rest
replace_loop_lem zero p ps s h = absurd (omega arith)
replace_loop_lem (suc fuel) p ps s h = elim (Option-cases (cut_sub (p ∷ ps) s)) [
  | inl e ↦ (
    s,
    [],
    sym (append-nil s),
    (e, tt),
    λ to. rw (e, replace_loop) (ap some (sym (append-nil s))),
  )
  | inr (c, e) ↦
      let (split, before) = cut_sub-some (p ∷ ps) s {a = c.0} {b = c.1} e in
      let shorter : length c.1 < fuel =
        omega (
          arith,
          ap length split,
          length-append c.0 ((p ∷ ps) ++ c.1),
          length-append (p ∷ ps) c.1,
        ) in
      let (piece, pieces, rest, apart, all) = replace_loop_lem fuel p ps c.1 shorter in
      (
        c.0,
        piece ∷ pieces,
        split ∙ ap (λ r. c.0 ++ ((p ∷ ps) ++ r)) rest,
        (before, apart),
        λ to. rw (e, replace_loop, all to) refl,
      )
]

-- Replacing a pattern that is not empty comes to an end, and cuts the text into pieces with the
-- pattern between them and none inside them, the same for every replacement; the result is the
-- pieces with the replacement between them.
pub replace_all_lem :
    (s : Bytes) (p : ℕ) (ps : Bytes)
    → (pieces : List Bytes) × (join pieces (p ∷ ps) ≡ s)
      × All (λ t. cut_sub (p ∷ ps) t ≡ none) pieces
      × ((to : Bytes) → replace_all s (p ∷ ps) to ≡ some (join pieces to))
unfolding replace_all join
replace_all_lem s p ps =
    let (piece, pieces, split, apart, all) = replace_loop_lem (length s + 1) p ps s (omega arith) in
    (piece ∷ pieces, sym split, apart, all)
