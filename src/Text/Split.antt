-- ===== src/Text/Split.antt =====
-- `Split` of core/ustring.cpp, and its relation to `Join`.
use uco.Prelude.{
  ℕ, zero, suc, ◌+◌, ◌<◌, ◌≡◌, refl, ap, sym, ◌∙◌, Bool, true, false, List, [], ◌∷◌, ◌++◌, Option,
  none, some, ◌&&◌, if◌then◌else◌, length, arith, Option-cases, inl, inr, length-append,
}
use mathlib.Core.List.{append-nil}
use mathlib.Core.Option
use uco.Prelude.Bytes.{
  Bytes, All, Free, cut_at, cut_at-some, cut_at-append, cut_at-none, Free-of_none,
}
use uco.Text.Trim.{trim, blanks}
use uco.Text.Search.{join, join_rest}

-- `SplitOpt`: the two bits.
pub record SplitOpt : Type 0 where
  pub trims : Bool
  pub skips_empty : Bool

unfoldable pub is_empty : Bytes → Bool
is_empty [] = true
is_empty (x ∷ xs) = false

-- The part that one round makes of its piece of the text.
unfoldable pub part_of : SplitOpt → Bytes → Bytes
part_of opt piece = if opt.trims then trim piece blanks else piece

-- One round's `push_back`, or the `continue` of a part that is skipped.
unfoldable pub push_part : SplitOpt → Bytes → List Bytes → List Bytes
push_part opt part rest = if opt.skips_empty && is_empty part then rest else part ∷ rest

-- The loop of `Split` on fuel; `none` means that the fuel ran out.
unfoldable pub split_loop : ℕ → ℕ → SplitOpt → Bytes → Option (List Bytes)
split_loop zero delim opt s = none
split_loop (suc fuel) delim opt s = elim (cut_at delim s) [
  | none ↦ some (push_part opt (part_of opt s) [])
  | some (a, b) ↦ Option.map (push_part opt (part_of opt a)) (split_loop fuel delim opt b)
]

unfoldable pub split : Bytes → ℕ → SplitOpt → Option (List Bytes)
split s delim opt = split_loop (length s + 1) delim opt s

-- What the options keep of the pieces between the delimiters.
abbrev pub select : SplitOpt → List Bytes → List Bytes
select opt [] = []
select opt (piece ∷ pieces) = push_part opt (part_of opt piece) (select opt pieces)

split_loop_lem :
    (fuel delim : ℕ) (s : Bytes)
    → length s < fuel
    → (piece : Bytes) × (pieces : List Bytes) × (s ≡ piece ++ join_rest (delim ∷ []) pieces)
      × All (Free delim) (piece ∷ pieces)
      × ((opt : SplitOpt) → split_loop fuel delim opt s ≡ some (select opt (piece ∷ pieces)))
unfolding split_loop join_rest
split_loop_lem zero delim s h = absurd (omega arith)
split_loop_lem (suc fuel) delim s h = elim (Option-cases (cut_at delim s)) [
  | inl e ↦
      (s, [], sym (append-nil s), (Free-of_none delim s e, tt), λ opt. rw (e, split_loop) refl)
  | inr (c, e) ↦
      let (cut, free) = cut_at-some delim s {a = c.0} {b = c.1} e in
      let shorter : length c.1 < fuel =
        omega (arith, ap length cut, length-append c.0 (delim ∷ c.1)) in
      let (piece, pieces, rest, apart, all) = split_loop_lem fuel delim c.1 shorter in
      (
        c.0,
        piece ∷ pieces,
        cut ∙ ap (λ r. c.0 ++ (delim ∷ r)) rest,
        (free, apart),
        λ opt. rw (e, split_loop, all opt) refl,
      )
]

-- Splitting comes to an end. There are pieces without the delimiter that, joined by it, are the
-- text; the result, under every combination of the options, is those pieces in order, trimmed and
-- without the empty ones as the options ask.
pub split_lem :
    (s : Bytes) (delim : ℕ)
    → (pieces : List Bytes) × (join pieces (delim ∷ []) ≡ s)
      × All (Free delim) pieces
      × ((opt : SplitOpt) → split s delim opt ≡ some (select opt pieces))
unfolding split join
split_lem s delim =
    let (piece, pieces, cut, apart, all) = split_loop_lem (length s + 1) delim s (omega arith) in
    (piece ∷ pieces, sym cut, apart, all)

abbrev pub plain : SplitOpt
plain = record { trims = false; skips_empty = false }

split_loop-join :
    (fuel delim : ℕ) (p : Bytes) (ps : List Bytes)
    → length (p ++ join_rest (delim ∷ []) ps) < fuel
    → All (Free delim) (p ∷ ps)
    → split_loop fuel delim plain (p ++ join_rest (delim ∷ []) ps) ≡ some (p ∷ ps)
unfolding split_loop join_rest part_of push_part
split_loop-join zero delim p ps h free = absurd (omega arith)
split_loop-join (suc fuel) delim p [] h free =
    rw (append-nil p) (rw (cut_at-none delim p free.0, split_loop) refl)
split_loop-join (suc fuel) delim p (q ∷ ps) h free =
    let rest = q ++ join_rest (delim ∷ []) ps in
    let shorter : length rest < fuel = omega (arith, length-append p (delim ∷ rest)) in
    rw
      (
        cut_at-append delim p rest free.0,
        split_loop,
        split_loop-join fuel delim q ps shorter free.1,
      )
      refl

-- Parts without the delimiter, at least one, come back from the text that they are joined to.
pub split-join :
    (delim : ℕ) (p : Bytes) (ps : List Bytes)
    → All (Free delim) (p ∷ ps)
    → split (join (p ∷ ps) (delim ∷ [])) delim plain ≡ some (p ∷ ps)
unfolding split join
split-join delim p ps free =
    split_loop-join (length (p ++ join_rest (delim ∷ []) ps) + 1) delim p ps (omega arith) free
