-- ===== src/Router/Segments.antt =====
-- `splitPath` of http/httpserver.cpp.
use uco.Prelude.{
  ℕ, ◌≡◌, ◌≢◌, refl, ap, ◌∙◌, false, List, [], ◌∷◌, ◌++◌, ◌==◌, if◌then◌else◌, arith, Bool-cases,
  inl, inr,
}
use mathlib.Core.List.{append-nil, append_assoc}
use uco.Prelude.Bytes.{Bytes, All, Free}

-- `push_back` of a segment that is not empty.
unfoldable pub push_segment : Bytes → List Bytes → List Bytes
push_segment [] rest = rest
push_segment (c ∷ s) rest = (c ∷ s) ∷ rest

-- `getline(ss, segment, '/')`, character by character; the first argument is the segment so far.
unfoldable pub split_from : Bytes → Bytes → List Bytes
split_from segment [] = push_segment segment []
split_from segment (c ∷ s) =
    let ended = push_segment segment (split_from [] s) in
    let longer = split_from (segment ++ (c ∷ [])) s in if c == b'/' then ended else longer

unfoldable pub split_path : Bytes → List Bytes
split_path s = split_from [] s

-- The text of a list of segments, each behind a slash.
unfoldable pub slashed : List Bytes → Bytes
slashed [] = []
slashed (s ∷ rest) = b'/' ∷ (s ++ slashed rest)

-- A segment as `splitPath` makes them.
abbrev pub IsSegment : Bytes → Type 0
IsSegment s = (s ≢ []) × Free b'/' s

pub push_segment-IsSegment :
    (s : Bytes) (rest : List Bytes)
    → Free b'/' s
    → All IsSegment rest
    → All IsSegment (push_segment s rest)
unfolding push_segment
push_segment-IsSegment [] rest f h = h
push_segment-IsSegment (c ∷ s) rest f h = (((λ e. cc), f), h)

Free-snoc : (s : Bytes) (c : ℕ) → Free b'/' s → c ≢ b'/' → Free b'/' (s ++ (c ∷ []))
Free-snoc [] c f h = (h, tt)
Free-snoc (x ∷ s) c f h = (f.0, Free-snoc s c f.1 h)

split_from-IsSegment :
    (segment s : Bytes) → Free b'/' segment → All IsSegment (split_from segment s)
unfolding split_from
split_from-IsSegment segment [] f = push_segment-IsSegment segment [] f tt
split_from-IsSegment segment (c ∷ s) f = elim (Bool-cases (c == b'/')) [
  | inl slash ↦
      rw slash (push_segment-IsSegment segment (split_from [] s) f (split_from-IsSegment [] s tt))
  | inr other ↦
      rw other (split_from-IsSegment (segment ++ (c ∷ [])) s (Free-snoc segment c f (ground arith)))
]

split_from-append :
    (segment s t : Bytes) → Free b'/' s → split_from segment (s ++ t) ≡ split_from (segment ++ s) t
unfolding split_from
split_from-append segment [] t f = rw (append-nil segment)
split_from-append segment (c ∷ s) t f =
    let miss : (c == b'/') ≡ false = ground (arith, f.0) in
    rw miss (
      split_from-append (segment ++ (c ∷ [])) s t f.1
      ∙ ap (λ u. split_from u t) (append_assoc segment (c ∷ []) s))

split_from-slash :
    (segment t : Bytes) → split_from segment (b'/' ∷ t) ≡ push_segment segment (split_from [] t)
unfolding split_from
split_from-slash segment t = refl

push_segment_full : (s : Bytes) (rest : List Bytes) → s ≢ [] → push_segment s rest ≡ s ∷ rest
unfolding push_segment
push_segment_full [] rest h = absurd (h refl)
push_segment_full (c ∷ s) rest h = refl

push_nil : (rest : List Bytes) → push_segment [] rest ≡ rest
unfolding push_segment
push_nil rest = refl

push_segment-append :
    (s : Bytes) (a b : List Bytes) → push_segment s (a ++ b) ≡ push_segment s a ++ b
unfolding push_segment
push_segment-append [] a b = refl
push_segment-append (c ∷ s) a b = refl

split_from_nil : (s : Bytes) → split_from s [] ≡ push_segment s []
unfolding split_from
split_from_nil s = refl

split_from-append_slash :
    (segment s t : Bytes)
    → split_from segment (s ++ (b'/' ∷ t)) ≡ split_from segment s ++ split_from [] t
unfolding split_from
split_from-append_slash segment [] t = push_segment-append segment [] (split_from [] t)
split_from-append_slash segment (c ∷ s) t = elim (Bool-cases (c == b'/')) [
  | inl slash ↦ rw slash (
      ap (push_segment segment) (split_from-append_slash [] s t)
      ∙ push_segment-append segment (split_from [] s) (split_from [] t))
  | inr other ↦ rw other (split_from-append_slash (segment ++ (c ∷ [])) s t)
]

-- Before the text of more segments, a segment that has been read in full is pushed.
split_from-slashed :
    (segment : Bytes) (parts : List Bytes)
    → All IsSegment parts
    → split_from segment (slashed parts) ≡ push_segment segment parts
unfolding slashed
split_from-slashed segment [] h = split_from_nil segment
split_from-slashed segment (s ∷ rest) h =
    split_from-slash segment (s ++ slashed rest)
    ∙ ap (push_segment segment) (
        split_from-append [] s (slashed rest) h.0.1
        ∙ (split_from-slashed s rest h.1 ∙ push_segment_full s rest h.0.0))

-- Splitting gives segments that are not empty and have no slash, and gives back any such
-- segments from their text.
pub split_path_lem :
    ((s : Bytes) → All IsSegment (split_path s))
    × ((parts : List Bytes) → All IsSegment parts → split_path (slashed parts) ≡ parts)
unfolding split_path
split_path_lem =
    (λ s. split_from-IsSegment [] s tt, λ parts h. split_from-slashed [] parts h ∙ push_nil parts)

-- A slash between two texts separates their segments.
pub split_path-append_slash :
    (s t : Bytes) → split_path (s ++ (b'/' ∷ t)) ≡ split_path s ++ split_path t
unfolding split_path
split_path-append_slash s t = split_from-append_slash [] s t

pub split_path-slash : (s : Bytes) → split_path (b'/' ∷ s) ≡ split_path s
unfolding split_path split_from push_segment
split_path-slash s = refl

pub split_path-nil : split_path [] ≡ []
unfolding split_path split_from push_segment
split_path-nil = refl
