-- ===== src/Connection/SafePath.antt =====
-- `isSafePath` of http/httpconnection.cpp: no segment of a path is `.` or `..`.
use uco.Prelude.{
  ◌≡◌, ◌≢◌, ◌↔◌, refl, Bool, true, false, not, ◌||◌, List, [], ◌∷◌, ◌++◌, ◌==◌, if◌then◌else◌,
  arith, Bool-cases, inl, inr,
}
use uco.Prelude.Bytes.{Bytes, All, bytes_eq, bytes_eq_iff}
use uco.Router.Segments.{push_segment, split_from, split_path}

-- The two tests on a segment.
unfoldable pub is_dots : Bytes → Bool
is_dots segment = bytes_eq segment (b'.' ∷ []) || bytes_eq segment (b'.' ∷ b'.' ∷ [])

-- The loop, with the segment so far; empty segments are skipped slashes.
unfoldable pub safe_from : Bytes → Bytes → Bool
safe_from segment [] = not (is_dots segment)
safe_from segment (c ∷ s) =
    let ended = safe_from [] s in
    let longer = safe_from (segment ++ (c ∷ [])) s in
    if c == b'/' then (if is_dots segment then false else ended) else longer

unfoldable pub is_safe_path : Bytes → Bool
is_safe_path s = safe_from [] s

-- A segment that does not climb or stay.
abbrev pub Descends : Bytes → Type 0
Descends s = is_dots s ≡ false

push_segment-Descends :
    (segment : Bytes) (rest : List Bytes)
    → (All Descends (push_segment segment rest)) ↔ (Descends segment × All Descends rest)
unfolding push_segment is_dots bytes_eq
push_segment-Descends [] rest = ((λ h. (refl, h)), λ h. h.1)
push_segment-Descends (c ∷ s) rest = ((λ h. h), λ h. h)

safe_from-Descends :
    (segment s : Bytes) → (safe_from segment s ≡ true) ↔ All Descends (split_from segment s)
unfolding safe_from split_from
safe_from-Descends segment [] =
    let both = push_segment-Descends segment [] in
    ((λ h. both.1 (ground arith, tt)), λ h. ground (arith, (both.0 h).0))
safe_from-Descends segment (c ∷ s) = elim (Bool-cases (c == b'/')) [
  | inl slash ↦
      let both = push_segment-Descends segment (split_from [] s) in
      let rest = safe_from-Descends [] s in
      rw slash (elim (Bool-cases (is_dots segment)) [
        | inl dots ↦
            rw dots ((λ h. absurd (ground arith)), λ h. absurd (ground (arith, (both.0 h).0)))
        | inr clean ↦ rw clean ((λ h. both.1 (clean, rest.0 h)), λ h. rest.1 (both.0 h).1)
      ])
  | inr other ↦ rw other (safe_from-Descends (segment ++ (c ∷ [])) s)
]

named : (t : Bytes) → Descends t ↔ ((t ≢ b'.' ∷ []) × (t ≢ b'.' ∷ b'.' ∷ []))
unfolding is_dots
named t =
    let dot = bytes_eq_iff t (b'.' ∷ []) in
    let dots = bytes_eq_iff t (b'.' ∷ b'.' ∷ []) in
    elim (Bool-cases (bytes_eq t (b'.' ∷ []))) [
      | inl one ↦ rw one ((λ h. absurd (ground arith)), λ h. absurd (h.0 (dot.0 one)))
      | inr no_dot ↦ elim (Bool-cases (bytes_eq t (b'.' ∷ b'.' ∷ []))) [
        | inl two ↦ rw (no_dot, two) ((λ h. absurd (ground arith)), λ h. absurd (h.1 (dots.0 two)))
        | inr no_dots ↦
            rw (no_dot, no_dots)
              (
                (λ h. (
                  (λ e. absurd (ground (arith, dot.1 e))),
                  λ e. absurd (ground (arith, dots.1 e)),
                )),
                λ h. refl,
              )
      ]
    ]

All-map : {P Q : Bytes → Type 0} → ((t : Bytes) → P t → Q t) → (l : List Bytes) → All P l → All Q l
All-map f [] h = tt
All-map f (t ∷ l) h = (f t h.0, All-map f l h.1)

-- A path is found safe exactly when none of the segments that the router cuts it into is `.` or
-- `..`.
pub is_safe_path_lem :
    (s : Bytes)
    → (is_safe_path s ≡ true) ↔ All (λ t. (t ≢ b'.' ∷ []) × (t ≢ b'.' ∷ b'.' ∷ [])) (split_path s)
unfolding is_safe_path split_path
is_safe_path_lem s =
    let both = safe_from-Descends [] s in
    (
      (λ h. All-map (λ t. (named t).0) (split_from [] s) (both.0 h)),
      λ h. both.1 (All-map (λ t. (named t).1) (split_from [] s) h),
    )
