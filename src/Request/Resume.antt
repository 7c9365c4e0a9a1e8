-- ===== src/Request/Resume.antt =====
-- `ParseLine` of http/httprequest.cpp may stop at the end of the received bytes and go on when more
-- have come.
use uco.Prelude.{
  ℕ, ◌+◌, ◌-◌, ◌≡◌, ◌≢◌, sym, ap, ap₂, ◌∙◌, refl, [], ◌∷◌, ◌++◌, Option, none, some, ◌==◌,
  if◌then◌else◌, length, get_elem?, arith, Bool-cases, ==_iff, inl, inr,
}
use uco.Prelude.Bytes.{Bytes}
use uco.Prelude.Segments.{drop-length-append}
use uco.Request.Scan.{pending, stray, line_at, is_cr, at_cr, scan, byte_before, scan_from}

-- The last byte of a text, or the byte before it.
abbrev pub last_byte : Option ℕ → Bytes → Option ℕ
last_byte before [] = before
last_byte before (c ∷ s) = last_byte (some c) s

-- More bytes that do not leave a `\r` alone: after a text that ends in `\r` comes a `\n`.
abbrev pub Continues : Bytes → Bytes → Type 0
Continues text more = last_byte none text ≡ some 13 → (m : Bytes) × (more ≡ 10 ∷ m)

at_cr-pending : (i : ℕ) (s : Bytes) → at_cr i s ≡ pending → s ≡ []
unfolding at_cr
at_cr-pending i [] h = refl
at_cr-pending i (d ∷ s) h = elim (Bool-cases (d == 10)) [
  | inl lf ↦ absurd (let g : line_at i ≡ pending = rw lf at h in ground arith)
  | inr other ↦ absurd (let g : stray ≡ pending = rw other at h in ground arith)
]

at_cr-resumed :
    (i : ℕ) (more : Bytes)
    → (m : Bytes) × (more ≡ 10 ∷ m)
    → at_cr i more ≡ scan (some 13) (i + 1) more
unfolding at_cr scan is_cr
at_cr-resumed i more (m, e) = rw e (ap line_at (omega arith))

no_lf : (o : Option ℕ) (i : ℕ) → (if is_cr o then line_at (i - 1) else stray) ≢ pending
no_lf o i h = elim (Bool-cases (is_cr o)) [
  | inl cr ↦ let g : line_at (i - 1) ≡ pending = rw cr at h in ground arith
  | inr other ↦ let g : stray ≡ pending = rw other at h in ground arith
]

scan-append :
    (before : Option ℕ) (i : ℕ) (s more : Bytes)
    → scan before i s ≡ pending
    → (last_byte before s ≡ some 13 → (m : Bytes) × (more ≡ 10 ∷ m))
    → scan before i (s ++ more) ≡ scan (last_byte before s) (i + length s) more
unfolding scan
scan-append before i [] more h k = ap (λ j. scan before j more) (omega arith)
scan-append before i (c ∷ s) more h k = elim (Bool-cases (c == 13)) [
  | inl cr ↦
      let none_left = at_cr-pending i s (rw cr at h) in
      let e = (==_iff c 13).0 cr in
      let lf = k (rw none_left (ap some e)) in rw (cr, none_left, e) (at_cr-resumed i more lf)
  | inr other ↦ elim (Bool-cases (c == 10)) [
    | inl lf ↦ absurd (no_lf before i (rw (other, lf) at h))
    | inr plain ↦
        rw (other, plain)
          (scan-append (some c) (i + 1) s more (rw (other, plain) at h) k
            ∙ ap (λ j. scan (last_byte (some c) s) j more) (omega arith))
  ]
]

byte_before-length :
    (before : Option ℕ) (c : ℕ) (s more : Bytes)
    → get_elem? ((c ∷ s) ++ more) (length s) ≡ last_byte before (c ∷ s)
byte_before-length before c [] more = refl
byte_before-length before c (d ∷ s) more = byte_before-length (some c) d s more

-- A scan that ran out of bytes and goes on when more have come finds what a scan of all the bytes
-- finds, if no `\r` at the end of the first ones stays alone.
pub scan_from-resumed :
    (text more : Bytes)
    → scan_from 0 text ≡ pending
    → Continues text more
    → scan_from (length text) (text ++ more) ≡ scan_from 0 (text ++ more)
unfolding scan_from byte_before
scan_from-resumed [] more h k = refl
scan_from-resumed (c ∷ s) more h k =
    let shift : 0 + length (c ∷ s) ≡ length (c ∷ s) = omega arith in
    sym (
      (scan-append none 0 (c ∷ s) more h k ∙ ap (λ j. scan (last_byte none (c ∷ s)) j more) shift)
      ∙ ap₂ (λ o t. scan o (length (c ∷ s)) t) (sym (byte_before-length none c s more))
          (sym (drop-length-append (c ∷ s) more)))
