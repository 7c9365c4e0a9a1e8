-- ===== src/Request/Scan.antt =====
-- The scan for the end of a line in `ParseLine` of http/httprequest.cpp, and that it may stop at
-- the end of the received bytes and go on when more have come.
use uco.Prelude.{
  ℕ, zero, suc, ◌+◌, ◌-◌, ◌≤◌, ◌≡◌, sym, ap, ◌∙◌, subst, Bool, false, [], ◌∷◌, ◌++◌, Option, none,
  some, ◌==◌, if◌then◌else◌, length, get_elem?, take, drop, take-append-drop, length-take,
  length-drop, length-append, arith, Bool-cases, ==_iff, inl, inr,
}
use mathlib.Core.List.{append_assoc}
use uco.Prelude.Bytes.{Bytes, Free}

-- Where the scan ends: at the end of the text, at a stray `\r` or `\n`, or at a line end whose
-- `\r` has this index.
pub data Scan : Type 0 where
  pending stray : Scan
  line_at : ℕ → Scan

-- The byte before is a `\r`; there is none at the read position.
unfoldable pub is_cr : Option ℕ → Bool
is_cr none = false
is_cr (some c) = c == 13

unfoldable pub at_cr : ℕ → Bytes → Scan
at_cr i [] = pending
at_cr i (d ∷ s) = if d == 10 then line_at i else stray

-- The loop from index `i` on, with the byte before it.
unfoldable pub scan : Option ℕ → ℕ → Bytes → Scan
scan before i [] = pending
scan before i (c ∷ s) =
    let rest = scan (some c) (i + 1) s in
    if c == 13
    then at_cr i s
    else if c == 10
    then (if is_cr before then line_at (i - 1) else stray)
    else rest

unfoldable pub byte_before : ℕ → Bytes → Option ℕ
byte_before zero text = none
byte_before (suc i) text = get_elem? text i

-- The scan of a text from an offset on.
unfoldable pub scan_from : ℕ → Bytes → Scan
scan_from offset text = scan (byte_before offset text) offset (drop offset text)

-- A line without `\r` and `\n` is found up to its end.
pub scan-line :
    (before : Option ℕ) (i : ℕ) (l rest : Bytes)
    → Free 13 l
    → Free 10 l
    → scan before i (l ++ (13 ∷ 10 ∷ rest)) ≡ line_at (i + length l)
unfolding scan at_cr
scan-line before i [] rest f g = ap line_at (omega arith)
scan-line before i (c ∷ l) rest f g =
    let cr : (c == 13) ≡ false = ground (arith, f.0) in
    let lf : (c == 10) ≡ false = ground (arith, g.0) in
    rw (cr, lf) (scan-line (some c) (i + 1) l rest f.1 g.1 ∙ ap line_at (omega arith))

-- Of a scan that started at index `i` of a text: the `\n` that ended the line.
abbrev EndsAt : ℕ → Bytes → Scan → Type 0
EndsAt i s pending = Unit
EndsAt i s stray = Unit
EndsAt i s (line_at k) = (a : Bytes) × (b : Bytes) × (s ≡ a ++ (10 ∷ b)) × (k + 1 ≡ i + length a)

at_cr-EndsAt : (i : ℕ) (s : Bytes) → EndsAt i (13 ∷ s) (at_cr i s)
unfolding at_cr
at_cr-EndsAt i [] = tt
at_cr-EndsAt i (d ∷ s) = elim (Bool-cases (d == 10)) [
  | inl lf ↦ rw lf (13 ∷ [], s, ap (λ t. 13 ∷ t ∷ s) ((==_iff d 10).0 lf), omega arith)
  | inr other ↦ rw other tt
]

EndsAt-cons : (i c : ℕ) (s : Bytes) (r : Scan) → EndsAt (i + 1) s r → EndsAt i (c ∷ s) r
EndsAt-cons i c s pending h = tt
EndsAt-cons i c s stray h = tt
EndsAt-cons i c s (line_at k) (a, b, e, n) = (c ∷ a, b, ap (◌∷◌ c) e, omega arith)

-- A byte before the first index is given only behind it.
abbrev Behind : ℕ → Option ℕ → Type 0
Behind i none = Unit
Behind i (some c) = 1 ≤ i

scan-EndsAt :
    (before : Option ℕ) (i : ℕ) (s : Bytes) → Behind i before → EndsAt i s (scan before i s)
unfolding scan is_cr
scan-EndsAt before i [] h = tt
scan-EndsAt before i (c ∷ s) h = elim (Bool-cases (c == 13)) [
  | inl cr ↦
      rw cr
        (subst (λ t. EndsAt i (t ∷ s) (at_cr i s)) (sym ((==_iff c 13).0 cr)) (at_cr-EndsAt i s))
  | inr other ↦ elim (Bool-cases (c == 10)) [
    | inl lf ↦ rw (other, lf) (at_lf before h ((==_iff c 10).0 lf))
    | inr text ↦
        rw (other, text) (EndsAt-cons i c s _ (scan-EndsAt (some c) (i + 1) s (omega arith)))
  ]
]
  where
    at_lf :
        (o : Option ℕ)
        → Behind i o
        → c ≡ 10
        → EndsAt i (c ∷ s) (if is_cr o then line_at (i - 1) else stray)
    at_lf none b e = tt
    at_lf (some x) b e = elim (Bool-cases (x == 13)) [
      | inl cr ↦ rw cr ([], s, ap (λ t. t ∷ s) e, omega arith)
      | inr other ↦ rw other tt
    ]

Behind-byte_before : (offset : ℕ) (text : Bytes) → Behind offset (byte_before offset text)
unfolding byte_before
Behind-byte_before zero text = tt
Behind-byte_before (suc i) text = go (get_elem? text i)
  where
    go : (o : Option ℕ) → Behind (suc i) o
    go none = tt
    go (some c) = omega arith

-- A line end found is a `\n` of the text.
pub scan_from-line_at :
    (offset : ℕ) (text : Bytes) (k : ℕ)
    → scan_from offset text ≡ line_at k
    → (a : Bytes) × (b : Bytes) × (text ≡ a ++ (10 ∷ b)) × (k + 1 ≡ length a)
unfolding scan_from
scan_from-line_at offset text k h =
    let (a, b, e, n) = subst (EndsAt offset (drop offset text)) h (
      scan-EndsAt (byte_before offset text) offset (drop offset text)
        (Behind-byte_before offset text)) in
    (
      take offset text ++ a,
      b,
      sym (take-append-drop offset text)
          ∙ (ap (λ t. take offset text ++ t) e ∙ sym (append_assoc (take offset text) a (10 ∷ b))),
      omega (
        arith,
        length-append (take offset text) a,
        length-take offset text,
        length-drop offset text,
        ap length e,
        length-append a (10 ∷ b),
      ),
    )
