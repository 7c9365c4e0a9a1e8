-- ===== src/Request/Progress.antt =====
-- The loop of `Parse` of http/httprequest.cpp ends: each line taken out has a `\n` that is not read
-- again.
use uco.Prelude.{
  ℕ, zero, suc, ◌+◌, ◌≤◌, ◌<◌, ◌≡◌, refl, sym, ap, subst, ◌∙◌, Bool, true, false, [], ◌∷◌, ◌++◌,
  Option, none, some, ◌==◌, if◌then◌else◌, leb, length, arith, Bool-cases, inl, inr,
}
use mathlib.Core.Option
use mathlib.Core.List.{append_assoc}
use uco.Prelude.Bytes.{Bytes}
use uco.Buffer.{Buffer, readable_bytes}
use uco.Prelude.Word.{size_of_int}
use uco.Buffer.Content.{IsValid, content}
use uco.Request.Scan.{Scan, pending, stray, line_at, scan_from, scan_from-line_at}
use uco.Request.State.{
  ParseState, parsing_start, parsing_request_line, parsing_header, parsing_body, parsing_finish,
  HttpState, LineState, line_ok, line_bad, line_open, Request, readable, taken, after_scan,
  start_offset, parse_line,
}
use uco.Request.Parse.{
  Stop, dispatch, after_dispatch, after_line, is_body, parse_loop, rejected, stopped, parse_body,
  body_state, finish_parse, begin_parse, parse,
}
use uco.Request.Kept.{dispatch-buffer}
use uco.Request.Lines.{readable-content, left, retrieved}

-- The number of `\n` in a text.
unfoldable line_ends : Bytes → ℕ
line_ends [] = 0
line_ends (c ∷ s) = (if c == 10 then 1 else 0) + line_ends s

line_ends-append : (s t : Bytes) → line_ends (s ++ t) ≡ line_ends s + line_ends t
unfolding line_ends
line_ends-append [] t = omega arith
line_ends-append (c ∷ s) t = omega (arith, line_ends-append s t)

line_ends-le : (s : Bytes) → line_ends s ≤ length s
unfolding line_ends
line_ends-le [] = omega arith
line_ends-le (c ∷ s) = ground (arith, line_ends-le s)

line_ends-left :
    (c : ℕ) (l rest : Bytes) → line_ends (left l rest) < line_ends (l ++ (c ∷ 10 ∷ rest))
unfolding line_ends
line_ends-left c l [] =
    omega (arith, line_ends-append l (0 ∷ 0 ∷ []), line_ends-append l (c ∷ 10 ∷ []))
line_ends-left c l (x ∷ xs) = omega (arith, line_ends-append l (c ∷ 10 ∷ x ∷ xs))

-- The last element apart.
unsnoc :
    (k : ℕ) (a : Bytes)
    → k + 1 ≡ length a
    → (l : Bytes) × (c : ℕ) × (a ≡ l ++ (c ∷ [])) × (length l ≡ k)
unsnoc k [] h = absurd (omega arith)
unsnoc zero (c ∷ []) h = ([], c, refl, refl)
unsnoc zero (c ∷ d ∷ a) h = absurd (omega arith)
unsnoc (suc k) (c ∷ a) h =
    let (l, x, e, n) = unsnoc k a (omega arith) in (c ∷ l, x, ap (◌∷◌ c) e, ap suc n)

-- A line taken out leaves a valid buffer with fewer line ends.
abbrev Shrinks : Request → Request × LineState → Type 0
Shrinks r (s, line_ok) =
    IsValid s.buffer × (line_ends (content s.buffer) < line_ends (content r.buffer))
Shrinks r (s, line_bad) = IsValid s.buffer
Shrinks r (s, line_open) = IsValid s.buffer

taken-Shrinks :
    (r : Request) (k : ℕ) (a b : Bytes)
    → IsValid r.buffer
    → content r.buffer ≡ a ++ (10 ∷ b)
    → k + 1 ≡ length a
    → Shrinks r (taken k r, line_ok)
unfolding taken
taken-Shrinks r k a b v text n =
    let (l, c, e, m) = unsnoc k a n in
    let whole : content r.buffer ≡ l ++ (c ∷ 10 ∷ b) =
      text ∙ (ap (λ t. t ++ (10 ∷ b)) e ∙ append_assoc l (c ∷ []) (10 ∷ b)) in
    let (w, rest_left, _) = retrieved c l b r.buffer v whole in
    subst (λ i. Shrinks r (taken i r, line_ok)) m (w, rw (rest_left, whole) (line_ends-left c l b))

parse_line-Shrinks : (r : Request) → IsValid r.buffer → Shrinks r (parse_line r)
unfolding parse_line after_scan
parse_line-Shrinks r v = go (scan_from (start_offset r.read_offset) (readable r.buffer)) refl
  where
    go :
        (s : Scan)
        → scan_from (start_offset r.read_offset) (readable r.buffer) ≡ s
        → Shrinks r (after_scan r s)
    go pending e = v
    go stray e = v
    go (line_at k) e =
        let (a, b, text, n) =
          scan_from-line_at (start_offset r.read_offset) (readable r.buffer) k e in
        taken-Shrinks r k a b v (sym (readable-content r.buffer v) ∙ text) n

-- The loop has come to an end, with a valid buffer.
abbrev pub Ends : Option (Request × Stop) → Type 0
Ends none = ⊥
Ends (some (r, stop)) = IsValid r.buffer

after_dispatch-Ends :
    (next : Request → Option (Request × Stop)) (b : Buffer) (d : Request × Bool)
    → d.0.buffer ≡ b
    → IsValid b
    → ((s : Request) → s.buffer ≡ b → Ends (next s))
    → Ends (after_dispatch next d)
unfolding after_dispatch
after_dispatch-Ends next b (s, true) e v h = h s e
after_dispatch-Ends next b (s, false) e v h = subst IsValid (sym e) v

parse_loop-Ends :
    (fuel : ℕ) (r : Request)
    → IsValid r.buffer
    → line_ends (content r.buffer) < fuel
    → Ends (parse_loop fuel r)
unfolding parse_loop after_line
parse_loop-Ends zero r v h = absurd (omega arith)
parse_loop-Ends (suc fuel) r v h = elim (Bool-cases (is_body r.state)) [
  | inl body ↦ rw body v
  | inr going ↦
      rw going (
        go (parse_line r) (parse_line-Shrinks r v)
          (λ s w m. parse_loop-Ends fuel s w (omega arith)))
]
  where
    go :
        (p : Request × LineState)
        → Shrinks r p
        → ((s : Request)
            → IsValid s.buffer
            → line_ends (content s.buffer) < line_ends (content r.buffer)
            → Ends (parse_loop fuel s))
        → Ends (after_line (parse_loop fuel) p)
    go (s, line_ok) (w, m) next =
        after_dispatch-Ends (parse_loop fuel) s.buffer (dispatch s.state s)
          (dispatch-buffer s.state s) w
          (λ t e.
            next t (subst IsValid (sym e) w)
              (subst (λ b. line_ends (content b) < line_ends (content r.buffer)) (sym e) m))
    go (s, line_bad) q next = q
    go (s, line_open) q next = q

begin_parse-buffer : (r : Request) → (begin_parse r).buffer ≡ r.buffer
unfolding begin_parse
begin_parse-buffer r = go r.state refl
  where
    go : (s : ParseState) → r.state ≡ s → (begin_parse r).buffer ≡ r.buffer
    go parsing_start e = rw e refl
    go parsing_request_line e = rw e refl
    go parsing_header e = rw e refl
    go parsing_body e = rw e refl
    go parsing_finish e = rw e refl

body_state-buffer : (r : Request) → (body_state (parse_body r)).0.buffer ≡ r.buffer
unfolding body_state parse_body
body_state-buffer r =
    elim (Bool-cases (leb (size_of_int r.content_length) (readable_bytes r.buffer))) [
      | inl enough ↦ rw enough refl
      | inr short ↦ rw short refl
    ]

finish_parse-buffer : (p : Request × Stop) → (finish_parse p).0.buffer ≡ p.0.buffer
unfolding finish_parse
finish_parse-buffer (r, rejected) = refl
finish_parse-buffer (r, stopped l) = elim (Bool-cases (is_body r.state)) [
  | inl body ↦ rw body (body_state-buffer r)
  | inr other ↦ rw other refl
]

-- On a request with a valid buffer, whatever bytes it holds, `Parse` returns, and the buffer is
-- valid afterwards.
pub parse_total :
    (r : Request)
    → IsValid r.buffer
    → (s : Request) × (h : HttpState) × (parse r ≡ some (s, h)) × IsValid s.buffer
unfolding parse
parse_total r v =
    let fuel = length (readable r.buffer) + 1 in
    let same = begin_parse-buffer r in
    let enough : line_ends (content (begin_parse r).buffer) < fuel = omega (
      arith,
      line_ends-le (content r.buffer),
      ap (λ b. line_ends (content b)) same,
      ap length (readable-content r.buffer v),
    ) in
    go (parse_loop fuel (begin_parse r))
      (parse_loop-Ends fuel (begin_parse r) (subst IsValid (sym same) v) enough)
  where
    go :
        (o : Option (Request × Stop))
        → Ends o
        → (s : Request) × (h : HttpState) × (Option.map finish_parse o ≡ some (s, h))
          × IsValid s.buffer
    go none e = absurd e
    go (some p) e = (
      (finish_parse p).0,
      (finish_parse p).1,
      refl,
      subst IsValid (sym (finish_parse-buffer p)) e,
    )
