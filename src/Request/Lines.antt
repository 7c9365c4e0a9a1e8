-- ===== src/Request/Lines.antt =====
-- `ParseLine` of http/httprequest.cpp on the unread bytes: which line it finds, and what is left.
use uco.Prelude.{
  ℕ, zero, suc, ◌+◌, ◌-◌, ◌≤◌, ◌<◌, ◌≡◌, refl, sym, ap, subst, ◌∙◌, true, [], ◌∷◌, ◌++◌, none, ◌==◌,
  ltb, ◌&&◌, if◌then◌else◌, length, take, drop, length-append, length-take, length-drop, arith,
}
use uco.Prelude.Bytes.{Bytes, Free}
use uco.Prelude.Segments.{
  overlay, length-overlay, take-overlay, drop-append, drop-drop, take-drop, take-take,
  take-length-append, drop-length_add-append,
}
use native.Mathlib.Nat.{zero-add, suc-add}
use uco.Buffer.{Buffer, retrieve_until, readable_bytes}
use uco.Buffer.Content.{IsValid, content, length-content, readable_bytes-content}
use uco.Buffer.Growth.{retrieve_until_lem}
use uco.Request.Scan.{line_at, scan_from, scan, byte_before, scan-line}
use uco.Request.State.{
  Request, line_ok, c_string, current_line, readable, zeroed, taken, after_scan, start_offset,
  parse_line,
}

pub readable-content : (b : Buffer) → IsValid b → readable b ≡ content b
unfolding readable
readable-content b v =
    take-drop (readable_bytes b) b.read_position b.store
    ∙ ap (λ k. drop b.read_position (take k b.store))
        (omega (arith, readable_bytes-content b v, length-content b v, v.ordered))

-- What a line of this text leaves unread: what comes after it, but if nothing does, the line
-- stays, with its end as two zeros.
abbrev pub left : Bytes → Bytes → Bytes
left l [] = l ++ (0 ∷ 0 ∷ [])
left l (x ∷ xs) = x ∷ xs

c_string-overlay :
    (i : ℕ) (s : Bytes) → i < length s → c_string (overlay i (0 ∷ 0 ∷ []) s) ≡ c_string (take i s)
unfolding overlay c_string
c_string-overlay i [] h = absurd (omega arith)
c_string-overlay zero (y ∷ s) h = refl
c_string-overlay (suc i) (y ∷ s) h =
    ap (λ t. if y == 0 then [] else y ∷ t) (c_string-overlay i s (omega arith))

drop-overlay_within :
    (p i : ℕ) (d s : Bytes) → drop p (overlay (p + i) d s) ≡ overlay i d (drop p s)
unfolding overlay
drop-overlay_within zero i d s = rw zero-add refl
drop-overlay_within (suc p) i d [] = refl
drop-overlay_within (suc p) i d (y ∷ s) = rw suc-add (drop-overlay_within p i d s)

drop-overlay : (m n : ℕ) (d s : Bytes) → m + length d ≤ n → drop n (overlay m d s) ≡ drop n s
unfolding overlay
drop-overlay m n d [] h = refl
drop-overlay zero zero [] (y ∷ ys) h = refl
drop-overlay zero (suc n) [] (y ∷ ys) h = refl
drop-overlay zero zero (x ∷ d) (y ∷ ys) h = absurd (omega arith)
drop-overlay zero (suc n) (x ∷ d) (y ∷ ys) h = drop-overlay zero n d ys (omega arith)
drop-overlay (suc m) zero d (y ∷ ys) h = absurd (omega arith)
drop-overlay (suc m) (suc n) d (y ∷ ys) h = drop-overlay m n d ys (omega arith)

window :
    (t w : ℕ) (s u : Bytes) → t ≤ w → drop t s ≡ drop t u → drop t (take w s) ≡ drop t (take w u)
window t w s u h e =
    let whole : t + (w - t) ≡ w = omega arith in
    subst (λ k. drop t (take k s) ≡ drop t (take k u)) whole
      (sym (take-drop (w - t) t s) ∙ (ap (take (w - t)) e ∙ take-drop (w - t) t u))

-- A buffer whose unread bytes are a line, its end and what comes after, and the line taken out.
module _ (c : ℕ) (l rest : Bytes) (b : Buffer) (v : IsValid b)
    (text : content b ≡ l ++ (c ∷ 10 ∷ rest)) where
  abbrev target : ℕ
  target = b.read_position + length l + 2

  size : b.write_position - b.read_position ≡ length l + 2 + length rest
  size = omega (arith, length-content b v, ap length text, length-append l (c ∷ 10 ∷ rest))

  zeroed-IsValid : IsValid (zeroed (length l) b)
  unfolding zeroed
  zeroed-IsValid =
      let same = length-overlay (b.read_position + length l) (0 ∷ 0 ∷ []) b.store in
      record {
        ordered = v.ordered;
        within = omega (arith, v.within);
        small = omega (arith, v.small);
      }

  retrieve_until-left : retrieve_until target (zeroed (length l) b) ≡ (
      if ltb 0 (length rest)
      then record (zeroed (length l) b) { read_position = target }
      else zeroed (length l) b)
  unfolding zeroed
  retrieve_until-left =
      retrieve_until_lem target (zeroed (length l) b) zeroed-IsValid
      ∙ ap
          (λ t.
            if t
            then record (zeroed (length l) b) { read_position = target }
            else zeroed (length l) b)
          guard
    where
      guard : (ltb b.read_position target && ltb target b.write_position) ≡ ltb 0 (length rest)
      guard = ground (arith, size)

  moved-IsValid :
      0 < length rest → IsValid (record (zeroed (length l) b) { read_position = target })
  unfolding zeroed
  moved-IsValid h =
      let w = zeroed-IsValid in
      record { ordered = omega (arith, size); within = w.within; small = w.small }

  content-moved :
      0 < length rest → content (record (zeroed (length l) b) { read_position = target }) ≡ rest
  unfolding zeroed
  content-moved h =
      let n = length l + 2 in
      let near =
        drop-overlay (b.read_position + length l) target (0 ∷ 0 ∷ []) b.store (omega arith) in
      let sum : target ≡ b.read_position + n = omega arith in
      window target b.write_position _ b.store (omega (arith, size)) near
      ∙ (ap (λ t. drop t (take b.write_position b.store)) sum
          ∙ (sym (drop-drop n b.read_position (take b.write_position b.store))
              ∙ (ap (drop n) text ∙ drop-length_add-append 2 l (c ∷ 10 ∷ rest))))

  front : take (length l) (drop b.read_position b.store) ≡ l
  front =
      let n = b.write_position - b.read_position in
      let end : b.read_position + n ≡ b.write_position = omega (arith, v.ordered) in
      sym (take-take (length l) n (drop b.read_position b.store) (omega (arith, size)))
      ∙ (ap (take (length l)) (
            take-drop n b.read_position b.store
            ∙ (ap (λ w. drop b.read_position (take w b.store)) end ∙ text))
          ∙ take-length-append l (c ∷ 10 ∷ rest))

  content-zeroed : length rest ≡ 0 → content (zeroed (length l) b) ≡ l ++ (0 ∷ 0 ∷ [])
  unfolding zeroed
  content-zeroed h =
      let n = b.read_position + length l in
      let end : b.write_position ≡ n + 2 = omega (arith, size, v.ordered) in
      ap (λ w. drop b.read_position (take w (overlay n (0 ∷ 0 ∷ []) b.store))) end
      ∙ (ap (drop b.read_position)
            (take-overlay n (0 ∷ 0 ∷ []) b.store (omega (arith, end, v.within)))
          ∙ (drop-append b.read_position (take n b.store) (0 ∷ 0 ∷ [])
                (omega (arith, length-take n b.store, end, v.within))
              ∙ ap (λ t. t ++ (0 ∷ 0 ∷ []))
                  (sym (take-drop (length l) b.read_position b.store) ∙ front)))

  line_text : c_string (drop b.read_position (zeroed (length l) b).store) ≡ c_string l
  unfolding zeroed
  line_text =
      ap c_string (drop-overlay_within b.read_position (length l) (0 ∷ 0 ∷ []) b.store)
      ∙ (c_string-overlay (length l) (drop b.read_position b.store)
            (omega (arith, size, length-drop b.read_position b.store, v.within, v.ordered))
          ∙ ap c_string front)

pub retrieved :
    (c : ℕ) (l rest : Bytes) (b : Buffer)
    → IsValid b
    → content b ≡ l ++ (c ∷ 10 ∷ rest)
    → IsValid (retrieve_until (b.read_position + length l + 2) (zeroed (length l) b))
      × (content (retrieve_until (b.read_position + length l + 2) (zeroed (length l) b))
          ≡ left l rest)
      × ((retrieve_until (b.read_position + length l + 2) (zeroed (length l) b)).store
          ≡ (zeroed (length l) b).store)
retrieved c l [] b v text =
    subst
      (λ k. IsValid k × (content k ≡ l ++ (0 ∷ 0 ∷ [])) × (k.store ≡ (zeroed (length l) b).store))
      (sym (retrieve_until-left c l [] b v text))
      (zeroed-IsValid c l [] b v text, content-zeroed c l [] b v text refl, refl)
retrieved c l (x ∷ xs) b v text =
    let more : 0 < length (x ∷ xs) = omega arith in
    let yes' : ltb 0 (length (x ∷ xs)) ≡ true = ground arith in
    subst (λ k. IsValid k × (content k ≡ x ∷ xs) × (k.store ≡ (zeroed (length l) b).store))
      (sym (retrieve_until-left c l (x ∷ xs) b v text ∙ rw yes' refl))
      (moved-IsValid c l (x ∷ xs) b v text more, content-moved c l (x ∷ xs) b v text more, refl)

-- A line of received text, free of `\r` and `\n`, is found whatever comes after its end: it is the
-- current line up to its first zero, and the buffer is left with what comes after the line's end,
-- but if nothing does, with the line itself and two zeros.
pub parse_line_lem :
    (l rest : Bytes) (r : Request)
    → IsValid r.buffer
    → start_offset r.read_offset ≡ 0
    → content r.buffer ≡ l ++ (13 ∷ 10 ∷ rest)
    → Free 13 l
    → Free 10 l
    → (parse_line r ≡ (taken (length l) r, line_ok))
      × (current_line (taken (length l) r) ≡ c_string l)
      × IsValid (taken (length l) r).buffer
      × (content (taken (length l) r).buffer ≡ left l rest)
unfolding parse_line scan_from after_scan byte_before current_line taken
parse_line_lem l rest r v fresh text f g =
    let (w, rest_left, same) = retrieved 13 l rest r.buffer v text in
    let found : scan none 0 (readable r.buffer) ≡ line_at (length l) =
      ap (scan none 0) (readable-content r.buffer v ∙ text)
      ∙ (scan-line none 0 l rest f g ∙ ap line_at (omega arith)) in
    (
      rw (fresh, found) refl,
      ap (λ s. c_string (drop r.buffer.read_position s)) same ∙ line_text 13 l rest r.buffer v text,
      w,
      rest_left,
    )
