-- ===== src/Redis/Fuel.antt =====
-- core/uredis.cpp, `parse_one` calls itself on the elements of an array: each call reads at least
-- one byte, so it comes to an end.
use uco.Prelude.{
  ℕ, zero, suc, ◌+◌, ◌≤◌, ◌<◌, ◌≡◌, refl, ap, sym, subst, ◌∙◌, ◌≢◌, [], ◌∷◌, ◌++◌, Option, none,
  some, ◌==◌, ◌||◌, ltb, length, arith, inl, inr, Bool-cases, Option-cases, length-append,
  length-drop,
}
use uco.Prelude.Bytes.{Bytes}
use uco.Prelude.Int.{pos, negsuc}
use uco.Text.Search.{cut_sub-some}
use uco.Redis.Reply.{Reply, Replies, cons_reply}
use uco.Redis.Parse.{
  Parsed, done, more, bad, undefined, thrown, spent, Number, not_a_number, overflow, number, crlf,
  max_elements, int64_max, find_line, map_parsed, parse_int, integer_reply, parse_simple,
  bulk_reply, parse_bulk, cons_parsed, parse_elements, array_reply, parse_array, parse_one,
  parse_reply,
}

-- The parser did not run out of fuel, and what it left is shorter than `n`.
abbrev Within {ℓ} : {A : Type ℓ} → ℕ → Parsed A → Type 0
Within n (done a rest) = length rest < n
Within n spent = ⊥
Within n more = Unit
Within n bad = Unit
Within n undefined = Unit
Within n thrown = Unit

abbrev Line : ℕ → Option (Bytes × Bytes) → Type 0
Line n none = Unit
Line n (some (a, b)) = length b < n

find_line-Line : (s : Bytes) → Line (length s) (find_line s)
unfolding find_line
find_line-Line s = elim (Option-cases (find_line s)) [
  | inl e ↦ rw e tt
  | inr (c, e) ↦
      let split = cut_sub-some crlf s {a = c.0} {b = c.1} e in
      rw e
        (omega (arith, ap length split.0, length-append c.0 (crlf ++ c.1), length-append crlf c.1))
]

integer_reply-Within :
    (x : Number) (r : Bytes) {n : ℕ} → length r < n → Within n (integer_reply x r)
unfolding integer_reply
integer_reply-Within not_a_number r h = tt
integer_reply-Within overflow r h = tt
integer_reply-Within (number v) r h = h

parse_simple-Within :
    (c n : ℕ) (p : Option (Bytes × Bytes)) → Line n p → Within n (parse_simple c p)
unfolding parse_simple
parse_simple-Within c n none h = tt
parse_simple-Within c n (some (line, r)) h = elim (Bool-cases (c == b':')) [
  | inl e ↦ rw e (integer_reply-Within (parse_int line) r h)
  | inr e ↦ rw e h
]

bulk_reply-Within : (x : Number) (r : Bytes) {n : ℕ} → length r < n → Within n (bulk_reply x r)
unfolding bulk_reply
bulk_reply-Within not_a_number r h = tt
bulk_reply-Within overflow r h = tt
bulk_reply-Within (number (negsuc k)) r h = h
bulk_reply-Within (number (pos len)) r h = elim (Bool-cases (ltb int64_max (len + 2))) [
  | inl e ↦ rw e tt
  | inr e ↦ elim (Bool-cases (ltb (length r) (len + 2))) [
    | inl f ↦ rw (e, f) tt
    | inr f ↦ rw (e, f) (omega (arith, h, length-drop (len + 2) r))
  ]
]

parse_bulk-Within : (n : ℕ) (p : Option (Bytes × Bytes)) → Line n p → Within n (parse_bulk p)
unfolding parse_bulk
parse_bulk-Within n none h = tt
parse_bulk-Within n (some (line, r)) h = bulk_reply-Within (parse_int line) r h

map_parsed-Within {ℓ κ} :
    {A : Type ℓ} {B : Type κ} (f : A → B) (n : ℕ) (p : Parsed A)
    → Within n p
    → Within n (map_parsed f p)
map_parsed-Within f n (done a r) h = h
map_parsed-Within f n spent h = h
map_parsed-Within f n more h = tt
map_parsed-Within f n bad h = tt
map_parsed-Within f n undefined h = tt
map_parsed-Within f n thrown h = tt

Within-le {ℓ} : {A : Type ℓ} (m n : ℕ) (p : Parsed A) → m ≤ n → Within m p → Within n p
Within-le m n (done a r) k h = omega arith
Within-le m n spent k h = h
Within-le m n more k h = tt
Within-le m n bad k h = tt
Within-le m n undefined k h = tt
Within-le m n thrown k h = tt

-- Two parsers that agree on the texts shorter than `n`, and read something of each.
module _ (parse other : Bytes → Parsed Reply) (n : ℕ)
    (same : (s : Bytes) → length s < n → (parse s ≡ other s) × Within (length s) (parse s)) where
  cons_parsed-Within :
      (next next' : Bytes → Parsed Replies) (m : ℕ) (p : Parsed Reply)
      → m < n
      → ((s : Bytes) → length s < n → (next s ≡ next' s) × Within (suc (length s)) (next s))
      → Within m p
      → (cons_parsed next p ≡ cons_parsed next' p) × Within m (cons_parsed next p)
  unfolding cons_parsed
  cons_parsed-Within next next' m (done a r) k agree h =
      let (e, w) = agree r (omega arith) in
      (
        ap (map_parsed (cons_reply a)) e,
        map_parsed-Within (cons_reply a) m (next r)
            (Within-le (suc (length r)) m (next r) (omega arith) w),
      )
  cons_parsed-Within next next' m more k agree h = (refl, tt)
  cons_parsed-Within next next' m bad k agree h = (refl, tt)
  cons_parsed-Within next next' m undefined k agree h = (refl, tt)
  cons_parsed-Within next next' m thrown k agree h = (refl, tt)
  cons_parsed-Within next next' m spent k agree h = elim h [ ]

  parse_elements-Within :
      (cnt : ℕ) (s : Bytes)
      → length s < n
      → (parse_elements parse cnt s ≡ parse_elements other cnt s)
        × Within (suc (length s)) (parse_elements parse cnt s)
  unfolding parse_elements
  parse_elements-Within zero s h = (refl, omega arith)
  parse_elements-Within (suc cnt) s h =
      let (e, w) = same s h in
      let (e', w') =
        cons_parsed-Within (parse_elements parse cnt) (parse_elements other cnt) (length s)
          (parse s) h (parse_elements-Within cnt) w in
      (
        e' ∙ ap (cons_parsed (parse_elements other cnt)) e,
        Within-le (length s) (suc (length s)) (cons_parsed (parse_elements parse cnt) (parse s))
            (omega arith) w',
      )

  array_reply-Within :
      (x : Number) (r : Bytes)
      → length r < n
      → (array_reply parse x r ≡ array_reply other x r)
        × Within (suc (length r)) (array_reply parse x r)
  unfolding array_reply
  array_reply-Within not_a_number r h = (refl, tt)
  array_reply-Within overflow r h = (refl, tt)
  array_reply-Within (number (negsuc k)) r h = (refl, omega arith)
  array_reply-Within (number (pos cnt)) r h = elim (Bool-cases (ltb max_elements cnt)) [
    | inl e ↦ rw e (refl, tt)
    | inr e ↦
        let (same', w) = parse_elements-Within cnt r h in
        rw e (
          ap (map_parsed _) same',
          map_parsed-Within _ (suc (length r)) (parse_elements parse cnt r) w,
        )
  ]

  parse_array-Within :
      (m : ℕ) (p : Option (Bytes × Bytes))
      → m ≤ n
      → Line m p
      → (parse_array parse p ≡ parse_array other p) × Within m (parse_array parse p)
  unfolding parse_array
  parse_array-Within m none k h = (refl, tt)
  parse_array-Within m (some (line, r)) k h =
      let (e, w) = array_reply-Within (parse_int line) r (omega arith) in
      (e, Within-le (suc (length r)) m (array_reply parse (parse_int line) r) (omega arith) w)

parse_one-Within :
    (fuel fuel' : ℕ) (s : Bytes)
    → length s < fuel
    → length s < fuel'
    → (parse_one fuel s ≡ parse_one fuel' s) × Within (length s) (parse_one fuel s)
unfolding parse_one
parse_one-Within zero fuel' s h k = absurd (omega arith)
parse_one-Within fuel zero s h k = absurd (omega arith)
parse_one-Within (suc fuel) (suc fuel') [] h k = (refl, tt)
parse_one-Within (suc fuel) (suc fuel') (c ∷ s) h k =
    let line = find_line-Line s in
    let wider = λ (p : Parsed Reply). Within-le (length s) (suc (length s)) p (omega arith) in
    elim (Bool-cases (c == b'+' || c == b'-' || c == b':')) [
      | inl e ↦ rw e (refl, wider _ (parse_simple-Within c (length s) (find_line s) line))
      | inr e ↦ elim (Bool-cases (c == b'$')) [
        | inl f ↦ rw (e, f) (refl, wider _ (parse_bulk-Within (length s) (find_line s) line))
        | inr f ↦ elim (Bool-cases (c == b'*')) [
          | inl g ↦
              let (same, w) =
                parse_array-Within (parse_one fuel) (parse_one fuel') (suc (length s))
                  (λ r short. parse_one-Within fuel fuel' r (omega arith) (omega arith)) (length s)
                  (find_line s) (omega arith) line in
              rw (e, f, g) (same, wider _ w)
          | inr g ↦ rw (e, f, g) (refl, tt)
        ]
      ]
    ]

Within-ne_spent {ℓ} : {A : Type ℓ} (n : ℕ) (p : Parsed A) → Within n p → p ≢ spent
Within-ne_spent n p w e = subst (Within n) e w

-- The parser comes to an end on every buffer, with a fuel of one more than the buffer's length, and
-- more fuel gives the same result.
pub parse_reply_ends :
    (buf : Bytes) (fuel : ℕ)
    → length buf < fuel
    → (parse_one fuel buf ≡ parse_reply buf) × (parse_reply buf ≢ spent)
unfolding parse_reply
parse_reply_ends buf fuel h =
    let (same, w) = parse_one-Within (suc (length buf)) fuel buf (omega arith) h in
    (sym same, Within-ne_spent (length buf) (parse_one (suc (length buf)) buf) w)
