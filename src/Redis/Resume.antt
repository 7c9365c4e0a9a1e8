-- ===== src/Redis/Resume.antt =====
-- core/uredis.cpp, `read_reply` reads a reply anew from the whole buffer each time more bytes come:
-- what more bytes change in the result of the parser.
use uco.Prelude.{
  ℕ, zero, suc, ◌+◌, ◌≤◌, ◌≡◌, refl, ap, false, [], ◌∷◌, ◌++◌, Option, none, some, ◌==◌, ◌||◌, ltb,
  length, arith, inl, inr, Bool-cases, length-append,
}
use uco.Prelude.Bytes.{Bytes}
use uco.Prelude.Int.{pos, negsuc}
use uco.Prelude.Segments.{take-append, drop-append}
use uco.Text.Search.{starts_with, starts_with_nil, cut_sub, step_cut}
use uco.Redis.Reply.{Reply, Replies, cons_reply}
use uco.Redis.Parse.{
  Parsed, done, more, bad, undefined, thrown, spent, Number, not_a_number, overflow, number, crlf,
  max_elements, int64_max, find_line, map_parsed, parse_int, integer_reply, parse_simple,
  bulk_reply, parse_bulk, cons_parsed, parse_elements, array_reply, parse_array, parse_one,
}

abbrev Keeps : Bytes → Option (Bytes × Bytes) → Option (Bytes × Bytes) → Type 0
Keeps t none q = Unit
Keeps t (some (a, b)) q = q ≡ some (a, b ++ t)

step_cut-Keeps :
    (x : ℕ) (t : Bytes) (p q : Option (Bytes × Bytes))
    → Keeps t p q
    → Keeps t (step_cut x p) (step_cut x q)
unfolding step_cut
step_cut-Keeps x t none q h = tt
step_cut-Keeps x t (some (a, b)) q h = ap (step_cut x) h

pub starts_with-crlf :
    (x y : ℕ) (s t : Bytes) → starts_with (x ∷ y ∷ (s ++ t)) crlf ≡ starts_with (x ∷ y ∷ s) crlf
unfolding starts_with
starts_with-crlf x y s t = rw (starts_with_nil s, starts_with_nil (s ++ t)) refl

-- A line that is found is found with more text behind it too.
find_line-Keeps : (s t : Bytes) → Keeps t (find_line s) (find_line (s ++ t))
unfolding find_line cut_sub
find_line-Keeps [] t = tt
find_line-Keeps (x ∷ []) t = unfold starts_with step_cut in ground arith
find_line-Keeps (x ∷ y ∷ s) t = elim (Bool-cases (starts_with (x ∷ y ∷ s) crlf)) [
  | inl hit ↦ rw (starts_with-crlf x y s t, hit) refl
  | inr miss ↦
      rw (starts_with-crlf x y s t, miss)
        (step_cut-Keeps x t (find_line (y ∷ s)) (find_line (y ∷ (s ++ t)))
          (find_line-Keeps (y ∷ s) t))
]

-- The second result is the first one with the text `t` behind what is left, unless the first asked
-- for more.
abbrev pub Agrees {ℓ} : {A : Type ℓ} → Bytes → Parsed A → Parsed A → Type ℓ
Agrees t (done a rest) q = q ≡ done a (rest ++ t)
Agrees t more q = Unit
Agrees t bad q = q ≡ bad
Agrees t undefined q = q ≡ undefined
Agrees t thrown q = q ≡ thrown
Agrees t spent q = q ≡ spent

-- Likewise for the line that a reply stands in: `p` reads the reply from the line and the rest.
integer_reply-Agrees :
    (n : Number) (r t : Bytes) → Agrees t (integer_reply n r) (integer_reply n (r ++ t))
unfolding integer_reply
integer_reply-Agrees not_a_number r t = refl
integer_reply-Agrees overflow r t = refl
integer_reply-Agrees (number v) r t = refl

parse_simple-Agrees :
    (c : ℕ) (t : Bytes) (p q : Option (Bytes × Bytes))
    → Keeps t p q
    → Agrees t (parse_simple c p) (parse_simple c q)
unfolding parse_simple
parse_simple-Agrees c t none q h = tt
parse_simple-Agrees c t (some (line, r)) q h = elim (Bool-cases (c == b':')) [
  | inl e ↦ rw (h, parse_simple, e) (integer_reply-Agrees (parse_int line) r t)
  | inr e ↦ rw (h, parse_simple, e) refl
]

bulk_reply-Agrees : (n : Number) (r t : Bytes) → Agrees t (bulk_reply n r) (bulk_reply n (r ++ t))
unfolding bulk_reply
bulk_reply-Agrees not_a_number r t = refl
bulk_reply-Agrees overflow r t = refl
bulk_reply-Agrees (number (negsuc n)) r t = refl
bulk_reply-Agrees (number (pos len)) r t = elim (Bool-cases (ltb int64_max (len + 2))) [
  | inl e ↦ rw e refl
  | inr e ↦ elim (Bool-cases (ltb (length r) (len + 2))) [
    | inl f ↦ rw (e, f) tt
    | inr f ↦
        let longer : ltb (length (r ++ t)) (len + 2) ≡ false = ground (arith, length-append r t) in
        let room : len + 2 ≤ length r = ground arith in
        rw (e, f, longer, take-append len r t (omega (arith, room)), drop-append (len + 2) r t room)
          refl
  ]
]

parse_bulk-Agrees :
    (t : Bytes) (p q : Option (Bytes × Bytes))
    → Keeps t p q
    → Agrees t (parse_bulk p) (parse_bulk q)
unfolding parse_bulk
parse_bulk-Agrees t none q h = tt
parse_bulk-Agrees t (some (line, r)) q h =
    rw (h, parse_bulk) (bulk_reply-Agrees (parse_int line) r t)

map_parsed-Agrees {ℓ κ} :
    {A : Type ℓ} {B : Type κ} (f : A → B) (t : Bytes) (p q : Parsed A)
    → Agrees t p q
    → Agrees t (map_parsed f p) (map_parsed f q)
map_parsed-Agrees f t (done a r) q h = ap (map_parsed f) h
map_parsed-Agrees f t more q h = tt
map_parsed-Agrees f t bad q h = ap (map_parsed f) h
map_parsed-Agrees f t undefined q h = ap (map_parsed f) h
map_parsed-Agrees f t thrown q h = ap (map_parsed f) h
map_parsed-Agrees f t spent q h = ap (map_parsed f) h

cons_parsed-Agrees :
    (next : Bytes → Parsed Replies) (t : Bytes) (p q : Parsed Reply)
    → ((r : Bytes) → Agrees t (next r) (next (r ++ t)))
    → Agrees t p q
    → Agrees t (cons_parsed next p) (cons_parsed next q)
unfolding cons_parsed
cons_parsed-Agrees next t (done a r) q k h =
    rw (h, cons_parsed) (map_parsed-Agrees (cons_reply a) t (next r) (next (r ++ t)) (k r))
cons_parsed-Agrees next t more q k h = tt
cons_parsed-Agrees next t bad q k h = ap (cons_parsed next) h
cons_parsed-Agrees next t undefined q k h = ap (cons_parsed next) h
cons_parsed-Agrees next t thrown q k h = ap (cons_parsed next) h
cons_parsed-Agrees next t spent q k h = ap (cons_parsed next) h

module _ (parse : Bytes → Parsed Reply) (t : Bytes)
    (agrees : (r : Bytes) → Agrees t (parse r) (parse (r ++ t))) where
  parse_elements-Agrees :
      (cnt : ℕ) (r : Bytes)
      → Agrees t (parse_elements parse cnt r) (parse_elements parse cnt (r ++ t))
  unfolding parse_elements
  parse_elements-Agrees zero r = refl
  parse_elements-Agrees (suc cnt) r =
      cons_parsed-Agrees (parse_elements parse cnt) t (parse r) (parse (r ++ t))
        (parse_elements-Agrees cnt) (agrees r)

  array_reply-Agrees :
      (n : Number) (r : Bytes) → Agrees t (array_reply parse n r) (array_reply parse n (r ++ t))
  unfolding array_reply
  array_reply-Agrees not_a_number r = refl
  array_reply-Agrees overflow r = refl
  array_reply-Agrees (number (negsuc n)) r = refl
  array_reply-Agrees (number (pos cnt)) r = elim (Bool-cases (ltb max_elements cnt)) [
    | inl e ↦ rw e refl
    | inr e ↦ rw e (map_parsed-Agrees _ t _ _ (parse_elements-Agrees cnt r))
  ]

  parse_array-Agrees :
      (p q : Option (Bytes × Bytes))
      → Keeps t p q
      → Agrees t (parse_array parse p) (parse_array parse q)
  unfolding parse_array
  parse_array-Agrees none q h = tt
  parse_array-Agrees (some (line, r)) q h =
      rw (h, parse_array) (array_reply-Agrees (parse_int line) r)

-- With more bytes behind the text the parser does the same, unless it had asked for more; the bytes
-- are left over.
pub parse_one-Agrees :
    (fuel : ℕ) (s t : Bytes) → Agrees t (parse_one fuel s) (parse_one fuel (s ++ t))
unfolding parse_one
parse_one-Agrees zero s t = refl
parse_one-Agrees (suc fuel) [] t = tt
parse_one-Agrees (suc fuel) (c ∷ s) t = elim (Bool-cases (c == b'+' || c == b'-' || c == b':')) [
  | inl e ↦ rw e (parse_simple-Agrees c t _ _ (find_line-Keeps s t))
  | inr e ↦ elim (Bool-cases (c == b'$')) [
    | inl f ↦ rw (e, f) (parse_bulk-Agrees t _ _ (find_line-Keeps s t))
    | inr f ↦ elim (Bool-cases (c == b'*')) [
      | inl g ↦
          rw (e, f, g)
            (parse_array-Agrees (parse_one fuel) t (λ r. parse_one-Agrees fuel r t) _ _
              (find_line-Keeps s t))
      | inr g ↦ rw (e, f, g) refl
    ]
  ]
]
