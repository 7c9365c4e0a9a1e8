-- ===== src/Redis/RoundTrip.antt =====
-- core/uredis.cpp: the parser against the texts of the protocol.
use uco.Prelude.{
  ℕ, zero, suc, ◌+◌, ◌*◌, ◌-◌, ◌≤◌, ◌<◌, ◌≡◌, refl, ap, ap₂, sym, subst, ◌∙◌, true, false, [], ◌∷◌,
  ◌++◌, Option, none, some, ◌==◌, ltb, length, arith, inl, inr, Bool-cases, length-append,
}
use mathlib.Core.List.{append_assoc}
use uco.Prelude.Bytes.{Bytes}
use uco.Prelude.Decimal.{is_digit, digits, to_string, to_string_lem, IsDigits}
use uco.Prelude.Int.{ℤ, pos, negsuc}
use uco.Prelude.Segments.{take-length-append, drop-length_add-append}
use uco.Text.Search.{starts_with, starts_with-append, cut_sub, step_cut}
use uco.Redis.Reply.{Reply, no_replies, reply, string_type, no_error, empty_reply}
use uco.Redis.Parse.{
  Parsed, done, number, crlf, max_elements, int64_max, find_line, parse_int, parse_int_loop,
  parse_int_digits, negate, integer_reply, simple_reply, parse_simple, bulk_reply, parse_bulk,
  cons_parsed, parse_elements, array_reply, parse_array, parse_one, parse_reply,
}
use uco.Redis.Resume.{starts_with-crlf}
use uco.Redis.Wire.{
  Resp, Resps, simple, failure, int, bulk, null_bulk, null_array, array, no_resps, cons_resp,
  print_int, print, print_all, count, value, values, IsWire, AreWire, IsInt64,
}

starts_with-crlf_not : (x : ℕ) (b : Bytes) → starts_with (x ∷ (crlf ++ b)) crlf ≡ false
unfolding starts_with
starts_with-crlf_not x b = ground arith

some_ne_none : (c : Bytes × Bytes) → some c ≡ none → ⊥
some_ne_none c h = cc

step_cut-none : (x : ℕ) (o : Option (Bytes × Bytes)) → step_cut x o ≡ none → o ≡ none
unfolding step_cut
step_cut-none x none h = refl
step_cut-none x (some c) h = cc

-- A line that has no CRLF is found before the CRLF behind it.
find_line-crlf : (a b : Bytes) → cut_sub crlf a ≡ none → find_line (a ++ (crlf ++ b)) ≡ some (a, b)
unfolding find_line cut_sub step_cut
find_line-crlf [] b h = rw (starts_with-append crlf b) refl
find_line-crlf (x ∷ []) b h = rw (starts_with-crlf_not x b, starts_with-append crlf b) refl
find_line-crlf (x ∷ y ∷ a) b h = elim (Bool-cases (starts_with (x ∷ y ∷ a) crlf)) [
  | inl hit ↦ absurd (some_ne_none _ (rw hit at h))
  | inr miss ↦
      rw (starts_with-crlf x y a (crlf ++ b), miss)
        (ap (step_cut x) (find_line-crlf (y ∷ a) b (step_cut-none x _ (rw miss at h))))
]

parse_int_loop-digits :
    (acc : ℕ) (s : Bytes) (v : ℕ)
    → digits acc s ≡ some v
    → v ≤ int64_max
    → (acc ≤ v) × (parse_int_loop acc s ≡ number (pos v))
unfolding digits parse_int_loop
parse_int_loop-digits acc [] v e h = ground arith
parse_int_loop-digits acc (c ∷ s) v e h =
    ground (arith, parse_int_loop-digits (acc * 10 + (c - b'0')) s v)

parse_int-digits :
    (c : ℕ) (s : Bytes) (v : ℕ)
    → is_digit c ≡ true
    → digits 0 (c ∷ s) ≡ some v
    → v ≤ int64_max
    → (parse_int (c ∷ s) ≡ number (pos v)) × (parse_int_digits (c ∷ s) ≡ number (pos v))
unfolding parse_int is_digit
parse_int-digits c s v d e h =
    let run = (parse_int_loop-digits 0 (c ∷ s) v e h).1 in
    let not_minus : (c == b'-') ≡ false = ground arith in (rw not_minus run, run)

parse_int-print_int : (z : ℤ) → IsInt64 z → parse_int (print_int z) ≡ number z
unfolding parse_int print_int
parse_int-print_int (pos n) h =
    let (v, ds, c, s, e) = to_string_lem n in
    ap parse_int e
    ∙ (parse_int-digits c s n (subst IsDigits e ds).0 (ap (digits 0) (sym e) ∙ v) h).0
parse_int-print_int (negsuc n) h =
    let (v, ds, c, s, e) = to_string_lem (suc n) in
    ap (λ t. negate (parse_int_digits t)) e
    ∙ ap negate
        (parse_int-digits c s (suc n) (subst IsDigits e ds).0 (ap (digits 0) (sym e) ∙ v) h).1

cut_sub-IsDigits : (s : Bytes) → IsDigits s → cut_sub crlf s ≡ none
unfolding cut_sub step_cut starts_with is_digit
cut_sub-IsDigits [] h = refl
cut_sub-IsDigits (c ∷ s) h = ground (arith, cut_sub-IsDigits s h.1)

cut_sub-print_int : (z : ℤ) → cut_sub crlf (print_int z) ≡ none
unfolding print_int cut_sub step_cut starts_with
cut_sub-print_int (pos n) = cut_sub-IsDigits (to_string n) (to_string_lem n).1
cut_sub-print_int (negsuc n) =
    ap (step_cut b'-') (cut_sub-IsDigits (to_string (suc n)) (to_string_lem (suc n)).1)

-- The first line of a reply that has a number is read as the number.
find_line-print_int :
    (z : ℤ) (b : Bytes) → find_line (print_int z ++ (crlf ++ b)) ≡ some (print_int z, b)
find_line-print_int z b = find_line-crlf (print_int z) b (cut_sub-print_int z)

parse_bulk-print :
    (s rest : Bytes)
    → length s + 2 ≤ int64_max
    → parse_bulk (find_line (print_int (pos (length s)) ++ (crlf ++ (s ++ (crlf ++ rest)))))
      ≡ done (value (bulk s)) rest
unfolding parse_bulk bulk_reply value
parse_bulk-print s rest h =
    let len = length s in
    let fits : ltb int64_max (len + 2) ≡ false = ground arith in
    let whole : ltb (length (s ++ (crlf ++ rest))) (len + 2) ≡ false =
      ground (arith, length-append s (crlf ++ rest), length-append crlf rest) in
    rw
      (
        find_line-print_int (pos len) (s ++ (crlf ++ rest)),
        parse_bulk,
        parse_int-print_int (pos len) (omega arith),
        bulk_reply,
        fits,
        whole,
      )
      (ap₂ (λ (t r : Bytes). done (reply no_error string_type (pos 0) t no_replies) r)
        (take-length-append s (crlf ++ rest)) (drop-length_add-append 2 s (crlf ++ rest)))

parse_int_null : parse_int (print_int (negsuc 0)) ≡ number (negsuc 0)
parse_int_null = parse_int-print_int (negsuc 0) (omega arith)

-- The elements of an array, by a parser that reads each of them.
parse_elements-print :
    (parse : Bytes → Parsed Reply) (n : ℕ)
    → ((r : Resp) (rest : Bytes)
        → IsWire r
        → length (print r) ≤ n
        → parse (print r ++ rest) ≡ done (value r) rest)
    → (rs : Resps) (rest : Bytes) → AreWire rs
    → length (print_all rs) ≤ n
    → parse_elements parse (count rs) (print_all rs ++ rest) ≡ done (values rs) rest
unfolding parse_elements print value
parse_elements-print parse n reads no_resps rest w h = refl
parse_elements-print parse n reads (cons_resp r rs) rest w h =
    let first =
      reads r (print_all rs ++ rest) w.0
        (omega (arith, h, length-append (print r) (print_all rs))) in
    let others =
      parse_elements-print parse n reads rs rest w.1
        (omega (arith, h, length-append (print r) (print_all rs))) in
    rw (append_assoc (print r) (print_all rs) rest, first, cons_parsed, others) refl

length-print_pos : (r : Resp) → 0 < length (print r)
unfolding print
length-print_pos (simple s) = omega arith
length-print_pos (failure s) = omega arith
length-print_pos (int z) = omega arith
length-print_pos (bulk s) = omega arith
length-print_pos null_bulk = omega arith
length-print_pos null_array = omega arith
length-print_pos (array rs) = omega arith

module _ (rest : Bytes) where
  pub print-bulk :
      (s : Bytes)
      → (print_int (pos (length s)) ++ (crlf ++ (s ++ crlf))) ++ rest
        ≡ print_int (pos (length s)) ++ (crlf ++ (s ++ (crlf ++ rest)))
  print-bulk s =
      append_assoc (print_int (pos (length s))) (crlf ++ (s ++ crlf)) rest
      ∙ ap (λ (t : Bytes). print_int (pos (length s)) ++ (crlf ++ t)) (append_assoc s crlf rest)

  parse_null_bulk :
      parse_bulk (find_line ((print_int (negsuc 0) ++ crlf) ++ rest)) ≡ done empty_reply rest
  unfolding parse_bulk
  parse_null_bulk =
      rw
        (
          append_assoc (print_int (negsuc 0)) crlf rest,
          find_line-print_int (negsuc 0) rest,
          parse_int_null,
          bulk_reply,
        )
        refl

  parse_null_array :
      (parse : Bytes → Parsed Reply)
      → parse_array parse (find_line ((print_int (negsuc 0) ++ crlf) ++ rest))
        ≡ done empty_reply rest
  unfolding parse_array
  parse_null_array parse =
      rw
        (
          append_assoc (print_int (negsuc 0)) crlf rest,
          find_line-print_int (negsuc 0) rest,
          parse_int_null,
          array_reply,
        )
        refl

-- A text of the protocol is read as its reply with any bytes behind it, on a fuel of its length.
pub parse_one-print :
    (fuel : ℕ) (r : Resp) (rest : Bytes)
    → IsWire r
    → length (print r) ≤ fuel
    → parse_one fuel (print r ++ rest) ≡ done (value r) rest
unfolding parse_one print value
parse_one-print zero r rest w h = absurd (omega (arith, h, length-print_pos r))
parse_one-print (suc fuel) (simple s) rest w h =
    rw (append_assoc s crlf rest, find_line-crlf s rest w, parse_simple, simple_reply) refl
parse_one-print (suc fuel) (failure s) rest w h =
    rw (append_assoc s crlf rest, find_line-crlf s rest w, parse_simple, simple_reply) refl
parse_one-print (suc fuel) (int z) rest w h =
    rw
      (
        append_assoc (print_int z) crlf rest,
        find_line-print_int z rest,
        parse_simple,
        parse_int-print_int z w,
        integer_reply,
      )
      refl
parse_one-print (suc fuel) (bulk s) rest w h =
    ap (λ t. parse_bulk (find_line t)) (print-bulk rest s) ∙ parse_bulk-print s rest w
parse_one-print (suc fuel) null_bulk rest w h = parse_null_bulk rest
parse_one-print (suc fuel) null_array rest w h = parse_null_array rest (parse_one fuel)
parse_one-print (suc fuel) (array rs) rest w h =
    let cnt = count rs in
    let fits : ltb max_elements cnt ≡ false = ground arith in
    let elements = parse_elements-print (parse_one fuel) fuel (parse_one-print fuel) rs rest w.1 (
      omega (
        arith,
        h,
        length-append (print_int (pos cnt)) (crlf ++ print_all rs),
        length-append crlf (print_all rs),
      )) in
    rw
      (
        append_assoc (print_int (pos cnt)) (crlf ++ print_all rs) rest,
        find_line-print_int (pos cnt) (print_all rs ++ rest),
        parse_array,
        parse_int-print_int (pos cnt) (omega arith),
        array_reply,
        fits,
        elements,
      )
      refl

-- A text of the protocol within the client's limits is read as the reply it stands for, whatever
-- bytes are behind it, and these are left over.
pub parse_reply-print :
    (r : Resp) (rest : Bytes) → IsWire r → parse_reply (print r ++ rest) ≡ done (value r) rest
unfolding parse_reply
parse_reply-print r rest w =
    parse_one-print (suc (length (print r ++ rest))) r rest w
      (omega (arith, length-append (print r) rest))
