-- ===== src/Redis/Parse.antt =====
-- `__inner__::parser` of core/uredis.cpp: the recursive descent over a RESP2 reply.
--
-- The parser's `pos` is the text that is left behind it. A signed overflow, which C++ leaves
-- undefined, is an outcome of its own; so is the exception of `vector::resize`.
use uco.Prelude.{
  ℕ, zero, suc, ◌+◌, ◌-◌, ◌*◌, ◌/◌, ◌^◌, ◌||◌, [], ◌∷◌, Option, none, some, ltb, leb, ◌==◌,
  if◌then◌else◌, length, take, drop,
}
use uco.Prelude.Bytes.{Bytes}
use uco.Prelude.Decimal.{is_digit}
use uco.Prelude.Int.{ℤ, pos, negsuc}
use uco.Text.Search.{cut_sub}
use uco.Redis.Reply.{
  Reply, Replies, reply, no_replies, cons_reply, string_type, status_type, integer_type, array_type,
  no_error, server_error, empty_reply,
}

abbrev pub crlf : Bytes
crlf = 13 ∷ 10 ∷ []

abbrev pub int64_max : ℕ
int64_max = 2 ^ 63 - 1

-- `vector<Reply>::max_size()`: a Reply has 112 bytes.
abbrev pub max_elements : ℕ
max_elements = int64_max / 112

-- The line up to the next CRLF, and the text behind it.
unfoldable pub find_line : Bytes → Option (Bytes × Bytes)
find_line rest = cut_sub crlf rest

-- What `parse_int` makes of a text.
pub data Number : Type 0 where
  not_a_number overflow : Number
  number : ℤ → Number

-- The loop of `parse_int`.
unfoldable pub parse_int_loop : ℕ → Bytes → Number
parse_int_loop v [] = number (pos v)
parse_int_loop v (c ∷ s) =
    let v' = v * 10 + (c - b'0') in
    let rest = parse_int_loop v' s in
    if is_digit c then if leb v' int64_max then rest else overflow else not_a_number

unfoldable pub negate : Number → Number
negate (number (pos (suc n))) = number (negsuc n)
negate (number (negsuc n)) = number (pos (suc n))
negate n = n

unfoldable pub parse_int_digits : Bytes → Number
parse_int_digits [] = not_a_number
parse_int_digits (c ∷ s) = parse_int_loop 0 (c ∷ s)

unfoldable pub parse_int : Bytes → Number
unfolding negate parse_int_digits parse_int_loop
parse_int [] = not_a_number
parse_int (c ∷ s) = if c == b'-' then negate (parse_int_digits s) else parse_int_digits (c ∷ s)

-- What a call of the parser comes to: a value with the text that is left (0), not enough data (1),
-- a protocol error (-1), undefined behaviour, an exception; `spent` is the end of the fuel.
pub data Parsed {ℓ} (A : Type ℓ) : Type ℓ where
  done : A → Bytes → Parsed A
  more bad undefined thrown spent : Parsed A

abbrev pub map_parsed {ℓ κ} : {A : Type ℓ} {B : Type κ} → (A → B) → Parsed A → Parsed B
map_parsed f (done a rest) = done (f a) rest
map_parsed f more = more
map_parsed f bad = bad
map_parsed f undefined = undefined
map_parsed f thrown = thrown
map_parsed f spent = spent

-- The case of '+', '-' and ':' behind its line.
unfoldable pub simple_reply : ℕ → Bytes → Reply
simple_reply t line =
    if t == b'-'
    then reply (record { ret_code = server_error; err_msg = line }) status_type (pos 0) line
        no_replies
    else reply no_error status_type (pos 0) line no_replies

unfoldable pub integer_reply : Number → Bytes → Parsed Reply
integer_reply not_a_number rest = bad
integer_reply overflow rest = undefined
integer_reply (number v) rest = done (reply no_error integer_type v [] no_replies) rest

unfoldable pub parse_simple : ℕ → Option (Bytes × Bytes) → Parsed Reply
unfolding simple_reply integer_reply parse_int
parse_simple t none = more
parse_simple t (some (line, rest)) =
    if t == b':' then integer_reply (parse_int line) rest else done (simple_reply t line) rest

-- The case of '$': `len + 2` overflows for the two largest lengths.
unfoldable pub bulk_reply : Number → Bytes → Parsed Reply
bulk_reply not_a_number rest = bad
bulk_reply overflow rest = undefined
bulk_reply (number (negsuc n)) rest = done empty_reply rest
bulk_reply (number (pos len)) rest =
    if ltb int64_max (len + 2)
    then undefined
    else if ltb (length rest) (len + 2)
    then more
    else done (reply no_error string_type (pos 0) (take len rest) no_replies) (drop (len + 2) rest)

unfoldable pub parse_bulk : Option (Bytes × Bytes) → Parsed Reply
unfolding bulk_reply parse_int
parse_bulk none = more
parse_bulk (some (line, rest)) = bulk_reply (parse_int line) rest

unfoldable pub cons_parsed : (Bytes → Parsed Replies) → Parsed Reply → Parsed Replies
cons_parsed next (done r rest) = map_parsed (cons_reply r) (next rest)
cons_parsed next more = more
cons_parsed next bad = bad
cons_parsed next undefined = undefined
cons_parsed next thrown = thrown
cons_parsed next spent = spent

-- The loop over the elements of an array.
unfoldable pub parse_elements : (Bytes → Parsed Reply) → ℕ → Bytes → Parsed Replies
unfolding cons_parsed
parse_elements parse zero s = done no_replies s
parse_elements parse (suc cnt) s = cons_parsed (parse_elements parse cnt) (parse s)

unfoldable pub array_reply : (Bytes → Parsed Reply) → Number → Bytes → Parsed Reply
unfolding parse_elements
array_reply parse not_a_number rest = bad
array_reply parse overflow rest = undefined
array_reply parse (number (negsuc n)) rest = done empty_reply rest
array_reply parse (number (pos cnt)) rest =
    if ltb max_elements cnt
    then thrown
    else map_parsed (reply no_error array_type (pos 0) []) (parse_elements parse cnt rest)

-- The case of '*'.
unfoldable pub parse_array : (Bytes → Parsed Reply) → Option (Bytes × Bytes) → Parsed Reply
unfolding array_reply parse_int
parse_array parse none = more
parse_array parse (some (line, rest)) = array_reply parse (parse_int line) rest

-- `parse_one`: the fuel bounds the depth to which arrays are nested.
unfoldable pub parse_one : ℕ → Bytes → Parsed Reply
unfolding find_line parse_simple parse_bulk parse_array
parse_one zero s = spent
parse_one (suc fuel) [] = more
parse_one (suc fuel) (t ∷ s) =
    if t == b'+' || t == b'-' || t == b':'
    then parse_simple t (find_line s)
    else if t == b'$'
    then parse_bulk (find_line s)
    else if t == b'*'
    then parse_array (parse_one fuel) (find_line s)
    else bad

-- A parser over a whole buffer; one more than its length is fuel enough.
unfoldable pub parse_reply : Bytes → Parsed Reply
unfolding parse_one
parse_reply buf = parse_one (suc (length buf)) buf
