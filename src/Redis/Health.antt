-- ===== src/Redis/Health.antt =====
-- core/uredis.cpp: whether a command leaves its connection fit for the next one.
use uco.Prelude.{
  ℕ, zero, suc, ◌+◌, ◌<◌, ◌≡◌, refl, sym, subst, ◌∙◌, true, false, ◌||◌, List, [], ◌∷◌, ◌++◌,
  Option, none, some, ◌==◌, length, arith, inl, inr, Bool-cases, ltb, ◌⊎◌,
}
use uco.Prelude.Bytes.{Bytes, All}
use uco.Prelude.Int.{ℤ, pos, negsuc}
use uco.Redis.Reply.{
  Reply, Replies, reply, error_of, retryable, server_error, code_eq, no_error, array_type,
}
use uco.Redis.Parse.{
  Parsed, done, more, bad, undefined, thrown, spent, max_elements, parse_reply, Number,
  not_a_number, overflow, number, simple_reply, integer_reply, parse_simple, bulk_reply, parse_bulk,
  parse_elements, array_reply, parse_array, parse_one, map_parsed, find_line, parse_int,
}
use uco.Redis.Wire.{serialize}
use uco.Redis.Exchange.{
  Send, send_expired, sent, send_all, send_negative, Receive, received, refused, receive_expired,
  Read, got, failed, waiting, on_parsed, read_loop, read_reply, Connection, Command, replied,
  is_usable, after_read, after_send, ucommand, fill_error, etime, econnreset, read_undefined,
  read_thrown,
}

-- The code of a reply that the parser returns: success, or an error of the server.
abbrev Coded : Parsed Reply → Type 0
Coded (done r rest) = ((error_of r).ret_code ≡ pos 0) ⊎ ((error_of r).ret_code ≡ server_error)
Coded more = Unit
Coded bad = Unit
Coded undefined = Unit
Coded thrown = Unit
Coded spent = Unit

parse_simple-Coded : (t : ℕ) (o : Option (Bytes × Bytes)) → Coded (parse_simple t o)
unfolding parse_simple simple_reply integer_reply
parse_simple-Coded t none = tt
parse_simple-Coded t (some (line, rest)) = ground arith

bulk_reply-Coded : (x : Number) (rest : Bytes) → Coded (bulk_reply x rest)
unfolding bulk_reply
bulk_reply-Coded x rest = ground arith

parse_bulk-Coded : (o : Option (Bytes × Bytes)) → Coded (parse_bulk o)
unfolding parse_bulk
parse_bulk-Coded none = tt
parse_bulk-Coded (some (line, rest)) = bulk_reply-Coded (parse_int line) rest

map_parsed-Coded :
    (rs : Parsed Replies) → Coded (map_parsed (reply no_error array_type (pos 0) []) rs)
map_parsed-Coded (done r rest) = inl refl
map_parsed-Coded more = tt
map_parsed-Coded bad = tt
map_parsed-Coded undefined = tt
map_parsed-Coded thrown = tt
map_parsed-Coded spent = tt

parse_array-Coded :
    (parse : Bytes → Parsed Reply) (x : Number) (rest : Bytes) → Coded (array_reply parse x rest)
unfolding array_reply
parse_array-Coded parse not_a_number rest = tt
parse_array-Coded parse overflow rest = tt
parse_array-Coded parse (number (negsuc n)) rest = inl refl
parse_array-Coded parse (number (pos cnt)) rest = elim (Bool-cases (ltb max_elements cnt)) [
  | inl e ↦ rw e tt
  | inr e ↦ rw e (map_parsed-Coded (parse_elements parse cnt rest))
]

array-Coded :
    (parse : Bytes → Parsed Reply) (o : Option (Bytes × Bytes)) → Coded (parse_array parse o)
unfolding parse_array
array-Coded parse none = tt
array-Coded parse (some (line, rest)) = parse_array-Coded parse (parse_int line) rest

parse_one-Coded : (fuel : ℕ) (s : Bytes) → Coded (parse_one fuel s)
unfolding parse_one
parse_one-Coded zero s = tt
parse_one-Coded (suc fuel) [] = tt
parse_one-Coded (suc fuel) (c ∷ s) = elim (Bool-cases (c == b'+' || c == b'-' || c == b':')) [
  | inl e ↦ rw e (parse_simple-Coded c (find_line s))
  | inr e ↦ elim (Bool-cases (c == b'$')) [
    | inl f ↦ rw (e, f) (parse_bulk-Coded (find_line s))
    | inr f ↦ elim (Bool-cases (c == b'*')) [
      | inl g ↦ rw (e, f, g) (array-Coded (parse_one fuel) (find_line s))
      | inr g ↦ rw (e, f, g) tt
    ]
  ]
]

-- A negated errno of Linux.
abbrev pub IsErrno : ℤ → Type 0
IsErrno (pos n) = ⊥
IsErrno (negsuc n) = n < 133

abbrev pub SendErrno : Send → Type 0
SendErrno (sent (negsuc n)) = n < 133
SendErrno _ = Unit

abbrev pub ReceiveErrno : Receive → Type 0
ReceiveErrno (refused n) = n < 133
ReceiveErrno _ = Unit

abbrev Returned : Option ℤ → Type 0
Returned none = Unit
Returned (some e) = (e ≡ pos 0) ⊎ IsErrno e

send_all-Returned :
    (bytes : Bytes) (off : ℕ) (es : List Send)
    → All SendErrno es
    → Returned (send_all bytes off es).0
unfolding send_all send_negative code_eq
send_all-Returned bytes off [] h = ground arith
send_all-Returned bytes off (send_expired ∷ es) h = ground arith
send_all-Returned bytes off (sent (negsuc n) ∷ es) h =
    ground (arith, send_all-Returned bytes off es)
send_all-Returned bytes off (sent (pos zero) ∷ es) h = ground arith
send_all-Returned bytes off (sent (pos (suc n)) ∷ es) h =
    ground (arith, send_all-Returned bytes (off + suc n) es)

abbrev CodedRead : Read → Type 0
CodedRead (got r rest) = Coded (done r rest)
CodedRead (failed e buf) = IsErrno e
CodedRead _ = Unit

on_parsed-CodedRead :
    (p : Parsed Reply) (buf : Bytes) (next : Read)
    → Coded p
    → CodedRead next
    → CodedRead (on_parsed p buf next)
unfolding on_parsed
on_parsed-CodedRead (done r rest) buf next h k = h
on_parsed-CodedRead more buf next h k = k
on_parsed-CodedRead bad buf next h k = omega arith
on_parsed-CodedRead undefined buf next h k = tt
on_parsed-CodedRead thrown buf next h k = tt
on_parsed-CodedRead spent buf next h k = k

parse_reply-Coded : (buf : Bytes) → Coded (parse_reply buf)
unfolding parse_reply
parse_reply-Coded buf = parse_one-Coded (suc (length buf)) buf

read_loop-CodedRead :
    (buf : Bytes) (es : List Receive) → All ReceiveErrno es → CodedRead (read_loop buf es)
unfolding read_loop
read_loop-CodedRead buf [] h =
    on_parsed-CodedRead (parse_reply buf) buf waiting (parse_reply-Coded buf) tt
read_loop-CodedRead buf (receive_expired ∷ es) h =
    on_parsed-CodedRead (parse_reply buf) buf (failed etime buf) (parse_reply-Coded buf)
      (omega arith)
read_loop-CodedRead buf (refused n ∷ es) h =
    on_parsed-CodedRead (parse_reply buf) buf (failed (negsuc n) buf) (parse_reply-Coded buf) h.0
read_loop-CodedRead buf (received [] ∷ es) h =
    on_parsed-CodedRead (parse_reply buf) buf (failed econnreset buf) (parse_reply-Coded buf)
      (omega arith)
read_loop-CodedRead buf (received (c ∷ s) ∷ es) h =
    on_parsed-CodedRead (parse_reply buf) buf _ (parse_reply-Coded buf)
      (read_loop-CodedRead (buf ++ (c ∷ s)) es h.1)

-- The connection of a command that came back is broken exactly if the error may be retried.
abbrev Settled : Command → Type 0
Settled (replied (some c) r) = c.broken ≡ retryable (error_of r)
Settled _ = Unit

retryable-fill_error :
    (strerror : ℤ → Bytes) (e : ℤ) → IsErrno e → true ≡ retryable (fill_error strerror e)
unfolding retryable fill_error code_eq
retryable-fill_error strerror (pos n) h = absurd h
retryable-fill_error strerror (negsuc n) h = ground arith

retryable-Coded : (r : Reply) (rest : Bytes) → Coded (done r rest) → retryable (error_of r) ≡ false
unfolding retryable code_eq
retryable-Coded (reply e t i s rs) rest h = ground arith

after_read-Settled :
    (strerror : ℤ → Bytes) (c : Connection) (x : Read)
    → c.broken ≡ false
    → CodedRead x
    → Settled (after_read strerror c x)
unfolding after_read
after_read-Settled strerror c (got r rest) b h = b ∙ sym (retryable-Coded r rest h)
after_read-Settled strerror c (failed e buf) b h = retryable-fill_error strerror e h
after_read-Settled strerror c waiting b h = tt
after_read-Settled strerror c read_undefined b h = tt
after_read-Settled strerror c read_thrown b h = tt

after_send-Settled :
    (strerror : ℤ → Bytes) (c : Connection) (o : Option ℤ) (recvs : List Receive)
    → c.broken ≡ false
    → Returned o
    → All ReceiveErrno recvs
    → Settled (after_send strerror c o recvs)
unfolding after_send read_reply
after_send-Settled strerror c none recvs b o h = tt
after_send-Settled strerror c (some (pos zero)) recvs b o h =
    after_read-Settled strerror c (read_loop [] recvs) b (read_loop-CodedRead [] recvs h)
after_send-Settled strerror c (some (pos (suc n))) recvs b o h = absurd (ground arith)
after_send-Settled strerror c (some (negsuc n)) recvs b o h =
    retryable-fill_error strerror (negsuc n) (ground arith)

usable-broken : (c : Connection) (args : List Bytes) → is_usable c args ≡ true → c.broken ≡ false
usable-broken c [] h = cc
usable-broken c (a ∷ l) h = ground arith

-- After a command on a connection in use, the connection is broken exactly if the error it returns is
-- one that may be retried: not after success or an error of the server, but after a deadline, an
-- error of the transport and a reply that breaks the protocol. The errnos are those of Linux.
pub ucommand-broken :
    (strerror : ℤ → Bytes) (c : Connection) (args : List Bytes) (sends : List Send)
    (recvs : List Receive) {c' : Connection} {r : Reply}
    → is_usable c args ≡ true
    → All SendErrno sends
    → All ReceiveErrno recvs
    → ucommand strerror (some c) args sends recvs ≡ replied (some c') r
    → c'.broken ≡ retryable (error_of r)
unfolding ucommand
ucommand-broken strerror c args sends recvs u hs hr e = subst Settled (rw u at e) (
    after_send-Settled strerror c (send_all (serialize args) 0 sends).0 recvs
      (usable-broken c args u) (send_all-Returned (serialize args) 0 sends hs) hr)
