-- ===== src/Redis/Command.antt =====
-- core/uredis.cpp: the text of a command, the bytes that are sent, and what `ucommand` leaves of its
-- connection.
use uco.Prelude.{
  ℕ, zero, suc, ◌+◌, ◌≤◌, ◌≡◌, ◌≢◌, refl, ap, sym, ◌∙◌, true, List, [], ◌∷◌, ◌++◌, some, length,
  arith,
}
use uco.Prelude.Bytes.{Bytes, All}
use uco.Prelude.Int.{ℤ, pos, negsuc}
use uco.Prelude.Decimal.{to_string}
use uco.Redis.Reply.{code_eq}
use uco.Redis.Parse.{done, crlf, int64_max, max_elements, parse_reply}
use uco.Redis.Wire.{
  Resp, Resps, bulk, array, no_resps, cons_resp, count, print, print_all, print_int, value, IsWire,
  AreWire, serialize, serialize_args,
}
use uco.Redis.RoundTrip.{parse_reply-print, print-bulk}
use uco.Redis.Chunks.{chunks, joined, read_reply-chunks}
use uco.Redis.Exchange.{
  Send, send_expired, sent, send_all, send_negative, Receive, Connection, replied, is_usable,
  after_read, after_send, ucommand,
}

-- The arguments as an array of texts.
abbrev pub bulks : List Bytes → Resps
bulks [] = no_resps
bulks (a ∷ l) = cons_resp (bulk a) (bulks l)

-- Arguments whose lengths, and whose number, the protocol's reader takes.
abbrev pub AreArguments : List Bytes → Type 0
AreArguments l = (length l ≤ max_elements) × All (λ (a : Bytes). length a + 2 ≤ int64_max) l

count-bulks : (l : List Bytes) → count (bulks l) ≡ length l
count-bulks [] = refl
count-bulks (a ∷ l) = ap suc (count-bulks l)

bulks-AreWire :
    (l : List Bytes) → All (λ (a : Bytes). length a + 2 ≤ int64_max) l → AreWire (bulks l)
bulks-AreWire [] h = tt
bulks-AreWire (a ∷ l) h = (h.0, bulks-AreWire l h.1)

serialize_args-print : (l : List Bytes) → serialize_args l ≡ print_all (bulks l)
unfolding serialize_args print print_int
serialize_args-print [] = refl
serialize_args-print (a ∷ l) =
    ap (λ t. b'$' ∷ (to_string (length a) ++ (crlf ++ (a ++ (crlf ++ t))))) (serialize_args-print l)
    ∙ ap (◌∷◌ b'$') (sym (print-bulk (print_all (bulks l)) a))

serialize-print : (l : List Bytes) → serialize l ≡ print (array (bulks l))
unfolding serialize print print_int
serialize-print l = rw (serialize_args-print l, count-bulks l) refl

-- A command is read by a reader of the protocol as the array of its arguments, whatever bytes the
-- arguments hold, and what is sent behind it is left over.
pub parse_reply-serialize :
    (args : List Bytes) (rest : Bytes)
    → AreArguments args
    → parse_reply (serialize args ++ rest) ≡ done (value (array (bulks args))) rest
parse_reply-serialize args rest h = rw (serialize-print args) (
    parse_reply-print (array (bulks args)) rest (rw (count-bulks args) h.0, bulks-AreWire args h.1))

-- Each call of `usend` took at most what it was handed.
abbrev pub Honest : ℕ → ℕ → List Send → Type 0
Honest len off [] = Unit
Honest len off (send_expired ∷ es) = Unit
Honest len off (sent (negsuc n) ∷ es) = Honest len off es
Honest len off (sent (pos n) ∷ es) = (off + n ≤ len) × Honest len (off + n) es

-- The data is sent from its front, and `send_all` returns 0 exactly when all of it is.
pub send_all_lem :
    (bytes : Bytes) (off : ℕ) (es : List Send)
    → off ≤ length bytes
    → Honest (length bytes) off es
    → let (r, n) = send_all bytes off es in
      (off ≤ n)
      × (n ≤ length bytes)
      × (r ≡ some (pos 0) → n ≡ length bytes)
      × (n ≡ length bytes → r ≡ some (pos 0))
unfolding send_all send_negative code_eq
send_all_lem bytes off [] h k = ground arith
send_all_lem bytes off (send_expired ∷ es) h k = ground arith
send_all_lem bytes off (sent (negsuc n) ∷ es) h k = ground (arith, send_all_lem bytes off es)
send_all_lem bytes off (sent (pos zero) ∷ es) h k = ground arith
send_all_lem bytes off (sent (pos (suc n)) ∷ es) h k =
    ground (arith, send_all_lem bytes (off + suc n) es)

-- A command on a connection in use, all of whose text is sent, returns the reply of the server when
-- its bytes have come, in whatever pieces, and leaves the connection in use.
pub ucommand-chunks :
    (strerror : ℤ → Bytes) (c : Connection) (args : List Bytes) (sends : List Send) (r : Resp)
    (l : List Bytes) (later : List Receive)
    → is_usable c args ≡ true
    → (send_all (serialize args) 0 sends).0 ≡ some (pos 0)
    → IsWire r
    → All (λ (p : Bytes). p ≢ []) l
    → joined l ≡ print r
    → ucommand strerror (some c) args sends (chunks l ++ later)
      ≡ replied (some (record c { rbuf = [] })) (value r)
unfolding ucommand after_send after_read
ucommand-chunks strerror c args sends r l later u s w ne e =
    rw (u, s, after_send, read_reply-chunks r l later w ne e) refl
