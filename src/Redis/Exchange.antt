-- ===== src/Redis/Exchange.antt =====
-- `send_all`, `read_reply`, `fill_error`, `ucommand` and the commands of core/uredis.cpp.
--
-- What the socket and the deadline did is a list of events, in order: `expired` is a deadline that
-- was found to be over before the call, otherwise the call returned. A list that ends is a
-- coroutine that still waits.
use uco.Prelude.{
  ℕ, zero, suc, ◌+◌, Bool, true, false, not, ◌||◌, ◌&&◌, List, [], ◌∷◌, ◌++◌, Option, none, some,
  ltb, if◌then◌else◌, length,
}
use uco.Prelude.Bytes.{Bytes}
use uco.Prelude.Int.{ℤ, pos, negsuc}
use uco.Redis.Reply.{RedisError, Reply, reply, nil_type, no_replies, timeout, bad_argument, code_eq}
use uco.Redis.Parse.{Parsed, done, more, bad, undefined, thrown, spent, parse_reply}
use uco.Redis.Wire.{serialize, print_int}

-- -EINTR, -EAGAIN, -ETIME, -EPROTO and -ECONNRESET.
abbrev pub eintr : ℤ
eintr = negsuc 3

abbrev pub eagain : ℤ
eagain = negsuc 10

abbrev pub etime : ℤ
etime = negsuc 61

abbrev pub eproto : ℤ
eproto = negsuc 70

abbrev pub econnreset : ℤ
econnreset = negsuc 103

-- A call of `usend`, or the deadline before it.
pub data Send : Type 0 where
  send_expired : Send
  sent : ℤ → Send

-- `send_all`: the return value, and how much of the data is sent; no value while it waits.
unfoldable pub send_negative : ℤ → ℕ → Option ℤ × ℕ → Option ℤ × ℕ
send_negative n off next = if code_eq n eagain || code_eq n eintr then next else (some n, off)

unfoldable pub send_all : Bytes → ℕ → List Send → Option ℤ × ℕ
unfolding send_negative
send_all bytes off [] = if ltb off (length bytes) then (none, off) else (some (pos 0), off)
send_all bytes off (send_expired ∷ es) =
    if ltb off (length bytes) then (some etime, off) else (some (pos 0), off)
send_all bytes off (sent (negsuc n) ∷ es) =
    let next = send_all bytes off es in
    if ltb off (length bytes) then send_negative (negsuc n) off next else (some (pos 0), off)
send_all bytes off (sent (pos zero) ∷ es) =
    if ltb off (length bytes) then (some econnreset, off) else (some (pos 0), off)
send_all bytes off (sent (pos (suc n)) ∷ es) =
    let next = send_all bytes (off + suc n) es in
    if ltb off (length bytes) then next else (some (pos 0), off)

-- A call of `urecv`, or the deadline before it; `refused n` is the return value -(n + 1).
pub data Receive : Type 0 where
  receive_expired : Receive
  refused : ℕ → Receive
  received : Bytes → Receive

-- `read_reply`: the reply or an error, each with what is then in `rbuf`, a wait, or what the parser ran
-- into.
pub data Read : Type 0 where
  got : Reply → Bytes → Read
  failed : ℤ → Bytes → Read
  waiting : Read
  read_undefined read_thrown : Read

unfoldable pub on_parsed : Parsed Reply → Bytes → Read → Read
on_parsed (done r rest) rbuf next = got r rest
on_parsed more rbuf next = next
on_parsed bad rbuf next = failed eproto rbuf
on_parsed undefined rbuf next = read_undefined
on_parsed thrown rbuf next = read_thrown
on_parsed spent rbuf next = next

-- The loop of `read_reply` on what is in `rbuf`.
unfoldable pub read_loop : Bytes → List Receive → Read
unfolding on_parsed
read_loop rbuf [] = on_parsed (parse_reply rbuf) rbuf waiting
read_loop rbuf (receive_expired ∷ es) = on_parsed (parse_reply rbuf) rbuf (failed etime rbuf)
read_loop rbuf (refused n ∷ es) = on_parsed (parse_reply rbuf) rbuf (failed (negsuc n) rbuf)
read_loop rbuf (received [] ∷ es) = on_parsed (parse_reply rbuf) rbuf (failed econnreset rbuf)
read_loop rbuf (received (c ∷ s) ∷ es) =
    on_parsed (parse_reply rbuf) rbuf (read_loop (rbuf ++ (c ∷ s)) es)

unfoldable pub read_reply : List Receive → Read
unfolding read_loop
read_reply es = read_loop [] es

-- `strerror` on an errno.
unfoldable pub fill_error : (ℤ → Bytes) → ℤ → RedisError
fill_error strerror r =
    if code_eq r etime
    then record {
      ret_code = timeout;
      err_msg =
          (b'u' ∷ b'r' ∷ b'e' ∷ b'd' ∷ b'i' ∷ b's' ∷ b':' ∷ b' ' ∷ b'o' ∷ b'p' ∷ b'e' ∷ b'r' ∷ b'a'
            ∷ b't' ∷ b'i' ∷ b'o' ∷ b'n' ∷ b' ' ∷ b't' ∷ b'i' ∷ b'm' ∷ b'e' ∷ b'o' ∷ b'u' ∷ b't'
            ∷ []);
    }
    else record {
      ret_code = r;
      err_msg = (b'u' ∷ b'r' ∷ b'e' ∷ b'd' ∷ b'i' ∷ b's' ∷ b':' ∷ b' ' ∷ []) ++ strerror r;
    }

-- `uconnection`: whether it has a descriptor, whether it is broken, and its buffer.
pub record Connection : Type 0 where
  pub has_fd : Bool
  pub broken : Bool
  pub rbuf : Bytes

abbrev pub error_reply : RedisError → Reply
error_reply e = reply e nil_type (pos 0) [] no_replies

-- How a command stands: it came back, or it waits, or the parser had no defined result.
pub data Command : Type 0 where
  replied : Option Connection → Reply → Command
  pending : Command
  not_defined : Command
  exception : Command

abbrev pub is_usable : Connection → List Bytes → Bool
is_usable c [] = false
is_usable c (a ∷ l) = c.has_fd && not c.broken

unfoldable pub after_read : (ℤ → Bytes) → Connection → Read → Command
unfolding fill_error
after_read strerror c (got r rest) = replied (some (record c { rbuf = rest })) r
after_read strerror c (failed e buf) =
    replied (some (record c { broken = true; rbuf = buf })) (error_reply (fill_error strerror e))
after_read strerror c waiting = pending
after_read strerror c read_undefined = not_defined
after_read strerror c read_thrown = exception

unfoldable pub after_send : (ℤ → Bytes) → Connection → Option ℤ → List Receive → Command
unfolding after_read fill_error
after_send strerror c none recvs = pending
after_send strerror c (some (pos zero)) recvs = after_read strerror c (read_reply recvs)
after_send strerror c (some e) recvs =
    replied (some (record c { broken = true })) (error_reply (fill_error strerror e))

abbrev pub bad_arguments : Reply
bad_arguments = error_reply (record {
  ret_code = bad_argument;
  err_msg =
      (b'u' ∷ b'r' ∷ b'e' ∷ b'd' ∷ b'i' ∷ b's' ∷ b':' ∷ b' ' ∷ b'i' ∷ b'n' ∷ b'v' ∷ b'a' ∷ b'l'
        ∷ b'i' ∷ b'd' ∷ b' ' ∷ b'c' ∷ b'o' ∷ b'n' ∷ b'n' ∷ b'e' ∷ b'c' ∷ b't' ∷ b'i' ∷ b'o' ∷ b'n'
        ∷ b' ' ∷ b'o' ∷ b'r' ∷ b' ' ∷ b'e' ∷ b'm' ∷ b'p' ∷ b't' ∷ b'y' ∷ b' ' ∷ b'a' ∷ b'r' ∷ b'g'
        ∷ b's' ∷ []);
})

unfoldable pub ucommand :
    (ℤ → Bytes) → Option Connection → List Bytes → List Send → List Receive → Command
unfolding after_send
ucommand strerror none args sends recvs = replied none bad_arguments
ucommand strerror (some c) args sends recvs =
    if is_usable c args
    then after_send strerror c (send_all (serialize args) 0 sends).0 recvs
    else replied (some c) bad_arguments

-- The arguments of the commands.
unfoldable pub uset : Bytes → Bytes → List Bytes
uset key value = (b'S' ∷ b'E' ∷ b'T' ∷ []) ∷ key ∷ value ∷ []

unfoldable pub uget : Bytes → List Bytes
uget key = (b'G' ∷ b'E' ∷ b'T' ∷ []) ∷ key ∷ []

unfoldable pub udel : List Bytes → List Bytes
udel keys = (b'D' ∷ b'E' ∷ b'L' ∷ []) ∷ keys

unfoldable pub uexists : List Bytes → List Bytes
uexists keys = (b'E' ∷ b'X' ∷ b'I' ∷ b'S' ∷ b'T' ∷ b'S' ∷ []) ∷ keys

unfoldable pub uincr : Bytes → List Bytes
uincr key = (b'I' ∷ b'N' ∷ b'C' ∷ b'R' ∷ []) ∷ key ∷ []

unfoldable pub uexpire : Bytes → ℤ → List Bytes
uexpire key seconds = (b'E' ∷ b'X' ∷ b'P' ∷ b'I' ∷ b'R' ∷ b'E' ∷ []) ∷ key ∷ print_int seconds ∷ []

unfoldable pub uping : List Bytes
uping = (b'P' ∷ b'I' ∷ b'N' ∷ b'G' ∷ []) ∷ []
