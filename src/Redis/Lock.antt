-- ===== src/Redis/Lock.antt =====
-- `ulock` of core/uredis.cpp, the lock that is kept in a Redis server. A call is two functions: what
-- it does up to its command, and what it does with the reply. `cmd_mtx` lets one call at a time go
-- through them.
pub mod World
pub mod Turns
pub mod Harmless
pub mod Kept
pub mod Exclusion
use uco.Prelude.{
  ℕ, ◌/◌, ◌≡◌, Bool, true, false, ◌&&◌, ◌||◌, not, [], ◌∷◌, Option, none, some, leb, ◌==◌,
  if◌then◌else◌,
}
use uco.Prelude.Bytes.{Bytes, bytes_eq}
use uco.Prelude.Int.{pos}
use uco.Redis.Reply.{
  Reply, RedisError, reply, error_of, type_of, integer_of, str_of, ReplyType, status_type,
  integer_type, code_eq,
}

-- The configuration, as the constructor leaves it.
pub record Config : Type 0 where
  pub key : Bytes
  pub ttl_ms : ℕ
  pub renew_interval_ms : ℕ

unfoldable pub configure : Config → Config
configure c =
    let ttl = if c.ttl_ms == 0 then 10000 else c.ttl_ms in
    record c {
      ttl_ms = ttl;
      renew_interval_ms =
          if not (c.renew_interval_ms == 0) && leb ttl c.renew_interval_ms
          then ttl / 3
          else c.renew_interval_ms;
    }

-- The command that a call waits for.
pub data Phase : Type 0 where
  idle : Phase
  setting : Bytes → Phase
  renewing releasing : Bytes → Phase

-- `ulock::state`: `connected` is a connection that is there and not broken; an empty token is none.
pub record Lock : Type 0 where
  pub config : Config
  pub stopped : Bool
  pub token : Bytes
  pub connected : Bool
  pub phase : Phase

unfoldable pub ulock : Config → Lock
unfolding configure
ulock c = record {
  config = configure c;
  stopped = false;
  token = [];
  connected = false;
  phase = idle;
}

abbrev pub is_empty : Bytes → Bool
is_empty [] = true
is_empty (c ∷ s) = false

-- `Owns`.
unfoldable pub owns : Lock → Bool
owns l = not (is_empty l.token)

-- What a call comes to before its command: a return value, or the command.
pub data Begun : Type 0 where
  returned : Bool → Begun
  sent : Begun

-- `TryAcquire` up to its command: `reconnected` is what `uconnect` gave, if it was called.
unfoldable pub try_begin : Bytes → Bool → Lock → Lock × Begun
try_begin token reconnected l =
    if l.stopped
    then (l, returned false)
    else if is_empty l.config.key
    then (l, returned false)
    else if not (is_empty l.token)
    then (l, returned true)
    else if not (l.connected || reconnected)
    then (record l { connected = false }, returned false)
    else (record l { connected = true; phase = setting token }, sent)

-- `r.ret_code == 0 && r.type == STATUS && r.str == "OK"`.
unfoldable pub is_status : Reply → Bool
is_status (reply e status_type i s rs) = code_eq e.ret_code (pos 0) && bytes_eq s (b'O' ∷ b'K' ∷ [])
is_status _ = false

-- `r.ret_code == 0 && r.type == INTEGER && r.integer == 1`.
unfoldable pub is_one : Reply → Bool
is_one (reply e integer_type i s rs) = code_eq e.ret_code (pos 0) && code_eq i (pos 1)
is_one _ = false

-- `TryAcquire` with its reply; `alive` tells that `ucommand` has not marked the connection broken.
unfoldable pub try_finish : Bytes → Reply → Bool → Lock → Lock × Bool
unfolding is_status
try_finish token r alive l =
    let m = record l { connected = l.connected && alive; phase = idle } in
    if is_status r then (record m { token = token }, true) else (m, false)

-- `do_renew` up to its command.
unfoldable pub renew_begin : Lock → Lock × Begun
renew_begin l =
    if l.stopped
    then (l, returned false)
    else if is_empty l.token
    then (l, returned false)
    else if not l.connected
    then (record l { token = [] }, returned false)
    else (record l { phase = renewing l.token }, sent)

unfoldable pub renew_finish : Reply → Bool → Lock → Lock × Bool
unfolding is_one
renew_finish r alive l =
    let m = record l { connected = l.connected && alive; phase = idle } in
    if is_one r then (m, true) else (record m { token = [] }, false)

-- `Release` up to its command.
unfoldable pub release_begin : Lock → Lock × Begun
release_begin l =
    if l.stopped
    then (l, returned false)
    else if is_empty l.token
    then (l, returned false)
    else if not l.connected
    then (record l { token = [] }, returned false)
    else (record l { token = []; phase = releasing l.token }, sent)

unfoldable pub release_finish : Reply → Bool → Lock → Lock × Bool
unfolding is_one
release_finish r alive l = (record l { connected = l.connected && alive; phase = idle }, is_one r)

-- `Close`: the connection goes at once if there is no watchdog, and else when it wakes.
unfoldable pub close : Lock → Lock
close l = record l { stopped = true; token = []; connected = false }
