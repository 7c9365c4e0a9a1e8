-- ===== src/Session/State.antt =====
-- `SessionStore` and `Session` of http/session.cpp and http/session.h.
--
-- What Redis and the random source answer is an argument of an operation; what it asks of Redis and
-- of the response is a list of effects, in order. `int` is ℤ.
use uco.Prelude.{
  Bool, true, false, not, ◌&&◌, ◌||◌, List, [], ◌∷◌, ◌++◌, Option, none, some, if◌then◌else◌,
}
use uco.Prelude.Bytes.{Bytes, bytes_eq}
use uco.Prelude.Dict.{lookup, insert, erase}
use uco.Prelude.Int.{ℤ, pos, negsuc, ltb_ℤ}
use uco.Redis.Wire.{print_int}
use uco.Redis.Reply.{Reply, reply, nil_type, code_eq}
use uco.Session.Json.{Values, dump_session_json, parse_session_json}
use uco.Session.Flash.{dump_flash_array, parse_flash_array}

-- The configuration of the store, as its constructor leaves it; the key prefix and the attributes of
-- the cookie only stand in the texts that are sent.
pub record Store : Type 0 where
  pub key_prefix : Bytes
  pub flash_key : Bytes
  pub max_age : ℤ
  pub max_anonymous_age : ℤ
  pub auto_save : Bool
  pub sliding : Bool

-- What is asked of Redis and of the response; an age of `-1` expires the cookie.
pub data Effect : Type 0 where
  redis_command : List Bytes → Effect
  set_cookie : Bytes → ℤ → Effect

pub record Session : Type 0 where
  pub id : Bytes
  pub values : Values
  pub max_age_override : ℤ
  pub is_new : Bool
  pub written : Bool
  pub load_ok : Bool
  pub destroyed : Bool

-- A session as it is constructed.
abbrev pub new_session : Session
new_session = record {
  id = [];
  values = [];
  max_age_override = negsuc 0;
  is_new = true;
  written = false;
  load_ok = false;
  destroyed = false;
}

abbrev pub or_default : Option Bytes → Bytes → Bytes
or_default none d = d
or_default (some v) d = v

-- `Get`, `Has`, `Set`, `Delete` and `Clear`.
unfoldable pub get : Bytes → Bytes → Session → Bytes
get key def s = or_default (lookup key s.values) def

abbrev pub is_some {ℓ} : {A : Type ℓ} → Option A → Bool
is_some none = false
is_some (some a) = true

unfoldable pub has : Bytes → Session → Bool
has key s = is_some (lookup key s.values)

unfoldable pub set : Bytes → Bytes → Session → Session
set key value s = record s { values = insert key value s.values; written = true }

unfoldable pub delete : Bytes → Session → Session
delete key s = if has key s then record s { values = erase key s.values; written = true } else s

abbrev pub is_empty {ℓ} : {A : Type ℓ} → List A → Bool
is_empty [] = true
is_empty (a ∷ l) = false

unfoldable pub clear : Session → Session
clear s = if is_empty s.values then s else record s { values = []; written = true }

-- `GetBool` and `SetBool`.
unfoldable pub bool_of : Bytes → Bool → Bool
bool_of v def =
    if bytes_eq v (b'1' ∷ [])
      || bytes_eq v (b't' ∷ b'r' ∷ b'u' ∷ b'e' ∷ [])
      || bytes_eq v (b'y' ∷ b'e' ∷ b's' ∷ [])
      || bytes_eq v (b'o' ∷ b'n' ∷ [])
    then true
    else if bytes_eq v (b'0' ∷ [])
        || bytes_eq v (b'f' ∷ b'a' ∷ b'l' ∷ b's' ∷ b'e' ∷ [])
        || bytes_eq v (b'n' ∷ b'o' ∷ [])
        || bytes_eq v (b'o' ∷ b'f' ∷ b'f' ∷ [])
        || is_empty v
    then false
    else def

unfoldable pub bool_or : Option Bytes → Bool → Bool
bool_or none def = def
bool_or (some v) def = bool_of v def

unfoldable pub get_bool : Bytes → Bool → Session → Bool
get_bool key def s = bool_or (lookup key s.values) def

unfoldable pub set_bool : Bytes → Bool → Session → Session
set_bool key value s = set key (if value then (b'1' ∷ []) else (b'0' ∷ [])) s

unfoldable pub set_int64 : Bytes → ℤ → Session → Session
set_int64 key value s = set key (print_int value) s

-- `AddFlash` and `Flashes`.
unfoldable pub flash_key_of : Store → Bytes → Bytes
flash_key_of store key = if is_empty key then store.flash_key else key

unfoldable pub add_flash : Store → Bytes → Bytes → Session → Session
add_flash store value key s =
    let k = flash_key_of store key in
    set k (dump_flash_array ((parse_flash_array (get k [] s)).0 ++ (value ∷ []))) s

unfoldable pub flashes : Store → Bytes → Session → Session × List Bytes
flashes store key s =
    let k = flash_key_of store key in
    let (items, ok) = parse_flash_array (get k [] s) in if ok then (delete k s, items) else (s, [])

-- `SetMaxAge`, `Destroy` and `EffectiveMaxAge`.
unfoldable pub destroy : Session → Session
destroy s = record s { destroyed = true; written = true }

unfoldable pub set_max_age : ℤ → Session → Session
set_max_age seconds s =
    if ltb_ℤ seconds (pos 0)
    then destroy s
    else record s { max_age_override = seconds; written = true }

unfoldable pub effective_max_age : Store → Session → ℤ
effective_max_age store s =
    if ltb_ℤ s.max_age_override (pos 0) then store.max_age else s.max_age_override

-- `SaveValues`, `RemoveKey`, `TouchTTL`: their commands; a `ttl` that is not positive is the default.
unfoldable pub ttl_of : Store → ℤ → ℤ
ttl_of store ttl = if ltb_ℤ (pos 0) ttl then ttl else store.max_age

unfoldable pub save_values : Store → Bytes → Bytes → ℤ → Effect
save_values store id json ttl = redis_command (
    (b'S' ∷ b'E' ∷ b'T' ∷ [])
    ∷ (store.key_prefix ++ id)
    ∷ json
    ∷ (b'E' ∷ b'X' ∷ [])
    ∷ print_int (ttl_of store ttl)
    ∷ [])

unfoldable pub remove_key : Store → Bytes → Effect
remove_key store id = redis_command ((b'D' ∷ b'E' ∷ b'L' ∷ []) ∷ (store.key_prefix ++ id) ∷ [])

unfoldable pub touch_ttl : Store → Bytes → ℤ → Effect
touch_ttl store id ttl = redis_command (
    (b'E' ∷ b'X' ∷ b'P' ∷ b'I' ∷ b'R' ∷ b'E' ∷ [])
    ∷ (store.key_prefix ++ id)
    ∷ print_int (ttl_of store ttl)
    ∷ [])

unfoldable pub load_values : Store → Bytes → Effect
load_values store id = redis_command ((b'G' ∷ b'E' ∷ b'T' ∷ []) ∷ (store.key_prefix ++ id) ∷ [])

-- `SignID` with the store's secret, a parameter.
abbrev pub Sign : Type 0
Sign = Bytes → Bytes

-- `WriteCookie` and `ExpireCookie`.
unfoldable pub write_cookie : Sign → Bytes → ℤ → Effect
write_cookie sign id age = set_cookie (id ++ (b'.' ∷ sign id)) age

abbrev pub expire_cookie : Effect
expire_cookie = set_cookie [] (negsuc 0)

-- What an operation leaves: the session, what it asked for, and its result.
abbrev pub Outcome : Type 0
Outcome = Session × List Effect × Bool

-- `Save` behind its guards, the branch that removes.
unfoldable pub save_removed : Store → Bool → Session → Outcome
save_removed store ok s =
    let gone = record s { id = []; is_new = true; load_ok = false; destroyed = false } in
    if is_empty s.id
    then (gone, expire_cookie ∷ [], true)
    else if ok
    then (gone, remove_key store s.id ∷ expire_cookie ∷ [], true)
    else (s, remove_key store s.id ∷ [], false)

-- `Save` behind its guards, the branch that writes.
unfoldable pub save_written : Store → Sign → Bytes → Bool → Session → Outcome
save_written store sign fresh ok s =
    let t = if is_empty s.id then record s { id = fresh } else s in
    let age = effective_max_age store t in
    let command = save_values store t.id (dump_session_json t.values) age in
    if ok then (t, command ∷ write_cookie sign t.id age ∷ [], true) else (t, command ∷ [], false)

-- `Save`: `fresh` is what `NewSessionID` gives if it is called, `ok` whether Redis took the command.
unfoldable pub save : Store → Sign → Bytes → Bool → Session → Outcome
save store sign fresh ok s =
    if not s.written
    then (s, [], true)
    else if not s.is_new && not s.load_ok
    then (s, [], false)
    else if s.destroyed || is_empty s.values
    then save_removed store ok (record s { written = false })
    else save_written store sign fresh ok (record s { written = false })

unfoldable pub after_rotated_save : Store → Session → Outcome → Outcome
after_rotated_save store old (t, es, true) =
    (t, es ++ (if is_empty old.id then [] else remove_key store old.id ∷ []), true)
after_rotated_save store old (t, es, false) = (
  record t {
    id = old.id;
    is_new = old.is_new;
    written = old.written;
    max_age_override = old.max_age_override;
  },
  es,
  false,
)

-- `Rotate`, with the new id.
unfoldable pub rotate : Store → Sign → Bytes → Bool → Session → Outcome
rotate store sign fresh ok s = after_rotated_save store s (
    save store sign fresh ok
      (record s { id = fresh; is_new = true; written = true; max_age_override = negsuc 0 }))

-- `LoadValues`: the reply of `GET`, or none if no connection was had.
pub data LoadResult : Type 0 where
  load_done : Bytes → LoadResult
  load_missing load_error : LoadResult

unfoldable pub loaded : Option Reply → LoadResult
loaded none = load_error
loaded (some (reply e t i str rs)) =
    if not (code_eq e.ret_code (pos 0))
    then load_error
    else elim t [ nil_type ↦ load_missing | _ ↦ load_done str ]

unfoldable pub with_values : Session → Values × Bool → Session
with_values s (kv, true) = record s { values = kv; is_new = false; load_ok = true }
with_values s (kv, false) = record s { values = kv }

unfoldable pub with_loaded : Session → LoadResult → Session
with_loaded s (load_done raw) = with_values s (parse_session_json raw)
with_loaded s load_missing = s
with_loaded s load_error = s

-- `InitLoad` behind the check of the cookie, which gave the id.
unfoldable pub init_load : Store → Bytes → Option Reply → Session × List Effect
init_load store id r =
    let s = with_loaded (record new_session { id = id }) (loaded r) in
    (
      s,
      load_values store id
          ∷ (if store.sliding && not s.is_new
              then touch_ttl store id (effective_max_age store s) ∷ []
              else []),
    )
