-- ===== src/Session/Tests.antt =====
-- The sessions of http/session.cpp and http/csrf.cpp on small inputs, and their theorems at them.
use uco.Prelude.{
  List, Option, ◌≡◌, ◌≢◌, ◌↔◌, refl, true, false, not, ◌&&◌, [], ◌∷◌, ◌++◌, none, some, arith,
}
use uco.Prelude.Bytes.{Bytes, bytes_eq, bytes_eq_refl}
use uco.Prelude.Dict.{lookup, insert, erase, lookup-insert}
use uco.Prelude.Decimal.{is_digit, decimal_loop, to_string}
use uco.Prelude.Int.{pos, negsuc}
use uco.Text.Chars.{char_to_hex}
use uco.Text.Hex.{hex_digit, hex_encode}
use uco.Redis.Wire.{print_int}
use uco.Redis.Reply.{Reply, reply, empty_reply, no_error, no_replies, string_type, code_eq}
use uco.Session.Json.{
  escape_char, escape, json_string, dump_rest, dump_session_json, is_ws, skip_ws, eat_first, eat,
  utf8, hex_value, parse_hex4, low_half, surrogates, in_front, unicode_escape, escaped, string_loop,
  string_behind, parse_string, emplace_at, emplace, after_member, member_value, behind_colon,
  member_key, members, parse_members, parse_object, is_end, whole, parse_session_json,
}
use uco.Session.Flash.{
  flash_rest, dump_flash_array, after_item, flash_item, flash_items, flash_body, flash_array,
  parse_flash_array,
}
use uco.Session.State.{
  Store, redis_command, set_cookie, Session, new_session, get, has, set, delete, clear, bool_of,
  bool_or, get_bool, set_bool, set_int64, flash_key_of, add_flash, flashes, destroy, set_max_age,
  effective_max_age, ttl_of, save_values, remove_key, touch_ttl, load_values, write_cookie,
  save_removed, save_written, save, after_rotated_save, rotate, loaded, with_values, with_loaded,
  init_load,
}
use uco.Session.Cookie.{
  new_session_id, sign_id, last_step, cut_last, all_hex, check_signature, parse_signed_cookie,
  IsSigned, parse_signed_cookie_lem,
}
use uco.Session.Saving.{
  never_refuses, save-save, rotate_lem, init_load-save, flashes-add_flash, stored, messages,
  operate_all, saves, sets,
}
use uco.Session.Middleware.{
  load_id, load_cookie, auto_save, sessions, csrf_key, new_token, token_body, shorten,
  session_issue, session_check, session_check-issue,
}

program : Unit {0}
unfolding bytes_eq lookup insert erase is_digit decimal_loop to_string char_to_hex hex_digit
    hex_encode print_int code_eq escape_char escape json_string dump_rest dump_session_json is_ws
    skip_ws eat_first eat utf8 hex_value parse_hex4 low_half surrogates in_front unicode_escape
    escaped string_loop string_behind parse_string emplace_at emplace after_member member_value
    behind_colon member_key members parse_members parse_object is_end whole parse_session_json
    flash_rest dump_flash_array after_item flash_item flash_items flash_body flash_array
    parse_flash_array get has set delete clear bool_of bool_or get_bool set_bool set_int64
    flash_key_of add_flash flashes destroy set_max_age effective_max_age ttl_of save_values
    remove_key touch_ttl load_values write_cookie save_removed save_written save after_rotated_save
    rotate loaded with_values with_loaded init_load new_session_id sign_id last_step cut_last
    all_hex check_signature parse_signed_cookie load_id load_cookie auto_save sessions new_token
    token_body shorten session_issue session_check
program = tt

abbrev store : Store
store = record {
  key_prefix = (b's' ∷ b':' ∷ []);
  flash_key = (b'_' ∷ b'f' ∷ b'l' ∷ b'a' ∷ b's' ∷ b'h' ∷ []);
  max_age = pos 60;
  max_anonymous_age = pos 5;
  auto_save = true;
  sliding = false;
}

abbrev hmac : Bytes → Bytes
hmac id = 171 ∷ []

abbrev user : Session
user = record new_session {
  id = (b'a' ∷ b'1' ∷ []);
  values = ((b'u' ∷ []), (b'7' ∷ [])) ∷ [];
  written = true;
}

reads_unicode :
    (parse_session_json (b'{' ∷ b' ' ∷ b'"' ∷ b'k' ∷ b'"' ∷ b' ' ∷ b':' ∷ b' ' ∷ b'"' ∷ 92 ∷ [])).1
    ≡ false
unfolding program
reads_unicode = refl

-- A text that is refused leaves the entries before the fault.
keeps_part :
    parse_session_json
      (b'{' ∷ b'"' ∷ b'u' ∷ b'"' ∷ b':' ∷ b'"' ∷ b'7' ∷ b'"' ∷ b',' ∷ b'x' ∷ b'}' ∷ [])
    ≡ (((b'u' ∷ []), (b'7' ∷ [])) ∷ [], false)
unfolding program
keeps_part = refl

-- An empty array is accepted whatever follows it, and a refused one leaves the items before the fault.
array_tail : parse_flash_array (b'[' ∷ b']' ∷ b'x' ∷ []) ≡ ([], true)
unfolding program
array_tail = refl

array_part :
    parse_flash_array (b'[' ∷ b'"' ∷ b'a' ∷ b'"' ∷ b',' ∷ b'x' ∷ b']' ∷ [])
    ≡ ((b'a' ∷ []) ∷ [], false)
unfolding program
array_part = refl

surrogate_pair :
    parse_string (
      b'"' ∷ 92 ∷ b'u' ∷ b'd' ∷ b'8' ∷ b'3' ∷ b'd' ∷ 92 ∷ b'u' ∷ b'd' ∷ b'e' ∷ b'0' ∷ b'0' ∷ b'"'
      ∷ [])
    ≡ some (240 ∷ 159 ∷ 152 ∷ 128 ∷ [], [])
unfolding program
surrogate_pair = refl

says_yes : get_bool (b'k' ∷ []) false (set_bool (b'k' ∷ []) true new_session) ≡ true
unfolding program
says_yes = refl

saved_text :
    (save store (sign_id hmac) (b'f' ∷ b'0' ∷ []) true user).1
    ≡ redis_command (
        (b'S' ∷ b'E' ∷ b'T' ∷ [])
        ∷ (b's' ∷ b':' ∷ b'a' ∷ b'1' ∷ [])
        ∷ (b'{' ∷ b'"' ∷ b'u' ∷ b'"' ∷ b':' ∷ b'"' ∷ b'7' ∷ b'"' ∷ b'}' ∷ [])
        ∷ (b'E' ∷ b'X' ∷ [])
        ∷ (b'6' ∷ b'0' ∷ [])
        ∷ [])
      ∷ set_cookie (b'a' ∷ b'1' ∷ b'.' ∷ b'a' ∷ b'b' ∷ []) (pos 60)
      ∷ []
unfolding program
saved_text = refl

parse_signed_cookie_lem_example :
    (parse_signed_cookie (sign_id hmac) (b'a' ∷ b'1' ∷ b'.' ∷ b'a' ∷ b'b' ∷ [])
      ≡ some (b'a' ∷ b'1' ∷ []))
    ↔ IsSigned (sign_id hmac) (b'a' ∷ b'1' ∷ b'.' ∷ b'a' ∷ b'b' ∷ []) (b'a' ∷ b'1' ∷ [])
parse_signed_cookie_lem_example =
    parse_signed_cookie_lem hmac (b'a' ∷ b'1' ∷ b'.' ∷ b'a' ∷ b'b' ∷ []) (b'a' ∷ b'1' ∷ [])

takes_signed :
    parse_signed_cookie (sign_id hmac) (b'a' ∷ b'1' ∷ b'.' ∷ b'a' ∷ b'b' ∷ [])
    ≡ some (b'a' ∷ b'1' ∷ [])
unfolding program
takes_signed = refl

never_refuses_example :
    let s =
      operate_all store hmac
        (sets (b'u' ∷ []) (b'8' ∷ []) ∷ saves [] true ∷ [])
        (init_load store (b'a' ∷ b'1' ∷ []) none).0 in
    ((not s.is_new && not s.load_ok) ≡ false) × ((save store hmac [] true s).2 ≡ true)
never_refuses_example =
    never_refuses store hmac (b'a' ∷ b'1' ∷ []) [] none
      (sets (b'u' ∷ []) (b'8' ∷ []) ∷ saves [] true ∷ [])

save_fails : (save store hmac [] false user).2 ≡ false
unfolding program
save_fails = refl

save-save_example :
    save store hmac [] true (save store hmac [] false user).0
    ≡ ((save store hmac [] false user).0, [], true)
save-save_example = save-save store hmac [] [] true user refl save_fails

abbrev rotated : Session
rotated = record user {
  id = (b'f' ∷ b'0' ∷ []);
  is_new = true;
  written = false;
  max_age_override = negsuc 0;
}

rotate_lem_example :
    let command =
      save_values store
        (b'f' ∷ b'0' ∷ [])
        (dump_session_json (((b'u' ∷ []), (b'7' ∷ [])) ∷ []))
        (pos 60) in
    (rotate store hmac (b'f' ∷ b'0' ∷ []) true user ≡ (
      rotated,
      command
          ∷ write_cookie hmac (b'f' ∷ b'0' ∷ []) (pos 60)
          ∷ remove_key store (b'a' ∷ b'1' ∷ [])
          ∷ [],
      true,
    ))
    × (rotate store hmac (b'f' ∷ b'0' ∷ []) false user ≡ (user, command ∷ [], false))
rotate_lem_example = rotate_lem store hmac (b'f' ∷ b'0' ∷ []) user (λ h. cc) (λ h. cc) refl

-- A server with its keys in a list: a command of two words is a `GET`, a longer one a `SET`.
value_reply : Option Bytes → Reply
value_reply none = empty_reply
value_reply (some v) = reply no_error string_type (pos 0) v no_replies

list_server : List Bytes → List (Bytes × Bytes) → List (Bytes × Bytes) × Reply
list_server (name ∷ key ∷ json ∷ rest) db = (insert key json db, empty_reply)
list_server (name ∷ key ∷ []) db = (db, value_reply (lookup key db))
list_server _ db = (db, empty_reply)

list_server_gets :
    (key json ttl : Bytes) (db : List (Bytes × Bytes))
    → (list_server
        ((b'G' ∷ b'E' ∷ b'T' ∷ []) ∷ key ∷ [])
        (list_server
          ((b'S' ∷ b'E' ∷ b'T' ∷ []) ∷ key ∷ json ∷ (b'E' ∷ b'X' ∷ []) ∷ ttl ∷ [])
          db).0).1
      ≡ reply no_error string_type (pos 0) json no_replies
unfolding list_server value_reply
list_server_gets key json ttl db = rw (lookup-insert key key json db, bytes_eq_refl key) refl

init_load-save_example :
    let json = dump_session_json (((b'u' ∷ []), (b'7' ∷ [])) ∷ []) in
    let later = (init_load store (b'a' ∷ b'1' ∷ []) (stored json)).0 in
    ((save store hmac [] true user).1
      ≡ save_values store (b'a' ∷ b'1' ∷ []) json (effective_max_age store user)
        ∷ write_cookie hmac (b'a' ∷ b'1' ∷ []) (effective_max_age store user)
        ∷ [])
    × (later.values ≡ ((b'u' ∷ []), (b'7' ∷ [])) ∷ [])
    × (later.is_new ≡ false)
    × (later.id ≡ b'a' ∷ b'1' ∷ [])
unfolding program list_server value_reply
init_load-save_example =
    init_load-save list_server list_server_gets store hmac [] user []
      (stored (dump_session_json (((b'u' ∷ []), (b'7' ∷ [])) ∷ []))) refl refl refl (λ h. cc)
      (refl, tt) (ground arith) refl

no_messages : messages store [] user ≡ []
unfolding program
no_messages = refl

flashes-add_flash_example :
    let (t, items) = flashes store [] (add_flash store (b'h' ∷ b'i' ∷ []) [] user) in
    (items ≡ messages store [] user ++ ((b'h' ∷ b'i' ∷ []) ∷ []))
    × (has (flash_key_of store []) t ≡ false)
    × (t.written ≡ true)
flashes-add_flash_example =
    flashes-add_flash store (b'h' ∷ b'i' ∷ []) [] user (rw no_messages (omega arith))
      (unfold lookup in (refl, tt))

session_check-issue_example :
    let (t, body) = session_issue store (18 ∷ []) new_session in
    (get csrf_key [] new_session ≡ [] → session_check (b'1' ∷ b'2' ∷ []) new_session ≡ false)
    × (get csrf_key [] new_session ≡ [] → get csrf_key [] t ≡ hex_encode (18 ∷ []))
    × (body ≡ token_body (get csrf_key [] t))
    × (get csrf_key [] new_session ≢ [] → t ≡ new_session)
    × ((session_check (b'1' ∷ b'2' ∷ []) t ≡ true) ↔ ((b'1' ∷ b'2' ∷ []) ≡ get csrf_key [] t))
session_check-issue_example =
    session_check-issue store (18 ∷ []) (b'1' ∷ b'2' ∷ []) new_session (λ h. cc)

token_accepted :
    session_check (b'1' ∷ b'2' ∷ []) (session_issue store (18 ∷ []) new_session).0 ≡ true
unfolding program
token_accepted = refl
