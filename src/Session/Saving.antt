-- ===== src/Session/Saving.antt =====
-- http/session.cpp: what `Save`, `Rotate` and the flash messages do, and what a session that could not
-- be loaded is taken for.
use uco.Prelude.{
  ◌≡◌, ◌≢◌, ◌⊎◌, inl, inr, refl, ap, ◌∙◌, Bool, true, false, not, ◌&&◌, ◌||◌, List, [], ◌∷◌, ◌++◌,
  Option, none, some, if◌then◌else◌, arith,
}
use uco.Prelude.Bytes.{Bytes, All, IsBytes, bytes_eq_refl}
use uco.Prelude.Dict.{lookup, insert, erase, lookup-insert}
use uco.Prelude.Int.{ℤ, pos, negsuc}
use uco.Redis.Reply.{Reply, reply, string_type, no_error, no_replies, code_eq}
use uco.Session.Json.{Values, dump_session_json, parse_session_json}
use uco.Session.Flash.{parse_flash_array, dump_flash_array, parse_flash_array-dump}
use uco.Session.RoundTrip.{AreBytes, parse_session_json-dump}
use uco.Session.Maps.{IsMap, insert-IsMap, lookup-erase_self, Fresh-of_IsMap}
use uco.Session.State.{
  Store, Effect, redis_command, set_cookie, Session, new_session, get, has, set, delete, is_empty,
  clear, flash_key_of, add_flash, flashes, is_some, destroy, set_max_age, effective_max_age,
  save_values, remove_key, load_values, Sign, write_cookie, save_removed, save_written, save,
  after_rotated_save, rotate, loaded, load_done, load_missing, load_error, with_values, with_loaded,
  init_load,
}

-- What a handler does with its session.
pub data Operation : Type 0 where
  sets : Bytes → Bytes → Operation
  deletes : Bytes → Operation
  clears destroys : Operation
  sets_max_age : ℤ → Operation
  adds_flash : Bytes → Bytes → Operation
  takes_flashes : Bytes → Operation
  saves : Bytes → Bool → Operation
  rotates : Bytes → Bool → Operation

abbrev pub operate : Store → Sign → Operation → Session → Session
operate store sign (sets k v) s = set k v s
operate store sign (deletes k) s = delete k s
operate store sign clears s = clear s
operate store sign destroys s = destroy s
operate store sign (sets_max_age n) s = set_max_age n s
operate store sign (adds_flash v k) s = add_flash store v k s
operate store sign (takes_flashes k) s = (flashes store k s).0
operate store sign (saves fresh ok) s = (save store sign fresh ok s).0
operate store sign (rotates fresh ok) s = (rotate store sign fresh ok s).0

abbrev pub operate_all : Store → Sign → List Operation → Session → Session
operate_all store sign [] s = s
operate_all store sign (o ∷ os) s = operate_all store sign os (operate store sign o s)

-- The state in which `Save` would refuse.
abbrev Refuses : Session → Type 0
Refuses s = (not s.is_new && not s.load_ok) ≡ true

abbrev IsAccepted : Session → Type 0
IsAccepted s = (s.is_new ≡ true) ⊎ (s.load_ok ≡ true)

with_values-IsAccepted :
    (s : Session) (p : Values × Bool) → s.is_new ≡ true → IsAccepted (with_values s p)
unfolding with_values
with_values-IsAccepted s (kv, true) h = inr refl
with_values-IsAccepted s (kv, false) h = inl h

with_loaded-IsAccepted :
    (s : Session) (r : Option Reply) → s.is_new ≡ true → IsAccepted (with_loaded s (loaded r))
unfolding with_loaded
with_loaded-IsAccepted s r h = elim (loaded r) as (λ x. IsAccepted (with_loaded s x)) [
  | load_missing ↦ inl h
  | load_error ↦ inl h
  | load_done raw ↦ with_values-IsAccepted s (parse_session_json raw) h
]

save-IsAccepted :
    (store : Store) (sign : Sign) (fresh : Bytes) (ok : Bool) (s : Session)
    → IsAccepted s
    → IsAccepted (save store sign fresh ok s).0
unfolding save save_removed save_written
save-IsAccepted store sign fresh ok s h = ground arith

rotate-IsAccepted :
    (store : Store) (sign : Sign) (fresh : Bytes) (ok : Bool) (s : Session)
    → IsAccepted s
    → IsAccepted (rotate store sign fresh ok s).0
unfolding rotate after_rotated_save save save_removed save_written
rotate-IsAccepted store sign fresh ok s h = ground arith

operate-IsAccepted :
    (store : Store) (sign : Sign) (o : Operation) (s : Session)
    → IsAccepted s
    → IsAccepted (operate store sign o s)
unfolding set delete clear destroy set_max_age add_flash flashes
operate-IsAccepted store sign (sets k v) s h = h
operate-IsAccepted store sign (deletes k) s h = ground arith
operate-IsAccepted store sign clears s h = ground arith
operate-IsAccepted store sign destroys s h = h
operate-IsAccepted store sign (sets_max_age n) s h = ground arith
operate-IsAccepted store sign (adds_flash v k) s h = h
operate-IsAccepted store sign (takes_flashes k) s h = ground arith
operate-IsAccepted store sign (saves fresh ok) s h = save-IsAccepted store sign fresh ok s h
operate-IsAccepted store sign (rotates fresh ok) s h = rotate-IsAccepted store sign fresh ok s h

operate_all-IsAccepted :
    (store : Store) (sign : Sign) (os : List Operation) (s : Session)
    → IsAccepted s
    → IsAccepted (operate_all store sign os s)
operate_all-IsAccepted store sign [] s h = h
operate_all-IsAccepted store sign (o ∷ os) s h =
    operate_all-IsAccepted store sign os (operate store sign o s)
      (operate-IsAccepted store sign o s h)

guard_of : (s : Session) → IsAccepted s → (not s.is_new && not s.load_ok) ≡ false
guard_of s h = ground arith

save-accepted :
    (store : Store) (sign : Sign) (fresh : Bytes) (s : Session)
    → IsAccepted s
    → (save store sign fresh true s).2 ≡ true
unfolding save save_removed save_written
save-accepted store sign fresh s h = ground arith

-- The guard of `Save` that is to keep a session whose values could not be loaded from being
-- overwritten never holds: not after a failed load, and not after any operations on the session. So
-- `Save` succeeds whenever Redis takes its command.
pub never_refuses :
    (store : Store) (sign : Sign) (id fresh : Bytes) (r : Option Reply) (os : List Operation)
    → let s = operate_all store sign os (init_load store id r).0 in
      ((not s.is_new && not s.load_ok) ≡ false) × ((save store sign fresh true s).2 ≡ true)
unfolding init_load
never_refuses store sign id fresh r os =
    let begun = with_loaded (record new_session { id = id }) (loaded r) in
    let s = operate_all store sign os begun in
    let accepted =
      operate_all-IsAccepted store sign os begun
        (with_loaded-IsAccepted (record new_session { id = id }) r refl) in
    (guard_of s accepted, save-accepted store sign fresh s accepted)

-- So after a load that failed, a value that is set and saved is written over the session in Redis.
pub save_after_error :
    (store : Store) (sign : Sign) (fresh id k v : Bytes) (r : Option Reply)
    → loaded r ≡ load_error
    → id ≢ []
    → (save store sign fresh true (set k v (init_load store id r).0)).1
      ≡ save_values store id (dump_session_json ((k, v) ∷ [])) store.max_age
        ∷ write_cookie sign id store.max_age
        ∷ []
unfolding save set init_load save_written effective_max_age insert with_loaded
save_after_error store sign fresh [] k v r e ne = absurd (ne refl)
save_after_error store sign fresh (c ∷ id) k v r e ne = rw e refl

-- A save that failed is not made up for: the next one asks for nothing and reports success.
pub save-save :
    (store : Store) (sign : Sign) (fresh fresh' : Bytes) (ok : Bool) (s : Session)
    → (not s.is_new && not s.load_ok) ≡ false
    → (save store sign fresh false s).2 ≡ false
    → save store sign fresh' ok (save store sign fresh false s).0
      ≡ ((save store sign fresh false s).0, [], true)
unfolding save save_written save_removed
save-save store sign fresh fresh' ok s g f = ground arith

is_empty-ne {ℓ} : {A : Type ℓ} (l : List A) → l ≢ [] → is_empty l ≡ false
is_empty-ne [] h = absurd (h refl)
is_empty-ne (a ∷ l) h = refl

keeps_values :
    (s : Session) → s.values ≢ [] → s.destroyed ≡ false → (s.destroyed || is_empty s.values) ≡ false
keeps_values s nv d = ground (arith, is_empty-ne s.values nv)

-- A session with values, not marked for removal, takes its new id when it is rotated: the values are
-- stored under it and the cookie names it, and only then the key of the old id, if there is one, is
-- removed. When the values cannot be stored, nothing else is asked for and the session is as before.
pub rotate_lem :
    (store : Store) (sign : Sign) (fresh : Bytes) (s : Session)
    → fresh ≢ []
    → s.values ≢ []
    → s.destroyed ≡ false
    → let command = save_values store fresh (dump_session_json s.values) store.max_age in
      (rotate store sign fresh true s ≡ (
        record s { id = fresh; is_new = true; written = false; max_age_override = negsuc 0 },
        command
            ∷ write_cookie sign fresh store.max_age
            ∷ (if is_empty s.id then [] else remove_key store s.id ∷ []),
        true,
      ))
      × (rotate store sign fresh false s ≡ (s, command ∷ [], false))
unfolding rotate after_rotated_save save save_written effective_max_age
rotate_lem store sign [] s nf nv d = absurd (nf refl)
rotate_lem store sign (c ∷ fresh) s nf nv d =
    let keeps = keeps_values s nv d in (rw keeps refl, rw keeps refl)

-- The reply of Redis to `GET` when it has a text under the key.
abbrev pub stored : Bytes → Option Reply
stored json = some (reply no_error string_type (pos 0) json no_replies)

save-written :
    (store : Store) (sign : Sign) (fresh : Bytes) (s : Session)
    → s.written ≡ true
    → (not s.is_new && not s.load_ok) ≡ false
    → (s.destroyed || is_empty s.values) ≡ false
    → let id = if is_empty s.id then fresh else s.id in
      let age = effective_max_age store s in
      (save store sign fresh true s).1
      ≡ save_values store id (dump_session_json s.values) age ∷ write_cookie sign id age ∷ []
unfolding save save_written effective_max_age
save-written store sign fresh s w g keeps = ground arith

init_load-stored :
    (store : Store) (id : Bytes) (kv : Values)
    → parse_session_json (dump_session_json kv) ≡ (kv, true)
    → let later = (init_load store id (stored (dump_session_json kv))).0 in
      (later.values ≡ kv) × (later.is_new ≡ false) × (later.id ≡ id)
unfolding init_load loaded code_eq with_loaded with_values
init_load-stored store id kv back = rw back (refl, refl, refl)

-- A Redis server, which is a parameter: what a command does to its state, and its reply. `GET` gives
-- what a `SET` with an expiry has put under the same key, as documented, until it expires.
module _ {S : Type 0} (execute : List Bytes → S → S × Reply)
    (get_set : (key json ttl : Bytes) (db : S)
      → (execute
          ((b'G' ∷ b'E' ∷ b'T' ∷ []) ∷ key ∷ [])
          (execute ((b'S' ∷ b'E' ∷ b'T' ∷ []) ∷ key ∷ json ∷ (b'E' ∷ b'X' ∷ []) ∷ ttl ∷ []) db).0).1
        ≡ reply no_error string_type (pos 0) json no_replies) where
  -- The effects one after the other, and the reply to the first command among them.
  abbrev pub run : List Effect → S → S
  run [] db = db
  run (redis_command c ∷ es) db = run es (execute c db).0
  run (set_cookie v age ∷ es) db = run es db

  abbrev pub first_reply : List Effect → S → Option Reply
  first_reply [] db = none
  first_reply (redis_command c ∷ es) db = some (execute c db).1
  first_reply (set_cookie v age ∷ es) db = first_reply es db

  -- A changed session with values, not marked for removal, stores its values and names its id in the
  -- cookie, or a new id if it has none. When a later request with that id is loaded, with the reply
  -- that the server gives to what the load asks it, it finds the same values and is not new, as long
  -- as the key is there.
  pub init_load-save :
      (store : Store) (sign : Sign) (fresh : Bytes) (s : Session) (db : S) (r : Option Reply)
      → s.written ≡ true
      → (not s.is_new && not s.load_ok) ≡ false
      → s.destroyed ≡ false
      → s.values ≢ []
      → IsMap s.values
      → AreBytes s.values
      → let id = if is_empty s.id then fresh else s.id in
        let json = dump_session_json s.values in
        let age = effective_max_age store s in
        let (t, es, ok) = save store sign fresh true s in
        let later = init_load store id r in
        r ≡ first_reply later.1 (run es db)
        → (es ≡ save_values store id json age ∷ write_cookie sign id age ∷ [])
          × (later.0.values ≡ s.values)
          × (later.0.is_new ≡ false)
          × (later.0.id ≡ id)
  unfolding init_load save_values load_values write_cookie
  init_load-save store sign fresh s db r w g d nv m b answered =
      let id = if is_empty s.id then fresh else s.id in
      let json = dump_session_json s.values in
      let saved = save-written store sign fresh s w g (keeps_values s nv d) in
      let back = parse_session_json-dump s.values (Fresh-of_IsMap s.values m) b in
      let got : r ≡ stored json =
        answered
        ∙ (ap (λ es. first_reply (init_load store id r).1 (run es db)) saved
            ∙ ap some (get_set (store.key_prefix ++ id) json _ db)) in
      let (values, old, same) = init_load-stored store id s.values back in
      (
        saved,
        ap (λ q. (init_load store id q).0.values) got ∙ values,
        ap (λ q. (init_load store id q).0.is_new) got ∙ old,
        ap (λ q. (init_load store id q).0.id) got ∙ same,
      )

-- The messages that the session has under a key.
abbrev pub messages : Store → Bytes → Session → List Bytes
messages store key s = (parse_flash_array (get (flash_key_of store key) [] s)).0

get-set : (k v def : Bytes) (s : Session) → get k def (set k v s) ≡ v
unfolding get set
get-set k v def s = rw (lookup-insert k k v s.values, bytes_eq_refl k) refl

has-set : (k v : Bytes) (s : Session) → has k (set k v s) ≡ true
unfolding has set
has-set k v s = rw (lookup-insert k k v s.values, bytes_eq_refl k) refl

gone :
    (k v : Bytes) (s : Session)
    → IsMap s.values
    → is_some (lookup k (erase k (set k v s).values)) ≡ false
unfolding set
gone k v s m = rw (lookup-erase_self k (insert k v s.values) (insert-IsMap k v s.values m)) refl

delete-set :
    (k v : Bytes) (s : Session)
    → IsMap s.values
    → (has k (delete k (set k v s)) ≡ false) × ((delete k (set k v s)).written ≡ true)
unfolding delete has lookup
delete-set k v s m = rw (has-set k v s) (gone k v s m, refl)

-- A message that is added is taken with those before it, in their order, and then they are gone. The
-- messages are texts of bytes.
pub flashes-add_flash :
    (store : Store) (v key : Bytes) (s : Session)
    → All IsBytes (messages store key s ++ (v ∷ []))
    → IsMap s.values
    → let (t, items) = flashes store key (add_flash store v key s) in
      (items ≡ messages store key s ++ (v ∷ []))
      × (has (flash_key_of store key) t ≡ false)
      × (t.written ≡ true)
unfolding flashes add_flash
flashes-add_flash store v key s b m =
    let k = flash_key_of store key in
    let all = messages store key s ++ (v ∷ []) in
    let (empty, dirty) = delete-set k (dump_flash_array all) s m in
    rw (get-set k (dump_flash_array all) [] s, parse_flash_array-dump all b) (refl, empty, dirty)
