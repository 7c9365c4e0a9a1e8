-- ===== src/Session/Middleware.antt =====
-- `SessionStore::Sessions` and `Session::InitLoad` of http/session.cpp, and the handlers of
-- http/csrf.cpp.
use uco.Prelude.{
  ℕ, ◌≡◌, ◌≢◌, ◌↔◌, inl, inr, refl, ap, sym, ◌∙◌, Bool, true, false, not, ◌&&◌, List, [], ◌∷◌, ◌++◌,
  Option, none, some, if◌then◌else◌, arith, Bool-cases,
}
use mathlib.Core.List.{append-nil}
use uco.Prelude.Bytes.{Bytes, bytes_eq, bytes_eq_iff, bytes_eq_refl}
use uco.Prelude.Dict.{lookup-insert}
use uco.Text.Hex.{hex_encode}
use uco.Redis.Reply.{Reply}
use uco.Session.Cookie.{parse_signed_cookie}
use uco.Session.State.{
  Store, Effect, Session, new_session, get, set, is_empty, set_max_age, destroy, Sign, save,
  init_load,
}

pub data Exit : Type 0 where
  returned aborted : Exit

unfoldable pub load_id : Store → Option Bytes → Option Reply → Session × List Effect
load_id store none r = (new_session, [])
load_id store (some id) r = init_load store id r

-- `InitLoad` from the cookie; `r` is what Redis answers if it is asked.
unfoldable pub load_cookie : Store → Sign → Bytes → Option Reply → Session × List Effect
load_cookie store sign [] r = (new_session, [])
load_cookie store sign (c ∷ cookie) r = load_id store (parse_signed_cookie sign (c ∷ cookie)) r

unfoldable pub auto_save :
    Store → Sign → Bytes → Bool → Session × List Effect × Exit → Session × List Effect × Exit
auto_save store sign fresh ok (s, es, aborted) = (s, es, aborted)
auto_save store sign fresh ok (s, es, returned) =
    if store.auto_save && s.written
    then ((save store sign fresh ok s).0, es ++ (save store sign fresh ok s).1, returned)
    else (s, es, returned)

-- `Sessions`: `next` is the rest of the chain on the session.
unfoldable pub sessions :
    Store
    → Sign
    → Bytes
    → Option Reply
    → (Session → Session × List Effect × Exit)
    → Bytes
    → Bool
    → Session × List Effect × Exit
sessions store sign cookie r next fresh ok =
    let (s, es) = load_cookie store sign cookie r in
    let (t, es', exit) = auto_save store sign fresh ok (next s) in (t, es ++ es', exit)

abbrev pub csrf_key : Bytes
csrf_key = (b'c' ∷ b's' ∷ b'r' ∷ b'f' ∷ [])

-- `NewToken`, from the random bytes.
unfoldable pub new_token : Bytes → Bytes
new_token random = hex_encode random

unfoldable pub token_body : Bytes → Bytes
token_body token =
    (b'{' ∷ b'"' ∷ b'c' ∷ b'o' ∷ b'd' ∷ b'e' ∷ b'"' ∷ b':' ∷ b'0' ∷ b',' ∷ b'"' ∷ b'm' ∷ b's' ∷ b'g'
      ∷ b'"' ∷ b':' ∷ b'"' ∷ b'o' ∷ b'k' ∷ b'"' ∷ b',' ∷ b'"' ∷ b'b' ∷ b'o' ∷ b'd' ∷ b'y' ∷ b'"'
      ∷ b':' ∷ b'{' ∷ b'"' ∷ b'c' ∷ b's' ∷ b'r' ∷ b'f' ∷ b'_' ∷ b't' ∷ b'o' ∷ b'k' ∷ b'e' ∷ b'n'
      ∷ b'"' ∷ b':' ∷ b'"' ∷ [])
    ++ (token ++ (b'"' ∷ b'}' ∷ b'}' ∷ []))

-- The age that an anonymous session gets with its token.
unfoldable pub shorten : Store → Session → Session
shorten store s = if s.is_new then set_max_age store.max_anonymous_age s else s

-- `SessionIssue`: the session and the body of the answer, whose status is 200.
unfoldable pub session_issue : Store → Bytes → Session → Session × Bytes
session_issue store random s =
    let token = get csrf_key [] s in
    if is_empty token
    then (shorten store (set csrf_key (new_token random) s), token_body (new_token random))
    else (s, token_body token)

-- `SessionCheck`: whether the chain goes on; otherwise it ends with status 403.
unfoldable pub session_check : Bytes → Session → Bool
session_check submitted s =
    let expected = get csrf_key [] s in not (is_empty expected) && bytes_eq expected submitted

get-shorten :
    (store : Store) (k def : Bytes) (s : Session) → get k def (shorten store s) ≡ get k def s
unfolding shorten get set_max_age destroy
get-shorten store k def s = ground arith

get-set : (k v def : Bytes) (s : Session) → get k def (set k v s) ≡ v
unfolding get set
get-set k v def s = rw (lookup-insert k k v s.values, bytes_eq_refl k) refl

is_empty-eq : (t : Bytes) → is_empty t ≡ true → t ≡ []
is_empty-eq [] h = refl
is_empty-eq (c ∷ t) h = cc

get-issued :
    (store : Store) (v : Bytes) (s : Session)
    → get csrf_key [] (shorten store (set csrf_key v s)) ≡ v
get-issued store v s = get-shorten store csrf_key [] (set csrf_key v s) ∙ get-set csrf_key v [] s

new_token-ne : (random : Bytes) → random ≢ [] → is_empty (new_token random) ≡ false
unfolding new_token hex_encode
new_token-ne [] h = absurd (h refl)
new_token-ne (c ∷ random) h = refl

no_token : (t : Bytes) → t ≡ [] → is_empty t ≡ false → ⊥
no_token t e h = cc (sym (ap (is_empty {A = ℕ}) e) ∙ h)

session_check_iff :
    (submitted : Bytes) (t : Session)
    → is_empty (get csrf_key [] t) ≡ false
    → (session_check submitted t ≡ true) ↔ (submitted ≡ get csrf_key [] t)
unfolding session_check
session_check_iff submitted t h = (
  λ e. sym ((bytes_eq_iff (get csrf_key [] t) submitted).0 (rw h at e)),
  λ e. rw h ((bytes_eq_iff (get csrf_key [] t) submitted).1 (sym e)),
)

-- A session that has no token refuses every request. After a token is issued, the one that the body
-- names is the session's: the old one if there was one, and otherwise the random bytes in
-- hexadecimal; and the check passes exactly if the header is that token.
pub session_check-issue :
    (store : Store) (random submitted : Bytes) (s : Session)
    → random ≢ []
    → let (t, body) = session_issue store random s in
      (get csrf_key [] s ≡ [] → session_check submitted s ≡ false)
      × (get csrf_key [] s ≡ [] → get csrf_key [] t ≡ hex_encode random)
      × (body ≡ token_body (get csrf_key [] t))
      × (get csrf_key [] s ≢ [] → t ≡ s)
      × ((session_check submitted t ≡ true) ↔ (submitted ≡ get csrf_key [] t))
unfolding session_issue session_check new_token
session_check-issue store random submitted s ne = elim (Bool-cases (is_empty (get csrf_key [] s))) [
  | inl e ↦
      let v = new_token random in
      let t = shorten store (set csrf_key v s) in
      let issued = get-issued store v s in
      rw e (
        λ h. refl,
        λ h. issued,
        ap token_body (sym issued),
        λ h. absurd (h (is_empty-eq (get csrf_key [] s) e)),
        session_check_iff submitted t (ap is_empty issued ∙ new_token-ne random ne),
      )
  | inr e ↦ rw e (
    λ h. absurd (no_token (get csrf_key [] s) h e),
    λ h. absurd (no_token (get csrf_key [] s) h e),
    refl,
    λ h. refl,
    session_check_iff submitted s e,
  )
]

save_unwritten :
    (store : Store) (sign : Sign) (fresh : Bytes) (ok : Bool) (s : Session)
    → s.written ≡ false
    → save store sign fresh ok s ≡ (s, [], true)
unfolding save
save_unwritten store sign fresh ok s h = ground arith

not_returned : aborted ≡ returned → ⊥
not_returned h = cc

auto_save_lem :
    (store : Store) (sign : Sign) (fresh : Bytes) (ok : Bool) (o : Session × List Effect × Exit)
    → let (t, es, exit) = o in
      let saved = save store sign fresh ok t in
      let (u, all, exit') = auto_save store sign fresh ok o in
      (exit' ≡ exit)
      × (exit ≡ aborted → (u ≡ t) × (all ≡ es))
      × (exit ≡ returned → store.auto_save ≡ true → (u ≡ saved.0) × (all ≡ es ++ saved.1))
unfolding auto_save
auto_save_lem store sign fresh ok (t, es, aborted) =
    (refl, λ h. (refl, refl), λ h. absurd (not_returned h))
auto_save_lem store sign fresh ok (t, es, returned) =
    elim (Bool-cases (store.auto_save && t.written)) [
      | inl e ↦ rw e (refl, λ h. absurd (not_returned (sym h)), λ h on. (refl, refl))
      | inr e ↦ rw e (
        refl,
        λ h. absurd (not_returned (sym h)),
        λ h on.
            let unchanged = save_unwritten store sign fresh ok t (ground arith) in
            rw unchanged (refl, sym (append-nil es)),
      )
    ]

-- The middleware loads the session of the cookie before the chain, and after a chain that ended
-- normally it saves what the chain left changed, when that is configured; after one that was aborted
-- nothing is saved.
pub sessions_lem :
    (store : Store) (sign : Sign) (cookie : Bytes) (r : Option Reply)
    (next : Session → Session × List Effect × Exit) (fresh : Bytes) (ok : Bool)
    → let (s, es) = load_cookie store sign cookie r in
      let (t, es', exit) = next s in
      let saved = save store sign fresh ok t in
      let (u, all, exit') = sessions store sign cookie r next fresh ok in
      (exit' ≡ exit)
      × (exit ≡ aborted → (u ≡ t) × (all ≡ es ++ es'))
      × (exit ≡ returned → store.auto_save ≡ true → (u ≡ saved.0) × (all ≡ es ++ (es' ++ saved.1)))
unfolding sessions
sessions_lem store sign cookie r next fresh ok =
    let (s, es) = load_cookie store sign cookie r in
    let (same, no_save, saves) = auto_save_lem store sign fresh ok (next s) in
    (
      same,
      λ h. let (a, b) = no_save h in (a, ap (λ l. es ++ l) b),
      λ h on. let (a, b) = saves h on in (a, ap (λ l. es ++ l) b),
    )
