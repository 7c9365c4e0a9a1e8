-- ===== src/Redis/Lock/World.antt =====
-- core/uredis.cpp: any number of `ulock`s on one key of one Redis server, which is a parameter.
use uco.Prelude.{
  ℕ, ◌+◌, ◌≡◌, ◌⊎◌, Bool, true, false, List, [], ◌∷◌, ◌++◌, Option, none, some, ◌==◌, if◌then◌else◌,
}
use uco.Prelude.Bytes.{Bytes, bytes_eq}
use uco.Prelude.Int.{pos}
use uco.Redis.Reply.{
  Reply, reply, error_of, no_replies, no_error, status_type, integer_type, empty_reply, code_eq,
}
use uco.Redis.Lock.{
  Config, idle, setting, renewing, releasing, Lock, ulock, try_begin, try_finish, renew_begin,
  renew_finish, release_begin, release_finish, close,
}

-- What the commands do to the key, as the server documents them: `GET`, `SET NX`, `DEL` and
-- `PEXPIRE`, as long as the key does not expire.
pub record Server (S : Type 0) : Type 0 where
  pub get : S → Option Bytes
  pub set_nx : Bytes → S → S × Bool
  pub del : S → S
  pub pexpire : S → S
  pub set_nx-none :
      (t : Bytes) (s : S) → get s ≡ none → ((set_nx t s).1 ≡ true) × (get (set_nx t s).0 ≡ some t)
  pub set_nx-some :
      (t v : Bytes) (s : S)
      → get s ≡ some v
      → ((set_nx t s).1 ≡ false) × (get (set_nx t s).0 ≡ some v)
  pub get-pexpire : (s : S) → get (pexpire s) ≡ get s

abbrev pub holds : Bytes → Option Bytes → Bool
holds t none = false
holds t (some v) = bytes_eq v t

abbrev pub ok_reply : Reply
ok_reply = reply no_error status_type (pos 0) (b'O' ∷ b'K' ∷ []) no_replies

abbrev pub number_reply : ℕ → Reply
number_reply n = reply no_error integer_type (pos n) [] no_replies

-- The script of `Release`, and that of `do_renew`, with their replies.
module _ {S : Type 0} (server : Server S) where
  unfoldable pub run_set : Bytes → S → S × Reply
  run_set t s = let (s', won) = server.set_nx t s in (s', if won then ok_reply else empty_reply)

  unfoldable pub release_script : Bytes → S → S × Reply
  release_script t s =
      if holds t (server.get s) then (server.del s, number_reply 1) else (s, number_reply 0)

  unfoldable pub renew_script : Bytes → S → S × Reply
  renew_script t s =
      if holds t (server.get s) then (server.pexpire s, number_reply 1) else (s, number_reply 0)

-- A command of a lock, and what the server does with it.
pub data Command : Type 0 where
  set_command renew_command release_command : Bytes → Command

unfoldable pub run_command : {S : Type 0} → Server S → Command → S → S × Reply
run_command server (set_command t) s = run_set server t s
run_command server (renew_command t) s = renew_script server t s
run_command server (release_command t) s = release_script server t s

abbrev pub update {ℓ} : {A : Type ℓ} → (ℕ → A) → ℕ → A → ℕ → A
update f i a j = if j == i then a else f j

-- The server, the locks, and the replies that are on their way to them; how many tokens each lock has
-- drawn; and the commands of each whose call has given up before the server came to them, which it may
-- run at any later time.
pub record World (S : Type 0) : Type 0 where
  pub store : S
  pub locks : ℕ → Lock
  pub replies : ℕ → Option Reply
  pub used : ℕ → ℕ
  pub late : ℕ → List Command

unfoldable pub served : {S : Type 0} → World S → ℕ → S × Reply → World S
served w i (s, r) = record w { store = s; replies = update w.replies i (some r) }

unfoldable pub changed : {S : Type 0} → World S → ℕ → Lock → World S
changed w i l = record w { locks = update w.locks i l }

unfoldable pub drew : {S : Type 0} → World S → ℕ → Lock → World S
drew w i l = record w { locks = update w.locks i l; used = update w.used i (w.used i + 1) }

-- A call that ends while its command has no reply leaves the command behind.
unfoldable pub left_behind : Option Reply → Command → List Command → List Command
left_behind none c l = c ∷ l
left_behind (some r) c l = l

-- The lock goes on with a reply, which is no longer on its way.
unfoldable pub finished : {S : Type 0} → World S → ℕ → Command → Lock → World S
finished w i c l = record w {
  locks = update w.locks i l;
  replies = update w.replies i none;
  late = update w.late i (left_behind (w.replies i) c (w.late i));
}

-- The server runs a command that was left behind; nobody reads its reply.
unfoldable pub ran_late : {S : Type 0} → World S → ℕ → List Command → S → World S
ran_late w i l s = record w { store = s; late = update w.late i l }

-- A reply that says that the command failed, or that its reply did not come.
abbrev pub IsFailure : Reply → Type 0
IsFailure r = code_eq (error_of r).ret_code (pos 0) ≡ false

abbrev pub Comes : Option Reply → Reply → Type 0
Comes o r = (o ≡ some r) ⊎ IsFailure r

-- One turn of one lock, or of the server; `token i n` is the token that lock `i` draws
-- after `n` others.
module _ {S : Type 0} (server : Server S) (token : ℕ → ℕ → Bytes) where
  pub data Step : World S → World S → Type 0 where
    try_starts :
        {w : World S} (i : ℕ) (reconnected : Bool)
        → (w.locks i).phase ≡ idle
        → Step w (drew w i (try_begin (token i (w.used i)) reconnected (w.locks i)).0)
    renew_starts :
        {w : World S} (i : ℕ)
        → (w.locks i).phase ≡ idle
        → Step w (changed w i (renew_begin (w.locks i)).0)
    release_starts :
        {w : World S} (i : ℕ)
        → (w.locks i).phase ≡ idle
        → Step w (changed w i (release_begin (w.locks i)).0)
    server_sets :
        {w : World S} (i : ℕ) {t : Bytes}
        → (w.locks i).phase ≡ setting t
        → w.replies i ≡ none
        → Step w (served w i (run_set server t w.store))
    server_renews :
        {w : World S} (i : ℕ) {t : Bytes}
        → (w.locks i).phase ≡ renewing t
        → w.replies i ≡ none
        → Step w (served w i (renew_script server t w.store))
    server_releases :
        {w : World S} (i : ℕ) {t : Bytes}
        → (w.locks i).phase ≡ releasing t
        → w.replies i ≡ none
        → Step w (served w i (release_script server t w.store))
    server_runs_late :
        {w : World S} (i : ℕ) (c : Command) (before behind : List Command)
        → w.late i ≡ before ++ (c ∷ behind)
        → Step w (ran_late w i (before ++ behind) (run_command server c w.store).0)
    try_ends :
        {w : World S} (i : ℕ) (r : Reply) (alive : Bool) {t : Bytes}
        → (w.locks i).phase ≡ setting t
        → Comes (w.replies i) r
        → Step w (finished w i (set_command t) (try_finish t r alive (w.locks i)).0)
    renew_ends :
        {w : World S} (i : ℕ) (r : Reply) (alive : Bool) {t : Bytes}
        → (w.locks i).phase ≡ renewing t
        → Comes (w.replies i) r
        → Step w (finished w i (renew_command t) (renew_finish r alive (w.locks i)).0)
    release_ends :
        {w : World S} (i : ℕ) (r : Reply) (alive : Bool) {t : Bytes}
        → (w.locks i).phase ≡ releasing t
        → Comes (w.replies i) r
        → Step w (finished w i (release_command t) (release_finish r alive (w.locks i)).0)
    closes : {w : World S} (i : ℕ) → Step w (changed w i (close (w.locks i)))

  -- Any locks at first, without tokens, and a server in any state.
  pub data Reachable : World S → Type 0 where
    started :
        (s : S) (configs : ℕ → Config)
        → Reachable (record {
          store = s;
          locks = λ i. ulock (configs i);
          replies = λ i. none;
          used = λ i. 0;
          late = λ i. [];
        })
    stepped : {w v : World S} → Reachable w → Step w v → Reachable v
