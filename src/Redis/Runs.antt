-- ===== src/Redis/Runs.antt =====
-- Runs of `upool` and `ulock` of core/uredis.cpp, and their theorems at them.
use uco.Prelude.{
  inr, ℕ, ◌+◌, ◌≤◌, ◌≡◌, refl, Bool, true, false, List, [], ◌∷◌, Option, none, some, length, inl,
}
use uco.Prelude.Bytes.{Bytes, bytes_eq}
use uco.Redis.Reply.{Reply, reply, no_error, no_replies, status_type, code_eq}
use uco.Prelude.Int.{pos, negsuc}
use uco.Redis.Pool.{
  erase_all, upool, register, first_idle, resume, enroll, give_back, shut, reap_front, reap,
}
use uco.Redis.Pool.World as PoolWorld
use uco.Redis.Pool.World.{
  after_register, after_resume, after_enroll, after_release, after_close, after_reap,
}
use uco.Prelude.Occurs.{occurs}
use uco.Redis.Pool.Slots.{Reachable-lends, Reachable-wakes, release-close}
use uco.Redis.Lock.{
  Config, configure, ulock, owns, is_status, is_one, try_begin, try_finish, renew_begin,
  renew_finish, release_begin, release_finish, close,
}
use uco.Redis.Lock.World as LockWorld
use uco.Redis.Lock.World.{
  Server, ok_reply, run_set, release_script, renew_script, served, changed, finished, update,
  set_command, run_command, drew, left_behind, ran_late,
}
use uco.Redis.Lock.Exclusion.{Reachable-owns}

program : Unit {0}
unfolding bytes_eq code_eq erase_all upool register first_idle resume enroll give_back shut
    reap_front reap PoolWorld.start after_register after_resume after_enroll after_release
    after_close after_reap occurs configure ulock owns is_status is_one try_begin try_finish
    renew_begin renew_finish release_begin release_finish close run_set release_script renew_script
    served changed finished run_command drew left_behind ran_late
program = tt

-- One slot, and its connection is lent.
abbrev lent_world : PoolWorld.World
lent_world = record {
  pool = record {
    max_size = 1;
    min_idle = 1;
    closed = false;
    pending_permit_waits = 0;
    idle = [];
    all = 5 ∷ [];
  };
  permits = 0;
  waiting = 0;
  passed = 0;
  connecting = 0;
  made = [];
  lent = 5 ∷ [];
  signalling = 0;
  waking = 0;
  freed = [];
}

lent_world-Reachable : PoolWorld.Reachable 1 1 lent_world
unfolding program
lent_world-Reachable =
    PoolWorld.stepped
      (PoolWorld.stepped
        (PoolWorld.stepped
          (PoolWorld.stepped (PoolWorld.stepped PoolWorld.started PoolWorld.call_acquire)
            (PoolWorld.take_permit 0 0 refl refl))
          (PoolWorld.go_on 0 refl))
        (PoolWorld.connected 0 5 refl refl))
      (PoolWorld.hand_out 5 [] [] refl)

abbrev five : List ℕ
five = 5 ∷ []

Reachable-lends_example :
    (length five + 0 + 0 ≤ 1)
    × (occurs 5 five + occurs 5 [] ≤ 1)
    × (occurs 5 five ≡ occurs 5 five + occurs 5 [])
Reachable-lends_example = Reachable-lends 1 1 5 lent_world-Reachable refl

abbrev one_slot : ℕ
one_slot = 1

Reachable-wakes_example :
    (false ≡ false → 0 + 0 + 0 + 0 + 1 + 0 ≡ one_slot) × (false ≡ true → 0 ≤ 0 + 0)
Reachable-wakes_example = Reachable-wakes 1 1 lent_world-Reachable

release-close_example :
    let v = after_close lent_world (shut lent_world.pool) in
    occurs 5 [] + 2 ≤ occurs 5 (after_release 5 [] v (give_back 5 false v.pool)).freed
release-close_example = release-close 1 1 5 false [] [] lent_world-Reachable refl refl

set_once : Bytes → Option Bytes → Option Bytes × Bool
set_once t none = (some t, true)
set_once t (some v) = (some v, false)

set_once-none :
    (t : Bytes) (s : Option Bytes)
    → s ≡ none
    → ((set_once t s).1 ≡ true) × ((set_once t s).0 ≡ some t)
unfolding set_once
set_once-none t none h = (refl, refl)
set_once-none t (some v) h = absurd (cc_false h)
  where
    cc_false : {x : Bytes} → some x ≡ none → ⊥
    cc_false h = cc

set_once-some :
    (t v : Bytes) (s : Option Bytes)
    → s ≡ some v
    → ((set_once t s).1 ≡ false) × ((set_once t s).0 ≡ some v)
unfolding set_once
set_once-some t v none h = cc
set_once-some t v (some u) h = (refl, h)

-- A server with one key, and a token of each lock for each number.
abbrev one_key : Server (Option Bytes)
unfolding set_once
one_key = record {
  get = λ s. s;
  set_nx = set_once;
  del = λ s. none;
  pexpire = λ s. s;
  set_nx-none = set_once-none;
  set_nx-some = set_once-some;
  get-pexpire = λ s. refl;
}

abbrev numbered : ℕ → ℕ → Bytes
numbered i n = i ∷ n ∷ []

numbered_apart : (i j n m : ℕ) → numbered i n ≡ numbered j m → (i ≡ j) × (n ≡ m)
numbered_apart i j n m e = (cc, cc)

abbrev on_key : Config
on_key = record { key = 1 ∷ []; ttl_ms = 100; renew_interval_ms = 0 }

abbrev unlocked : LockWorld.World (Option Bytes)
unlocked = record {
  store = none;
  locks = λ i. ulock on_key;
  replies = λ i. none;
  used = λ i. 0;
  late = λ i. [];
}

abbrev no_reply : Reply
no_reply = reply (record no_error { ret_code = negsuc 61 }) status_type (pos 0) [] no_replies

-- A first call gives up before the server has come to its command; a second one gets the lock, and
-- then the server runs the first command.
abbrev asking : LockWorld.World (Option Bytes)
asking = drew unlocked 3 (try_begin (numbered 3 0) true (ulock on_key)).0

abbrev given_up : LockWorld.World (Option Bytes)
given_up =
    finished asking 3 (set_command (numbered 3 0))
      (try_finish (numbered 3 0) no_reply false (asking.locks 3)).0

abbrev again : LockWorld.World (Option Bytes)
again = drew given_up 3 (try_begin (numbered 3 1) true (given_up.locks 3)).0

abbrev answered : LockWorld.World (Option Bytes)
answered = served again 3 (run_set one_key (numbered 3 1) none)

abbrev got : LockWorld.World (Option Bytes)
got =
    finished answered 3 (set_command (numbered 3 1))
      (try_finish (numbered 3 1) ok_reply true (answered.locks 3)).0

abbrev locked : LockWorld.World (Option Bytes)
locked = ran_late got 3 [] (run_command one_key (set_command (numbered 3 0)) got.store).0

locked-Reachable : LockWorld.Reachable one_key numbered locked
unfolding program set_once
locked-Reachable =
    let first =
      LockWorld.stepped (LockWorld.started none (λ i. on_key)) (LockWorld.try_starts 3 true refl) in
    let late = LockWorld.stepped first (LockWorld.try_ends 3 no_reply false refl (inr refl)) in
    let second = LockWorld.stepped late (LockWorld.try_starts 3 true refl) in
    let answer = LockWorld.stepped second (LockWorld.server_sets 3 refl refl) in
    let mine = LockWorld.stepped answer (LockWorld.try_ends 3 ok_reply true refl (inl refl)) in
    LockWorld.stepped mine (LockWorld.server_runs_late 3 (set_command (numbered 3 0)) [] [] refl)

locked-owns : owns (locked.locks 3) ≡ true
unfolding program set_once
locked-owns = refl

abbrev third : ℕ
third = 3

Reachable-owns_example :
    (one_key.get locked.store ≡ some (locked.locks 3).token)
    × (owns (locked.locks 4) ≡ true → third ≡ 4)
Reachable-owns_example =
    Reachable-owns one_key numbered numbered_apart 3 4 locked-Reachable locked-owns
