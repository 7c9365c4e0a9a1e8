-- ===== src/Redis/Pool/World.antt =====
-- core/uredis.cpp: the coroutines that use one `upool`. They are counted by the place in the code
-- where they stand; connections that a coroutine holds are listed.
use uco.Prelude.{ℕ, suc, ◌+◌, ◌≡◌, Bool, true, false, List, [], ◌∷◌, ◌++◌, Option, none, some}
use uco.Prelude.Occurs.{occurs}
use uco.Redis.Pool.{
  Pool, upool, register, Resumed, pool_closed, reuse, connect, resume, enroll, give_back, shut,
  reap,
}

pub record World : Type 0 where
  pub pool : Pool
  pub permits : ℕ
  -- `Acquire`: registered and waiting, let through, in `uconnect`, with a connection that is new.
  pub waiting : ℕ
  pub passed : ℕ
  pub connecting : ℕ
  pub made : List ℕ
  -- Handed out and not given back.
  pub lent : List ℕ
  -- About to give a permit back, and the permits that `Close` has still to give.
  pub signalling : ℕ
  pub waking : ℕ
  -- Handed to `uclose`.
  pub freed : List ℕ

unfoldable pub start : ℕ → ℕ → World
start max_size min_idle =
    let p = upool max_size min_idle in
    record {
      pool = p;
      permits = p.max_size;
      waiting = 0;
      passed = 0;
      connecting = 0;
      made = [];
      lent = [];
      signalling = 0;
      waking = 0;
      freed = [];
    }

unfoldable pub after_register : World → Pool × Bool → World
after_register w (p, true) = record w { pool = p; waiting = w.waiting + 1 }
after_register w (p, false) = record w { pool = p }

unfoldable pub after_resume : ℕ → World → Pool × Resumed → World
after_resume others w (p, pool_closed) = record w { pool = p; passed = others }
after_resume others w (p, reuse c) = record w { pool = p; passed = others; lent = c ∷ w.lent }
after_resume others w (p, connect) = record w {
  pool = p;
  passed = others;
  connecting = w.connecting + 1;
}

unfoldable pub after_enroll : ℕ → List ℕ → World → Pool × Bool → World
after_enroll c others w (p, true) = record w { pool = p; made = others; lent = c ∷ w.lent }
after_enroll c others w (p, false) = record w {
  pool = p;
  made = others;
  signalling = w.signalling + 1;
  freed = c ∷ w.freed;
}

unfoldable pub after_release : ℕ → List ℕ → World → Pool × Bool → World
after_release c others w (p, true) = record w {
  pool = p;
  lent = others;
  signalling = w.signalling + 1;
}
after_release c others w (p, false) = record w {
  pool = p;
  lent = others;
  signalling = w.signalling + 1;
  freed = c ∷ w.freed;
}

unfoldable pub after_close : World → Pool × Option (ℕ × List ℕ) → World
after_close w (p, none) = record w { pool = p }
after_close w (p, some (n, victims)) = record w {
  pool = p;
  waking = w.waking + n;
  freed = victims ++ w.freed;
}

unfoldable pub after_reap : World → Pool × Option ℕ → World
after_reap w (p, none) = record w { pool = p }
after_reap w (p, some c) = record w { pool = p; freed = c ∷ w.freed }

-- Connections that are in use by the pool or by a coroutine.
abbrev pub live : ℕ → World → ℕ
live c w = occurs c w.pool.idle + occurs c w.lent + occurs c w.made

-- One turn of one coroutine. A new connection is not one that is in use.
pub data Step : World → World → Type 0 where
  call_acquire : {w : World} → Step w (after_register w (register w.pool))
  take_permit :
      {w : World} (others left : ℕ)
      → w.waiting ≡ suc others
      → w.permits ≡ suc left
      → Step w (record w { waiting = others; permits = left; passed = w.passed + 1 })
  go_on :
      {w : World} (others : ℕ)
      → w.passed ≡ suc others
      → Step w (after_resume others w (resume w.pool))
  connected :
      {w : World} (others c : ℕ)
      → w.connecting ≡ suc others
      → live c w ≡ 0
      → Step w (record w { connecting = others; made = c ∷ w.made })
  not_connected :
      {w : World} (others : ℕ)
      → w.connecting ≡ suc others
      → Step w (record w { connecting = others; signalling = w.signalling + 1 })
  hand_out :
      {w : World} (c : ℕ) (before behind : List ℕ)
      → w.made ≡ before ++ (c ∷ behind)
      → Step w (after_enroll c (before ++ behind) w (enroll c w.pool))
  call_release :
      {w : World} (c : ℕ) (broken : Bool) (before behind : List ℕ)
      → w.lent ≡ before ++ (c ∷ behind)
      → Step w (after_release c (before ++ behind) w (give_back c broken w.pool))
  signal :
      {w : World} (others : ℕ)
      → w.signalling ≡ suc others
      → Step w (record w { signalling = others; permits = w.permits + 1 })
  call_close : {w : World} → Step w (after_close w (shut w.pool))
  wake :
      {w : World} (others : ℕ)
      → w.waking ≡ suc others
      → Step w (record w { waking = others; permits = w.permits + 1 })
  call_reap : {w : World} → Step w (after_reap w (reap w.pool))

pub data Reachable (max_size min_idle : ℕ) : World → Type 0 where
  started : Reachable max_size min_idle (start max_size min_idle)
  stepped : {w v : World} → Reachable max_size min_idle w → Step w v → Reachable max_size min_idle v
