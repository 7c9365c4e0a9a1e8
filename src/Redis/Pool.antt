-- ===== src/Redis/Pool.antt =====
-- `upool` of core/uredis.cpp. Each critical section of its mutex is a step, and so is what a
-- coroutine does between two of them. Connections are numbers, and `permits` is the count of the
-- semaphore.
pub mod World
pub mod Slots
use uco.Prelude.{
  ℕ, zero, suc, ◌+◌, ◌-◌, ◌≡◌, ◌≢◌, ◌<◌, Bool, true, false, ◌&&◌, ◌||◌, not, List, [], ◌∷◌, ◌++◌,
  Option, none, some, ◌==◌, ltb, if◌then◌else◌, length,
}

-- `upool::state`: the configuration it uses, and what the mutex protects.
pub record Pool : Type 0 where
  pub max_size : ℕ
  pub min_idle : ℕ
  pub closed : Bool
  pub pending_permit_waits : ℕ
  pub idle : List ℕ
  pub all : List ℕ

-- `set::erase`.
unfoldable pub erase_all : ℕ → List ℕ → List ℕ
erase_all c [] = []
erase_all c (x ∷ l) = let rest = erase_all c l in if x == c then rest else x ∷ rest

-- The constructor.
unfoldable pub upool : ℕ → ℕ → Pool
upool max_size min_idle = record {
  max_size = if max_size == 0 then 1 else max_size;
  min_idle = min_idle;
  closed = false;
  pending_permit_waits = 0;
  idle = [];
  all = [];
}

-- `Acquire`, the first critical section: whether the coroutine goes on to wait.
unfoldable pub register : Pool → Pool × Bool
register p =
    if p.closed
    then (p, false)
    else (record p { pending_permit_waits = p.pending_permit_waits + 1 }, true)

-- What `Acquire` does behind its wait.
pub data Resumed : Type 0 where
  pool_closed : Resumed
  reuse : ℕ → Resumed
  connect : Resumed

unfoldable pub first_idle : Pool → List ℕ → Pool × Resumed
first_idle p [] = (p, connect)
first_idle p (c ∷ l) = (record p { idle = l }, reuse c)

-- `Acquire`, the second critical section.
unfoldable pub resume : Pool → Pool × Resumed
unfolding first_idle
resume p =
    let q = record p { pending_permit_waits = p.pending_permit_waits - 1 } in
    if p.closed then (q, pool_closed) else first_idle q p.idle

-- `Acquire`, the third critical section: whether the new connection is handed out.
unfoldable pub enroll : ℕ → Pool → Pool × Bool
enroll c p = if p.closed then (p, false) else (record p { all = c ∷ p.all }, true)

-- `Release`, its critical section: whether the connection is kept.
unfoldable pub give_back : ℕ → Bool → Pool → Pool × Bool
unfolding erase_all
give_back c broken p =
    if not broken && not p.closed
    then (record p { idle = p.idle ++ (c ∷ []) }, true)
    else (record p { all = erase_all c p.all }, false)

-- `Close`, its critical section: how many waits to wake, and the connections to close.
unfoldable pub shut : Pool → Pool × Option (ℕ × List ℕ)
shut p =
    if p.closed
    then (p, none)
    else (record p { closed = true; idle = []; all = [] }, some (p.pending_permit_waits, p.all))

unfoldable pub reap_front : Pool → List ℕ → Pool × Option ℕ
unfolding erase_all
reap_front p [] = (p, none)
reap_front p (c ∷ l) = (record p { idle = l; all = erase_all c p.all }, some c)

-- `reaper`, its critical section: the connection to close.
unfoldable pub reap : Pool → Pool × Option ℕ
unfolding reap_front
reap p = if not p.closed && ltb p.min_idle (length p.idle) then reap_front p p.idle else (p, none)
