-- ===== src/SharedMutex/World.antt =====
-- The coroutines that use one `ushared_mutex` of core/usync.cpp, and the steps they take. Each
-- coroutine is in one pool: on its way through the rounds of `lock` or `lock_shared`, in a queue,
-- or holding the lock.
use uco.Prelude.{ℕ, ◌+◌, ◌≡◌, Bool, true, false, List, [], ◌∷◌, ◌++◌, map}
use uco.SharedMutex.{
  SharedMutex, new_mutex, Round, acquired, again, parked, try_lock, try_lock_shared, lock_round,
  lock_shared_round, unlock, unlock_shared, Woken,
}

-- A coroutine in the loop, and its round.
abbrev pub Spinning : Type 0
Spinning = List (ℕ × ℕ)

pub record World : Type 0 where
  pub mutex : SharedMutex
  pub spinning_writers : Spinning
  pub spinning_readers : Spinning
  pub writers : List ℕ
  pub readers : List ℕ

abbrev pub start : World
start = record {
  mutex = new_mutex;
  spinning_writers = [];
  spinning_readers = [];
  writers = [];
  readers = [];
}

-- A coroutine that was woken goes back to `retry`, round 0.
abbrev pub retried : List ℕ → Spinning
retried = map (λ id. (id, 0))

-- A writer's round, the coroutine taken out of the pool.
unfoldable pub after_lock_round : ℕ → ℕ → Spinning → World → SharedMutex × Round → World
after_lock_round id i others w (m, acquired) = record w {
  mutex = m;
  spinning_writers = others;
  writers = id ∷ w.writers;
}
after_lock_round id i others w (m, again) = record w {
  mutex = m;
  spinning_writers = (id, i + 1) ∷ others;
}
after_lock_round id i others w (m, parked) = record w { mutex = m; spinning_writers = others }

unfoldable pub after_lock_shared_round : ℕ → ℕ → Spinning → World → SharedMutex × Round → World
after_lock_shared_round id i others w (m, acquired) = record w {
  mutex = m;
  spinning_readers = others;
  readers = id ∷ w.readers;
}
after_lock_shared_round id i others w (m, again) = record w {
  mutex = m;
  spinning_readers = (id, i + 1) ∷ others;
}
after_lock_shared_round id i others w (m, parked) = record w {
  mutex = m;
  spinning_readers = others;
}

unfoldable pub after_try_lock : ℕ → World → SharedMutex × Bool → World
after_try_lock id w (m, true) = record w { mutex = m; writers = id ∷ w.writers }
after_try_lock id w (m, false) = record w { mutex = m }

unfoldable pub after_try_lock_shared : ℕ → World → SharedMutex × Bool → World
after_try_lock_shared id w (m, true) = record w { mutex = m; readers = id ∷ w.readers }
after_try_lock_shared id w (m, false) = record w { mutex = m }

unfoldable pub woken : World → SharedMutex × Woken → World
woken w (m, (ws, rs)) = record w {
  mutex = m;
  spinning_writers = retried ws ++ w.spinning_writers;
  spinning_readers = retried rs ++ w.spinning_readers;
}

pub data Step : World → World → Type 0 where
  call_lock :
      {w : World} (id : ℕ) → Step w (record w { spinning_writers = (id, 0) ∷ w.spinning_writers })
  call_lock_shared :
      {w : World} (id : ℕ) → Step w (record w { spinning_readers = (id, 0) ∷ w.spinning_readers })
  call_try_lock : {w : World} (id : ℕ) → Step w (after_try_lock id w (try_lock w.mutex))
  call_try_lock_shared :
      {w : World} (id : ℕ) → Step w (after_try_lock_shared id w (try_lock_shared w.mutex))
  writer_round :
      {w : World} (id i : ℕ) (before after : Spinning)
      → w.spinning_writers ≡ before ++ ((id, i) ∷ after)
      → Step w (after_lock_round id i (before ++ after) w (lock_round id i w.mutex))
  reader_round :
      {w : World} (id i : ℕ) (before after : Spinning)
      → w.spinning_readers ≡ before ++ ((id, i) ∷ after)
      → Step w (after_lock_shared_round id i (before ++ after) w (lock_shared_round id i w.mutex))
  writer_leaves :
      {w : World} (id : ℕ) (before after : List ℕ)
      → w.writers ≡ before ++ (id ∷ after)
      → Step w (woken (record w { writers = before ++ after }) (unlock w.mutex))
  reader_leaves :
      {w : World} (id : ℕ) (before after : List ℕ)
      → w.readers ≡ before ++ (id ∷ after)
      → Step w (woken (record w { readers = before ++ after }) (unlock_shared w.mutex))

pub data Reachable : World → Type 0 where
  started : Reachable start
  stepped : {w v : World} → Reachable w → Step w v → Reachable v
