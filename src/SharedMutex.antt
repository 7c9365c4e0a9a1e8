-- ===== src/SharedMutex.antt =====
-- `ushared_mutex` of core/usync.cpp (the implementation for builds without USE_NEW_SHARED_MUTEX_IMPL): the coroutine
-- readers-writer lock. Each critical section under the spin lock is one function; a coroutine is
-- the number that stands for its promise.
pub mod World
pub mod Exclusion
pub mod Tended
pub mod Waking
mod Tests
use uco.Prelude.{
  ℕ, ◌+◌, ◌-◌, Bool, true, false, List, [], ◌∷◌, ◌++◌, ◌==◌, ◌&&◌, ltb, if◌then◌else◌,
}
use uco.Prelude.Int.{ℤ, pos, negsuc}

-- `state`: -1 for a writer, otherwise the number of readers; the two queues.
pub record SharedMutex : Type 0 where
  pub state : ℤ
  pub writer_queue : List ℕ
  pub reader_queue : List ℕ

-- The constructor.
unfoldable pub new_mutex : SharedMutex
new_mutex = record { state = pos 0; writer_queue = []; reader_queue = [] }

abbrev pub max_spin : ℕ
max_spin = 32

unfoldable pub is_free : ℤ → Bool
is_free (pos n) = n == 0
is_free (negsuc n) = false

unfoldable pub is_empty : List ℕ → Bool
is_empty [] = true
is_empty (x ∷ xs) = false

unfoldable pub is_shared : ℤ → Bool
is_shared (pos n) = true
is_shared (negsuc n) = false

-- `state >= 0 && WQ->empty()`.
unfoldable pub admits_reader : SharedMutex → Bool
admits_reader m = is_shared m.state && is_empty m.writer_queue

unfoldable pub more_readers : ℤ → ℤ
more_readers (pos n) = pos (n + 1)
more_readers (negsuc n) = if n == 0 then pos 0 else negsuc (n - 1)

-- `if (state > 0) --state;`
unfoldable pub fewer_readers : ℤ → ℤ
fewer_readers (pos n) = pos (if ltb 0 n then n - 1 else n)
fewer_readers (negsuc n) = negsuc n

unfoldable pub try_lock : SharedMutex → SharedMutex × Bool
try_lock m = if is_free m.state then (record m { state = negsuc 0 }, true) else (m, false)

unfoldable pub try_lock_shared : SharedMutex → SharedMutex × Bool
try_lock_shared m =
    if admits_reader m then (record m { state = more_readers m.state }, true) else (m, false)

-- How one round of the loop of `lock` or `lock_shared` ends.
pub data Round : Type 0 where
  acquired again parked : Round

-- Round `i` of `lock`; the last one keeps the spin lock until the coroutine is in the queue.
unfoldable pub lock_round : ℕ → ℕ → SharedMutex → SharedMutex × Round
lock_round id i m =
    if is_free m.state
    then (record m { state = negsuc 0 }, acquired)
    else if i == max_spin - 1
    then (record m { writer_queue = m.writer_queue ++ (id ∷ []) }, parked)
    else (m, again)

-- Round `i` of `lock_shared`.
unfoldable pub lock_shared_round : ℕ → ℕ → SharedMutex → SharedMutex × Round
lock_shared_round id i m =
    if admits_reader m
    then (record m { state = more_readers m.state }, acquired)
    else if i == max_spin - 1
    then (record m { reader_queue = m.reader_queue ++ (id ∷ []) }, parked)
    else (m, again)

-- The coroutines handed to `push_sync_node_to_thread`: writers and readers.
abbrev pub Woken : Type 0
Woken = List ℕ × List ℕ

-- `POP(WQ)` if the queue has someone.
unfoldable pub pop_writer : List ℕ → SharedMutex → SharedMutex × Woken
pop_writer [] m = (m, ([], []))
pop_writer (w ∷ ws) m = (record m { writer_queue = ws }, (w ∷ [], []))

unfoldable pub wake_next : List ℕ → SharedMutex → SharedMutex × Woken
wake_next [] m = (record m { reader_queue = [] }, ([], m.reader_queue))
wake_next (w ∷ ws) m = pop_writer (w ∷ ws) m

unfoldable pub unlock : SharedMutex → SharedMutex × Woken
unlock m = wake_next m.writer_queue (record m { state = pos 0 })

unfoldable pub unlock_shared : SharedMutex → SharedMutex × Woken
unlock_shared m =
    let left = record m { state = fewer_readers m.state } in
    if is_free left.state then pop_writer left.writer_queue left else (left, ([], []))
