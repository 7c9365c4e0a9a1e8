-- ===== src/SharedMutex/Tests.antt =====
-- Runs of `ushared_mutex` of core/usync.cpp, and its theorems at them.
use uco.Prelude.{
  ℕ, zero, suc, ◌+◌, ◌<◌, ◌≤◌, ◌≡◌, refl, subst, false, List, [], ◌∷◌, ◌++◌, ◌==◌, arith,
}
use uco.Prelude.Int.{pos, negsuc}
use uco.SharedMutex.{
  new_mutex, is_free, is_shared, is_empty, admits_reader, more_readers, fewer_readers, try_lock,
  try_lock_shared, lock_round, lock_shared_round, pop_writer, wake_next, unlock, unlock_shared,
}
use uco.SharedMutex.World.{
  World, after_lock_round, woken, Step, call_lock, writer_round, writer_leaves, Reachable, started,
  stepped,
}
use uco.SharedMutex.Exclusion.{Excludes, Reachable-Excludes}
use uco.SharedMutex.Waking.{Proceeds, Reachable-Proceeds}

program : Unit {0}
unfolding new_mutex is_free is_shared is_empty admits_reader more_readers fewer_readers try_lock
    try_lock_shared lock_round lock_shared_round pop_writer wake_next unlock unlock_shared
    after_lock_round woken
program = tt

-- A writer waits, so no reader gets in, although readers hold the lock.
reader_refused :
    (try_lock_shared (record { state = pos 2; writer_queue = 7 ∷ []; reader_queue = [] })).1 ≡ false
unfolding program
reader_refused = refl

last_reader_wakes :
    (unlock_shared (record { state = pos 1; writer_queue = 7 ∷ 8 ∷ []; reader_queue = 9 ∷ [] })).1
    ≡ (7 ∷ [], [])
unfolding program
last_reader_wakes = refl

-- Writer 1 holds the lock, these are queued, and this one is in its rounds.
abbrev held : List ℕ → List (ℕ × ℕ) → World
held queue spinning = record {
  mutex = record { state = negsuc 0; writer_queue = queue; reader_queue = [] };
  spinning_writers = spinning;
  spinning_readers = [];
  writers = 1 ∷ [];
  readers = [];
}

first_held : Reachable (held [] [])
unfolding program
first_held = stepped (stepped started (call_lock 1)) (writer_round 1 0 [] [] refl)

one_round :
    (q : List ℕ) (id i : ℕ) → i < 31 → Step (held q ((id, i) ∷ [])) (held q ((id, suc i) ∷ []))
unfolding program
one_round q id i h =
    let more : (i == 31) ≡ false = ground arith in
    let next : i + 1 ≡ suc i = omega arith in
    subst (λ w. Step (held q ((id, i) ∷ [])) w) (rw (more, next) refl)
      (writer_round id i [] [] refl)

rounds :
    (q : List ℕ) (id n : ℕ) → n ≤ 31 → Reachable (held q []) → Reachable (held q ((id, n) ∷ []))
rounds q id zero h r = stepped r (call_lock id)
rounds q id (suc n) h r = stepped (rounds q id n (omega arith) r) (one_round q id n (omega arith))

park : (q : List ℕ) (id : ℕ) → Reachable (held q []) → Reachable (held (q ++ (id ∷ [])) [])
unfolding program
park q id r = stepped (rounds q id 31 (omega arith) r) (writer_round id 31 [] [] refl)

-- Writers 2 and 3 queue behind writer 1, which leaves.
abbrev freed : World
freed = record {
  mutex = record { state = pos 0; writer_queue = 3 ∷ []; reader_queue = [] };
  spinning_writers = (2, 0) ∷ [];
  spinning_readers = [];
  writers = [];
  readers = [];
}

freed-Reachable : Reachable freed
unfolding program
freed-Reachable = stepped (park (2 ∷ []) 3 (park [] 2 first_held)) (writer_leaves 1 [] [] refl)

Reachable-Excludes_example : Excludes freed
Reachable-Excludes_example = Reachable-Excludes freed-Reachable

Reachable-Proceeds_example : Proceeds freed
Reachable-Proceeds_example = Reachable-Proceeds freed-Reachable refl refl (omega arith)
