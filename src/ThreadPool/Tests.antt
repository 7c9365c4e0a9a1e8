-- ===== src/ThreadPool/Tests.antt =====
-- Runs of `thread_pool` of core/thread_pool.h, and its theorems at them.
use uco.Prelude.{◌<◌, ◌≤◌, ◌≡◌, refl, true, false, [], ◌∷◌}
use uco.Prelude.Occurs.{occurs}
use uco.ThreadPool.{
  busy, exit, exception, Pool, add_task, loop_turn, next_task, close, World, start, after_add,
  after_turn, after_close, outcome, Reachable, started, stepped, call_add, turn, finish, call_close,
  drop_task, leave,
}
use uco.ThreadPool.Delivery.{answers, Reachable-answers, Reachable-serves}

program : Unit {0}
unfolding add_task loop_turn next_task close start after_add after_turn after_close outcome
program = tt

abbrev full : Pool
full = record { num_workers = 1; max_pending = 1; is_closed = false; tasks = 5 ∷ [] }

second_refused : add_task 6 full ≡ (full, busy)
unfolding program
second_refused = refl

abbrev shut : Pool
shut = record full { is_closed = true }

close_shuts : close full ≡ (shut, true)
unfolding program
close_shuts = refl

add_refused : add_task 6 shut ≡ (shut, exit)
unfolding program
add_refused = refl

-- One thread takes the first of two tasks.
abbrev at_work : World
at_work = record {
  pool = record { num_workers = 1; max_pending = 4; is_closed = false; tasks = 8 ∷ [] };
  ready = 0;
  asleep = 0;
  left = 0;
  draining = 0;
  running = 7 ∷ [];
  dropping = [];
  notifying = 2;
  closing = 0;
  taken = 8 ∷ 7 ∷ [];
  ran = [];
  dropped = [];
}

at_work-Reachable : Reachable 1 4 at_work
unfolding program
at_work-Reachable = stepped (stepped (stepped started (call_add 7)) (call_add 8)) (turn 0 refl)

-- The first task throws; the pool is closed, and the thread drops the second one.
abbrev all_over : World
all_over = record at_work {
  pool = record { num_workers = 1; max_pending = 4; is_closed = true; tasks = [] };
  left = 1;
  running = [];
  closing = 1;
  ran = (7, exception) ∷ [];
  dropped = 8 ∷ [];
}

all_over-Reachable : Reachable 1 4 all_over
unfolding program
all_over-Reachable =
    let closed = stepped (stepped at_work-Reachable call_close) (finish 7 true [] [] refl) in
    stepped (stepped (stepped closed (turn 0 refl)) (drop_task 8 [] refl))
      (leave 0 refl (λ h. refl))

Reachable-answers_example :
    (0 ≤ 4)
    × (answers 8 all_over ≤ occurs 8 (8 ∷ 7 ∷ []))
    × (all_over.left ≡ 1 → answers 8 all_over ≡ occurs 8 (8 ∷ 7 ∷ []))
Reachable-answers_example = Reachable-answers 1 4 8 all_over-Reachable

Reachable-serves_example : (false ≡ false → 0 < 1 → 0 < 3) × (false ≡ true → 0 < 0 → 0 < 0)
Reachable-serves_example = Reachable-serves 1 4 at_work-Reachable
