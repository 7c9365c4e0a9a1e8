-- ===== src/RwLock/Tests.antt =====
-- Runs of `ushared_mutex` of core/usync.cpp, and its theorems at them.
use uco.Prelude.{◌+◌, ◌<◌, ◌≡◌, ◌≢◌, refl, true, false, arith}
use uco.Prelude.Word.{int_lt}
use uco.RwLock.{
  new_lock, minus_max, int_add, int_neg, announce, count_readers, try_announce, withdraw,
  enter_shared, try_enter_shared, leave_shared, depart,
}
use uco.RwLock.World.{
  absent, entering, waiting, inside, releasing, World, after_announce, after_count, after_try_lock,
  after_withdraw, after_enter, after_try_enter, after_leave, after_depart, take_w, writer_announces,
  writer_counts, writer_wakes, reader_enters, reader_leaves, reader_departs, reader_signals,
  Reachable, started, stepped,
}
use uco.RwLock.Safety.{Reachable-excludes, Reachable-waits}

program : Unit {0}
unfolding int_lt new_lock int_add int_neg announce count_readers try_announce withdraw enter_shared
    try_enter_shared leave_shared depart after_announce after_count after_try_lock after_withdraw
    after_enter after_try_enter after_leave after_depart
program = tt

-- A reader holds the lock, a writer has put up its sign and waits.
abbrev waited : World
waited = record {
  lock = record { readers = minus_max + 1; reader_wait = 1; reader_sema = 0; writer_sema = 0 };
  writer = waiting;
  holding = 1;
  queued = 0;
  departing = 0;
  signalling = 0;
  failed = false;
}

waited-Reachable : Reachable waited
unfolding program
waited-Reachable =
    stepped
      (stepped (stepped (stepped started (reader_enters (omega arith))) (take_w refl))
        (writer_announces refl))
      (writer_counts 1 refl)

-- The reader leaves and wakes the writer.
abbrev entered : World
entered = record {
  lock = record { readers = minus_max; reader_wait = 0; reader_sema = 0; writer_sema = 0 };
  writer = inside;
  holding = 0;
  queued = 0;
  departing = 0;
  signalling = 0;
  failed = false;
}

entered-Reachable : Reachable entered
unfolding program
entered-Reachable =
    stepped
      (stepped (stepped (stepped waited-Reachable (reader_leaves 0 refl)) (reader_departs 0 refl))
        (reader_signals 0 refl))
      (writer_wakes 0 refl refl)

-- With a writer inside, a reader is sent to the queue, and `try_lock_shared` fails.
queues : (enter_shared entered.lock).1 ≡ true
unfolding program
queues = refl

refused : (try_enter_shared entered.lock).1 ≡ false
unfolding program
refused = refl

Reachable-excludes_example :
    (entered.failed ≡ false)
    × (entered.writer ≡ inside
        → (entered.holding ≡ 0)
          × (entered.lock.reader_sema ≡ 0)
          × (entered.departing ≡ 0)
          × (entered.signalling ≡ 0))
Reachable-excludes_example = Reachable-excludes entered-Reachable

Reachable-waits_example :
    (waiting ≡ waiting → 0 < 0 + 1 + 0 + 0 + 0)
    × (0 < 0 → (waiting ≢ absent) × (waiting ≢ entering) × (waiting ≢ releasing 0))
Reachable-waits_example = Reachable-waits waited-Reachable
