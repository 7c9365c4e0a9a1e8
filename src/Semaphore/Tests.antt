-- ===== src/Semaphore/Tests.antt =====
-- A run of `usema` of core/usync.cpp, and its theorem at it.
use uco.Prelude.{◌+◌, ◌<◌, ◌≡◌, refl, true, false}
use uco.Semaphore.{
  new_sema, try_wait, kill_broadcast, wake_one, nobody, World, after_spin, after_try, raise_nwait,
  after_last_try, park, raise_count, load_nwait, after_wake, after_kill, start, Reachable, started,
  stepped, call_wait, take_lock, last_try, push, call_signal,
}
use uco.Semaphore.Waking.{raisers, Reachable-awake}

program : Unit {0}
unfolding new_sema try_wait kill_broadcast wake_one after_spin after_try raise_nwait after_last_try
    park raise_count load_nwait after_wake after_kill start
program = tt

-- A coroutine has parked, and a signal has raised the count.
abbrev signalled : World
signalled = record {
  sema = record { count = 1; nwait = 1; parked = 1; killed = false };
  holder = nobody;
  spinning = 0;
  served = 0;
  raising = 1;
  locking = 0;
  signals = 1;
}

signalled-Reachable : Reachable 0 signalled
unfolding program
signalled-Reachable =
    stepped
      (stepped
        (stepped (stepped (stepped started call_wait) (take_lock 0 refl refl)) (last_try refl))
        (push refl))
      call_signal

woken_up : (wake_one signalled.sema).1 ≡ true
unfolding program
woken_up = refl

Reachable-awake_example :
    (signalled.sema.count + signalled.served ≡ 0 + signalled.signals)
    × (0 < signalled.sema.parked
        → 0 < signalled.sema.count
        → 0 < signalled.spinning + raisers signalled.holder + signalled.raising + signalled.locking)
Reachable-awake_example = Reachable-awake signalled-Reachable
