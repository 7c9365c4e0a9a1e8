-- ===== src/Semaphore.antt =====
-- `usema` of core/usync.cpp: the coroutine semaphore. Each access to the atomic counters is one
-- function; what happens under the spin lock between two of them is in the state. Coroutines are
-- counted by the place in the code where they stand.
pub mod Waking
mod Tests
use uco.Prelude.{ℕ, zero, suc, ◌+◌, ◌-◌, ◌≡◌, Bool, true, false, ◌==◌, ◌||◌, if◌then◌else◌}

-- `usema_impl`: the permits, `nwait` and the length of `waiter_list`.
pub record Sema : Type 0 where
  pub count : ℕ
  pub nwait : ℕ
  pub parked : ℕ
  pub killed : Bool

-- `usema(cnt)`.
unfoldable pub new_sema : ℕ → Sema
new_sema cnt = record { count = cnt; nwait = 0; parked = 0; killed = false }

-- `try_wait`: the exchange that takes a permit.
unfoldable pub try_wait : Sema → Sema × Bool
try_wait m = if m.count == 0 then (m, false) else (record m { count = m.count - 1 }, true)

-- `kill_broadcast`; all that are parked are woken.
unfoldable pub kill_broadcast : Sema → Sema × ℕ
kill_broadcast m = (record m { killed = true; nwait = 0; parked = 0 }, m.parked)

-- `signal` under the lock: whether it wakes a coroutine.
unfoldable pub wake_one : Sema → Sema × Bool
wake_one m =
    if m.nwait == 0 || m.parked == 0
    then (m, false)
    else (record m { nwait = m.nwait - 1; parked = m.parked - 1 }, true)

-- Who holds the spin lock in `wait`: nobody, a coroutine that has raised `nwait`, or one whose last
-- `try_wait` has failed.
pub data Holder : Type 0 where
  nobody raised failed : Holder

-- `spinning`: in the loop of `wait`; `served`: returned from `wait` with a permit; `raising`: in
-- `signal` before the load of `nwait`; `locking`: in `signal` before the lock; `signals`: the calls.
pub record World : Type 0 where
  pub sema : Sema
  pub holder : Holder
  pub spinning : ℕ
  pub served : ℕ
  pub raising : ℕ
  pub locking : ℕ
  pub signals : ℕ

unfoldable pub after_spin : ℕ → World → Sema × Bool → World
after_spin others w (m, t) = record w {
  sema = m;
  spinning = if t then others else others + 1;
  served = if t then w.served + 1 else w.served;
}

unfoldable pub after_try : World → Sema × Bool → World
after_try w (m, t) = record w { sema = m; served = if t then w.served + 1 else w.served }

-- Under the lock: a coroutine that finds the semaphore killed returns.
unfoldable pub raise_nwait : ℕ → World → World
raise_nwait others w = if w.sema.killed then record w { spinning = others } else record w {
  sema = record w.sema { nwait = w.sema.nwait + 1 };
  spinning = others;
  holder = raised;
}

unfoldable pub after_last_try : World → Sema × Bool → World
after_last_try w (m, t) =
    if t
    then record w {
      sema = record m { nwait = m.nwait - 1 };
      holder = nobody;
      served = w.served + 1;
    }
    else record w { sema = m; holder = failed }

unfoldable pub park : World → World
park w = record w { sema = record w.sema { parked = w.sema.parked + 1 }; holder = nobody }

unfoldable pub raise_count : World → World
raise_count w = record w {
  sema = record w.sema { count = w.sema.count + 1 };
  raising = w.raising + 1;
  signals = w.signals + 1;
}

unfoldable pub load_nwait : ℕ → World → World
load_nwait others w =
    if w.sema.nwait == 0
    then record w { raising = others }
    else record w { raising = others; locking = w.locking + 1 }

unfoldable pub after_wake : ℕ → World → Sema × Bool → World
after_wake others w (m, t) = record w {
  sema = m;
  locking = others;
  spinning = if t then w.spinning + 1 else w.spinning;
}

unfoldable pub after_kill : World → Sema × ℕ → World
after_kill w (m, n) = record w { sema = m; spinning = w.spinning + n }

unfoldable pub start : ℕ → World
start cnt = record {
  sema = new_sema cnt;
  holder = nobody;
  spinning = 0;
  served = 0;
  raising = 0;
  locking = 0;
  signals = 0;
}

pub data Step : World → World → Type 0 where
  call_wait : {w : World} → Step w (record w { spinning = w.spinning + 1 })
  spin :
      {w : World} (others : ℕ)
      → w.spinning ≡ suc others
      → Step w (after_spin others w (try_wait w.sema))
  call_try_wait : {w : World} → Step w (after_try w (try_wait w.sema))
  take_lock :
      {w : World} (others : ℕ)
      → w.spinning ≡ suc others
      → w.holder ≡ nobody
      → Step w (raise_nwait others w)
  last_try : {w : World} → w.holder ≡ raised → Step w (after_last_try w (try_wait w.sema))
  push : {w : World} → w.holder ≡ failed → Step w (park w)
  call_signal : {w : World} → Step w (raise_count w)
  load : {w : World} (others : ℕ) → w.raising ≡ suc others → Step w (load_nwait others w)
  wake :
      {w : World} (others : ℕ)
      → w.locking ≡ suc others
      → w.holder ≡ nobody
      → Step w (after_wake others w (wake_one w.sema))
  kill :
      {w : World}
      → w.holder ≡ nobody
      → w.sema.killed ≡ false
      → Step w (after_kill w (kill_broadcast w.sema))

pub data Reachable (cnt : ℕ) : World → Type 0 where
  started : Reachable cnt (start cnt)
  stepped : {w v : World} → Reachable cnt w → Step w v → Reachable cnt v
