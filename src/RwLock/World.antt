-- ===== src/RwLock/World.antt =====
-- The coroutines that use one `ushared_mutex` of core/usync.cpp, counted by where they stand, and the
-- steps they take. `w_` lets one writer at a time go past `w_.lock()`: where it stands is the phase.
use uco.Prelude.{ℕ, suc, ◌+◌, ◌<◌, ◌≡◌, Bool, true, false, ◌==◌, if◌then◌else◌}
use uco.Prelude.Word.{int_lt}
use uco.RwLock.{
  RwLock, new_lock, max_readers, announce, count_readers, try_announce, withdraw, enter_shared,
  try_enter_shared, Leave, left, fatal, counting, leave_shared, depart,
}

pub data Phase : Type 0 where
  absent entering waiting inside : Phase
  announced : ℕ → Phase
  releasing : ℕ → Phase

-- `holding`: readers that hold the lock; `queued`: readers in `reader_sema_`'s `wait`; `departing`:
-- readers before `reader_wait_.fetch_sub`; `signalling`: before `writer_sema_`'s `signal`;
-- `failed`: a fatal error was raised.
pub record World : Type 0 where
  pub lock : RwLock
  pub writer : Phase
  pub holding : ℕ
  pub queued : ℕ
  pub departing : ℕ
  pub signalling : ℕ
  pub failed : Bool

abbrev pub start : World
start = record {
  lock = new_lock;
  writer = absent;
  holding = 0;
  queued = 0;
  departing = 0;
  signalling = 0;
  failed = false;
}

unfoldable pub after_announce : World → RwLock × ℕ → World
after_announce w (m, r) = record w { lock = m; writer = if r == 0 then inside else announced r }

unfoldable pub after_count : World → RwLock × Bool → World
after_count w (m, t) = record w { lock = m; writer = if t then waiting else inside }

unfoldable pub after_try_lock : World → RwLock × Bool → World
after_try_lock w (m, t) = record w { lock = m; writer = if t then inside else absent }

-- A sign that was not up is a fatal error.
unfoldable pub after_withdraw : World → RwLock × ℕ → World
after_withdraw w (m, n) = record w {
  lock = m;
  writer = releasing n;
  failed = if int_lt w.lock.readers 0 then w.failed else true;
}

unfoldable pub after_enter : World → RwLock × Bool → World
after_enter w (m, true) = record w { lock = m; queued = w.queued + 1 }
after_enter w (m, false) = record w { lock = m; holding = w.holding + 1 }

unfoldable pub after_try_enter : World → RwLock × Bool → World
after_try_enter w (m, true) = record w { lock = m; holding = w.holding + 1 }
after_try_enter w (m, false) = record w { lock = m }

-- The reader that leaves is no longer among the `others` that hold the lock.
unfoldable pub after_leave : ℕ → World → RwLock × Leave → World
after_leave others w (m, left) = record w { lock = m; holding = others }
after_leave others w (m, fatal) = record w { lock = m; holding = others; failed = true }
after_leave others w (m, counting) = record w {
  lock = m;
  holding = others;
  departing = w.departing + 1;
}

unfoldable pub after_depart : ℕ → World → RwLock × Bool → World
after_depart others w (m, t) = record w {
  lock = m;
  departing = others;
  signalling = if t then w.signalling + 1 else w.signalling;
}

pub data Step : World → World → Type 0 where
  take_w : {w : World} → w.writer ≡ absent → Step w (record w { writer = entering })
  writer_announces : {w : World} → w.writer ≡ entering → Step w (after_announce w (announce w.lock))
  writer_counts :
      {w : World} (r : ℕ) → w.writer ≡ announced r → Step w (after_count w (count_readers r w.lock))
  writer_wakes :
      {w : World} (n : ℕ)
      → w.writer ≡ waiting
      → w.lock.writer_sema ≡ suc n
      → Step w (record w { writer = inside; lock = record w.lock { writer_sema = n } })
  writer_tries : {w : World} → w.writer ≡ absent → Step w (after_try_lock w (try_announce w.lock))
  writer_withdraws : {w : World} → w.writer ≡ inside → Step w (after_withdraw w (withdraw w.lock))
  writer_releases :
      {w : World} (n : ℕ)
      → w.writer ≡ releasing (suc n)
      → Step w (record w {
        lock = record w.lock { reader_sema = w.lock.reader_sema + 1 };
        writer = releasing n;
      })
  unlock_w : {w : World} → w.writer ≡ releasing 0 → Step w (record w { writer = absent })
  reader_enters :
      {w : World}
      → w.holding + w.queued + 1 < max_readers
      → Step w (after_enter w (enter_shared w.lock))
  reader_tries :
      {w : World}
      → w.holding + w.queued + 1 < max_readers
      → Step w (after_try_enter w (try_enter_shared w.lock))
  reader_wakes :
      {w : World} (p q : ℕ)
      → w.lock.reader_sema ≡ suc p
      → w.queued ≡ suc q
      → Step w (record w {
        lock = record w.lock { reader_sema = p };
        queued = q;
        holding = w.holding + 1;
      })
  reader_leaves :
      {w : World} (others : ℕ)
      → w.holding ≡ suc others
      → Step w (after_leave others w (leave_shared w.lock))
  reader_departs :
      {w : World} (others : ℕ)
      → w.departing ≡ suc others
      → Step w (after_depart others w (depart w.lock))
  reader_signals :
      {w : World} (others : ℕ)
      → w.signalling ≡ suc others
      → Step w (record w {
        signalling = others;
        lock = record w.lock { writer_sema = w.lock.writer_sema + 1 };
      })

pub data Reachable : World → Type 0 where
  started : Reachable start
  stepped : {w v : World} → Reachable w → Step w v → Reachable v
