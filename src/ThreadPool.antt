-- ===== src/ThreadPool.antt =====
-- `thread_pool` of core/thread_pool.h: the queue under its mutex, and the threads that use it. Tasks
-- are numbers; a task is looked at by one thread at a time from the moment it leaves the queue.
pub mod Delivery
pub mod Tests
use uco.Prelude.{
  ℕ, zero, suc, ◌+◌, ◌-◌, ◌≡◌, Bool, true, false, List, [], ◌∷◌, ◌++◌, leb, ◌==◌, if◌then◌else◌,
  length,
}

-- `RetCode`.
pub data RetCode : Type 0 where
  ok exit exception busy : RetCode

-- `Pool`, with the number of threads.
pub record Pool : Type 0 where
  pub num_workers : ℕ
  pub max_pending : ℕ
  pub is_closed : Bool
  pub tasks : List ℕ

-- `addTask` up to its notification.
unfoldable pub add_task : ℕ → Pool → Pool × RetCode
add_task t p =
    if p.num_workers == 0
    then (p, busy)
    else if p.is_closed
    then (p, exit)
    else if leb p.max_pending (length p.tasks)
    then (p, busy)
    else (record p { tasks = p.tasks ++ (t ∷ []) }, ok)

-- What a thread does that has the mutex in `Loop`.
pub data Turn : Type 0 where
  drain : List ℕ → Turn
  run : ℕ → Turn
  wait : Turn

unfoldable pub next_task : Pool → List ℕ → Pool × Turn
next_task p [] = (p, wait)
next_task p (t ∷ l) = (record p { tasks = l }, run t)

unfoldable pub loop_turn : Pool → Pool × Turn
loop_turn p = if p.is_closed then (record p { tasks = [] }, drain p.tasks) else next_task p p.tasks

-- `close`, under the mutex: whether it goes on to wake the threads and to join them.
unfoldable pub close : Pool → Pool × Bool
close p = if p.is_closed then (p, false) else (record p { is_closed = true }, true)

-- The threads are counted by the place in the code where they stand.
pub record World : Type 0 where
  pub pool : Pool
  -- Workers about to look at the queue, asleep, done, and those that drop what was left.
  pub ready : ℕ
  pub asleep : ℕ
  pub left : ℕ
  pub draining : ℕ
  -- The tasks that workers run, and those that are being dropped.
  pub running : List ℕ
  pub dropping : List ℕ
  -- Callers about to call `notify_one`, and `notify_all`.
  pub notifying : ℕ
  pub closing : ℕ
  -- Tasks that were taken, that ran, and that were dropped; their callers are told `kOk` or
  -- `kException`, and `kExit`.
  pub taken : List ℕ
  pub ran : List (ℕ × RetCode)
  pub dropped : List ℕ

unfoldable pub start : ℕ → ℕ → World
start thread_num max_pending = record {
  pool = record {
    num_workers = thread_num;
    max_pending = max_pending;
    is_closed = false;
    tasks = [];
  };
  ready = thread_num;
  asleep = 0;
  left = 0;
  draining = 0;
  running = [];
  dropping = [];
  notifying = 0;
  closing = 0;
  taken = [];
  ran = [];
  dropped = [];
}

unfoldable pub after_add : ℕ → World → Pool × RetCode → World
after_add t w (p, ok) = record w { pool = p; notifying = w.notifying + 1; taken = t ∷ w.taken }
after_add t w (p, _) = record w { pool = p }

unfoldable pub after_turn : ℕ → World → Pool × Turn → World
after_turn others w (p, drain l) = record w {
  pool = p;
  ready = others;
  draining = w.draining + 1;
  dropping = l ++ w.dropping;
}
after_turn others w (p, run t) = record w { pool = p; ready = others; running = t ∷ w.running }
after_turn others w (p, wait) = record w { pool = p; ready = others; asleep = w.asleep + 1 }

unfoldable pub after_close : World → Pool × Bool → World
after_close w (p, true) = record w { pool = p; closing = w.closing + 1 }
after_close w (p, false) = record w { pool = p }

-- What `execute` finds in its `ret_code` when the task has run.
unfoldable pub outcome : Bool → RetCode
outcome threw = if threw then exception else ok

-- `notify_one` wakes a thread if one is asleep.
unfoldable pub wake_one : ℕ → World → World
wake_one others w = elim w.asleep [
  | zero ↦ record w { notifying = others }
  | suc n ↦ record w { notifying = others; asleep = n; ready = w.ready + 1 }
]

pub data Step : World → World → Type 0 where
  call_add : {w : World} (t : ℕ) → Step w (after_add t w (add_task t w.pool))
  notify : {w : World} (others : ℕ) → w.notifying ≡ suc others → Step w (wake_one others w)
  turn :
      {w : World} (others : ℕ)
      → w.ready ≡ suc others
      → Step w (after_turn others w (loop_turn w.pool))
  finish :
      {w : World} (t : ℕ) (threw : Bool) (before behind : List ℕ)
      → w.running ≡ before ++ (t ∷ behind)
      → Step w (record w {
        running = before ++ behind;
        ready = w.ready + 1;
        ran = (t, outcome threw) ∷ w.ran;
      })
  -- The tasks that are dropped are those of one thread; the others that drain have none and may leave.
  drop_task :
      {w : World} (t : ℕ) (behind : List ℕ)
      → w.dropping ≡ t ∷ behind
      → Step w (record w { dropping = behind; dropped = t ∷ w.dropped })
  leave :
      {w : World} (others : ℕ)
      → w.draining ≡ suc others
      → (others ≡ 0 → w.dropping ≡ [])
      → Step w (record w { draining = others; left = w.left + 1 })
  call_close : {w : World} → Step w (after_close w (close w.pool))
  notify_all :
      {w : World} (others : ℕ)
      → w.closing ≡ suc others
      → Step w (record w { closing = others; ready = w.ready + w.asleep; asleep = 0 })
  wakes_up :
      {w : World} (others : ℕ)
      → w.asleep ≡ suc others
      → Step w (record w { asleep = others; ready = w.ready + 1 })

pub data Reachable (thread_num max_pending : ℕ) : World → Type 0 where
  started : Reachable thread_num max_pending (start thread_num max_pending)
  stepped :
      {w v : World}
      → Reachable thread_num max_pending w
      → Step w v
      → Reachable thread_num max_pending v
