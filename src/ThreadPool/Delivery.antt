-- ===== src/ThreadPool/Delivery.antt =====
-- core/thread_pool.h: every task that is taken is run or dropped, once, and none is forgotten.
use uco.Prelude.{
  ℕ, zero, suc, ◌+◌, ◌≡◌, ◌≤◌, ◌<◌, refl, sym, subst, ap, Bool, true, false, List, [], ◌∷◌, ◌++◌,
  length, arith, length-append, none_of_length_zero, Bool-cases, inl, inr,
}
use uco.Prelude.Occurs.{occurs, occurs-append, occurs-cons, occurs-middle}
use uco.ThreadPool.{
  RetCode, Pool, add_task, drain, next_task, loop_turn, close, World, start, after_add, after_turn,
  after_close, wake_one, outcome, Step, call_add, notify, turn, finish, drop_task, leave,
  call_close, notify_all, wakes_up, Reachable, started, stepped,
}

-- How often a task came back to its caller.
unfoldable pub times_ran : ℕ → List (ℕ × RetCode) → ℕ
times_ran t [] = 0
times_ran t ((u, code) ∷ l) = occurs t (u ∷ []) + times_ran t l

abbrev pub answers : ℕ → World → ℕ
answers t w = times_ran t w.ran + occurs t w.dropped

pub record IsSound (thread_num max_pending t : ℕ) (w : World) : Type 0 where
  pub size : (w.pool.num_workers ≡ thread_num) × (w.pool.max_pending ≡ max_pending)
  pub workers : w.ready + w.asleep + w.left + w.draining + length w.running ≡ thread_num
  pub bounded : length w.pool.tasks ≤ max_pending
  pub kept :
      occurs t w.taken
      ≡ occurs t w.pool.tasks + occurs t w.running + occurs t w.dropping + answers t w
  pub up : w.pool.is_closed ≡ false → (w.left + w.draining ≡ 0) × (w.dropping ≡ [])
  pub awake :
      w.pool.is_closed ≡ false
      → 0 < length w.pool.tasks
      → 0 < w.ready + length w.running + w.notifying
  pub emptied : 0 < w.left + w.draining → w.pool.tasks ≡ []
  pub dropper : w.draining ≡ 0 → w.dropping ≡ []
  pub told : w.pool.is_closed ≡ true → 0 < w.asleep → 0 < w.closing
  pub needed : 0 < length w.pool.tasks → 0 < thread_num

loop_turn-closed :
    (p : Pool) → p.is_closed ≡ true → loop_turn p ≡ (record p { tasks = [] }, drain p.tasks)
unfolding loop_turn
loop_turn-closed p e = simp (e)

loop_turn-up : (p : Pool) → p.is_closed ≡ false → loop_turn p ≡ next_task p p.tasks
unfolding loop_turn
loop_turn-up p e = simp (e)

start-IsSound :
    (thread_num max_pending t : ℕ) → IsSound thread_num max_pending t (start thread_num max_pending)
unfolding start occurs times_ran
start-IsSound thread_num max_pending t = ground arith

module _ (thread_num max_pending t : ℕ) (w : World) (i : IsSound thread_num max_pending t w) where
  step_add : (u : ℕ) → IsSound thread_num max_pending t (after_add u w (add_task u w.pool))
  unfolding after_add add_task
  step_add u = ground (
    arith,
    occurs-append t w.pool.tasks (u ∷ []),
    occurs-cons t u w.taken,
    length-append w.pool.tasks (u ∷ []),
  )

  step_notify :
      (others : ℕ) → w.notifying ≡ suc others → IsSound thread_num max_pending t (wake_one others w)
  unfolding wake_one
  step_notify others e = ground arith

  step_drain :
      (others : ℕ)
      → w.ready ≡ suc others
      → w.pool.is_closed ≡ true
      → IsSound thread_num max_pending t
          (after_turn others w (record w.pool { tasks = [] }, drain w.pool.tasks))
  unfolding after_turn occurs
  step_drain others e shut = ground (arith, occurs-append t w.pool.tasks w.dropping)

  step_run :
      (others : ℕ) (l : List ℕ)
      → w.ready ≡ suc others
      → w.pool.tasks ≡ l
      → w.pool.is_closed ≡ false
      → IsSound thread_num max_pending t (after_turn others w (next_task w.pool l))
  unfolding after_turn next_task
  step_run others [] e f up = ground arith
  step_run others (u ∷ l) e f up =
      ground (
        arith,
        ap (occurs t) f,
        ap (length {A = ℕ}) f,
        occurs-cons t u l,
        occurs-cons t u w.running,
      )

  step_turn :
      (others : ℕ)
      → w.ready ≡ suc others
      → IsSound thread_num max_pending t (after_turn others w (loop_turn w.pool))
  step_turn others e = elim (Bool-cases w.pool.is_closed) [
    | inl shut ↦
        subst (λ x. IsSound thread_num max_pending t (after_turn others w x))
          (sym (loop_turn-closed w.pool shut)) (step_drain others e shut)
    | inr up ↦
        subst (λ x. IsSound thread_num max_pending t (after_turn others w x))
          (sym (loop_turn-up w.pool up)) (step_run others w.pool.tasks e refl up)
  ]

  step_finish :
      (u : ℕ) (threw : Bool) (before behind : List ℕ)
      → w.running ≡ before ++ (u ∷ behind)
      → IsSound thread_num max_pending t (record w {
        running = before ++ behind;
        ready = w.ready + 1;
        ran = (u, outcome threw) ∷ w.ran;
      })
  unfolding times_ran
  step_finish u threw before behind e = ground (
    arith,
    ap (occurs t) e,
    ap (length {A = ℕ}) e,
    occurs-middle t u before behind,
    length-append before (u ∷ behind),
    length-append before behind,
  )

  step_drop :
      (u : ℕ) (behind : List ℕ)
      → w.dropping ≡ u ∷ behind
      → IsSound thread_num max_pending t (record w { dropping = behind; dropped = u ∷ w.dropped })
  step_drop u behind e =
      ground (arith, ap (occurs t) e, occurs-cons t u behind, occurs-cons t u w.dropped)

  step_leave :
      (others : ℕ)
      → w.draining ≡ suc others
      → (others ≡ 0 → w.dropping ≡ [])
      → IsSound thread_num max_pending t (record w { draining = others; left = w.left + 1 })
  step_leave others e f = ground arith

  step_close : IsSound thread_num max_pending t (after_close w (close w.pool))
  unfolding after_close close
  step_close = ground arith

  step_notify_all :
      (others : ℕ)
      → w.closing ≡ suc others
      → IsSound thread_num max_pending t
          (record w { closing = others; ready = w.ready + w.asleep; asleep = 0 })
  step_notify_all others e = ground arith

  step_wakes_up :
      (others : ℕ)
      → w.asleep ≡ suc others
      → IsSound thread_num max_pending t (record w { asleep = others; ready = w.ready + 1 })
  step_wakes_up others e = ground arith

step-IsSound : (n m t : ℕ) {w v : World} → IsSound n m t w → Step w v → IsSound n m t v
step-IsSound n m t i (call_add u) = step_add n m t _ i u
step-IsSound n m t i (notify others e) = step_notify n m t _ i others e
step-IsSound n m t i (turn others e) = step_turn n m t _ i others e
step-IsSound n m t i (finish u threw before behind e) =
    step_finish n m t _ i u threw before behind e
step-IsSound n m t i (drop_task u behind e) = step_drop n m t _ i u behind e
step-IsSound n m t i (leave others e f) = step_leave n m t _ i others e f
step-IsSound n m t i call_close = step_close n m t _ i
step-IsSound n m t i (notify_all others e) = step_notify_all n m t _ i others e
step-IsSound n m t i (wakes_up others e) = step_wakes_up n m t _ i others e

Reachable-IsSound : (n m t : ℕ) {w : World} → Reachable n m w → IsSound n m t w
Reachable-IsSound n m t started = start-IsSound n m t
Reachable-IsSound n m t (stepped r s) = step-IsSound n m t (Reachable-IsSound n m t r) s

-- When every thread has left, nothing is under way.
all_left : {n m t : ℕ} {w : World} (i : IsSound n m t w) → w.left ≡ n → w.running ≡ []
all_left {w = w} i e = none_of_length_zero w.running (omega (arith, i.workers, e))

all_left_dropping : {n m t : ℕ} {w : World} (i : IsSound n m t w) → w.left ≡ n → w.dropping ≡ []
all_left_dropping i e = i.dropper (omega (arith, i.workers, e))

all_left_tasks : {n m t : ℕ} {w : World} (i : IsSound n m t w) → w.left ≡ n → w.pool.tasks ≡ []
all_left_tasks {n = zero} {w = w} i e = none_of_length_zero w.pool.tasks (ground (arith, i.needed))
all_left_tasks {n = suc n} i e = i.emptied (omega (arith, e))

-- However the threads and the callers take turns: the queue is never longer than its limit; a task is
-- answered no more often than it was taken; and when all threads of a pool that has any have left its
-- loop, every task is answered exactly as often as it was taken, having run or been dropped.
pub Reachable-answers :
    (n m t : ℕ) {w : World}
    → Reachable n m w
    → (length w.pool.tasks ≤ m)
      × (answers t w ≤ occurs t w.taken)
      × (w.left ≡ n → answers t w ≡ occurs t w.taken)
unfolding occurs
Reachable-answers n m t r =
    let i = Reachable-IsSound n m t r in
    (
      i.bounded,
      omega (arith, i.kept),
      λ e. ground (
        arith,
        i.kept,
        ap (occurs t) (all_left i e),
        ap (occurs t) (all_left_dropping i e),
        ap (occurs t) (all_left_tasks i e),
      ),
    )

-- No task is left lying in the queue: while the pool is open and has a task in its queue, some thread
-- runs a task or is about to look at the queue, or some caller is about to wake one; and once it is
-- closed no thread sleeps unless it is about to be woken.
pub Reachable-serves :
    (n m : ℕ) {w : World}
    → Reachable n m w
    → (w.pool.is_closed ≡ false
        → 0 < length w.pool.tasks
        → 0 < w.ready + length w.running + w.notifying)
      × (w.pool.is_closed ≡ true → 0 < w.asleep → 0 < w.closing)
Reachable-serves n m r = let i = Reachable-IsSound n m 0 r in (i.awake, i.told)
