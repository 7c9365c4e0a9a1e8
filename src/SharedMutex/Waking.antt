-- ===== src/SharedMutex/Waking.antt =====
-- No lost wake-up in `ushared_mutex` of core/usync.cpp: when the lock is free, a coroutine that
-- waits in a queue is not forgotten.
use uco.Prelude.{
  ℕ, zero, suc, ◌+◌, ◌-◌, ◌<◌, ◌≡◌, refl, sym, ap, subst, false, List, [], ◌∷◌, ◌++◌, ltb,
  if◌then◌else◌, length, arith, Bool-cases, inl, inr,
}
use uco.Prelude.Int.{ℤ, pos, negsuc}
use uco.SharedMutex.{
  SharedMutex, new_mutex, is_free, fewer_readers, acquired, lock_round, pop_writer, wake_next,
  unlock, unlock_shared, Woken,
}
use uco.SharedMutex.World.{
  Spinning, World, retried, woken, Step, call_lock, call_lock_shared, call_try_lock,
  call_try_lock_shared, writer_round, reader_round, writer_leaves, reader_leaves, Reachable,
  started, stepped,
}
use uco.SharedMutex.Exclusion.{Holds, Reachable-Excludes}
use uco.SharedMutex.Tended.{
  Tended, TendedIn, IsTended, Tended-more, length-taken, lock_round-IsTended,
  lock_shared_round-IsTended, try_lock-IsTended, try_lock_shared-IsTended,
}

-- A release of the lock and what it wakes.
abbrev TendedAfter : SharedMutex × Woken → Spinning → Type 0
TendedAfter p ws = TendedIn p.0 (retried p.1.0 ++ ws)

wake_next-TendedAfter :
    (q : List ℕ) (m : SharedMutex) (ws : Spinning)
    → m.writer_queue ≡ q
    → m.state ≡ pos 0
    → TendedAfter (wake_next q m) ws
unfolding wake_next pop_writer
wake_next-TendedAfter [] m ws e free =
    subst (λ t. Tended t (length m.writer_queue) 0 (length ws)) (sym free)
      ((λ x. absurd (omega arith)), λ x y. absurd (omega (arith, ap length e)))
wake_next-TendedAfter (x ∷ q) m ws e free =
    subst (λ t. Tended t (length q) (length m.reader_queue) (suc (length ws))) (sym free)
      ((λ y. omega arith), λ y z. omega arith)

pop_writer-TendedAfter :
    (q : List ℕ) (m : SharedMutex) (ws : Spinning)
    → m.writer_queue ≡ q
    → (0 < length m.reader_queue → 0 < length m.writer_queue + length ws)
    → (n : ℕ) → m.state ≡ pos n
    → TendedAfter (pop_writer q m) ws
unfolding pop_writer
pop_writer-TendedAfter [] m ws e h n s =
    subst (λ t. Tended t (length m.writer_queue) (length m.reader_queue) (length ws)) (sym s)
      (h, λ x y. absurd (omega (arith, ap length e)))
pop_writer-TendedAfter (x ∷ q) m ws e h n s =
    subst (λ t. Tended t (length q) (length m.reader_queue) (suc (length ws))) (sym s)
      ((λ y. omega arith), λ y z. omega arith)

left-TendedAfter :
    (t : ℤ) (m : SharedMutex) (ws : Spinning)
    → m.state ≡ fewer_readers t
    → Tended t (length m.writer_queue) (length m.reader_queue) (length ws)
    → TendedAfter (if is_free m.state then pop_writer m.writer_queue m else (m, ([], []))) ws
unfolding fewer_readers is_free
left-TendedAfter (pos n) m ws s h = elim (Bool-cases (is_free m.state)) [
  | inl free ↦
      rw free (pop_writer-TendedAfter m.writer_queue m ws refl h.0 (if ltb 0 n then n - 1 else n) s)
  | inr busy ↦ rw busy (
      subst (λ t. Tended t (length m.writer_queue) (length m.reader_queue) (length ws)) (sym s)
        (h.0, λ x y. absurd (some_left (subst (λ t. is_free t ≡ false) s busy) x)))
]
  where
    some_left : {k : ℕ} → is_free (pos k) ≡ false → k ≡ 0 → ⊥
    some_left p q = ground (arith, q)
left-TendedAfter (negsuc k) m ws s h =
    subst (λ t. TendedAfter (if is_free t then pop_writer m.writer_queue m else (m, ([], []))) ws)
      (sym s)
      (subst (λ t. Tended t (length m.writer_queue) (length m.reader_queue) (length ws)) (sym s) tt)

step-IsTended : {w v : World} → IsTended w → Step w v → IsTended v
unfolding woken unlock unlock_shared
step-IsTended {w = w} h (call_lock id) =
    Tended-more w.mutex.state (length w.mutex.writer_queue) (length w.mutex.reader_queue)
      (length w.spinning_writers) (suc (length w.spinning_writers)) (omega arith) h
step-IsTended h (call_lock_shared id) = h
step-IsTended {w = w} h (call_try_lock id) = try_lock-IsTended id w h
step-IsTended {w = w} h (call_try_lock_shared id) = try_lock_shared-IsTended id w h
step-IsTended {w = w} h (writer_round id i before after e) =
    lock_round-IsTended id i (before ++ after) w
      (length-taken (id, i) before after w.spinning_writers e) h
step-IsTended {w = w} h (reader_round id i before after e) =
    lock_shared_round-IsTended id i (before ++ after) w h
step-IsTended {w = w} h (writer_leaves id before after e) =
    wake_next-TendedAfter w.mutex.writer_queue (record w.mutex { state = pos 0 }) w.spinning_writers
      refl refl
step-IsTended {w = w} h (reader_leaves id before after e) =
    left-TendedAfter w.mutex.state (record w.mutex { state = fewer_readers w.mutex.state })
      w.spinning_writers refl h

Reachable-IsTended : {w : World} → Reachable w → IsTended w
unfolding new_mutex
Reachable-IsTended started = ((λ x. absurd (omega arith)), λ x y. absurd (omega arith))
Reachable-IsTended (stepped r s) = step-IsTended (Reachable-IsTended r) s

-- A writer in its rounds that gets the lock in the round at hand.
abbrev pub Proceeds : World → Type 0
Proceeds w =
    (id : ℕ) × (i : ℕ) × (after : Spinning) × (w.spinning_writers ≡ (id, i) ∷ after)
    × ((lock_round id i w.mutex).1 ≡ acquired)

proceeds :
    (w : World) (ws : Spinning)
    → w.spinning_writers ≡ ws
    → w.mutex.state ≡ pos 0
    → 0 < length ws
    → Proceeds w
unfolding lock_round is_free
proceeds w [] e free h = absurd (omega arith)
proceeds w ((id, i) ∷ after) e free h = (id, i, after, e, rw free refl)

-- No wake-up is lost: in every state that the coroutines can reach, if nobody holds the lock and a
-- coroutine waits in one of the queues, some writer is awake, and it takes the lock as soon as it
-- runs.
pub Reachable-Proceeds :
    {w : World}
    → Reachable w
    → w.writers ≡ []
    → w.readers ≡ []
    → 0 < length w.mutex.writer_queue + length w.mutex.reader_queue
    → Proceeds w
Reachable-Proceeds {w = w} r no_writer no_reader waiting =
    let free =
      state_free w.mutex.state (length w.writers) (length w.readers) (Reachable-Excludes r)
        (ap length no_writer) (ap length no_reader) in
    let (h, k) =
      subst
        (λ t.
          Tended t (length w.mutex.writer_queue) (length w.mutex.reader_queue)
            (length w.spinning_writers))
        free (Reachable-IsTended r) in
    proceeds w w.spinning_writers refl free (
      awake (length w.mutex.writer_queue) (length w.mutex.reader_queue) (length w.spinning_writers)
        h (k refl) waiting)
  where
    state_free : (s : ℤ) (ws rs : ℕ) → Holds s ws rs → ws ≡ 0 → rs ≡ 0 → s ≡ pos 0
    state_free (pos n) ws rs (a, b) p q = ap pos (omega (arith, b, q))
    state_free (negsuc k) ws rs (a, b, c) p q = absurd (omega (arith, b, p))

    awake : (a b s : ℕ) → (0 < b → 0 < a + s) → (0 < a → 0 < s) → 0 < a + b → 0 < s
    awake zero b s h k g = omega (arith, h (omega arith))
    awake (suc a) b s h k g = k (omega arith)
