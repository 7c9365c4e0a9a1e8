-- ===== src/SharedMutex/Exclusion.antt =====
-- What `ushared_mutex` of core/usync.cpp promises: a writer holds the lock alone, and the state
-- counts the readers.
use uco.Prelude.{
  ℕ, suc, ◌-◌, ◌≤◌, ◌≡◌, refl, sym, ap, subst, Bool, true, List, [], ◌∷◌, ◌++◌, ◌==◌, ◌&&◌, length,
  length-append, arith, Bool-cases, inl, inr,
}
use uco.Prelude.Int.{ℤ, pos, negsuc}
use uco.SharedMutex.{
  SharedMutex, new_mutex, max_spin, is_free, is_shared, is_empty, admits_reader, more_readers,
  fewer_readers, try_lock, try_lock_shared, lock_round, lock_shared_round, pop_writer, wake_next,
  unlock, unlock_shared,
}
use uco.SharedMutex.World.{
  Spinning, World, after_lock_round, after_lock_shared_round, after_try_lock, after_try_lock_shared,
  woken, Step, call_lock, call_lock_shared, call_try_lock, call_try_lock_shared, writer_round,
  reader_round, writer_leaves, reader_leaves, Reachable, started, stepped,
}

-- The state, against the numbers of writers and readers that hold the lock.
abbrev pub Holds : ℤ → ℕ → ℕ → Type 0
Holds (pos n) ws rs = (ws ≡ 0) × (rs ≡ n)
Holds (negsuc k) ws rs = (k ≡ 0) × (ws ≡ 1) × (rs ≡ 0)

abbrev pub Excludes : World → Type 0
Excludes w = Holds w.mutex.state (length w.writers) (length w.readers)

Holds-free : (s : ℤ) (ws rs : ℕ) → Holds s ws rs → is_free s ≡ true → (ws ≡ 0) × (rs ≡ 0)
unfolding is_free
Holds-free (pos n) ws rs (a, b) e = (a, ground (arith, b))
Holds-free (negsuc k) ws rs h e = absurd (ground arith)

Holds-admits :
    (s : ℤ) (t : Bool) (ws rs : ℕ)
    → Holds s ws rs
    → (is_shared s && t) ≡ true
    → Holds (more_readers s) ws (suc rs)
unfolding is_shared more_readers
Holds-admits (pos n) t ws rs (a, b) e = (a, omega (arith, b))
Holds-admits (negsuc k) t ws rs h e = absurd (ground arith)

lock_round-Excludes :
    (id i : ℕ) (others : Spinning) (w : World)
    → Excludes w
    → Excludes (after_lock_round id i others w (lock_round id i w.mutex))
unfolding lock_round after_lock_round
lock_round-Excludes id i others w h = elim (Bool-cases (is_free w.mutex.state)) [
  | inl free ↦
      let (a, b) = Holds-free w.mutex.state (length w.writers) (length w.readers) h free in
      rw free (refl, omega (arith, a), b)
  | inr busy ↦ elim (Bool-cases (i == max_spin - 1)) [
    | inl last ↦ rw (busy, last) h
    | inr more ↦ rw (busy, more) h
  ]
]

lock_shared_round-Excludes :
    (id i : ℕ) (others : Spinning) (w : World)
    → Excludes w
    → Excludes (after_lock_shared_round id i others w (lock_shared_round id i w.mutex))
unfolding lock_shared_round after_lock_shared_round admits_reader
lock_shared_round-Excludes id i others w h = elim (Bool-cases (admits_reader w.mutex)) [
  | inl admits ↦ rw admits (
      Holds-admits w.mutex.state (is_empty w.mutex.writer_queue) (length w.writers)
        (length w.readers) h admits)
  | inr refuses ↦ elim (Bool-cases (i == max_spin - 1)) [
    | inl last ↦ rw (refuses, last) h
    | inr more ↦ rw (refuses, more) h
  ]
]

try_lock-Excludes :
    (id : ℕ) (w : World) → Excludes w → Excludes (after_try_lock id w (try_lock w.mutex))
unfolding try_lock after_try_lock
try_lock-Excludes id w h = elim (Bool-cases (is_free w.mutex.state)) [
  | inl free ↦
      let (a, b) = Holds-free w.mutex.state (length w.writers) (length w.readers) h free in
      rw free (refl, omega (arith, a), b)
  | inr busy ↦ rw busy h
]

try_lock_shared-Excludes :
    (id : ℕ) (w : World)
    → Excludes w
    → Excludes (after_try_lock_shared id w (try_lock_shared w.mutex))
unfolding try_lock_shared after_try_lock_shared admits_reader
try_lock_shared-Excludes id w h = elim (Bool-cases (admits_reader w.mutex)) [
  | inl admits ↦ rw admits (
      Holds-admits w.mutex.state (is_empty w.mutex.writer_queue) (length w.writers)
        (length w.readers) h admits)
  | inr refuses ↦ rw refuses h
]

wake_next-state : (q : List ℕ) (m : SharedMutex) → (wake_next q m).0.state ≡ m.state
unfolding wake_next pop_writer
wake_next-state [] m = refl
wake_next-state (x ∷ q) m = refl

pop_writer-state : (q : List ℕ) (m : SharedMutex) → (pop_writer q m).0.state ≡ m.state
unfolding pop_writer
pop_writer-state [] m = refl
pop_writer-state (x ∷ q) m = refl

unlock_shared-state : (m : SharedMutex) → (unlock_shared m).0.state ≡ fewer_readers m.state
unfolding unlock_shared
unlock_shared-state m = elim (Bool-cases (is_free (fewer_readers m.state))) [
  | inl free ↦
      rw free (pop_writer-state m.writer_queue (record m { state = fewer_readers m.state }))
  | inr busy ↦ rw busy refl
]

Holds-writer : (s : ℤ) (ws rs : ℕ) → Holds s ws rs → 1 ≤ ws → (ws ≡ 1) × (rs ≡ 0)
Holds-writer (pos n) ws rs (a, b) h = absurd (omega arith)
Holds-writer (negsuc k) ws rs (a, b, c) h = (b, c)

Holds-reader : (s : ℤ) (ws rs : ℕ) → Holds s ws (suc rs) → Holds (fewer_readers s) ws rs
unfolding fewer_readers
Holds-reader (pos n) ws rs (a, b) = (a, ground (arith, b))
Holds-reader (negsuc k) ws rs (a, b, c) = absurd (omega arith)

length-taken :
    (id : ℕ) (before after all : List ℕ)
    → all ≡ before ++ (id ∷ after)
    → length all ≡ suc (length (before ++ after))
length-taken id before after all e =
    omega (arith, ap length e, length-append before (id ∷ after), length-append before after)

-- Each step keeps the state true to the holders.
step-Excludes : {w v : World} → Excludes w → Step w v → Excludes v
unfolding woken unlock
step-Excludes h (call_lock id) = h
step-Excludes h (call_lock_shared id) = h
step-Excludes {w = w} h (call_try_lock id) = try_lock-Excludes id w h
step-Excludes {w = w} h (call_try_lock_shared id) = try_lock_shared-Excludes id w h
step-Excludes {w = w} h (writer_round id i before after e) =
    lock_round-Excludes id i (before ++ after) w h
step-Excludes {w = w} h (reader_round id i before after e) =
    lock_shared_round-Excludes id i (before ++ after) w h
step-Excludes {w = w} h (writer_leaves id before after e) =
    let one = length-taken id before after w.writers e in
    let (a, b) =
      Holds-writer w.mutex.state (length w.writers) (length w.readers) h (omega (arith, one)) in
    subst (λ s. Holds s (length (before ++ after)) (length w.readers))
      (sym (wake_next-state w.mutex.writer_queue (record w.mutex { state = pos 0 })))
      (omega (arith, one, a), b)
step-Excludes {w = w} h (reader_leaves id before after e) =
    let one = length-taken id before after w.readers e in
    subst (λ s. Holds s (length w.writers) (length (before ++ after)))
      (sym (unlock_shared-state w.mutex))
      (Holds-reader w.mutex.state (length w.writers) (length (before ++ after))
        (subst (Holds w.mutex.state (length w.writers)) one h))

-- However the coroutines that use the lock take turns, the state of the lock tells who holds it: a
-- writer holds it alone, and otherwise the state is the number of readers that do.
pub Reachable-Excludes : {w : World} → Reachable w → Excludes w
unfolding new_mutex
Reachable-Excludes started = (refl, refl)
Reachable-Excludes (stepped r s) = step-Excludes (Reachable-Excludes r) s
