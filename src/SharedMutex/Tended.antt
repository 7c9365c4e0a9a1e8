-- ===== src/SharedMutex/Tended.antt =====
-- The rounds of `lock` and `lock_shared` of `ushared_mutex` (core/usync.cpp), and that they leave no
-- queued coroutine behind a free lock without a writer that is awake.
use uco.Prelude.{
  ℕ, suc, ◌+◌, ◌-◌, ◌≤◌, ◌<◌, ◌≡◌, sym, ap, subst, Bool, true, false, List, [], ◌∷◌, ◌++◌, ◌==◌,
  ◌&&◌, length, length-append, arith, Bool-cases, inl, inr,
}
use uco.Prelude.Int.{ℤ, pos, negsuc}
use uco.SharedMutex.{
  SharedMutex, max_spin, is_free, is_shared, is_empty, admits_reader, more_readers, try_lock,
  try_lock_shared, lock_round, lock_shared_round,
}
use uco.SharedMutex.World.{
  Spinning, World, after_lock_round, after_lock_shared_round, after_try_lock, after_try_lock_shared,
}

-- Of the state and the numbers of queued writers, queued readers and writers in their rounds:
-- readers wait only behind a writer, and behind a free lock with a queued writer some writer is
-- awake.
abbrev pub Tended : ℤ → ℕ → ℕ → ℕ → Type 0
Tended (pos n) a b s = (0 < b → 0 < a + s) × (n ≡ 0 → 0 < a → 0 < s)
Tended (negsuc k) a b s = Unit

abbrev pub TendedIn : SharedMutex → Spinning → Type 0
TendedIn m ws = Tended m.state (length m.writer_queue) (length m.reader_queue) (length ws)

abbrev pub IsTended : World → Type 0
IsTended w = TendedIn w.mutex w.spinning_writers

pub Tended-more : (t : ℤ) (a b s s' : ℕ) → s ≤ s' → Tended t a b s → Tended t a b s'
Tended-more (pos n) a b s s' le (h, k) = (λ x. omega (arith, h x), λ x y. omega (arith, k x y))
Tended-more (negsuc k) a b s s' le h = tt

Tended-park : (t : ℤ) (a b s : ℕ) → is_free t ≡ false → Tended t a b (suc s) → Tended t (a + 1) b s
unfolding is_free
Tended-park (pos n) a b s e (h, k) = (λ x. omega arith, λ x y. absurd (ground (arith, x)))
Tended-park (negsuc k) a b s e h = tt

pub length-taken :
    (x : ℕ × ℕ) (before after all : Spinning)
    → all ≡ before ++ (x ∷ after)
    → length all ≡ suc (length (before ++ after))
length-taken x before after all e =
    omega (arith, ap length e, length-append before (x ∷ after), length-append before after)

pub lock_round-IsTended :
    (id i : ℕ) (others : Spinning) (w : World)
    → length w.spinning_writers ≡ suc (length others)
    → IsTended w
    → IsTended (after_lock_round id i others w (lock_round id i w.mutex))
unfolding lock_round after_lock_round
lock_round-IsTended id i others w one h =
    let h' =
      subst (Tended w.mutex.state (length w.mutex.writer_queue) (length w.mutex.reader_queue)) one
        h in
    elim (Bool-cases (is_free w.mutex.state)) [
      | inl free ↦ rw free tt
      | inr busy ↦ elim (Bool-cases (i == max_spin - 1)) [
        | inl last ↦
            rw (busy, last)
              (subst (λ a. Tended w.mutex.state a (length w.mutex.reader_queue) (length others))
                (sym (length-append w.mutex.writer_queue (id ∷ [])))
                (Tended-park w.mutex.state (length w.mutex.writer_queue)
                  (length w.mutex.reader_queue) (length others) busy h'))
        | inr more ↦ rw (busy, more) h'
      ]
    ]

pub Tended-read :
    (t : ℤ) (e : Bool) (a b s : ℕ)
    → (is_shared t && e) ≡ true
    → Tended t a b s
    → Tended (more_readers t) a b s
unfolding is_shared more_readers
Tended-read (pos n) e a b s q (h, k) = (h, λ x y. absurd (omega (arith, x)))
Tended-read (negsuc k) e a b s q h = absurd (ground arith)

Tended-read_park :
    (t : ℤ) (ws : List ℕ) (b b' s : ℕ)
    → (is_shared t && is_empty ws) ≡ false
    → Tended t (length ws) b s
    → Tended t (length ws) b' s
unfolding is_shared is_empty
Tended-read_park (pos n) [] b b' s q h = absurd (ground arith)
Tended-read_park (pos n) (x ∷ ws) b b' s q (h, k) = (λ y. omega arith, k)
Tended-read_park (negsuc k) ws b b' s q h = tt

pub lock_shared_round-IsTended :
    (id i : ℕ) (others : Spinning) (w : World)
    → IsTended w
    → IsTended (after_lock_shared_round id i others w (lock_shared_round id i w.mutex))
unfolding lock_shared_round after_lock_shared_round admits_reader
lock_shared_round-IsTended id i others w h =
    let m = w.mutex in
    elim (Bool-cases (admits_reader m)) [
      | inl admits ↦ rw admits (
          Tended-read m.state (is_empty m.writer_queue) (length m.writer_queue)
            (length m.reader_queue) (length w.spinning_writers) admits h)
      | inr refuses ↦ elim (Bool-cases (i == max_spin - 1)) [
        | inl last ↦
            rw (refuses, last)
              (Tended-read_park m.state m.writer_queue (length m.reader_queue) _
                (length w.spinning_writers) refuses h)
        | inr more ↦ rw (refuses, more) h
      ]
    ]

pub try_lock-IsTended :
    (id : ℕ) (w : World) → IsTended w → IsTended (after_try_lock id w (try_lock w.mutex))
unfolding try_lock after_try_lock
try_lock-IsTended id w h = elim (Bool-cases (is_free w.mutex.state)) [
  | inl free ↦ rw free tt
  | inr busy ↦ rw busy h
]

pub try_lock_shared-IsTended :
    (id : ℕ) (w : World)
    → IsTended w
    → IsTended (after_try_lock_shared id w (try_lock_shared w.mutex))
unfolding try_lock_shared after_try_lock_shared admits_reader
try_lock_shared-IsTended id w h = elim (Bool-cases (admits_reader w.mutex)) [
  | inl admits ↦ rw admits (
      Tended-read w.mutex.state (is_empty w.mutex.writer_queue) (length w.mutex.writer_queue)
        (length w.mutex.reader_queue) (length w.spinning_writers) admits h)
  | inr refuses ↦ rw refuses h
]
