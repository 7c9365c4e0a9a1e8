-- ===== src/RwLock/Safety.antt =====
-- What `ushared_mutex` of core/usync.cpp promises in every state that its users can reach: a writer
-- is inside alone, no fatal error is raised, and nobody waits in vain.
use uco.Prelude.{ℕ, zero, suc, ◌+◌, ◌≤◌, ◌<◌, ◌≡◌, ◌≢◌, refl, false, arith, Bool-cases, inl, inr}
use uco.Prelude.Word.{int_lt}
use uco.RwLock.{new_lock, max_readers, enter_shared, try_enter_shared, leave_shared, depart}
use uco.RwLock.World.{
  absent, entering, waiting, inside, releasing, World, after_enter, after_try_enter, after_leave,
  after_depart, Step, take_w, writer_announces, writer_counts, writer_wakes, writer_tries,
  writer_withdraws, writer_releases, unlock_w, reader_enters, reader_tries, reader_wakes,
  reader_leaves, reader_departs, reader_signals, Reachable, started, stepped,
}
use uco.RwLock.Writers.{IsSound, at_phase, step_announce, step_count, step_try_lock, step_withdraw}
use uco.RwLock.Readers.{
  queue-Accounts, hold-Accounts, wake-Accounts, leave-Accounts, depart-Accounts, signal-Accounts,
}

step_enter :
    (w : World)
    → IsSound w
    → w.holding + w.queued + 1 < max_readers
    → IsSound (after_enter w (enter_shared w.lock))
unfolding after_enter enter_shared
step_enter w i room = elim (Bool-cases (int_lt w.lock.readers 0)) [
  | inl up ↦ rw up (record {
    accounts =
        queue-Accounts w.lock w.holding w.queued w.departing w.signalling w.writer room up
          i.accounts;
    bounded = omega (arith, room);
    clean = i.clean;
  })
  | inr down ↦ rw down (record {
    accounts =
        hold-Accounts w.lock w.holding w.queued w.departing w.signalling w.writer room down
          i.accounts;
    bounded = omega (arith, room);
    clean = i.clean;
  })
]

step_try_enter :
    (w : World)
    → IsSound w
    → w.holding + w.queued + 1 < max_readers
    → IsSound (after_try_enter w (try_enter_shared w.lock))
unfolding after_try_enter try_enter_shared
step_try_enter w i room = elim (Bool-cases (int_lt w.lock.readers 0)) [
  | inl up ↦ rw up i
  | inr down ↦ rw down (record {
    accounts =
        hold-Accounts w.lock w.holding w.queued w.departing w.signalling w.writer room down
          i.accounts;
    bounded = omega (arith, room);
    clean = i.clean;
  })
]

step_leave :
    (w : World) (others : ℕ)
    → IsSound w
    → w.holding ≡ suc others
    → IsSound (after_leave others w (leave_shared w.lock))
unfolding after_leave leave_shared
step_leave w others i e =
    let bound = i.bounded in
    elim (leave-Accounts w.lock w.holding w.queued w.departing w.signalling w.writer others e
      i.bounded i.accounts) [
        | inl (some_left, a) ↦
            rw some_left
              (record { accounts = a; bounded = omega (arith, bound, e); clean = i.clean })
        | inr (none_left, other, a) ↦
            rw (none_left, other)
              (record { accounts = a; bounded = omega (arith, bound, e); clean = i.clean })
      ]

-- A permit for the writer is given only when the count of readers is down to zero.
settled : (x t : ℕ) → (0 < x → t ≡ 0) → 1 ≤ t → x ≡ 0
settled zero t h k = refl
settled (suc x) t h k = absurd (omega (arith, h (omega arith), k))

attended : (x t : ℕ) → (x ≡ 0 → t ≡ 1) → 0 < x + t
attended zero t h = omega (arith, h refl)
attended (suc x) t h = omega arith

step-IsSound : {w v : World} → IsSound w → Step w v → IsSound v
unfolding after_depart depart
step-IsSound i (take_w e) = record { accounts = at_phase i e; bounded = i.bounded; clean = i.clean }
step-IsSound {w = w} i (writer_announces e) = step_announce w i e
step-IsSound {w = w} i (writer_counts r e) = step_count w r i e
step-IsSound {w = w} i (writer_wakes n e f) =
    let (a, b, c, d, g, h) = at_phase i e in
    let zero_wait =
      settled w.lock.reader_wait (w.signalling + w.lock.writer_sema) g (omega (arith, f)) in
    record {
      accounts = (
        a,
        omega (arith, b, zero_wait),
        omega (arith, b, zero_wait),
        (omega (arith, b, zero_wait), omega (arith, d, f), zero_wait, omega (arith, d, f)),
      );
      bounded = i.bounded;
      clean = i.clean;
    }
step-IsSound {w = w} i (writer_tries e) = step_try_lock w i e
step-IsSound {w = w} i (writer_withdraws e) = step_withdraw w i e
step-IsSound {w = w} i (writer_releases n e) =
    let (a, b, c) = at_phase i e in
    record { accounts = (a, omega (arith, b), c); bounded = i.bounded; clean = i.clean }
step-IsSound {w = w} i (unlock_w e) =
    let (a, b, c) = at_phase i e in
    record { accounts = (a, omega (arith, b), c); bounded = i.bounded; clean = i.clean }
step-IsSound {w = w} i (reader_enters room) = step_enter w i room
step-IsSound {w = w} i (reader_tries room) = step_try_enter w i room
step-IsSound {w = w} i (reader_wakes p q e f) = record {
  accounts =
      wake-Accounts w.lock w.holding w.queued w.departing w.signalling w.writer p q e f i.accounts;
  bounded = omega (arith, f, i.bounded);
  clean = i.clean;
}
step-IsSound {w = w} i (reader_leaves others e) = step_leave w others i e
step-IsSound {w = w} i (reader_departs others e) = record {
  accounts =
      depart-Accounts w.lock w.holding w.queued w.departing w.signalling w.writer others e
        i.accounts;
  bounded = i.bounded;
  clean = i.clean;
}
step-IsSound {w = w} i (reader_signals others e) = record {
  accounts =
      signal-Accounts w.lock w.holding w.queued w.departing w.signalling w.writer others e
        i.accounts;
  bounded = i.bounded;
  clean = i.clean;
}

pub Reachable-IsSound : {w : World} → Reachable w → IsSound w
unfolding new_lock
Reachable-IsSound started = record { accounts = ground arith; bounded = omega arith; clean = refl }
Reachable-IsSound (stepped r s) = step-IsSound (Reachable-IsSound r) s

-- However writers and readers take turns at the atomic accesses, fewer than 2 ^ 30 readers at a
-- time: when a writer is inside, no reader holds the lock, has been let in or is still on its way
-- out, and no fatal error has been raised.
pub Reachable-excludes :
    {w : World}
    → Reachable w
    → (w.failed ≡ false)
      × (w.writer ≡ inside
          → (w.holding ≡ 0) × (w.lock.reader_sema ≡ 0) × (w.departing ≡ 0) × (w.signalling ≡ 0))
Reachable-excludes r =
    let i = Reachable-IsSound r in
    (i.clean, λ e. let (_, a, b, idle) = at_phase i e in (a, b, idle.0, idle.1))

-- Nobody waits in vain: a writer that waits for the readers to leave has a permit, or some reader
-- that holds the lock, has been let in, is on its way out or is about to signal; and a reader that
-- queues has a permit, or a writer has the sign up or is letting the readers in.
pub Reachable-waits :
    {w : World}
    → Reachable w
    → (w.writer ≡ waiting
        → 0 < w.lock.writer_sema + w.holding + w.lock.reader_sema + w.departing + w.signalling)
      × (w.lock.reader_sema < w.queued
          → (w.writer ≢ absent) × (w.writer ≢ entering) × (w.writer ≢ releasing 0))
Reachable-waits {w = w} r =
    let i = Reachable-IsSound r in
    (
      (λ e.
          let (a, b, c, d, g, h) = at_phase i e in
          let some_left = attended w.lock.reader_wait (w.signalling + w.lock.writer_sema) h in
          omega (arith, b, some_left)),
      λ more. (
        (λ e. let (a, b, c) = at_phase i e in absurd (omega (arith, b, more))),
        (λ e. let (a, b, c) = at_phase i e in absurd (omega (arith, b, more))),
        λ e. let (a, b, c) = at_phase i e in absurd (omega (arith, b, more)),
      ),
    )
