-- ===== src/RwLock/Writers.antt =====
-- `ushared_mutex` of core/usync.cpp: how the counters account for the coroutines, and that the
-- accesses of writers keep the account.
use uco.Prelude.{
  ℕ, ◌+◌, ◌-◌, ◌≤◌, ◌<◌, ◌≡◌, ◌%◌, ◌^◌, subst, false, ◌==◌, arith, Bool-cases, inl, inr,
}
use uco.Prelude.Word.{int_lt}
use uco.RwLock.{
  RwLock, max_readers, minus_max, int_add, int_neg, announce, count_readers, try_announce, withdraw,
}
use uco.RwLock.World.{
  Phase, absent, entering, waiting, inside, announced, releasing, World, after_announce,
  after_count, after_try_lock, after_withdraw,
}

-- Nothing is left of an earlier writer.
abbrev pub Idle : RwLock → ℕ → ℕ → Type 0
Idle m d s = (d ≡ 0) × (s ≡ 0) × (m.reader_wait ≡ 0) × (m.writer_sema ≡ 0)

-- The sign is up, and the readers' counter has everyone who holds or queues.
abbrev pub Up : RwLock → ℕ → ℕ → Type 0
Up m h q = (m.readers ≡ h + q + minus_max) × (m.reader_sema ≤ q)

-- The lock against where the writer stands and the numbers of readers that hold, queue, depart and
-- signal. A reader with a permit counts as one that holds.
abbrev pub Accounts : Phase → RwLock → ℕ → ℕ → ℕ → ℕ → Type 0
Accounts absent m h q d s = (m.readers ≡ h + q) × (m.reader_sema ≡ q) × Idle m d s
Accounts entering m h q d s = (m.readers ≡ h + q) × (m.reader_sema ≡ q) × Idle m d s
Accounts (announced r) m h q d s =
    Up m h q
    × (1 ≤ r)
    × (r < max_readers)
    × (h + m.reader_sema + d ≤ r)
    × (m.reader_wait ≡ (h + m.reader_sema + d + 2 ^ 32 - r) % 2 ^ 32)
    × (s ≡ 0)
    × (m.writer_sema ≡ 0)
Accounts waiting m h q d s =
    Up m h q
    × (m.reader_wait ≡ h + m.reader_sema + d)
    × (m.reader_wait < max_readers)
    × (s + m.writer_sema ≤ 1)
    × (0 < m.reader_wait → s + m.writer_sema ≡ 0)
    × (m.reader_wait ≡ 0 → s + m.writer_sema ≡ 1)
Accounts inside m h q d s = Up m h q × (h ≡ 0) × (m.reader_sema ≡ 0) × Idle m d s
Accounts (releasing n) m h q d s = (m.readers ≡ h + q) × (q ≡ m.reader_sema + n) × Idle m d s

pub record IsSound (w : World) : Type 0 where
  pub accounts : Accounts w.writer w.lock w.holding w.queued w.departing w.signalling
  pub bounded : w.holding + w.queued < max_readers
  pub clean : w.failed ≡ false

-- The account at the phase that the writer is known to be in.
pub at_phase :
    {w : World} {p : Phase}
    → IsSound w
    → w.writer ≡ p
    → Accounts p w.lock w.holding w.queued w.departing w.signalling
at_phase {w = w} i e =
    subst (λ p. Accounts p w.lock w.holding w.queued w.departing w.signalling) e i.accounts

pub step_announce :
    (w : World) → IsSound w → w.writer ≡ entering → IsSound (after_announce w (announce w.lock))
unfolding after_announce announce int_add
step_announce w i e =
    let (count, permits, idle) = at_phase i e in
    let bound = i.bounded in
    record {
      accounts = elim (Bool-cases (w.lock.readers == 0)) [
        | inl none_there ↦ rw none_there (ground arith)
        | inr some_there ↦ rw some_there (ground arith)
      ];
      bounded = i.bounded;
      clean = i.clean;
    }

pub step_count :
    (w : World) (r : ℕ)
    → IsSound w
    → w.writer ≡ announced r
    → IsSound (after_count w (count_readers r w.lock))
unfolding after_count count_readers int_add int_neg
step_count w r i e =
    let (up, some_there, small, fewer, wait, no_signal, no_permit) = at_phase i e in
    let bound = i.bounded in
    record {
      accounts = elim (Bool-cases (w.lock.reader_wait == int_neg r)) [
        | inl gone ↦ rw gone (ground arith)
        | inr there ↦ rw there (ground arith)
      ];
      bounded = i.bounded;
      clean = i.clean;
    }

pub step_try_lock :
    (w : World) → IsSound w → w.writer ≡ absent → IsSound (after_try_lock w (try_announce w.lock))
unfolding after_try_lock try_announce
step_try_lock w i e =
    let (count, permits, idle) = at_phase i e in
    elim (Bool-cases (w.lock.readers == 0)) [
      | inl none_there ↦
          rw none_there (record { accounts = ground arith; bounded = i.bounded; clean = i.clean })
      | inr some_there ↦
          rw some_there (record { accounts = ground arith; bounded = i.bounded; clean = i.clean })
    ]

pub step_withdraw :
    (w : World) → IsSound w → w.writer ≡ inside → IsSound (after_withdraw w (withdraw w.lock))
unfolding after_withdraw withdraw int_add int_lt
step_withdraw w i e =
    let (up, no_reader, no_permit, idle) = at_phase i e in
    let bound = i.bounded in
    record { accounts = ground arith; bounded = i.bounded; clean = ground (arith, i.clean) }
