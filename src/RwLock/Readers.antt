-- ===== src/RwLock/Readers.antt =====
-- `ushared_mutex` of core/usync.cpp: the accesses of readers keep the account of the counters,
-- wherever the writer stands.
use uco.Prelude.{
  ℕ, suc, ◌+◌, ◌-◌, ◌<◌, ◌≡◌, ◌%◌, ◌^◌, ap, ◌∙◌, true, false, ◌==◌, if◌then◌else◌, arith,
  Bool-cases, ==_iff, inl, inr, ◌⊎◌,
}
use uco.Prelude.Word.{int_lt}
use uco.RwLock.{RwLock, max_readers, int_add}
use uco.RwLock.World.{Phase, absent, entering, waiting, inside, announced, releasing}
use uco.RwLock.Writers.{Accounts}

-- The steps of readers do not move the writer: they keep the account at each phase.
module _ (m : RwLock) (h q d s : ℕ) where
  abbrev pub entered : RwLock
  entered = record m { readers = int_add m.readers 1 }

  pub queue-Accounts :
      (p : Phase)
      → h + q + 1 < max_readers
      → int_lt m.readers 0 ≡ true
      → Accounts p m h q d s
      → Accounts p entered h (q + 1) d s
  unfolding int_add int_lt
  queue-Accounts absent bound up (count, permits, idle) = absurd (ground arith)
  queue-Accounts entering bound up (count, permits, idle) = absurd (ground arith)
  queue-Accounts (releasing n) bound up (count, permits, idle) = absurd (ground arith)
  queue-Accounts (announced r) bound up a = ground arith
  queue-Accounts waiting bound up (a, b, c, e, f, g) = (ground arith, b, c, e, f, g)
  queue-Accounts inside bound up a = ground arith

  pub hold-Accounts :
      (p : Phase)
      → h + q + 1 < max_readers
      → int_lt m.readers 0 ≡ false
      → Accounts p m h q d s
      → Accounts p entered (h + 1) q d s
  unfolding int_add int_lt
  hold-Accounts absent bound free a = ground arith
  hold-Accounts entering bound free a = ground arith
  hold-Accounts (releasing n) bound free a = ground arith
  hold-Accounts (announced r) bound free (a, b, c, e, f, g, l) = absurd (ground arith)
  hold-Accounts waiting bound free (a, b, c, e, f, g) = absurd (ground arith)
  hold-Accounts inside bound free (a, b, c, e) = absurd (ground arith)

  pub wake-Accounts :
      (p : Phase) (n k : ℕ)
      → m.reader_sema ≡ suc n
      → q ≡ suc k
      → Accounts p m h q d s
      → Accounts p (record m { reader_sema = n }) (h + 1) k d s
  wake-Accounts absent n k x y a = ground arith
  wake-Accounts entering n k x y a = ground arith
  wake-Accounts (releasing i) n k x y a = ground arith
  wake-Accounts (announced r) n k x y (a, b, c, e, f, g, l) = (
    ground arith,
    b,
    c,
    ground arith,
    f ∙ ap (λ t. (t + 2 ^ 32 - r) % 2 ^ 32) (omega (arith, x)),
    g,
    l,
  )
  wake-Accounts waiting n k x y (a, b, c, e, f, g) = (ground arith, ground arith, c, e, f, g)
  wake-Accounts inside n k x y (a, b, c, e) = absurd (omega (arith, x, c))

  -- What leaving leads to, and that it is no fatal error.
  pub leave-Accounts :
      (p : Phase) (k : ℕ)
      → h ≡ suc k
      → h + q < max_readers
      → Accounts p m h q d s
      → ((int_lt 0 m.readers ≡ true)
          × Accounts p (record m { readers = int_add m.readers (2 ^ 32 - 1) }) k q d s)
        ⊎ ((int_lt 0 m.readers ≡ false)
            × ((m.readers == 0) ≡ false)
            × Accounts p (record m { readers = int_add m.readers (2 ^ 32 - 1) }) k q (d + 1) s)
  unfolding int_add int_lt
  leave-Accounts absent k x bound a = inl (ground arith)
  leave-Accounts entering k x bound a = inl (ground arith)
  leave-Accounts (releasing n) k x bound a = inl (ground arith)
  leave-Accounts (announced r) k x bound (a, b, c, e, f, g, l) = inr (
    ground arith,
    ground arith,
    (
      ground arith,
      b,
      c,
      ground arith,
      f ∙ ap (λ t. (t + 2 ^ 32 - r) % 2 ^ 32) (omega (arith, x)),
      g,
      l,
    ),
  )
  leave-Accounts waiting k x bound (a, b, c, e, f, g) =
      inr (ground arith, ground arith, (ground arith, ground arith, c, e, f, g))
  leave-Accounts inside k x bound (a, b, c, e) = absurd (omega (arith, x, b))

  pub depart-Accounts :
      (p : Phase) (k : ℕ)
      → d ≡ suc k
      → Accounts p m h q d s
      → Accounts p
          (record m { reader_wait = int_add m.reader_wait (2 ^ 32 - 1) })
          h
          q
          k
          (if m.reader_wait == 1 then s + 1 else s)
  unfolding int_add
  depart-Accounts absent k x (a, b, c) = absurd (ground arith)
  depart-Accounts entering k x (a, b, c) = absurd (ground arith)
  depart-Accounts (releasing n) k x (a, b, c) = absurd (ground arith)
  depart-Accounts (announced r) k x (a, b, c, e, f, g, l) =
      let other : (m.reader_wait == 1) ≡ false = ground (arith, x, e, f, c) in
      rw other (a, b, c, omega (arith, e, x), omega (arith, f, e, x, c, b), g, l)
  depart-Accounts waiting k x (a, b, c, e, f, g) = elim (Bool-cases (m.reader_wait == 1)) [
    | inl last ↦
        let one = (==_iff m.reader_wait 1).0 last in
        rw last (
          a,
          omega (arith, b, x, one),
          omega (arith, one),
          omega (arith, f (omega (arith, one))),
          (λ y. absurd (omega (arith, y, one))),
          λ y. omega (arith, f (omega (arith, one))),
        )
    | inr more ↦
        let many : 1 < m.reader_wait = ground (arith, b, x, more) in
        rw more (
          a,
          omega (arith, b, x, c),
          omega (arith, c, many),
          e,
          (λ y. f (omega (arith, many))),
          λ y. absurd (omega (arith, y, many, c)),
        )
  ]
  depart-Accounts inside k x (a, b, c, e) = absurd (ground arith)

  pub signal-Accounts :
      (p : Phase) (k : ℕ)
      → s ≡ suc k
      → Accounts p m h q d s
      → Accounts p (record m { writer_sema = m.writer_sema + 1 }) h q d k
  signal-Accounts absent k x (a, b, c) = absurd (ground arith)
  signal-Accounts entering k x (a, b, c) = absurd (ground arith)
  signal-Accounts (releasing n) k x (a, b, c) = absurd (ground arith)
  signal-Accounts (announced r) k x (a, b, c, e, f, g, l) = absurd (omega (arith, x, g))
  signal-Accounts waiting k x (a, b, c, e, f, g) = (
    a,
    b,
    c,
    omega (arith, e, x),
    λ y. absurd (omega (arith, f y, x)),
    λ y. omega (arith, g y, x),
  )
  signal-Accounts inside k x (a, b, c, e) = absurd (ground arith)
