-- ===== src/Semaphore/Waking.antt =====
-- `usema` of core/usync.cpp: permits are neither lost nor made up, and no waiting coroutine is
-- forgotten while there is a permit.
use uco.Prelude.{
  ℕ, suc, ◌+◌, ◌≤◌, ◌<◌, ◌≡◌, refl, ap, true, ◌==◌, ◌||◌, arith, Bool-cases, inl, inr,
}
use uco.Semaphore.{
  new_sema, try_wait, kill_broadcast, wake_one, Holder, nobody, raised, failed, World, after_spin,
  after_try, raise_nwait, after_last_try, park, raise_count, load_nwait, after_wake, after_kill,
  start, Step, call_wait, spin, call_try_wait, take_lock, last_try, push, call_signal, load, wake,
  kill, Reachable, started, stepped,
}

-- One coroutine holds the lock, raised or failed.
abbrev pub raisers : Holder → ℕ
raisers nobody = 0
raisers raised = 1
raisers failed = 0

abbrev pub failing : Holder → ℕ
failing nobody = 0
failing raised = 0
failing failed = 1

-- The permits add up, `nwait` counts the parked ones and the holder, and behind a parked coroutine
-- there is an awake one for each permit.
pub record IsSound (cnt : ℕ) (w : World) : Type 0 where
  pub permits : w.sema.count + w.served ≡ cnt + w.signals
  pub waits : w.sema.nwait ≡ w.sema.parked + raisers w.holder + failing w.holder
  pub awake :
      0 < w.sema.parked + failing w.holder
      → w.sema.count ≤ w.spinning + raisers w.holder + w.raising + w.locking
  pub dead : w.sema.killed ≡ true → w.sema.parked + raisers w.holder + failing w.holder ≡ 0

module _ (cnt : ℕ) (w : World) (i : IsSound cnt w) where
  step_spin :
      (others : ℕ) → w.spinning ≡ suc others → IsSound cnt (after_spin others w (try_wait w.sema))
  unfolding after_spin try_wait
  step_spin others e = elim (Bool-cases (w.sema.count == 0)) [
    | inl none_left ↦ rw none_left (record {
      permits = i.permits;
      waits = i.waits;
      awake = λ h. omega (arith, i.awake h, e);
      dead = i.dead;
    })
    | inr some_left ↦ rw some_left (record {
      permits = ground (arith, i.permits);
      waits = i.waits;
      awake = λ h. ground (arith, i.awake h, e);
      dead = i.dead;
    })
  ]

  step_try : IsSound cnt (after_try w (try_wait w.sema))
  unfolding after_try try_wait
  step_try = elim (Bool-cases (w.sema.count == 0)) [
    | inl none_left ↦ rw none_left i
    | inr some_left ↦ rw some_left (record {
      permits = ground (arith, i.permits);
      waits = i.waits;
      awake = λ h. ground (arith, i.awake h);
      dead = i.dead;
    })
  ]

  step_take_lock :
      (others : ℕ)
      → w.spinning ≡ suc others
      → w.holder ≡ nobody
      → IsSound cnt (raise_nwait others w)
  unfolding raise_nwait
  step_take_lock others e f =
      let r = ap raisers f in
      let g = ap failing f in
      elim (Bool-cases w.sema.killed) [
        | inl over ↦ rw over (record {
          permits = i.permits;
          waits = i.waits;
          awake = λ h. absurd (omega (arith, i.dead over, h));
          dead = λ h. i.dead over;
        })
        | inr alive ↦ rw alive (record {
          permits = i.permits;
          waits = omega (arith, i.waits, r, g);
          awake = λ h. omega (arith, i.awake (omega (arith, h, g)), e, r);
          dead = λ h. absurd (ground (arith, h, alive));
        })
      ]

  step_last_try : w.holder ≡ raised → IsSound cnt (after_last_try w (try_wait w.sema))
  unfolding after_last_try try_wait
  step_last_try f =
      let r = ap raisers f in
      let g = ap failing f in
      elim (Bool-cases (w.sema.count == 0)) [
        | inl none_left ↦ rw none_left (record {
          permits = i.permits;
          waits = omega (arith, i.waits, r, g);
          awake = λ h. ground (arith, none_left);
          dead = λ h. absurd (omega (arith, i.dead h, r));
        })
        | inr some_left ↦ rw some_left (record {
          permits = ground (arith, i.permits);
          waits = omega (arith, i.waits, r, g);
          awake = λ h. ground (arith, i.awake (omega (arith, h, g)), r, some_left);
          dead = λ h. absurd (omega (arith, i.dead h, r));
        })
      ]

  step_push : w.holder ≡ failed → IsSound cnt (park w)
  unfolding park
  step_push f =
      let r = ap raisers f in
      let g = ap failing f in
      record {
        permits = i.permits;
        waits = omega (arith, i.waits, r, g);
        awake = λ h. omega (arith, i.awake (omega (arith, g)), r);
        dead = λ h. absurd (omega (arith, i.dead h, g));
      }

  step_signal : IsSound cnt (raise_count w)
  unfolding raise_count
  step_signal = record {
    permits = omega (arith, i.permits);
    waits = i.waits;
    awake = λ h. omega (arith, i.awake h);
    dead = i.dead;
  }

  step_load : (others : ℕ) → w.raising ≡ suc others → IsSound cnt (load_nwait others w)
  unfolding load_nwait
  step_load others e = elim (Bool-cases (w.sema.nwait == 0)) [
    | inl unneeded ↦ rw unneeded (record {
      permits = i.permits;
      waits = i.waits;
      awake = λ h. absurd (ground (arith, i.waits, h, unneeded));
      dead = i.dead;
    })
    | inr needed ↦ rw needed (record {
      permits = i.permits;
      waits = i.waits;
      awake = λ h. omega (arith, i.awake h, e);
      dead = i.dead;
    })
  ]

  step_wake :
      (others : ℕ)
      → w.locking ≡ suc others
      → w.holder ≡ nobody
      → IsSound cnt (after_wake others w (wake_one w.sema))
  unfolding after_wake wake_one
  step_wake others e f =
      let r = ap raisers f in
      let g = ap failing f in
      elim (Bool-cases (w.sema.nwait == 0 || w.sema.parked == 0)) [
        | inl unneeded ↦ rw unneeded (record {
          permits = i.permits;
          waits = i.waits;
          awake = λ h. absurd (ground (arith, i.waits, h, unneeded, r, g));
          dead = i.dead;
        })
        | inr needed ↦ rw needed (record {
          permits = i.permits;
          waits = ground (arith, i.waits, needed);
          awake = λ h. ground (arith, i.awake (ground (arith, needed)), e, needed);
          dead = λ h. absurd (ground (arith, i.dead h, needed));
        })
      ]

  step_kill : w.holder ≡ nobody → IsSound cnt (after_kill w (kill_broadcast w.sema))
  unfolding after_kill kill_broadcast
  step_kill f =
      let r = ap raisers f in
      let g = ap failing f in
      record {
        permits = i.permits;
        waits = omega (arith, r, g);
        awake = λ h. absurd (omega (arith, h, g));
        dead = λ h. omega (arith, r, g);
      }

step-IsSound : {cnt : ℕ} {w v : World} → IsSound cnt w → Step w v → IsSound cnt v
step-IsSound {w = w} i call_wait = record {
  permits = i.permits;
  waits = i.waits;
  awake = λ h. omega (arith, i.awake h);
  dead = i.dead;
}
step-IsSound {cnt = cnt} {w = w} i (spin others e) = step_spin cnt w i others e
step-IsSound {cnt = cnt} {w = w} i call_try_wait = step_try cnt w i
step-IsSound {cnt = cnt} {w = w} i (take_lock others e f) = step_take_lock cnt w i others e f
step-IsSound {cnt = cnt} {w = w} i (last_try f) = step_last_try cnt w i f
step-IsSound {cnt = cnt} {w = w} i (push f) = step_push cnt w i f
step-IsSound {cnt = cnt} {w = w} i call_signal = step_signal cnt w i
step-IsSound {cnt = cnt} {w = w} i (load others e) = step_load cnt w i others e
step-IsSound {cnt = cnt} {w = w} i (wake others e f) = step_wake cnt w i others e f
step-IsSound {cnt = cnt} {w = w} i (kill f alive) = step_kill cnt w i f

Reachable-IsSound : {cnt : ℕ} {w : World} → Reachable cnt w → IsSound cnt w
unfolding start new_sema
Reachable-IsSound started = record {
  permits = refl;
  waits = omega arith;
  awake = λ h. absurd (omega arith);
  dead = λ h. cc;
}
Reachable-IsSound (stepped r s) = step-IsSound (Reachable-IsSound r) s

-- However waits, signals and a kill interleave: the permits and the waits that took one add up to
-- the permits given at first and the signals; and as long as a coroutine is parked while there is a
-- permit, another one is awake that tries to take it, or a signal is under way.
pub Reachable-awake :
    {cnt : ℕ} {w : World}
    → Reachable cnt w
    → (w.sema.count + w.served ≡ cnt + w.signals)
      × (0 < w.sema.parked
          → 0 < w.sema.count
          → 0 < w.spinning + raisers w.holder + w.raising + w.locking)
Reachable-awake r =
    let i = Reachable-IsSound r in (i.permits, λ p c. omega (arith, i.awake (omega (arith, p)), c))
