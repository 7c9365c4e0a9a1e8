-- ===== src/Redis/Pool/Slots.antt =====
-- core/uredis.cpp, `upool`: the slots of the pool, who has a connection, and what `Close` does to the
-- coroutines that wait.
use uco.Prelude.{
  ℕ, suc, ◌+◌, ◌≡◌, ◌≤◌, refl, ap, ◌∙◌, Bool, true, false, not, ◌&&◌, List, [], ◌∷◌, ◌++◌, ◌==◌,
  ltb, if◌then◌else◌, length, arith, length-append, Bool-cases, inl, inr,
}
use uco.Prelude.Occurs.{occurs, occurs-append, occurs-cons, occurs-one, occurs-middle}
use uco.Redis.Pool.{
  erase_all, upool, register, first_idle, resume, enroll, give_back, shut, reap_front, reap,
}
use uco.Redis.Pool.World.{
  World, start, after_register, after_resume, after_enroll, after_release, after_close, after_reap,
  live, Step, call_acquire, take_permit, go_on, connected, not_connected, hand_out, call_release,
  signal, call_close, wake, call_reap, Reachable, started, stepped,
}

occurs-erase_all :
    (c x : ℕ) (l : List ℕ) → occurs c (erase_all x l) ≡ (if x == c then 0 else occurs c l)
unfolding occurs erase_all
occurs-erase_all c x [] = ground arith
occurs-erase_all c x (y ∷ l) = ground (arith, occurs-erase_all c x l)

-- The state of a pool that is open: every slot is a permit or has its user, and the pool knows the
-- connections that are idle or lent.
pub record IsOpen (c : ℕ) (w : World) : Type 0 where
  pub slots :
      w.permits + w.passed + w.connecting + length w.made + length w.lent + w.signalling
      ≡ w.pool.max_size
  pub no_waking : w.waking ≡ 0
  pub known : occurs c w.pool.all ≡ occurs c w.pool.idle + occurs c w.lent

pub record IsSound (max_size c : ℕ) (w : World) : Type 0 where
  pub size : w.pool.max_size ≡ (if max_size == 0 then 1 else max_size)
  pub pending : w.pool.pending_permit_waits ≡ w.waiting + w.passed
  pub unique : live c w ≤ 1
  pub is_open : w.pool.closed ≡ false → IsOpen c w
  pub awake : w.pool.closed ≡ true → w.waiting ≤ w.permits + w.waking

start-IsSound : (max_size min_idle c : ℕ) → IsSound max_size c (start max_size min_idle)
unfolding start upool occurs
start-IsSound max_size min_idle c = record {
  size = refl;
  pending = refl;
  unique = omega arith;
  is_open = λ h. record { slots = omega arith; no_waking = refl; known = refl };
  awake = λ h. cc;
}

module _ (max_size c : ℕ) (w : World) (i : IsSound max_size c w) where
  step_register : IsSound max_size c (after_register w (register w.pool))
  unfolding after_register register
  step_register = ground arith

  step_resume :
      (others : ℕ)
      → w.passed ≡ suc others
      → IsSound max_size c (after_resume others w (resume w.pool))
  unfolding after_resume resume first_idle occurs
  step_resume others e = ground arith

  step_permit :
      (others left : ℕ)
      → w.waiting ≡ suc others
      → w.permits ≡ suc left
      → IsSound max_size c (record w { waiting = others; permits = left; passed = w.passed + 1 })
  step_permit others left e f = ground arith

  step_connected :
      (others x : ℕ)
      → w.connecting ≡ suc others
      → live x w ≡ 0
      → IsSound max_size c (record w { connecting = others; made = x ∷ w.made })
  unfolding occurs
  step_connected others x e f = ground arith

  step_not_connected :
      (others : ℕ)
      → w.connecting ≡ suc others
      → IsSound max_size c (record w { connecting = others; signalling = w.signalling + 1 })
  step_not_connected others e = ground arith

  step_hand_out :
      (x : ℕ) (before behind : List ℕ)
      → w.made ≡ before ++ (x ∷ behind)
      → IsSound max_size c (after_enroll x (before ++ behind) w (enroll x w.pool))
  unfolding after_enroll enroll
  step_hand_out x before behind e = ground (
    arith,
    ap (occurs c) e,
    occurs-middle c x before behind,
    ap length e,
    length-append before (x ∷ behind),
    length-append before behind,
    occurs-cons c x w.pool.all,
    occurs-cons c x w.lent,
  )

  step_release :
      (x : ℕ) (broken : Bool) (before behind : List ℕ)
      → w.lent ≡ before ++ (x ∷ behind)
      → IsSound max_size c (after_release x (before ++ behind) w (give_back x broken w.pool))
  unfolding after_release give_back
  step_release x broken before behind e = ground (
    arith,
    ap (occurs c) e,
    occurs-middle c x before behind,
    ap length e,
    length-append before (x ∷ behind),
    length-append before behind,
    occurs-append c w.pool.idle (x ∷ []),
    occurs-erase_all c x w.pool.all,
    occurs-one c x,
  )

  step_signal :
      (others : ℕ)
      → w.signalling ≡ suc others
      → IsSound max_size c (record w { signalling = others; permits = w.permits + 1 })
  step_signal others e = ground arith

  step_wake :
      (others : ℕ)
      → w.waking ≡ suc others
      → IsSound max_size c (record w { waking = others; permits = w.permits + 1 })
  step_wake others e = ground arith

  step_close : IsSound max_size c (after_close w (shut w.pool))
  unfolding after_close shut occurs
  step_close = ground arith

  step_reap_front :
      (l : List ℕ)
      → w.pool.idle ≡ l
      → w.pool.closed ≡ false
      → IsSound max_size c (after_reap w (reap_front w.pool l))
  unfolding after_reap reap_front
  step_reap_front [] e up = ground arith
  step_reap_front (x ∷ l) e up =
      ground
        (arith, ap (occurs c) e, occurs-cons c x l, occurs-one c x, occurs-erase_all c x w.pool.all)

  step_reap : IsSound max_size c (after_reap w (reap w.pool))
  unfolding reap after_reap
  step_reap = elim (Bool-cases (not w.pool.closed && ltb w.pool.min_idle (length w.pool.idle))) [
    | inl e ↦ rw e (step_reap_front w.pool.idle refl (ground arith))
    | inr e ↦ rw e i
  ]

step-IsSound :
    (max_size c : ℕ) {w v : World} → IsSound max_size c w → Step w v → IsSound max_size c v
step-IsSound max_size c i call_acquire = step_register max_size c _ i
step-IsSound max_size c i (take_permit others left e f) = step_permit max_size c _ i others left e f
step-IsSound max_size c i (go_on others e) = step_resume max_size c _ i others e
step-IsSound max_size c i (connected others x e f) = step_connected max_size c _ i others x e f
step-IsSound max_size c i (not_connected others e) = step_not_connected max_size c _ i others e
step-IsSound max_size c i (hand_out x before behind e) =
    step_hand_out max_size c _ i x before behind e
step-IsSound max_size c i (call_release x broken before behind e) =
    step_release max_size c _ i x broken before behind e
step-IsSound max_size c i (signal others e) = step_signal max_size c _ i others e
step-IsSound max_size c i call_close = step_close max_size c _ i
step-IsSound max_size c i (wake others e) = step_wake max_size c _ i others e
step-IsSound max_size c i call_reap = step_reap max_size c _ i

pub Reachable-IsSound :
    (max_size min_idle c : ℕ) {w : World} → Reachable max_size min_idle w → IsSound max_size c w
Reachable-IsSound max_size min_idle c started = start-IsSound max_size min_idle c
Reachable-IsSound max_size min_idle c (stepped r s) =
    step-IsSound max_size c (Reachable-IsSound max_size min_idle c r) s

-- However the coroutines take turns: while the pool is open no more connections are lent or being
-- made than it has slots, one at the least, and a connection is lent to one user or idle, never
-- both; it is then one of the connections that `Close` closes.
pub Reachable-lends :
    (max_size min_idle c : ℕ) {w : World}
    → Reachable max_size min_idle w
    → w.pool.closed ≡ false
    → (length w.lent + length w.made + w.connecting ≤ (if max_size == 0 then 1 else max_size))
      × (occurs c w.lent + occurs c w.pool.idle ≤ 1)
      × (occurs c w.pool.all ≡ occurs c w.lent + occurs c w.pool.idle)
Reachable-lends max_size min_idle c r up =
    let i = Reachable-IsSound max_size min_idle c r in
    let o = i.is_open up in
    (omega (arith, i.size, o.slots), omega (arith, i.unique), omega (arith, o.known))

-- No permit of the pool is lost. While it is open there are as many permits, with the coroutines
-- that passed, connect, hold a connection or are about to give a permit back, as it has slots, one at
-- the least; so an `Acquire` that finds no permit waits for slots that are all in use. Once the pool
-- is closed there is a permit, given or about to be given by `Close`, for each that waits.
pub Reachable-wakes :
    (max_size min_idle : ℕ) {w : World}
    → Reachable max_size min_idle w
    → (w.pool.closed ≡ false
        → w.permits + w.passed + w.connecting + length w.made + length w.lent + w.signalling
          ≡ (if max_size == 0 then 1 else max_size))
      × (w.pool.closed ≡ true → w.waiting ≤ w.permits + w.waking)
Reachable-wakes max_size min_idle r =
    let i = Reachable-IsSound max_size min_idle 0 r in
    (λ up. (i.is_open up).slots ∙ i.size, i.awake)

-- A connection that is lent when the pool is closed is handed to `uclose` by `Close`, and again, by
-- `Release`, when its user gives it back: the second call frees it twice.
pub release-close :
    (max_size min_idle c : ℕ) {w : World} (broken : Bool) (before behind : List ℕ)
    → Reachable max_size min_idle w
    → w.pool.closed ≡ false
    → w.lent ≡ before ++ (c ∷ behind)
    → let v = after_close w (shut w.pool) in
      occurs c w.freed + 2
      ≤ occurs c (after_release c (before ++ behind) v (give_back c broken v.pool)).freed
unfolding after_close after_release shut give_back
release-close max_size min_idle c {w} broken before behind r up e =
    let known = ((Reachable-IsSound max_size min_idle c r).is_open up).known in
    ground (
      arith,
      ap (occurs c) e,
      occurs-middle c c before behind,
      occurs-one c c,
      occurs-append c w.pool.all w.freed,
      occurs-cons c c (w.pool.all ++ w.freed),
    )
