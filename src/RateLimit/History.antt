-- ===== src/RateLimit/History.antt =====
-- Sequences of calls of one counter of http/ratelimit.cpp, and the time it advises to wait.
use uco.Prelude.{
  ℕ, ◌+◌, ◌-◌, ◌*◌, ◌/◌, ◌%◌, ◌^◌, ◌≤◌, ◌<◌, ◌≡◌, ◌≢◌, refl, ap, sym, subst, true, List, [], ◌∷◌,
  none, some, inl, inr, ltb, leb, ◌==◌, ◌&&◌, if◌then◌else◌, arith, Bool-cases,
}
use native.Mathlib.Decide.{dec_lt}
use native.Mathlib.Nat.{div-add-mod', mod-lt, add-mul}
use uco.Prelude.Bytes.{Bytes, bytes_eq, bytes_eq_iff, bytes_eq_refl}
use uco.Prelude.Word.{size_of_int, int_of_size, int_lt, sub64}
use uco.Prelude.Dict.{lookup, insert, lookup-insert}
use uco.RateLimit.{
  Entry, Counter, init, retry_after, purge, entry_or_new, refresh, take_slot, is_none, allow,
}
use uco.RateLimit.Allow.{
  usage_of, usage, IsValid, refresh-window, allow_lem, allow-IsValid, take_slot-decides,
}

-- Requests in the order in which they take the mutex: the clock reading, and the key.
abbrev pub Calls : Type 0
Calls = List (ℕ × Bytes)

-- How many requests with key `q` a history lets pass in window `w`.
unfoldable pub grants : ℕ → Bytes → Counter → Calls → ℕ
grants w q c [] = 0
grants w q c ((now_ms, key) ∷ calls) =
    (if (allow c now_ms key).1 && (bytes_eq key q && (now_ms / c.window_ms == w)) then 1 else 0)
    + grants w q (allow c now_ms key).0 calls

-- The clock readings do not fall, and start in window `v` or later.
abbrev pub Ordered : ℕ → ℕ → Calls → Type 0
Ordered window_ms v [] = Unit
Ordered window_ms v ((now_ms, key) ∷ calls) =
    (v ≤ now_ms / window_ms) × Ordered window_ms (now_ms / window_ms) calls

-- No entry is of a window after `v`.
abbrev pub Past : ℕ → List (Bytes × Entry) → Type 0
Past v [] = Unit
Past v ((k, e) ∷ m) = (e.window ≤ v) × Past v m

Past-mono : (v w : ℕ) (m : List (Bytes × Entry)) → v ≤ w → Past v m → Past w m
Past-mono v w [] h p = tt
Past-mono v w ((k, e) ∷ m) h p = (omega arith, Past-mono v w m h p.1)

Past-insert :
    (v : ℕ) (k : Bytes) (e : Entry) (m : List (Bytes × Entry))
    → e.window ≡ v
    → Past v m
    → Past v (insert k e m)
unfolding insert
Past-insert v k e [] h p = (omega arith, tt)
Past-insert v k e ((j, d) ∷ m) h p = ground (arith, Past-insert v k e m h p.1)

Past-purge : (v w : ℕ) (m : List (Bytes × Entry)) → Past v m → Past v (purge w m)
unfolding purge
Past-purge v w [] p = tt
Past-purge v w ((k, e) ∷ m) p = ground (arith, Past-purge v w m p.1)

usage-later :
    (v w : ℕ) (q : Bytes) (m : List (Bytes × Entry))
    → v < w
    → Past v m
    → usage_of w (lookup q m) ≡ 0
unfolding lookup
usage-later v w q [] h p = refl
usage-later v w q ((k, e) ∷ m) h p = ground (arith, usage-later v w q m h p.1)

take_slot-Past :
    (c : Counter) (w : ℕ) (key : Bytes) → Past w c.entries → Past w (take_slot c w key).0.entries
unfolding take_slot
take_slot-Past c w key p =
    let e = refresh w (entry_or_new (lookup key c.entries)) in
    let now = refresh-window w (entry_or_new (lookup key c.entries)) in
    ground (
      arith,
      Past-insert w key e c.entries now p,
      Past-insert w key (record e { count = e.count + 1 }) c.entries now p,
    )

allow-Past :
    (c : Counter) (now_ms : ℕ) (key : Bytes)
    → Past (now_ms / c.window_ms) c.entries
    → Past (now_ms / c.window_ms) (allow c now_ms key).0.entries
unfolding allow
allow-Past c now_ms key p =
    let w = now_ms / c.window_ms in
    let gone = Past-purge w w c.entries p in
    ground (
      arith,
      gone,
      take_slot-Past c w key p,
      take_slot-Past (record c { entries = purge w c.entries }) w key gone,
    )

allow-config :
    (c : Counter) (now_ms : ℕ) (key : Bytes)
    → ((allow c now_ms key).0.limit ≡ c.limit) × ((allow c now_ms key).0.window_ms ≡ c.window_ms)
unfolding allow take_slot
allow-config c now_ms key = ground arith

-- Nothing of window `w` is granted once the readings have left it behind.
grants-late :
    (w v : ℕ) (q : Bytes) (c : Counter) (calls : Calls)
    → w < v
    → Ordered c.window_ms v calls
    → grants w q c calls ≡ 0
unfolding grants
grants-late w v q c [] h o = refl
grants-late w v q c ((now_ms, key) ∷ calls) h o =
    let same = (allow-config c now_ms key).1 in
    let rest =
      grants-late w (now_ms / c.window_ms) q (allow c now_ms key).0 calls (omega arith)
        (subst (λ ms. Ordered ms (now_ms / c.window_ms) calls) (sym same) o.1) in
    ground (arith, rest)

-- One call: what it grants in window `w` is paid for by the usage there.
step_bound :
    (w : ℕ) (q : Bytes) (c : Counter) (now_ms : ℕ) (key : Bytes)
    → IsValid c
    → Past (now_ms / c.window_ms) c.entries
    → now_ms / c.window_ms ≤ w
    → usage w q c ≤ size_of_int c.limit
    → let grant : ℕ =
        if (allow c now_ms key).1 && (bytes_eq key q && (now_ms / c.window_ms == w))
        then 1
        else 0 in
      (usage w q (allow c now_ms key).0 ≡ usage w q c + grant)
      × (usage w q c + grant ≤ size_of_int c.limit)
step_bound w q c now_ms key i p le h = elim (dec_lt (now_ms / c.window_ms) w) [
  | yes early ↦ ground (
    arith,
    usage-later (now_ms / c.window_ms) w q c.entries early p,
    usage-later (now_ms / c.window_ms) w q (allow c now_ms key).0.entries early
        (allow-Past c now_ms key p),
  )
  | no late ↦
      let e : now_ms / c.window_ms ≡ w = omega arith in
      ground (arith, e, bytes_eq_iff key q, rw e at (allow_lem c now_ms key q i))
]

grants_bound :
    (w v : ℕ) (q : Bytes) (c : Counter) (calls : Calls)
    → IsValid c
    → Past v c.entries
    → Ordered c.window_ms v calls
    → usage w q c ≤ size_of_int c.limit
    → usage w q c + grants w q c calls ≤ size_of_int c.limit
unfolding grants
grants_bound w v q c [] i p o h = omega arith
grants_bound w v q c ((now_ms, key) ∷ calls) i p o h =
    let now = now_ms / c.window_ms in
    let next = (allow c now_ms key).0 in
    let p0 = Past-mono v now c.entries o.0 p in
    let (limit_same, ms_same) = allow-config c now_ms key in
    let o' = subst (λ ms. Ordered ms now calls) (sym ms_same) o.1 in
    elim (dec_lt w now) [
      | yes late ↦ ground (arith, grants-late w now q next calls late o')
      | no due ↦
          let (step, fits) = step_bound w q c now_ms key i p0 (omega arith) h in
          let rest =
            grants_bound w now q next calls (allow-IsValid c now_ms key i)
              (allow-Past c now_ms key p0) o' (rw (limit_same, step) fits) in
          omega (arith, rest, step, ap size_of_int limit_same)
    ]

-- The constructor accepts exactly the positive limits and window lengths, and makes an empty
-- counter with the window in milliseconds.
pub init_lem :
    (limit sec : ℕ)
    → limit < 2 ^ 32
    → sec < 2 ^ 32
    → init limit sec ≡ (
        if ltb 0 limit && (ltb limit (2 ^ 31) && (ltb 0 sec && ltb sec (2 ^ 31)))
        then some (record { limit = limit; window_ms = sec * 1000; entries = [] })
        else none)
unfolding init int_lt size_of_int
init_lem limit sec h k = ground arith

usage_empty : (w : ℕ) (q : Bytes) → usage_of w (lookup q []) ≡ 0
unfolding lookup
usage_empty w q = refl

-- However many requests come, of a fresh counter no window grants one key more than the limit, as
-- long as the clock readings do not fall from one call to the next.
pub grants-le-limit :
    (limit sec w : ℕ) (q : Bytes) (calls : Calls) (c : Counter)
    → limit < 2 ^ 32
    → sec < 2 ^ 32
    → init limit sec ≡ some c
    → Ordered c.window_ms 0 calls
    → grants w q c calls ≤ limit
unfolding size_of_int
grants-le-limit limit sec w q calls c h k e o =
    let made = init_lem limit sec h k in
    let facts : (c.entries ≡ []) × (size_of_int c.limit ≡ limit) = ground (arith, made) in
    let valid : IsValid c = record {
      distinct = rw facts.0 tt;
      bounded = rw facts.0 (omega arith);
    } in
    let unused : usage w q c ≡ 0 = rw facts.0 (usage_empty w q) in
    omega (
      arith,
      unused,
      facts.1,
      grants_bound w 0 q c calls valid (rw facts.0 tt) o (omega (arith, unused)),
    )

remain_lem :
    (W now : ℕ)
    → 0 < W
    → W ≤ 1000 * (2 ^ 31 - 1)
    → now < 2 ^ 63
    → sub64 ((now / W + 1) * W % 2 ^ 64) now ≡ W - now % W
unfolding sub64
remain_lem W now h k l =
    rw (add-mul (now / W) 1 W) (omega (arith, div-add-mod' now W, mod-lt now h))

round_up :
    (remain : ℕ)
    → 0 < remain
    → remain ≤ 1000 * (2 ^ 31 - 1)
    → let retry = int_of_size ((remain + 999) % 2 ^ 64 / 1000) in
      let advice : ℕ = if int_lt retry 1 then 1 else retry in
      (1 ≤ advice) × (remain ≤ 1000 * advice) × (1000 * advice < remain + 1000)
unfolding int_lt int_of_size
round_up remain h k = ground arith

-- The advice is the time to the next window in whole seconds, rounded up: never less than one
-- second, and after it the window has passed.
pub retry_after_lem :
    (c : Counter) (now_ms : ℕ)
    → 0 < c.window_ms
    → c.window_ms ≤ 1000 * (2 ^ 31 - 1)
    → now_ms < 2 ^ 63
    → let remain = c.window_ms - now_ms % c.window_ms in
      (1 ≤ retry_after c now_ms)
      × (remain ≤ 1000 * retry_after c now_ms)
      × (1000 * retry_after c now_ms < remain + 1000)
unfolding retry_after
retry_after_lem c now_ms h k l =
    let below = mod-lt now_ms h in
    rw (remain_lem c.window_ms now_ms h k l)
      (round_up (c.window_ms - now_ms % c.window_ms) (omega arith) (omega arith))

take_slot_notes :
    (c : Counter) (w : ℕ) (key : Bytes)
    → (d : Entry) × (lookup key (take_slot c w key).0.entries ≡ some d) × (d.window ≡ w)
unfolding take_slot
take_slot_notes c w key =
    let d = refresh w (entry_or_new (lookup key c.entries)) in
    let more = record d { count = d.count + 1 } in
    let now = refresh-window w (entry_or_new (lookup key c.entries)) in
    let same = bytes_eq_refl key in
    elim (Bool-cases (leb (size_of_int c.limit) d.count)) [
      | inl used ↦ rw used (d, rw (lookup-insert key key d c.entries, same), now)
      | inr free ↦ rw free (more, rw (lookup-insert key key more c.entries, same), now)
    ]

allow_known :
    (c : Counter) (now_ms : ℕ) (key : Bytes) (e : Entry)
    → lookup key c.entries ≡ some e
    → allow c now_ms key ≡ take_slot c (now_ms / c.window_ms) key
unfolding allow is_none
allow_known c now_ms key e found = rw (found, is_none)

allow_other_window :
    (c : Counter) (now_ms : ℕ) (key : Bytes) (e : Entry)
    → lookup key c.entries ≡ some e
    → e.window ≢ now_ms / c.window_ms
    → 0 < size_of_int c.limit
    → (allow c now_ms key).1 ≡ true
allow_other_window c now_ms key e found other positive =
    let w = now_ms / c.window_ms in
    rw (allow_known c now_ms key e found) (ground (arith, take_slot-decides c w key))

allow_notes :
    (c : Counter) (now_ms : ℕ) (key : Bytes) (e : Entry)
    → lookup key c.entries ≡ some e
    → (d : Entry) × (lookup key (allow c now_ms key).0.entries ≡ some d)
      × (d.window ≡ now_ms / c.window_ms)
allow_notes c now_ms key e found =
    rw (allow_known c now_ms key e found) (take_slot_notes c (now_ms / c.window_ms) key)

-- `Allow` reads the clock before it takes the mutex, so a call can come in with a reading of an
-- earlier window than that of the key's entry. Such a call is let through however much the key has
-- used, and the next call of the entry's own window finds the usage forgotten.
pub allow_stale :
    (c : Counter) (stale_ms now_ms : ℕ) (key : Bytes) (e : Entry)
    → lookup key c.entries ≡ some e
    → e.window ≡ now_ms / c.window_ms
    → stale_ms / c.window_ms ≢ e.window
    → 0 < size_of_int c.limit
    → ((allow c stale_ms key).1 ≡ true) × ((allow (allow c stale_ms key).0 now_ms key).1 ≡ true)
allow_stale c stale_ms now_ms key e found current stale positive =
    let next = (allow c stale_ms key).0 in
    let (e', found', window') = allow_notes c stale_ms key e found in
    let (limit_same, ms_same) = allow-config c stale_ms key in
    let other : e'.window ≢ now_ms / next.window_ms = rw ms_same (λ q. stale (omega arith)) in
    (
      allow_other_window c stale_ms key e found (λ q. stale (sym q)) positive,
      allow_other_window next now_ms key e' found' other (rw limit_same positive),
    )
