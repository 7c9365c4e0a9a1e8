-- ===== src/RateLimit/Allow.antt =====
-- `Counter::Allow` of http/ratelimit.cpp: what one call decides, counts and keeps.
use uco.Prelude.{
  ℕ, ◌+◌, ◌/◌, ◌≤◌, ◌≡◌, refl, Bool, false, not, List, [], ◌∷◌, Option, none, some, inl, inr, ltb,
  leb, ◌==◌, ◌&&◌, if◌then◌else◌, length, arith, Bool-cases, Option-cases,
}
use uco.Prelude.Bytes.{Bytes, bytes_eq, bytes_eq_iff}
use uco.Prelude.Word.{size_of_int}
use uco.Prelude.Dict.{lookup, insert, lookup-insert, length-insert, length-insert_old}
use uco.RateLimit.{
  Entry, Counter, max_keys, purge, entry_or_new, refresh, take_slot, is_none, allow,
}

-- How much of the limit the key has used in a window.
abbrev pub usage_of : ℕ → Option Entry → ℕ
usage_of w none = 0
usage_of w (some e) = if e.window == w then e.count else 0

abbrev pub usage : ℕ → Bytes → Counter → ℕ
usage w key c = usage_of w (lookup key c.entries)

-- No key has two entries.
abbrev pub Distinct : List (Bytes × Entry) → Type 0
Distinct [] = Unit
Distinct ((k, e) ∷ m) = (lookup k m ≡ none) × Distinct m

pub record IsValid (c : Counter) : Type 0 where
  pub distinct : Distinct c.entries
  pub bounded : length c.entries ≤ max_keys

-- The table is full of entries of this window (or later ones) and has none for the key.
abbrev pub is_full : ℕ → Bytes → Counter → Bool
is_full w key c =
    is_none (lookup key c.entries)
    && (leb max_keys (length c.entries) && leb max_keys (length (purge w c.entries)))

pub refresh-usage : (w : ℕ) (o : Option Entry) → (refresh w (entry_or_new o)).count ≡ usage_of w o
unfolding refresh entry_or_new
refresh-usage w none = ground arith
refresh-usage w (some e) = ground arith

pub refresh-window : (w : ℕ) (e : Entry) → (refresh w e).window ≡ w
unfolding refresh
refresh-window w e = ground arith

nil_lookup : (k : Bytes) → lookup {V = Entry} k [] ≡ none
unfolding lookup
nil_lookup k = refl

Distinct-insert :
    (k : Bytes) (v : Entry) (m : List (Bytes × Entry)) → Distinct m → Distinct (insert k v m)
unfolding insert
Distinct-insert k v [] d = (nil_lookup k, tt)
Distinct-insert k v ((j, w) ∷ m) d =
    ground (arith, Distinct-insert k v m, lookup-insert k j v m, bytes_eq_iff j k, bytes_eq_iff k j)

lookup-purge-none :
    (w : ℕ) (k : Bytes) (m : List (Bytes × Entry)) → lookup k m ≡ none → lookup k (purge w m) ≡ none
unfolding lookup purge
lookup-purge-none w k [] h = refl
lookup-purge-none w k ((j, e) ∷ m) h = ground (arith, lookup-purge-none w k m)

Distinct-purge : (w : ℕ) (m : List (Bytes × Entry)) → Distinct m → Distinct (purge w m)
unfolding purge
Distinct-purge w [] d = tt
Distinct-purge w ((j, e) ∷ m) d = ground (arith, Distinct-purge w m, lookup-purge-none w j m)

length-purge-le : (w : ℕ) (m : List (Bytes × Entry)) → length (purge w m) ≤ length m
unfolding purge
length-purge-le w [] = omega arith
length-purge-le w ((j, e) ∷ m) = ground (arith, length-purge-le w m)

-- Purging forgets nothing of the current window.
usage-purge :
    (w : ℕ) (k : Bytes) (m : List (Bytes × Entry))
    → Distinct m
    → usage_of w (lookup k (purge w m)) ≡ usage_of w (lookup k m)
unfolding lookup purge
usage-purge w k [] d = refl
usage-purge w k ((j, e) ∷ m) d =
    ground (arith, bytes_eq_iff j k, usage-purge w k m, lookup-purge-none w k m)

pub take_slot-decides :
    (c : Counter) (w : ℕ) (key : Bytes)
    → (take_slot c w key).1 ≡ ltb (usage w key c) (size_of_int c.limit)
unfolding take_slot
take_slot-decides c w key = ground (arith, refresh-usage w (lookup key c.entries))

take_slot-counts :
    (c : Counter) (w : ℕ) (key q : Bytes)
    → usage w q (take_slot c w key).0
      ≡ (if (take_slot c w key).1 && bytes_eq key q then usage w q c + 1 else usage w q c)
unfolding take_slot
take_slot-counts c w key q =
    let e = refresh w (entry_or_new (lookup key c.entries)) in
    ground (
      arith,
      bytes_eq_iff key q,
      refresh-usage w (lookup key c.entries),
      refresh-window w (entry_or_new (lookup key c.entries)),
      lookup-insert key q e c.entries,
      lookup-insert key q (record e { count = e.count + 1 }) c.entries,
    )

-- A call lets the request pass exactly when the key has used less than the limit in the current
-- window and the table has or can make an entry for it. It counts one use of that key if it lets
-- the request pass and none otherwise, and changes no other key's count.
pub allow_lem :
    (c : Counter) (now_ms : ℕ) (key q : Bytes)
    → IsValid c
    → let w = now_ms / c.window_ms in
      ((allow c now_ms key).1
        ≡ (not (is_full w key c) && ltb (usage w key c) (size_of_int c.limit)))
      × (usage w q (allow c now_ms key).0
          ≡ (if (allow c now_ms key).1 && bytes_eq key q then usage w q c + 1 else usage w q c))
unfolding allow
allow_lem c now_ms key q v =
    let w = now_ms / c.window_ms in
    let purged = record c { entries = purge w c.entries } in
    ground (
      arith,
      take_slot-decides c w key,
      take_slot-counts c w key q,
      take_slot-decides purged w key,
      take_slot-counts purged w key q,
      usage-purge w key c.entries v.distinct,
      usage-purge w q c.entries v.distinct,
    )

insert-bounded :
    (key : Bytes) (e : Entry) (m : List (Bytes × Entry))
    → length m ≤ max_keys
    → (is_none (lookup key m) && leb max_keys (length m)) ≡ false
    → length (insert key e m) ≤ max_keys
unfolding is_none
insert-bounded key e m b h = elim (Option-cases (lookup key m)) [
  | inl new ↦ ground (arith, length-insert key e m)
  | inr (old, found) ↦ omega (arith, length-insert_old key e old m found)
]

take_slot-IsValid :
    (c : Counter) (w : ℕ) (key : Bytes)
    → IsValid c
    → (is_none (lookup key c.entries) && leb max_keys (length c.entries)) ≡ false
    → IsValid (take_slot c w key).0
unfolding take_slot
take_slot-IsValid c w key v h =
    let m = c.entries in
    let e = refresh w (entry_or_new (lookup key m)) in
    let more = record e { count = e.count + 1 } in
    let kept = Distinct-insert key e m v.distinct in
    let grown = Distinct-insert key more m v.distinct in
    let small = insert-bounded key e m v.bounded h in
    let room = insert-bounded key more m v.bounded h in
    elim (Bool-cases (leb (size_of_int c.limit) e.count)) [
      | inl used ↦ rw used (record { distinct = kept; bounded = small })
      | inr free ↦ rw free (record { distinct = grown; bounded = room })
    ]

-- The table keeps one entry for a key at most, and never more than `kMaxKeys` entries.
pub allow-IsValid :
    (c : Counter) (now_ms : ℕ) (key : Bytes) → IsValid c → IsValid (allow c now_ms key).0
unfolding allow
allow-IsValid c now_ms key v =
    let w = now_ms / c.window_ms in
    let purged = record c { entries = purge w c.entries } in
    let u : IsValid purged = record {
      distinct = Distinct-purge w c.entries v.distinct;
      bounded = omega (arith, length-purge-le w c.entries);
    } in
    elim (Bool-cases (is_none (lookup key c.entries) && leb max_keys (length c.entries))) [
      | inr room ↦ rw room (take_slot-IsValid c w key v room)
      | inl crowded ↦ rw crowded (elim (Bool-cases (leb max_keys (length purged.entries))) [
        | inl full ↦ rw full u
        | inr freed ↦ rw freed (take_slot-IsValid purged w key u (ground arith))
      ])
    ]
