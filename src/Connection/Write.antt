-- ===== src/Connection/Write.antt =====
-- `advance_iov` and `advance_ts` of http/httpconnection.cpp: going on after a partial write, and what
-- is left of a time limit.
use uco.Prelude.{
  ℕ, zero, suc, ◌+◌, ◌-◌, ◌*◌, ◌/◌, ◌%◌, ◌≤◌, ◌<◌, ◌≡◌, refl, sym, ap, ◌∙◌, Bool, true, false, List,
  [], ◌∷◌, ◌++◌, leb, ltb, ◌==◌, if◌then◌else◌, length, drop, length-drop, arith, Bool-cases,
  ==_iff, inl, inr,
}
use uco.Prelude.Bytes.{Bytes}
use uco.Prelude.Segments.{drop-append, drop_of_length-le}

-- Whether an entry is left.
unfoldable pub any_left : List Bytes → Bool
any_left [] = false
any_left (x ∷ iov) = true

-- The loop over the entries, each the bytes that are left of it.
unfoldable pub advance_entries : List Bytes → ℕ → List Bytes
advance_entries [] written = []
advance_entries (bytes ∷ iov) written =
    let next = advance_entries iov (written - length bytes) in
    if written == 0
    then bytes ∷ iov
    else if leb (length bytes) written
    then next
    else drop written bytes ∷ iov

unfoldable pub advance_iov : List Bytes → ℕ → List Bytes × Bool
advance_iov iov written = let left = advance_entries iov written in (left, any_left left)

-- The bytes of all the entries.
abbrev pub gathered : List Bytes → Bytes
gathered [] = []
gathered (bytes ∷ iov) = bytes ++ gathered iov

drop-behind : (n : ℕ) (xs ys : Bytes) → length xs ≤ n → drop n (xs ++ ys) ≡ drop (n - length xs) ys
drop-behind n [] ys h = ap (λ k. drop k ys) (omega arith)
drop-behind zero (x ∷ xs) ys h = absurd (omega arith)
drop-behind (suc n) (x ∷ xs) ys h =
    drop-behind n xs ys (omega arith) ∙ ap (λ k. drop k ys) (omega arith)

gathered-advance_entries :
    (iov : List Bytes) (n : ℕ) → gathered (advance_entries iov n) ≡ drop n (gathered iov)
unfolding advance_entries
gathered-advance_entries [] n = sym (drop_of_length-le n [] (omega arith))
gathered-advance_entries (bytes ∷ iov) n = elim (Bool-cases (n == 0)) [
  | inl done ↦ rw (done, (==_iff n 0).0 done) refl
  | inr more ↦ elim (Bool-cases (leb (length bytes) n)) [
    | inl whole ↦
        rw (more, whole)
          (gathered-advance_entries iov (n - length bytes)
            ∙ sym (drop-behind n bytes (gathered iov) (ground arith)))
    | inr part ↦ rw (more, part) (sym (drop-append n bytes (gathered iov) (ground arith)))
  ]
]

gathered-any_left : (iov : List Bytes) → 0 < length (gathered iov) → any_left iov ≡ true
unfolding any_left
gathered-any_left [] h = absurd (omega arith)
gathered-any_left (bytes ∷ iov) h = refl

-- After a write of some bytes the entries that are left hold exactly the bytes that were not
-- written, and the loop goes on if there are any.
pub gathered-advance_iov :
    (iov : List Bytes) (written : ℕ)
    → (gathered (advance_iov iov written).0 ≡ drop written (gathered iov))
      × (written < length (gathered iov) → (advance_iov iov written).1 ≡ true)
unfolding advance_iov
gathered-advance_iov iov written =
    let rest = gathered-advance_entries iov written in
    (
      rest,
      λ h.
          gathered-any_left (advance_entries iov written)
            (omega (arith, ap length rest, length-drop written (gathered iov))),
    )

-- `uco_time_t`: seconds and nanoseconds.
pub record Time : Type 0 where
  pub sec : ℕ
  pub nsec : ℕ

abbrev pub giga : ℕ
giga = 1000000000

-- `advance_ts`, for a time and a duration that are not negative: what would fall below zero is 0.
unfoldable pub advance_ts : Time → ℕ → Time
advance_ts ts ns =
    let borrow = if ltb ts.nsec (ns % giga) then 1 else 0 in
    if ltb ts.sec (ns / giga + borrow)
    then record { sec = 0; nsec = 0 }
    else record { sec = ts.sec - (ns / giga + borrow); nsec = ts.nsec + borrow * giga - ns % giga }

-- A time limit as a number of nanoseconds.
abbrev pub total : Time → ℕ
total t = t.sec * giga + t.nsec

-- The time that is left is the limit less the time spent, and zero when that is more than the
-- limit; it is again a time with less than a second of nanoseconds.
pub total-advance_ts :
    (ts : Time) (ns : ℕ)
    → ts.nsec < giga
    → (total (advance_ts ts ns) ≡ total ts - ns) × ((advance_ts ts ns).nsec < giga)
unfolding advance_ts
total-advance_ts ts ns h = ground arith
