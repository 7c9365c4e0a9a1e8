-- ===== src/Response/Send.antt =====
-- What `Write` of http/httpconnection.cpp sends of a file with `usendfile`.
use uco.Prelude.{
  ℕ, ◌+◌, ◌-◌, ◌≤◌, ◌<◌, ◌≡◌, sym, ap, subst, ◌∙◌, Bool, true, false, List, [], ◌∷◌, Option, none,
  some, ltb, if◌then◌else◌, length, map, arith, Bool-cases, inl, inr,
}
use uco.Response.{Response, is_partial, file_length, content_length}

-- What a call of `usendfile` did: so many bytes were sent, it was cancelled, it failed, or the time
-- was up when it came back, with so many bytes sent.
pub data Sent : Type 0 where
  bytes_sent : ℕ → Sent
  canceled failed : Sent
  timed_out : ℕ → Sent

-- The offset that was reached, and whether the loop came to its end; and the calls it made, each with
-- its offset and the count it asked for.
abbrev pub Outcome : Type 0
Outcome = Option (ℕ × Bool) × List (ℕ × ℕ)

abbrev pub called : ℕ → ℕ → Outcome → Outcome
called offset total o = (o.0, (offset, total) ∷ o.1)

-- The loop; `total` grows by what was sent since the first offset. `none` is a run that goes on.
unfoldable pub send_loop : List Sent → ℕ → ℕ → ℕ → ℕ → Outcome
send_loop [] old offset total endpoint =
    if ltb offset endpoint then (none, []) else (some (offset, true), [])
send_loop (bytes_sent n ∷ l) old offset total endpoint =
    let rest = send_loop l old (offset + n) (total + (offset + n - old)) endpoint in
    if ltb offset endpoint then called offset total rest else (some (offset, true), [])
send_loop (canceled ∷ l) old offset total endpoint =
    let rest = send_loop l old offset (total + (offset - old)) endpoint in
    if ltb offset endpoint then called offset total rest else (some (offset, true), [])
send_loop (timed_out n ∷ l) old offset total endpoint =
    if ltb offset endpoint
    then called offset total (some (offset + n, false), [])
    else (some (offset, true), [])
send_loop (failed ∷ l) old offset total endpoint =
    if ltb offset endpoint
    then called offset total (some (offset, false), [])
    else (some (offset, true), [])

unfoldable pub send_file : List Sent → Response → ℕ → Outcome
send_file l r size =
    if is_partial r
    then send_loop l r.partial_from r.partial_from (r.partial_to - r.partial_from + 1)
        (r.partial_to + 1)
    else send_loop l 0 0 size size

-- What calls that send something do: no byte behind the end of the file is sent.
abbrev pub Obeys : List ℕ → ℕ → ℕ → ℕ → Type 0
Obeys [] offset endpoint size = Unit
Obeys (n ∷ l) offset endpoint size =
    (offset < endpoint → (0 < n) × (offset + n ≤ size)) × Obeys l (offset + n) endpoint size

abbrev pub Reached : ℕ → ℕ → Option (ℕ × Bool) → Type 0
Reached endpoint size o = (n : ℕ) × (o ≡ some (n, true)) × (endpoint ≤ n) × (n ≤ size)

not_ltb : (a b : ℕ) → b ≤ a → ltb a b ≡ false
not_ltb a b h = ground arith

send_loop-Reached :
    (l : List ℕ) (old offset total endpoint size : ℕ)
    → Obeys l offset endpoint size
    → offset ≤ size
    → endpoint ≤ offset + length l
    → Reached endpoint size (send_loop (map bytes_sent l) old offset total endpoint).0
unfolding send_loop
send_loop-Reached [] old offset total endpoint size o h k =
    (offset, simp (not_ltb offset endpoint (omega (arith, k))), omega (arith, k), h)
send_loop-Reached (n ∷ l) old offset total endpoint size o h k =
    let more = total + (offset + n - old) in
    elim (Bool-cases (ltb offset endpoint)) [
      | inl e ↦
          let below : offset < endpoint = ground arith in
          let (sent, fits) = o.0 below in
          let (m, f, a, b) =
            send_loop-Reached l old (offset + n) more endpoint size o.1 fits
              (omega (arith, k, sent)) in
          (m, simp (e, f), a, b)
      | inr e ↦ (offset, simp (e), ground arith, h)
    ]

abbrev pub first_offset : Response → ℕ
first_offset r = if is_partial r then r.partial_from else 0

content_length-file :
    (r : Response) (size : ℕ)
    → r.cache ≡ some size
    → content_length r ≡ (if is_partial r then r.partial_to - r.partial_from + 1 else size)
unfolding content_length file_length
content_length-file r size c = ap (file_length r) c

-- `Write` runs the loop from the first offset for as many bytes as Content-length says.
as_loop :
    (l : List Sent) (r : Response) (size : ℕ)
    → r.cache ≡ some size
    → (is_partial r ≡ true → (r.partial_from ≤ r.partial_to) × (r.partial_to < size))
    → (first_offset r ≤ size)
      × (send_file l r size
          ≡ send_loop l
              (first_offset r)
              (first_offset r)
              (content_length r)
              (first_offset r + content_length r))
unfolding send_file
as_loop l r size c range = elim (Bool-cases (is_partial r)) [
  | inl e ↦
      let long : content_length r ≡ r.partial_to - r.partial_from + 1 =
        content_length-file r size c ∙ simp (e) in
      let end : r.partial_from + content_length r ≡ r.partial_to + 1 =
        omega (arith, long, range e) in
      let first : first_offset r ≡ r.partial_from = simp (e) in
      (omega (arith, first, range e), simp (e, end, sym long))
  | inr e ↦
      let long : content_length r ≡ size = content_length-file r size c ∙ simp (e) in
      let first : first_offset r ≡ 0 = simp (e) in
      let end : 0 + size ≡ size = omega arith in (omega (arith, first), simp (e, long, end))
]

-- A file, or the range of it that was asked for, is sent to its end if each call sends something and
-- there are as many calls as bytes: at least as many bytes of it as Content-length says, in order from
-- where the range begins, and none that the file does not have. A whole file is hence sent exactly.
pub send_file-content_length :
    (l : List ℕ) (r : Response) (size : ℕ)
    → r.cache ≡ some size
    → (is_partial r ≡ true → (r.partial_from ≤ r.partial_to) × (r.partial_to < size))
    → Obeys l (first_offset r) (first_offset r + content_length r) size
    → content_length r ≤ length l
    → Reached (first_offset r + content_length r) size (send_file (map bytes_sent l) r size).0
send_file-content_length l r size c range o k =
    let (h, e) = as_loop (map bytes_sent l) r size c range in
    let end = first_offset r + content_length r in
    subst (λ x. Reached end size x.0) (sym e)
      (send_loop-Reached l (first_offset r) (first_offset r) (content_length r) end size o h
        (omega (arith, k)))
