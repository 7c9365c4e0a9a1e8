-- ===== src/Request/Receive.antt =====
-- `ParseLine` of http/httprequest.cpp called again after more bytes have been received: it goes on
-- where it stopped.
use uco.Prelude.{ℕ, ◌+◌, ◌≤◌, ◌<◌, ◌^◌, ◌≡◌, refl, sym, ap, ap₂, subst, ◌∙◌, ◌++◌, length, arith}
use uco.Prelude.Bytes.{Bytes}
use uco.Prelude.Word.{int_of_size, int_lt}
use uco.Buffer.{append, readable_bytes, max_capacity}
use uco.Buffer.Content.{IsValid, content, length-content, readable_bytes-content}
use uco.Buffer.Growth.{content-append}
use uco.Request.Scan.{Scan, pending, stray, line_at, scan_from}
use uco.Request.Resume.{Continues, scan_from-resumed}
use uco.Request.State.{Request, line_open, readable, taken, after_scan, start_offset, parse_line}
use uco.Request.Lines.{readable-content}

after_scan-open : (r : Request) (s : Scan) → (after_scan r s).1 ≡ line_open → s ≡ pending
unfolding after_scan
after_scan-open r pending h = refl
after_scan-open r stray h = absurd (ground arith)
after_scan-open r (line_at i) h = absurd (ground arith)

start_offset-size : (n : ℕ) → n < 2 ^ 31 → start_offset (int_of_size n) ≡ n
unfolding start_offset int_of_size int_lt
start_offset-size n h = ground arith

start_offset-zero : start_offset 0 ≡ 0
unfolding start_offset int_lt
start_offset-zero = refl

offset_pending :
    (r : Request) → (after_scan r pending).0.read_offset ≡ int_of_size (readable_bytes r.buffer)
unfolding after_scan
offset_pending r = refl

-- Each outcome sets the offset anew.
after_scan-offset :
    (r : Request) (n : ℕ) (s : Scan) → after_scan (record r { read_offset = n }) s ≡ after_scan r s
unfolding after_scan taken
after_scan-offset r n pending = refl
after_scan-offset r n stray = refl
after_scan-offset r n (line_at i) = refl

-- A request whose line is not complete when it is first looked at, and that then receives more
-- bytes, goes on scanning behind the bytes that it has seen, with the outcome of a scan of all the
-- unread bytes; if the bytes seen end in `\r`, provided that the new ones begin with `\n`.
pub parse_line-append :
    (r : Request) (d : Bytes)
    → IsValid r.buffer
    → start_offset r.read_offset ≡ 0
    → (parse_line r).1 ≡ line_open
    → r.buffer.write_position + length d ≤ max_capacity
    → Continues (content r.buffer) d
    → let received = record (parse_line r).0 { buffer = append d r.buffer } in
      parse_line received ≡ parse_line (record received { read_offset = 0 })
unfolding parse_line
parse_line-append r d v fresh unfinished room next =
    let was : scan_from (start_offset r.read_offset) (readable r.buffer) ≡ pending =
      after_scan-open r _ unfinished in
    let (w, all) = content-append d r.buffer v room in
    let text : readable (append d r.buffer) ≡ content r.buffer ++ d =
      readable-content (append d r.buffer) w ∙ all in
    let seen : scan_from 0 (content r.buffer) ≡ pending =
      subst (λ o. scan_from o (content r.buffer) ≡ pending) fresh
        (subst (λ t. scan_from (start_offset r.read_offset) t ≡ pending)
          (readable-content r.buffer v) was) in
    let bytes = readable_bytes-content r.buffer v in
    let offset : start_offset (parse_line r).0.read_offset ≡ length (content r.buffer) =
      ap start_offset (ap (λ s. (after_scan r s).0.read_offset) was ∙ offset_pending r)
      ∙ (start_offset-size (readable_bytes r.buffer)
            (omega (arith, bytes, length-content r.buffer v, v.within, v.small))
          ∙ bytes) in
    let received = record (parse_line r).0 { buffer = append d r.buffer } in
    let same : scan_from (start_offset received.read_offset) (readable (append d r.buffer))
        ≡ scan_from (start_offset 0) (readable (append d r.buffer)) =
      ap₂ scan_from offset text
      ∙ (scan_from-resumed (content r.buffer) d seen next
          ∙ ap₂ scan_from (sym start_offset-zero) (sym text)) in
    ap (after_scan received) same
    ∙ sym (after_scan-offset received 0 (scan_from (start_offset 0) (readable (append d r.buffer))))
