-- ===== src/RateLimit.antt =====
-- http/ratelimit.cpp and http/ratelimit.h: the fixed-window counter of one mounting point, and the
-- middleware around it. The clock reading in milliseconds is an argument; an `int` is its 32-bit
-- pattern; `Allow` runs under its mutex from the look-up on, so one call is one step.
mod Allow
mod History
mod Middleware
mod Tests
use uco.Prelude.{
  ℕ, ◌+◌, ◌-◌, ◌*◌, ◌/◌, ◌%◌, ◌^◌, Bool, true, false, not, List, [], ◌∷◌, Option, none, some, ltb,
  leb, ◌==◌, ◌&&◌, if◌then◌else◌, length,
}
use uco.Prelude.Bytes.{Bytes}
use uco.Prelude.Word.{sub64, int_of_size, size_of_int, int_lt}
use uco.Prelude.Dict.{lookup, insert}

-- `kMaxKeys`.
abbrev pub max_keys : ℕ
max_keys = 65536

pub record Entry : Type 0 where
  pub window : ℕ
  pub count : ℕ

pub record Counter : Type 0 where
  pub limit : ℕ
  pub window_ms : ℕ
  pub entries : List (Bytes × Entry)

-- The constructor; `none` is `std::invalid_argument`.
unfoldable pub init : ℕ → ℕ → Option Counter
init limit window_sec =
    if not (int_lt 0 limit)
    then none
    else if not (int_lt 0 window_sec)
    then none
    else some
        (record { limit = limit; window_ms = size_of_int window_sec * 1000 % 2 ^ 64; entries = [] })

unfoldable pub retry_after : Counter → ℕ → ℕ
retry_after c now_ms =
    let current_window = now_ms / c.window_ms in
    let remain_ms = sub64 ((current_window + 1) * c.window_ms % 2 ^ 64) now_ms in
    let retry_sec = int_of_size ((remain_ms + 999) % 2 ^ 64 / 1000) in
    if int_lt retry_sec 1 then 1 else retry_sec

-- The erasing loop of `Allow`: entries of earlier windows go.
unfoldable pub purge : ℕ → List (Bytes × Entry) → List (Bytes × Entry)
purge current_window [] = []
purge current_window ((k, e) ∷ m) =
    if ltb e.window current_window then purge current_window m else (k, e) ∷ purge current_window m

-- `m_entries[key]`: a missing entry is created with zeros.
unfoldable pub entry_or_new : Option Entry → Entry
entry_or_new none = record { window = 0; count = 0 }
entry_or_new (some e) = e

-- The entry as the current window sees it.
unfoldable pub refresh : ℕ → Entry → Entry
refresh current_window e =
    if e.window == current_window then e else record { window = current_window; count = 0 }

-- The rest of `Allow`, from `m_entries[key]` on.
unfoldable pub take_slot : Counter → ℕ → Bytes → Counter × Bool
take_slot c current_window key =
    let entry = refresh current_window (entry_or_new (lookup key c.entries)) in
    if leb (size_of_int c.limit) entry.count
    then (record c { entries = insert key entry c.entries }, false)
    else (
      record c { entries = insert key (record entry { count = entry.count + 1 }) c.entries },
      true,
    )

unfoldable pub is_none : Option Entry → Bool
is_none none = true
is_none (some e) = false

unfoldable pub allow : Counter → ℕ → Bytes → Counter × Bool
allow c now_ms key =
    let current_window = now_ms / c.window_ms in
    let purged = record c { entries = purge current_window c.entries } in
    if is_none (lookup key c.entries) && leb max_keys (length c.entries)
    then if leb max_keys (length purged.entries)
      then (purged, false)
      else take_slot purged current_window key
    else take_slot c current_window key

-- What the middleware does to the response; `retry_after` is the number in the `Retry-After`
-- header.
pub record Response : Type 0 where
  pub code : ℕ
  pub body : Bytes
  pub retry_after : Option ℕ

-- A reject handler lets the request pass, rejects it, or throws `HttpException`.
pub data Verdict : Type 0 where
  pass reject raise : Verdict

-- How the request chain leaves the middleware.
pub data Exit : Type 0 where
  returned aborted : Exit

-- `{"code":429,"msg":"too many requests"}`.
abbrev pub too_many_requests : Bytes
too_many_requests =
    123 ∷ 34 ∷ 99 ∷ 111 ∷ 100 ∷ 101 ∷ 34 ∷ 58 ∷ 52 ∷ 50 ∷ 57 ∷ 44 ∷ 34 ∷ 109 ∷ 115 ∷ 103 ∷ 34 ∷ 58
    ∷ 34 ∷ 116 ∷ 111 ∷ 111 ∷ 32 ∷ 109 ∷ 97 ∷ 110 ∷ 121 ∷ 32 ∷ 114 ∷ 101 ∷ 113 ∷ 117 ∷ 101 ∷ 115
    ∷ 116 ∷ 115 ∷ 34 ∷ 125 ∷ []

abbrev pub Handler : Type 0
Handler = Response → Counter → Bytes → Response × Counter × Verdict

unfoldable pub default_reject_handler : ℕ → Handler
default_reject_handler now_ms r c [] = (r, c, pass)
default_reject_handler now_ms r c (x ∷ xs) =
    let (c', allowed) = allow c now_ms (x ∷ xs) in
    if allowed
    then (r, c', pass)
    else (record r { code = 429; body = too_many_requests }, c', reject)

unfoldable pub set_retry_after : Counter → ℕ → Response → Response
set_retry_after c now_ms r = record r { retry_after = some (retry_after c now_ms) }

-- The rest of the chain ran inside the same `try`: its `HttpException` is caught here too.
unfoldable pub after_next : Counter → ℕ → Response × Exit → Response × Counter × Exit
after_next c now_ms (r, returned) = (r, c, returned)
after_next c now_ms (r, aborted) = (set_retry_after c now_ms r, c, aborted)

unfoldable pub after_verdict :
    ℕ → (Response → Response × Exit) → Response × Counter × Verdict → Response × Counter × Exit
after_verdict now_ms next (r, c, pass) = after_next c now_ms (next r)
after_verdict now_ms next (r, c, reject) = (set_retry_after c now_ms r, c, aborted)
after_verdict now_ms next (r, c, raise) = (set_retry_after c now_ms r, c, aborted)

-- `Handle`, with the key that the key getter returned and the rest of the chain as a function.
unfoldable pub handle :
    Handler
    → (Response → Response × Exit)
    → ℕ
    → Counter
    → Bytes
    → Response
    → Response × Counter × Exit
handle reject_handler next now_ms c key r = after_verdict now_ms next (reject_handler r c key)
