-- ===== src/RateLimit/Tests.antt =====
-- The rate limiter of http/ratelimit.cpp run on small inputs, and its theorems at them.
use uco.Prelude.{◌≤◌, ◌≡◌, refl, true, false, [], ◌∷◌, none, some, arith}
use uco.Prelude.Bytes.{bytes_eq}
use uco.Prelude.Word.{sub64, int_of_size, size_of_int, int_lt}
use uco.Prelude.Dict.{lookup, insert}
use uco.RateLimit.{
  Counter, init, retry_after, purge, entry_or_new, refresh, take_slot, is_none, allow, Response,
  default_reject_handler, set_retry_after, after_next, after_verdict, handle,
}
use uco.RateLimit.Allow.{IsValid, usage, allow_lem}
use uco.RateLimit.History.{Calls, grants, grants-le-limit}

program : Unit {0}
unfolding sub64 int_of_size size_of_int int_lt lookup insert bytes_eq init retry_after purge
    entry_or_new refresh take_slot is_none allow default_reject_handler set_retry_after after_next
    after_verdict handle grants
program = tt

-- Two requests a second; key `7` has used both in window 5.
abbrev busy : Counter
busy = record {
  limit = 2;
  window_ms = 1000;
  entries = (7 ∷ [], record { window = 5; count = 2 }) ∷ [];
}

abbrev fresh : Counter
fresh = record { limit = 2; window_ms = 1000; entries = [] }

busy-IsValid : IsValid busy
unfolding program
busy-IsValid = record { distinct = (refl, tt); bounded = omega arith }

refused : (allow busy 5999 (7 ∷ [])).1 ≡ false
unfolding program
refused = refl

next_window : (allow busy 6000 (7 ∷ [])).1 ≡ true
unfolding program
next_window = refl

not_positive : init 0 60 ≡ none
unfolding program
not_positive = refl

abbrev calls : Calls
calls = (5000, 7 ∷ []) ∷ (5100, 7 ∷ []) ∷ (5200, 7 ∷ []) ∷ (6000, 7 ∷ []) ∷ []

two_granted : grants 5 (7 ∷ []) fresh calls ≡ 2
unfolding program
two_granted = refl

made : init 2 1 ≡ some fresh
unfolding program
made = refl

allow_lem_example :
    ((allow busy 5999 (7 ∷ [])).1 ≡ false) × (usage 5 (8 ∷ []) (allow busy 5999 (7 ∷ [])).0 ≡ 0)
unfolding program
allow_lem_example = allow_lem busy 5999 (7 ∷ []) (8 ∷ []) busy-IsValid

grants-le-limit_example : grants 5 (7 ∷ []) fresh calls ≤ 2
grants-le-limit_example =
    grants-le-limit 2 1 5 (7 ∷ []) calls fresh (omega arith) (omega arith) made (omega arith)

abbrev plain : Response
plain = record { code = 200; body = []; retry_after = none }
