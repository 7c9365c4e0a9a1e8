-- ===== src/RateLimit/Middleware.antt =====
-- The middleware of http/ratelimit.cpp around one counter: which requests go on, and what the
-- response carries.
use uco.Prelude.{ℕ, ◌/◌, ◌≡◌, refl, not, ◌∷◌, some, ltb, ◌&&◌, if◌then◌else◌, arith}
use uco.Prelude.Bytes.{Bytes}
use uco.Prelude.Word.{size_of_int}
use uco.RateLimit.{
  Counter, Response, Verdict, pass, reject, raise, Exit, returned, aborted, Handler, allow,
  retry_after, too_many_requests, default_reject_handler, set_retry_after, after_next,
  after_verdict, handle,
}
use uco.RateLimit.Allow.{IsValid, is_full, usage, allow_lem}

-- With the default handler and a key, a request goes on to the rest of the chain exactly when the
-- counter has room for the key and the key has used less than the limit; otherwise the rest of the
-- chain is not run and the response is a 429 with the advised waiting time. The call is counted
-- either way.
pub handle_default :
    (next : Response → Response × Exit) (now_ms later_ms x : ℕ) (xs : Bytes) (c : Counter)
    (r : Response)
    → IsValid c
    → let w = now_ms / c.window_ms in
      let counted = (allow c now_ms (x ∷ xs)).0 in
      let passes = not (is_full w (x ∷ xs) c) && ltb (usage w (x ∷ xs) c) (size_of_int c.limit) in
      handle (default_reject_handler now_ms) next later_ms c (x ∷ xs) r ≡ (
        if passes then after_next counted later_ms (next r) else (
          record {
            code = 429;
            body = too_many_requests;
            retry_after = some (retry_after counted later_ms);
          },
          counted,
          aborted,
        ))
unfolding handle default_reject_handler after_verdict set_retry_after
handle_default next now_ms later_ms x xs c r v =
    let spec = (allow_lem c now_ms (x ∷ xs) (x ∷ xs) v).0 in ground (arith, spec)

abbrev Marked : Response × Exit → ℕ → Response × Counter × Exit → Type 0
Marked ran later_ms (r, c, aborted) = r.retry_after ≡ some (retry_after c later_ms)
Marked ran later_ms (r, c, returned) = ran ≡ (r, returned)

after_next-Marked :
    (c : Counter) (later_ms : ℕ) (n : Response × Exit) → Marked n later_ms (after_next c later_ms n)
unfolding after_next set_retry_after
after_next-Marked c later_ms (r, returned) = refl
after_next-Marked c later_ms (r, aborted) = refl

-- Whatever handler is used: a chain that ends in an abort, be it the handler's or that of a later
-- member of the chain, leaves the advised waiting time on the response; one that returns has the
-- response of the rest of the chain, unchanged.
pub handle_marks :
    (handler : Handler) (next : Response → Response × Exit) (later_ms : ℕ) (c : Counter)
    (key : Bytes) (r : Response)
    → Marked (next (handler r c key).0) later_ms (handle handler next later_ms c key r)
unfolding handle after_verdict set_retry_after
handle_marks handler next later_ms c key r = go (handler r c key)
  where
    go :
        (d : Response × Counter × Verdict)
        → Marked (next d.0) later_ms (after_verdict later_ms next d)
    go (r', c', pass) = after_next-Marked c' later_ms (next r')
    go (r', c', reject) = refl
    go (r', c', raise) = refl
