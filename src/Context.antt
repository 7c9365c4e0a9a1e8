-- ===== src/Context.antt =====
-- `HttpContext::Next` of http/httpserver.cpp: the handlers of a request, each of which may call it.
pub mod Onion
pub mod Tests
use uco.Prelude.{
  ℕ, zero, suc, Bool, true, false, List, [], ◌∷◌, Option, none, some, get_elem?, length,
}

-- A handler does these things in order: something to the state of the request, which may throw, as
-- `Abort` does, or a call of `Next`. It does not catch what the others throw.
pub data Action (S : Type 0) : Type 0 where
  act : (S → S × Bool) → Action S
  call_next : Action S

-- How a handler or `Next` ends: with `m_iCurHandleIndex`, by an exception, or not within the fuel.
pub data Ran (S : Type 0) : Type 0 where
  returned : ℕ → S → Ran S
  threw : S → Ran S
  spent : Ran S

module _ {S : Type 0} where
  unfoldable pub and_then : (ℕ → S → Ran S) → Ran S → Ran S
  and_then k (returned i s) = k i s
  and_then k (threw s) = threw s
  and_then k spent = spent

  unfoldable pub after_act : (S → Ran S) → S × Bool → Ran S
  after_act k (s, true) = threw s
  after_act k (s, false) = k s

  -- One handler, by what `Next` does when the index is this.
  unfoldable pub run_handler : (ℕ → S → Ran S) → List (Action S) → ℕ → S → Ran S
  run_handler next [] i s = returned i s
  run_handler next (act f ∷ l) i s = after_act (run_handler next l i) (f s)
  run_handler next (call_next ∷ l) i s = and_then (run_handler next l) (next i s)

  unfoldable pub at_handler : (ℕ → S → Ran S) → Option (List (Action S)) → ℕ → S → Ran S
  at_handler next none i s = returned i s
  at_handler next (some h) i s = and_then next (run_handler next h i s)

  -- The loop of `Next`. Each call of it inside has a greater index.
  unfoldable pub run_loop : ℕ → List (List (Action S)) → ℕ → S → Ran S
  run_loop zero handles i s = spent
  run_loop (suc fuel) handles i s =
      at_handler (λ j. run_loop fuel handles (suc j)) (get_elem? handles i) i s

  -- The call that starts a request, with the index at -1.
  unfoldable pub next : List (List (Action S)) → S → Ran S
  next handles s = run_loop (suc (suc (length handles))) handles 0 s
