-- ===== src/Context/Tests.antt =====
-- Runs of `HttpContext::Next`, and its theorem at one.
use uco.Prelude.{ℕ, ◌≤◌, ◌≡◌, refl, true, false, List, [], ◌∷◌}
use uco.Context.{
  Action, act, call_next, returned, threw, and_then, after_act, run_handler, at_handler, run_loop,
  next,
}
use uco.Context.Onion.{next_lem}

program : Unit {0}
unfolding and_then after_act run_handler at_handler run_loop next
program = tt

-- A handler leaves its mark.
abbrev mark : ℕ → Action (List ℕ)
mark n = act (λ s. (n ∷ s, false))

abbrev handlers : List (List (Action (List ℕ)))
handlers = (mark 1 ∷ call_next ∷ mark 4 ∷ call_next ∷ []) ∷ (mark 2 ∷ []) ∷ (mark 3 ∷ []) ∷ []

next_lem_example : (j : ℕ) × (3 ≤ j) × (next handlers [] ≡ returned j (4 ∷ 3 ∷ 2 ∷ 1 ∷ []))
next_lem_example = next_lem handlers []

-- A handler that throws keeps those behind it from running.
abort_stops : next ((act (λ s. (9 ∷ s, true)) ∷ []) ∷ (mark 2 ∷ []) ∷ []) [] ≡ threw (9 ∷ [])
unfolding program
abort_stops = refl
