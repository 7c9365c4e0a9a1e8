-- ===== src/Context/Onion.antt =====
-- `HttpContext::Next` of http/httpserver.cpp runs each handler around those behind it.
use uco.Prelude.{
  ℕ, zero, suc, ◌≤◌, ◌<◌, ◌≡◌, refl, sym, ap, subst, ◌∙◌, Bool, true, false, List, [], ◌∷◌, none,
  some, get_elem?, length, drop, arith,
}
use uco.Context.{
  Action, act, call_next, Ran, returned, threw, and_then, after_act, run_handler, at_handler,
  run_loop, next,
}

module _ {S : Type 0} where
  -- What the handlers are meant to do: each is laid around those behind it, which run where it calls
  -- `Next` first, or at its end if it does not. More calls do nothing, and an exception ends it all.
  abbrev pub bind : (S → S × Bool) → S × Bool → S × Bool
  bind k (s, true) = (s, true)
  bind k (s, false) = k s

  abbrev pub plain : List (Action S) → S → S × Bool
  plain [] s = (s, false)
  plain (act f ∷ l) s = bind (plain l) (f s)
  plain (call_next ∷ l) s = plain l s

  abbrev pub around : List (Action S) → (S → S × Bool) → S → S × Bool
  around [] rest s = rest s
  around (act f ∷ l) rest s = bind (around l rest) (f s)
  around (call_next ∷ l) rest s = bind (plain l) (rest s)

  abbrev pub onion : List (List (Action S)) → S → S × Bool
  onion [] s = (s, false)
  onion (h ∷ l) s = around h (onion l) s

  -- A run ends as it should, with the index at least this.
  abbrev pub Ends : ℕ → S × Bool → Ran S → Type 0
  Ends n (s, true) r = r ≡ threw s
  Ends n (s, false) r = (j : ℕ) × (n ≤ j) × (r ≡ returned j s)

  -- `Next` with the index behind the last handler.
  module _ (n : ℕ) (step : ℕ → S → Ran S)
      (past : (j : ℕ) (s : S) → n ≤ suc j → step j s ≡ returned (suc j) s) where
    after_act-Ends :
        (k : S → Ran S) (m : S → S × Bool) (p : S × Bool)
        → ((s : S) → Ends n (m s) (k s))
        → Ends n (bind m p) (after_act k p)
    unfolding after_act
    after_act-Ends k m (s, true) h = refl
    after_act-Ends k m (s, false) h = h s

    plain-Ends :
        (l : List (Action S)) (i : ℕ) (s : S) → n ≤ i → Ends n (plain l s) (run_handler step l i s)
    unfolding run_handler and_then
    plain-Ends [] i s h = (i, h, refl)
    plain-Ends (act f ∷ l) i s h =
        after_act-Ends (run_handler step l i) (plain l) (f s) (λ t. plain-Ends l i t h)
    plain-Ends (call_next ∷ l) i s h =
        let later : n ≤ suc i = omega (arith, h) in
        subst (λ r. Ends n (plain l s) (and_then (run_handler step l) r)) (sym (past i s later))
          (plain-Ends l (suc i) s later)

    -- The loop goes on behind a handler.
    go_on : (p : S × Bool) (r : Ran S) → Ends n p r → Ends n p (and_then step r)
    unfolding and_then
    go_on (s, true) r e = rw e refl
    go_on (s, false) r (j, h, e) =
        (suc j, omega (arith, h), ap (and_then step) e ∙ past j s (omega (arith, h)))

    bind-Ends :
        (l : List (Action S)) (p : S × Bool) (r : Ran S)
        → Ends n p r
        → Ends n (bind (plain l) p) (and_then step (and_then (run_handler step l) r))
    unfolding and_then
    bind-Ends l (s, true) r e = rw e refl
    bind-Ends l (s, false) r (j, h, e) =
        subst (λ q. Ends n (plain l s) (and_then step (and_then (run_handler step l) q))) (sym e)
          (go_on (plain l s) (run_handler step l j s) (plain-Ends l j s h))

    go_on_after_act :
        (k : S → Ran S) (m : S → S × Bool) (p : S × Bool)
        → ((t : S) → Ends n (m t) (and_then step (k t)))
        → Ends n (bind m p) (and_then step (after_act k p))
    unfolding and_then after_act
    go_on_after_act k m (t, true) h = refl
    go_on_after_act k m (t, false) h = h t

    around-Ends :
        (l : List (Action S)) (rest : S → S × Bool) (i : ℕ) (s : S)
        → ((t : S) → Ends n (rest t) (step i t))
        → Ends n (around l rest s) (and_then step (run_handler step l i s))
    unfolding run_handler and_then
    around-Ends [] rest i s h = h s
    around-Ends (act f ∷ l) rest i s h =
        go_on_after_act (run_handler step l i) (around l rest) (f s) (λ t. around-Ends l rest i t h)
    around-Ends (call_next ∷ l) rest i s h = bind-Ends l (rest s) (step i s) (h s)

  get_elem?-past : (l : List (List (Action S))) (i : ℕ) → length l ≤ i → get_elem? l i ≡ none
  get_elem?-past [] i h = refl
  get_elem?-past (a ∷ l) zero h = absurd (omega (arith, h))
  get_elem?-past (a ∷ l) (suc i) h = get_elem?-past l i (omega (arith, h))

  drop-nil : (l : List (List (Action S))) (i : ℕ) → drop i l ≡ [] → length l ≤ i
  drop-nil [] i e = omega arith
  drop-nil (a ∷ l) zero e = ground arith
  drop-nil (a ∷ l) (suc i) e = omega (arith, drop-nil l i e)

  drop-cons :
      (l : List (List (Action S))) (i : ℕ) (h : List (Action S)) (rest : List (List (Action S)))
      → drop i l ≡ h ∷ rest
      → (get_elem? l i ≡ some h) × (drop (suc i) l ≡ rest)
  drop-cons [] zero h rest e = ground arith
  drop-cons [] (suc i) h rest e = ground arith
  drop-cons (a ∷ l) zero h rest e = ground arith
  drop-cons (a ∷ l) (suc i) h rest e = drop-cons l i h rest e

  run_loop-past :
      (fuel : ℕ) (l : List (List (Action S))) (i : ℕ) (s : S)
      → length l ≤ i
      → run_loop (suc fuel) l i s ≡ returned i s
  unfolding run_loop at_handler
  run_loop-past fuel l i s h =
      ap (λ o. at_handler (λ j. run_loop fuel l (suc j)) o i s) (get_elem?-past l i h)

  run_loop-Ends :
      (fuel : ℕ) (l rest : List (List (Action S))) (i : ℕ) (s : S)
      → drop i l ≡ rest
      → length rest < fuel
      → Ends (length l) (onion rest s) (run_loop (suc fuel) l i s)
  unfolding run_loop at_handler
  run_loop-Ends zero l rest i s e h = absurd (omega (arith, h))
  run_loop-Ends (suc fuel) l [] i s e h =
      let past = drop-nil l i e in (i, past, run_loop-past (suc fuel) l i s past)
  run_loop-Ends (suc fuel) l (a ∷ rest) i s e h =
      let (here, behind) = drop-cons l i a rest e in
      let step : ℕ → S → Ran S = λ j. run_loop (suc fuel) l (suc j) in
      subst (λ o. Ends (length l) (around a (onion rest) s) (at_handler step o i s)) (sym here)
        (around-Ends (length l) step (λ j t. run_loop-past fuel l (suc j) t) a (onion rest) i s
          (λ t. run_loop-Ends fuel l rest (suc i) t behind (omega (arith, h))))

  -- `Next` ends, whatever the handlers do: every handler runs once, in order, laid around those behind
  -- it, whether it calls `Next` never, once or more often, until one throws; and when none throws the
  -- index is behind the last handler.
  pub next_lem :
      (handles : List (List (Action S))) (s : S)
      → Ends (length handles) (onion handles s) (next handles s)
  unfolding next
  next_lem handles s = run_loop-Ends (suc (length handles)) handles handles 0 s refl (omega arith)
