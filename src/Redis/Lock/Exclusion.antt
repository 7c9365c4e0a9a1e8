-- ===== src/Redis/Lock/Exclusion.antt =====
-- core/uredis.cpp, `ulock`: as long as the key does not expire, one lock at most has it.
use uco.Prelude.{
  ℕ, ◌≡◌, inl, inr, refl, sym, subst, ◌∙◌, Bool, true, false, List, [], ◌∷◌, ◌++◌, Option, some,
  arith,
}
use uco.Prelude.Bytes.{Bytes, All}
use uco.Redis.Reply.{Reply}
use uco.Redis.Lock.{
  Phase, idle, setting, renewing, releasing, Lock, ulock, owns, is_empty, try_begin, try_finish,
  renew_begin, renew_finish, release_begin, release_finish, close,
}
use uco.Redis.Lock.World.{
  Server, run_set, release_script, renew_script, Command, set_command, renew_command,
  release_command, run_command, Comes, World, served, changed, drew, finished, ran_late, Step,
  Reachable,
}
use uco.Redis.Lock.Turns.{
  Owned, Good, IsOld, not_empty, Good-Spares, all-IsOld-more, left_behind-IsOld, Good-close,
  try_begin-Good, renew_begin-Good, release_begin-Good, try_finish-Good, renew_finish-Good,
  release_finish-Good,
}
use uco.Redis.Lock.Harmless.{set_lem, renew-Harmless, release-Harmless, command-Harmless}
use uco.Redis.Lock.Kept.{
  IsSound, changed-IsSound, drew-IsSound, finished-IsSound, served-IsSound, ran_late-IsSound,
}

All-middle :
    {A : Type 0} (P : A → Type 0) (l : List A) (a : A) (r : List A)
    → All P (l ++ (a ∷ r))
    → P a × All P (l ++ r)
All-middle P [] a r h = h
All-middle P (x ∷ l) a r h = let (p, q) = All-middle P l a r h.1 in (p, (h.0, q))

module _ {S : Type 0} (server : Server S) (token : ℕ → ℕ → Bytes)
    (apart : (i j n m : ℕ) → token i n ≡ token j m → (i ≡ j) × (n ≡ m)) where
  module _ (w : World S) (i : ℕ) (h : IsSound server token apart w) where
    late_lem :
        (c : Command) (before behind : List Command)
        → w.late i ≡ before ++ (c ∷ behind)
        → IsSound server token apart
            (ran_late w i (before ++ behind) (run_command server c w.store).0)
    late_lem c before behind e =
        let (f, low, old, good) = h i in
        let (this, rest) =
          All-middle (IsOld token f i) before c behind (subst (All (IsOld token f i)) e old) in
        let harmless = command-Harmless server token apart i f c w.store this in
        ran_late-IsSound server token apart w i h f (before ++ behind)
          (run_command server c w.store).0 harmless
          (
            f,
            low,
            rest,
            Good-Spares token i f (w.used i) (w.locks i).token (w.locks i).phase (w.replies i)
                (harmless i f (λ k. omega arith)) good,
          )

  module _ (w : World S) (i : ℕ) (h : IsSound server token apart w) {t : Bytes} where
    sets_lem :
        (w.locks i).phase ≡ setting t
        → IsSound server token apart (served w i (run_set server t w.store))
    sets_lem e =
        let (f, low, old, good) = h i in
        let (free, live, won) =
          subst
            (λ p. Good token f (w.used i) i (w.locks i).token p (w.replies i) (server.get w.store))
            e good in
        let (harmless, ok) = set_lem server token apart i f t w.store in
        let (s, r) = run_set server t w.store in
        served-IsSound server token apart w i h f s r harmless (
          f,
          low,
          old,
          subst (λ p. Good token f (w.used i) i (w.locks i).token p (some r) (server.get s)) (sym e)
              (free, live, ok),
        )

    renews_lem :
        (w.locks i).phase ≡ renewing t
        → IsSound server token apart (served w i (renew_script server t w.store))
    renews_lem e =
        let (f, low, old, good) = h i in
        let (s, r) = renew_script server t w.store in
        let harmless = renew-Harmless server token apart i f t w.store in
        let spared =
          Good-Spares token i f (w.used i) (w.locks i).token (w.locks i).phase (w.replies i)
            (harmless i f (λ k. omega arith)) good in
        let owned =
          subst (λ p. Good token f (w.used i) i (w.locks i).token p (w.replies i) (server.get s)) e
            spared in
        served-IsSound server token apart w i h f s r harmless (
          f,
          low,
          old,
          subst (λ p. Good token f (w.used i) i (w.locks i).token p (some r) (server.get s)) (sym e)
              owned,
        )

    releases_lem :
        (w.locks i).phase ≡ releasing t
        → IsSound server token apart (served w i (release_script server t w.store))
    releases_lem e =
        let (f, low, old, good) = h i in
        let (free, out) =
          subst
            (λ p. Good token f (w.used i) i (w.locks i).token p (w.replies i) (server.get w.store))
            e good in
        let (s, r) = release_script server t w.store in
        served-IsSound server token apart w i h f s r
          (release-Harmless server token apart i f t w.store out)
          (
            f,
            low,
            old,
            subst (λ p. Good token f (w.used i) i (w.locks i).token p (some r) (server.get s))
                (sym e) (free, out),
          )

  module _ (w : World S) (i : ℕ) (h : IsSound server token apart w) where
    abbrev lock : Lock
    lock = w.locks i

    abbrev value : Option Bytes
    value = server.get w.store

    starts_lem :
        (b : Bool)
        → lock.phase ≡ idle
        → IsSound server token apart (drew w i (try_begin (token i (w.used i)) b lock).0)
    starts_lem b e =
        let (f, low, old, good) = h i in
        drew-IsSound server token apart w i h _ (
          f,
          omega (arith, low),
          old,
          try_begin-Good token f (w.used i) i lock (w.replies i) value b low e good,
        )

    renew_starts_lem :
        lock.phase ≡ idle → IsSound server token apart (changed w i (renew_begin lock).0)
    renew_starts_lem e =
        let (f, low, old, good) = h i in
        changed-IsSound server token apart w i h _
          (f, low, old, renew_begin-Good token f (w.used i) i lock (w.replies i) value e good)

    release_starts_lem :
        lock.phase ≡ idle → IsSound server token apart (changed w i (release_begin lock).0)
    release_starts_lem e =
        let (f, low, old, good) = h i in
        let (f', more, low', good') =
          release_begin-Good token f (w.used i) i lock (w.replies i) value low e good in
        changed-IsSound server token apart w i h _
          (f', low', all-IsOld-more token f f' i (w.late i) more old, good')

    module _ (r : Reply) (alive : Bool) {t : Bytes} where
      ends_lem :
          lock.phase ≡ setting t
          → Comes (w.replies i) r
          → IsSound server token apart (finished w i (set_command t) (try_finish t r alive lock).0)
      ends_lem e come =
          let (f, low, old, good) = h i in
          finished-IsSound server token apart w i h _ _ (
            f,
            low,
            left_behind-IsOld token f i (w.replies i) (set_command t) (w.late i) tt old,
            try_finish-Good token f (w.used i) i lock (w.replies i) value r alive e come good,
          )

      renew_ends_lem :
          lock.phase ≡ renewing t
          → IsSound server token apart
              (finished w i (renew_command t) (renew_finish r alive lock).0)
      renew_ends_lem e =
          let (f, low, old, good) = h i in
          finished-IsSound server token apart w i h _ _ (
            f,
            low,
            left_behind-IsOld token f i (w.replies i) (renew_command t) (w.late i) tt old,
            renew_finish-Good token f (w.used i) i lock (w.replies i) value r alive e good,
          )

      release_ends_lem :
          lock.phase ≡ releasing t
          → IsSound server token apart
              (finished w i (release_command t) (release_finish r alive lock).0)
      release_ends_lem e =
          let (f, low, old, good) = h i in
          let (good', out) =
            release_finish-Good token f (w.used i) i lock (w.replies i) value r alive e good in
          finished-IsSound server token apart w i h _ _ (
            f,
            low,
            left_behind-IsOld token f i (w.replies i) (release_command t) (w.late i) out old,
            good',
          )

    close_lem : IsSound server token apart (changed w i (close lock))
    unfolding close
    close_lem =
        let (f, low, old, good) = h i in
        changed-IsSound server token apart w i h _ (
          f,
          low,
          old,
          Good-close token f (w.used i) i lock.token lock.phase (w.replies i) value good,
        )

  step-IsSound :
      {w v : World S}
      → Step server token w v
      → IsSound server token apart w
      → IsSound server token apart v
  step-IsSound (Step.try_starts i b e) h = starts_lem _ i h b e
  step-IsSound (Step.renew_starts i e) h = renew_starts_lem _ i h e
  step-IsSound (Step.release_starts i e) h = release_starts_lem _ i h e
  step-IsSound (Step.server_sets i e z) h = sets_lem _ i h e
  step-IsSound (Step.server_renews i e z) h = renews_lem _ i h e
  step-IsSound (Step.server_releases i e z) h = releases_lem _ i h e
  step-IsSound (Step.server_runs_late i c before behind e) h = late_lem _ i h c before behind e
  step-IsSound (Step.try_ends i r alive e c) h = ends_lem _ i h r alive e c
  step-IsSound (Step.renew_ends i r alive e c) h = renew_ends_lem _ i h r alive e
  step-IsSound (Step.release_ends i r alive e c) h = release_ends_lem _ i h r alive e
  step-IsSound (Step.closes i) h = close_lem _ i h

  Reachable-IsSound : {w : World S} → Reachable server token w → IsSound server token apart w
  Reachable-IsSound (Reachable.started s configs) =
      λ j. unfold ulock in (0, omega arith, tt, (refl, inl refl))
  Reachable-IsSound (Reachable.stepped r s) = step-IsSound s (Reachable-IsSound r)

  abbrev Held : ℕ → Bytes → Option Bytes → Type 0
  Held i tk g = ((n : ℕ) × (tk ≡ token i n)) × (g ≡ some tk)

  Held-of_Owned :
      (f k i : ℕ) (tk : Bytes) (g : Option Bytes)
      → Owned token f k i tk g
      → is_empty tk ≡ false
      → Held i tk g
  Held-of_Owned f k i tk g (inl e) ne = absurd (not_empty tk e ne)
  Held-of_Owned f k i tk g (inr ((n, low, high, e), a)) ne = ((n, e), a)

  Held-of_Good :
      (f k i : ℕ) (tk : Bytes) (p : Phase) (o : Option Reply) (g : Option Bytes)
      → Good token f k i tk p o g
      → is_empty tk ≡ false
      → Held i tk g
  Held-of_Good f k i tk idle o g h ne = Held-of_Owned f k i tk g h.1 ne
  Held-of_Good f k i tk (setting t) o g h ne = absurd (not_empty tk h.0 ne)
  Held-of_Good f k i tk (renewing t) o g h ne = Held-of_Owned f k i tk g h ne
  Held-of_Good f k i tk (releasing t) o g h ne = absurd (not_empty tk h.0 ne)

  -- Two locks never have the key at once, however the calls of any number of them, the server and the
  -- losses of commands and replies interleave, and although the server may run a command long after
  -- the call that sent it has given up, as long as the key does not expire and no token is drawn
  -- twice: while a lock owns the key its token is the value of the key.
  pub Reachable-owns :
      {w : World S} (i j : ℕ)
      → Reachable server token w
      → owns (w.locks i) ≡ true
      → (server.get w.store ≡ some (w.locks i).token) × (owns (w.locks j) ≡ true → i ≡ j)
  unfolding owns
  Reachable-owns {w} i j r o =
      let held = λ (k : ℕ) (h : owns (w.locks k) ≡ true).
        let (f, low, old, good) = Reachable-IsSound r k in
        Held-of_Good f (w.used k) k (w.locks k).token (w.locks k).phase (w.replies k)
          (server.get w.store) good (ground arith) in
      let ((n, e), a) = held i o in
      (
        a,
        λ o'.
            let ((m, e'), a') = held j o' in
            let same : (w.locks i).token ≡ (w.locks j).token = cc in
            (apart i j n m (sym e ∙ same ∙ e')).0,
      )
