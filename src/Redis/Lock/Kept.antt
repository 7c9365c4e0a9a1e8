-- ===== src/Redis/Lock/Kept.antt =====
-- core/uredis.cpp, `ulock`: the locks stay in order with respect to the key when one of them changes.
use uco.Prelude.{
  ℕ, ◌+◌, ◌≤◌, ◌≡◌, inl, inr, sym, subst, ◌∙◌, false, List, Option, none, some, ◌==◌, Bool-cases,
  ==_iff,
}
use uco.Prelude.Bytes.{Bytes}
use uco.Redis.Reply.{Reply}
use uco.Redis.Lock.{Lock}
use uco.Redis.Lock.World.{
  Server, Command, World, served, changed, drew, left_behind, finished, ran_late,
}
use uco.Redis.Lock.Turns.{Fine, true_ne_false, Good-Spares}
use uco.Redis.Lock.Harmless.{Harmless}

module _ {S : Type 0} (server : Server S) (token : ℕ → ℕ → Bytes)
    (apart : (i j n m : ℕ) → token i n ≡ token j m → (i ≡ j) × (n ≡ m)) where
  -- Every lock is in order with respect to the key.
  abbrev pub IsSound : World S → Type 0
  IsSound w =
      (j : ℕ) → Fine token j (w.used j) (w.late j) (w.locks j) (w.replies j) (server.get w.store)

  module _ (w : World S) (i : ℕ) (h : IsSound w) where
    pub changed-IsSound :
        (l : Lock)
        → Fine token i (w.used i) (w.late i) l (w.replies i) (server.get w.store)
        → IsSound (changed w i l)
    unfolding changed
    changed-IsSound l good j = elim (Bool-cases (j == i)) [
      | inl e ↦ rw e (
          subst (λ k. Fine token k (w.used k) (w.late k) l (w.replies k) (server.get w.store))
            (sym ((==_iff j i).0 e)) good)
      | inr e ↦ rw e (h j)
    ]

    pub drew-IsSound :
        (l : Lock)
        → Fine token i (w.used i + 1) (w.late i) l (w.replies i) (server.get w.store)
        → IsSound (drew w i l)
    unfolding drew
    drew-IsSound l good j = elim (Bool-cases (j == i)) [
      | inl e ↦ rw e (
          subst (λ k. Fine token k (w.used i + 1) (w.late k) l (w.replies k) (server.get w.store))
            (sym ((==_iff j i).0 e)) good)
      | inr e ↦ rw e (h j)
    ]

    pub finished-IsSound :
        (c : Command) (l : Lock)
        → Fine token i
            (w.used i)
            (left_behind (w.replies i) c (w.late i))
            l
            none
            (server.get w.store)
        → IsSound (finished w i c l)
    unfolding finished
    finished-IsSound c l good j = elim (Bool-cases (j == i)) [
      | inl e ↦ rw e (
          subst
            (λ k.
              Fine token k (w.used k) (left_behind (w.replies i) c (w.late i)) l none
                (server.get w.store))
            (sym ((==_iff j i).0 e)) good)
      | inr e ↦ rw e (h j)
    ]

    -- The locks other than `i`, when the server does something harmless.
    others :
        (f j : ℕ) {g' : Option Bytes}
        → Harmless server token apart i f (server.get w.store) g'
        → (j == i) ≡ false
        → Fine token j (w.used j) (w.late j) (w.locks j) (w.replies j) g'
    others f j harmless e =
        let (f', low, old, good) = h j in
        let other : j ≡ i → f ≤ f' = λ k. absurd (true_ne_false (sym ((==_iff j i).1 k) ∙ e)) in
        (
          f',
          low,
          old,
          Good-Spares token j f' (w.used j) (w.locks j).token (w.locks j).phase (w.replies j)
              (harmless j f' other) good,
        )

    pub served-IsSound :
        (f : ℕ) (s : S) (r : Reply)
        → Harmless server token apart i f (server.get w.store) (server.get s)
        → Fine token i (w.used i) (w.late i) (w.locks i) (some r) (server.get s)
        → IsSound (served w i (s, r))
    unfolding served
    served-IsSound f s r harmless good j = elim (Bool-cases (j == i)) [
      | inl e ↦ rw e (
          subst (λ k. Fine token k (w.used k) (w.late k) (w.locks k) (some r) (server.get s))
            (sym ((==_iff j i).0 e)) good)
      | inr e ↦ rw e (others f j harmless e)
    ]

    pub ran_late-IsSound :
        (f : ℕ) (l : List Command) (s : S)
        → Harmless server token apart i f (server.get w.store) (server.get s)
        → Fine token i (w.used i) l (w.locks i) (w.replies i) (server.get s)
        → IsSound (ran_late w i l s)
    unfolding ran_late
    ran_late-IsSound f l s harmless good j = elim (Bool-cases (j == i)) [
      | inl e ↦ rw e (
          subst (λ k. Fine token k (w.used k) l (w.locks k) (w.replies k) (server.get s))
            (sym ((==_iff j i).0 e)) good)
      | inr e ↦ rw e (others f j harmless e)
    ]
