-- ===== src/Redis/Lock/Harmless.antt =====
-- core/uredis.cpp, `ulock`: the commands of one lock do no harm to the other locks, nor to itself when
-- they come late.
use uco.Prelude.{
  ℕ, ◌≤◌, ◌≡◌, inl, inr, refl, ap, sym, ◌∙◌, true, Option, none, some, arith, Bool-cases,
  Option-cases,
}
use uco.Prelude.Bytes.{Bytes, bytes_eq_iff}
use uco.Redis.Lock.World.{
  Server, holds, run_set, release_script, renew_script, Command, set_command, renew_command,
  release_command, run_command,
}
use uco.Redis.Lock.Turns.{Old, Won, IsOld, Spares, is_status-empty_reply}

module _ {S : Type 0} (server : Server S) (token : ℕ → ℕ → Bytes)
    (apart : (i j n m : ℕ) → token i n ≡ token j m → (i ≡ j) × (n ≡ m)) where
  -- What lock `i`, whose tokens before `f` are out of use, has the server do harms no lock.
  abbrev pub Harmless : ℕ → ℕ → Option Bytes → Option Bytes → Type 0
  Harmless i f g g' = (j f' : ℕ) → (j ≡ i → f ≤ f') → Spares token j f' g g'

  holds-some : (t : Bytes) (g : Option Bytes) → holds t g ≡ true → g ≡ some t
  holds-some t none h = cc
  holds-some t (some v) h = ap some ((bytes_eq_iff v t).0 h)

  pub set_lem :
      (i f : ℕ) (t : Bytes) (s : S)
      → let (s', r) = run_set server t s in
        Harmless i f (server.get s) (server.get s') × (Won token (some r) → server.get s' ≡ some t)
  unfolding run_set
  set_lem i f t s = elim (Option-cases (server.get s)) [
    | inl e ↦ let (a, b) = server.set_nx-none t s e in rw a (λ j f' c. inr (inl e), λ w. b)
    | inr (v, e) ↦
        let (a, b) = server.set_nx-some t v s e in
        rw a (λ j f' c. inl (b ∙ sym e), λ w. absurd (is_status-empty_reply w))
  ]

  pub renew-Harmless :
      (i f : ℕ) (t : Bytes) (s : S)
      → Harmless i f (server.get s) (server.get (renew_script server t s).0)
  unfolding renew_script
  renew-Harmless i f t s = elim (Bool-cases (holds t (server.get s))) [
    | inl e ↦ rw e (λ j f' c. inl (server.get-pexpire s))
    | inr e ↦ rw e (λ j f' c. inl refl)
  ]

  out_of_use :
      (i f : ℕ) (t : Bytes)
      → Old token f i t
      → (j f' : ℕ) → (j ≡ i → f ≤ f')
      → (n : ℕ) → f' ≤ n
      → t ≡ token j n
      → ⊥
  out_of_use i f t (m, low, e) j f' c n high e' =
      let (same, index) = apart i j m n (sym e ∙ e') in
      let above = c (sym same) in omega (arith, low, high, index, above)

  pub release-Harmless :
      (i f : ℕ) (t : Bytes) (s : S)
      → Old token f i t
      → Harmless i f (server.get s) (server.get (release_script server t s).0)
  unfolding release_script
  release-Harmless i f t s old = elim (Bool-cases (holds t (server.get s))) [
    | inl e ↦
        rw e (λ j f' c. inr (inr (t, holds-some t (server.get s) e, out_of_use i f t old j f' c)))
    | inr e ↦ rw e (λ j f' c. inl refl)
  ]

  pub command-Harmless :
      (i f : ℕ) (c : Command) (s : S)
      → IsOld token f i c
      → Harmless i f (server.get s) (server.get (run_command server c s).0)
  unfolding run_command
  command-Harmless i f (set_command t) s old = (set_lem i f t s).0
  command-Harmless i f (renew_command t) s old = renew-Harmless i f t s
  command-Harmless i f (release_command t) s old = release-Harmless i f t s old
