-- ===== src/Redis/Lock/Turns.antt =====
-- core/uredis.cpp, `ulock`: what each part of a call, and what the server does for one lock, mean to
-- the owners of the key.
use uco.Prelude.{
  ℕ, ◌+◌, ◌≤◌, ◌<◌, ◌≡◌, ◌⊎◌, inl, inr, refl, ap, sym, subst, ◌∙◌, Bool, true, false, not, ◌||◌,
  List, [], ◌∷◌, Option, none, some, arith, Bool-cases,
}
use uco.Prelude.Bytes.{Bytes, All}
use uco.Redis.Reply.{
  Reply, reply, empty_reply, status_type, integer_type, nil_type, string_type, array_type,
}
use uco.Redis.Lock.{
  Phase, idle, setting, renewing, releasing, Lock, is_empty, is_status, is_one, try_begin,
  try_finish, renew_begin, renew_finish, release_begin, release_finish,
}
use uco.Redis.Lock.World.{
  IsFailure, Comes, Command, set_command, renew_command, release_command, left_behind,
}

pub true_ne_false : true ≡ false → ⊥
true_ne_false h = cc

pub is_status-empty_reply : is_status empty_reply ≡ true → ⊥
unfolding is_status
is_status-empty_reply h = cc

pub not_empty : (s : Bytes) → s ≡ [] → is_empty s ≡ false → ⊥
not_empty s e h = true_ne_false (ap is_empty (sym e) ∙ h)

module _ (token : ℕ → ℕ → Bytes) where
  -- Lock `i` has drawn `k` tokens, and those before `f` are out of use.
  abbrev pub Live : ℕ → ℕ → ℕ → Bytes → Type 0
  Live f k i t = (n : ℕ) × (f ≤ n) × (n < k) × (t ≡ token i n)

  abbrev pub Old : ℕ → ℕ → Bytes → Type 0
  Old f i t = (n : ℕ) × (n < f) × (t ≡ token i n)

  -- A lock with a token has the key.
  abbrev pub Owned : ℕ → ℕ → ℕ → Bytes → Option Bytes → Type 0
  Owned f k i tk g = (tk ≡ []) ⊎ (Live f k i tk × (g ≡ some tk))

  abbrev pub Won : Option Reply → Type 0
  Won none = ⊥
  Won (some r) = is_status r ≡ true

  -- What holds of lock `i` in each phase, when `g` is the key's value.
  abbrev pub Good : ℕ → ℕ → ℕ → Bytes → Phase → Option Reply → Option Bytes → Type 0
  Good f k i tk idle o g = (o ≡ none) × Owned f k i tk g
  Good f k i tk (setting t) o g = (tk ≡ []) × Live f k i t × (Won o → g ≡ some t)
  Good f k i tk (renewing t) o g = Owned f k i tk g
  Good f k i tk (releasing t) o g = (tk ≡ []) × Old f i t

  -- A release that was left behind is of a token that is out of use.
  abbrev pub IsOld : ℕ → ℕ → Command → Type 0
  IsOld f i (set_command t) = Unit
  IsOld f i (renew_command t) = Unit
  IsOld f i (release_command t) = Old f i t

  abbrev pub Fine : ℕ → ℕ → List Command → Lock → Option Reply → Option Bytes → Type 0
  Fine i k late l o g = (f : ℕ) × (f ≤ k) × All (IsOld f i) late × Good f k i l.token l.phase o g

  -- What may be done to the key without harm to lock `j`: it is taken when it is free, or dropped when
  -- its value is no token that `j` has in use.
  abbrev pub Spares : ℕ → ℕ → Option Bytes → Option Bytes → Type 0
  Spares j f g g' =
      (g' ≡ g) ⊎ (g ≡ none) ⊎ ((t : Bytes) × (g ≡ some t) × ((n : ℕ) → f ≤ n → t ≡ token j n → ⊥))

  spared :
      (j f k : ℕ) {g g' : Option Bytes} (t : Bytes)
      → Spares j f g g'
      → Live f k j t
      → g ≡ some t
      → g' ≡ some t
  spared j f k t (inl e) h a = e ∙ a
  spared j f k t (inr (inl e)) h a = cc
  spared j f k t (inr (inr (u, e, unused))) (m, low, high, l) a =
      let same : u ≡ t = cc in absurd (unused m low (same ∙ l))

  pub Good-Spares :
      (j f k : ℕ) {g g' : Option Bytes} (tk : Bytes) (p : Phase) (o : Option Reply)
      → Spares j f g g'
      → Good f k j tk p o g
      → Good f k j tk p o g'
  Good-Spares j f k tk idle o s (z, inl e) = (z, inl e)
  Good-Spares j f k tk idle o s (z, inr (h, a)) = (z, inr (h, spared j f k tk s h a))
  Good-Spares j f k tk (setting t) o s (e, h, a) = (e, h, λ w. spared j f k t s h (a w))
  Good-Spares j f k tk (renewing t) o s (inl e) = inl e
  Good-Spares j f k tk (renewing t) o s (inr (h, a)) = inr (h, spared j f k tk s h a)
  Good-Spares j f k tk (releasing t) o s h = h

  Live-more : {f k i : ℕ} {t : Bytes} → Live f k i t → Live f (k + 1) i t
  Live-more (n, low, high, e) = (n, low, omega (arith, high), e)

  Owned-more : {f k i : ℕ} {t : Bytes} {g : Option Bytes} → Owned f k i t g → Owned f (k + 1) i t g
  Owned-more (inl e) = inl e
  Owned-more (inr (h, a)) = inr (Live-more h, a)

  pub Good-more :
      (f k i : ℕ) (tk : Bytes) (p : Phase) (o : Option Reply) (g : Option Bytes)
      → Good f k i tk p o g
      → Good f (k + 1) i tk p o g
  Good-more f k i tk idle o g (z, h) = (z, Owned-more h)
  Good-more f k i tk (setting t) o g (e, h, a) = (e, Live-more h, a)
  Good-more f k i tk (renewing t) o g h = Owned-more h
  Good-more f k i tk (releasing t) o g h = h

  pub Old-more : {f f' i : ℕ} {t : Bytes} → f ≤ f' → Old f i t → Old f' i t
  Old-more h (n, low, e) = (n, omega (arith, h, low), e)

  pub all-IsOld-more :
      (f f' i : ℕ) (l : List Command) → f ≤ f' → All (IsOld f i) l → All (IsOld f' i) l
  all-IsOld-more f f' i [] h a = tt
  all-IsOld-more f f' i (set_command t ∷ l) h a = (tt, all-IsOld-more f f' i l h a.1)
  all-IsOld-more f f' i (renew_command t ∷ l) h a = (tt, all-IsOld-more f f' i l h a.1)
  all-IsOld-more f f' i (release_command t ∷ l) h a =
      (Old-more h a.0, all-IsOld-more f f' i l h a.1)

  pub left_behind-IsOld :
      (f i : ℕ) (o : Option Reply) (c : Command) (l : List Command)
      → IsOld f i c
      → All (IsOld f i) l
      → All (IsOld f i) (left_behind o c l)
  unfolding left_behind
  left_behind-IsOld f i none c l h a = (h, a)
  left_behind-IsOld f i (some r) c l h a = a

  empty-of_is_empty : (s : Bytes) → is_empty s ≡ true → s ≡ []
  empty-of_is_empty [] h = refl
  empty-of_is_empty (c ∷ s) h = cc

  Old-of_Owned :
      (f k i : ℕ) (tk : Bytes) {g : Option Bytes}
      → Owned f k i tk g
      → is_empty tk ≡ false
      → Old k i tk
  Old-of_Owned f k i [] (inl e) h = cc
  Old-of_Owned f k i (c ∷ tk) (inl e) h = cc
  Old-of_Owned f k i tk (inr ((n, low, high, e), a)) h = (n, high, e)

  pub Good-close :
      (f k i : ℕ) (tk : Bytes) (p : Phase) (o : Option Reply) (g : Option Bytes)
      → Good f k i tk p o g
      → Good f k i [] p o g
  Good-close f k i tk idle o g h = (h.0, inl refl)
  Good-close f k i tk (setting t) o g h = (refl, h.1, h.2)
  Good-close f k i tk (renewing t) o g h = inl refl
  Good-close f k i tk (releasing t) o g h = (refl, h.1)

  is_status-IsFailure : (r : Reply) → IsFailure r → is_status r ≡ false
  unfolding is_status
  is_status-IsFailure (reply e status_type n s rs) h = ground arith
  is_status-IsFailure (reply e nil_type n s rs) h = refl
  is_status-IsFailure (reply e string_type n s rs) h = refl
  is_status-IsFailure (reply e integer_type n s rs) h = refl
  is_status-IsFailure (reply e array_type n s rs) h = refl

  Won-Comes : (o : Option Reply) (r : Reply) → Comes o r → is_status r ≡ true → Won o
  Won-Comes o r (inl e) h = subst Won (sym e) h
  Won-Comes o r (inr f) h = absurd (true_ne_false (sym h ∙ is_status-IsFailure r f))

  module _ (f k i : ℕ) (l : Lock) (o : Option Reply) (g : Option Bytes) where
    abbrev pub IsGood : Lock → Option Reply → Option Bytes → Type 0
    IsGood m r v = Good f k i m.token m.phase r v

    at_idle : l.phase ≡ idle → IsGood l o g → (o ≡ none) × Owned f k i l.token g
    at_idle e h = subst (λ p. Good f k i l.token p o g) e h

    pub try_begin-Good :
        (b : Bool)
        → f ≤ k
        → l.phase ≡ idle
        → IsGood l o g
        → let m = (try_begin (token i k) b l).0 in Good f (k + 1) i m.token m.phase o g
    unfolding try_begin
    try_begin-Good b low e h =
        let h' = Good-more f k i l.token l.phase o g h in
        elim (Bool-cases l.stopped) [
          | inl a ↦ rw a h'
          | inr a ↦ elim (Bool-cases (is_empty l.config.key)) [
            | inl y ↦ rw (a, y) h'
            | inr y ↦ elim (Bool-cases (is_empty l.token)) [
              | inr t ↦ rw (a, y, t) h'
              | inl t ↦ elim (Bool-cases (l.connected || b)) [
                | inr c ↦ rw (a, y, t, c) h'
                | inl c ↦
                    rw (a, y, t, c)
                      (
                        empty-of_is_empty l.token t,
                        (k, low, omega arith, refl),
                        λ w. absurd (subst Won (at_idle e h).0 w),
                      )
              ]
            ]
          ]
        ]

    dropped : l.phase ≡ idle → IsGood l o g → Good f k i [] l.phase o g
    dropped e h = subst (λ p. Good f k i [] p o g) (sym e) ((at_idle e h).0, inl refl)

    pub renew_begin-Good : l.phase ≡ idle → IsGood l o g → IsGood (renew_begin l).0 o g
    unfolding renew_begin
    renew_begin-Good e h = elim (Bool-cases l.stopped) [
      | inl a ↦ rw a h
      | inr a ↦ elim (Bool-cases (is_empty l.token)) [
        | inl t ↦ rw (a, t) h
        | inr t ↦ elim (Bool-cases (not l.connected)) [
          | inl c ↦ rw (a, t, c) (dropped e h)
          | inr c ↦ rw (a, t, c) (at_idle e h).1
        ]
      ]
    ]

    -- The token of a release that is sent is out of use from then on.
    pub release_begin-Good :
        f ≤ k
        → l.phase ≡ idle
        → IsGood l o g
        → (f' : ℕ) × (f ≤ f')
          × (f' ≤ k)
          × (let m = (release_begin l).0 in Good f' k i m.token m.phase o g)
    unfolding release_begin
    release_begin-Good low e h = elim (Bool-cases l.stopped) [
      | inl a ↦ rw a (f, omega arith, low, h)
      | inr a ↦ elim (Bool-cases (is_empty l.token)) [
        | inl t ↦ rw (a, t) (f, omega arith, low, h)
        | inr t ↦ elim (Bool-cases (not l.connected)) [
          | inl c ↦ rw (a, t, c) (f, omega arith, low, dropped e h)
          | inr c ↦
              rw (a, t, c)
                (k, low, omega arith, (refl, Old-of_Owned f k i l.token (at_idle e h).1 t))
        ]
      ]
    ]

    module _ (r : Reply) (alive : Bool) {t : Bytes} where
      pub try_finish-Good :
          l.phase ≡ setting t → Comes o r → IsGood l o g → IsGood (try_finish t r alive l).0 none g
      unfolding try_finish
      try_finish-Good e come h =
          let (free, mine, won) = subst (λ p. Good f k i l.token p o g) e h in
          elim (Bool-cases (is_status r)) [
            | inl ok ↦ rw ok (refl, inr (mine, won (Won-Comes o r come ok)))
            | inr no_ok ↦ rw no_ok (refl, inl free)
          ]

      pub renew_finish-Good :
          l.phase ≡ renewing t → IsGood l o g → IsGood (renew_finish r alive l).0 none g
      unfolding renew_finish
      renew_finish-Good e h =
          let owned = subst (λ p. Good f k i l.token p o g) e h in
          elim (Bool-cases (is_one r)) [
            | inl ok ↦ rw ok (refl, owned)
            | inr no_ok ↦ rw no_ok (refl, inl refl)
          ]

      pub release_finish-Good :
          l.phase ≡ releasing t
          → IsGood l o g
          → IsGood (release_finish r alive l).0 none g × Old f i t
      unfolding release_finish
      release_finish-Good e h =
          let (free, old) = subst (λ p. Good f k i l.token p o g) e h in ((refl, inl free), old)
