-- ===== src/Router/Found.antt =====
-- The matcher of http/httpserver.cpp against the routes that its tree holds: `dfsMatch` finds a
-- route exactly when one of them accepts the segments.
use uco.Prelude.{
  ◌≡◌, refl, subst, Bool, true, false, List, [], ◌∷◌, Option, none, some, if◌then◌else◌,
}
use mathlib.Core.Option.{some-injective}
use uco.Prelude.Bytes.{Bytes}
use uco.Prelude.Dict.{insert, erase}
use uco.Router.Tree.{
  Node, node, Children, Branch, absent, branch, Params, Outcome, find_child, or_try, end_of, is_end,
  try_wildcard, try_child, try_named, dfs_match,
}

-- A route without its names: text, a parameter, and the wildcard that ends it.
pub data Step : Type 0 where
  fixed : Bytes → Step
  named wildcard : Step

-- The path segments that a route accepts. A wildcard takes any number of segments, none included.
abbrev pub Accepts : List Step → List Bytes → Type 0
Accepts [] [] = Unit
Accepts [] (x ∷ xs) = ⊥
Accepts (fixed s ∷ steps) [] = ⊥
Accepts (fixed s ∷ steps) (x ∷ xs) = (s ≡ x) × Accepts steps xs
Accepts (named ∷ steps) [] = ⊥
Accepts (named ∷ steps) (x ∷ xs) = Accepts steps xs
Accepts (wildcard ∷ []) xs = Unit
Accepts (wildcard ∷ step ∷ steps) xs = ⊥

module _ {H : Type 0} where
  unfoldable pub end_here : Node H → Option (List H × Bytes)
  end_here (node ch p w hs pt e) = if e then some (hs, pt) else none

  -- The handlers and the pattern registered at a route, if the tree has an end there.
  unfoldable pub end_at : List Step → Node H → Option (List H × Bytes)
  end_at [] n = end_here n
  end_at (fixed s ∷ steps) (node ch p w hs pt e) = elim (find_child s ch) [
    | none ↦ none
    | some n ↦ end_at steps n
  ]
  end_at (named ∷ steps) (node ch p w hs pt e) = elim p [
    | absent ↦ none
    | branch name n ↦ end_at steps n
  ]
  end_at (wildcard ∷ []) (node ch p w hs pt e) = elim w [
    | absent ↦ none
    | branch name n ↦ end_here n
  ]
  end_at (wildcard ∷ step ∷ steps) (node ch p w hs pt e) = none

  -- A route of the tree accepts the segments and has these handlers and this pattern.
  abbrev pub Fits : List Bytes → Node H → List H × Bytes → Type 0
  Fits parts n m = (steps : List Step) × Accepts steps parts × (end_at steps n ≡ some m)

  -- No route of the tree accepts the segments.
  abbrev pub Misses : List Bytes → Node H → Type 0
  Misses parts n = (steps : List Step) → Accepts steps parts → end_at steps n ≡ none

  -- Of an attempt: what a success shows, and what a failure shows.
  abbrev Shows : (List H × Bytes → Type 0) → Type 0 → Outcome H → Type 0
  Shows G Q (ps, some m) = G m
  Shows G Q (ps, none) = Q

  or_try-Shows :
      (G : List H × Bytes → Type 0) (Q R : Type 0) (o : Outcome H) (next : Params → Outcome H)
      → Shows G Q o
      → ((ps : Params) → Q → Shows G R (next ps))
      → Shows G R (or_try o next)
  unfolding or_try
  or_try-Shows G Q R (ps, some m) next h k = h
  or_try-Shows G Q R (ps, none) next h k = k ps h

  end_of-Shows :
      (ps : Params) (n : Node H)
      → Shows (λ m. end_here n ≡ some m) (end_here n ≡ none) (end_of ps n)
  unfolding end_of end_here
  end_of-Shows ps (node ch p w hs pt true) = refl
  end_of-Shows ps (node ch p w hs pt false) = refl

  try_wildcard-Shows :
      (parts : List Bytes) (ch : Children H) (p w : Branch H) (hs : List H) (pt : Bytes) (e : Bool)
      (ps : Params)
      → let n = node ch p w hs pt e in
        Shows
          (λ m. end_at (wildcard ∷ []) n ≡ some m)
          (end_at (wildcard ∷ []) n ≡ none)
          (try_wildcard parts w ps)
  unfolding try_wildcard end_at end_here is_end end_of
  try_wildcard-Shows parts ch p absent hs pt e ps = refl
  try_wildcard-Shows parts ch p (branch name (node a b c d f true)) hs pt e ps = refl
  try_wildcard-Shows parts ch p (branch name (node a b c d f false)) hs pt e ps = refl

  Shows-mono :
      (G G' : List H × Bytes → Type 0) (Q Q' : Type 0) (o : Outcome H)
      → ((m : List H × Bytes) → G m → G' m)
      → (Q → Q')
      → Shows G Q o
      → Shows G' Q' o
  Shows-mono G G' Q Q' (ps, some m) g q h = g m h
  Shows-mono G G' Q Q' (ps, none) g q h = q h

  -- With no end at a node and none at its wildcard, no route accepts the empty path there.
  Misses-nil : (n : Node H) → end_at [] n ≡ none → end_at (wildcard ∷ []) n ≡ none → Misses [] n
  Misses-nil n here rest [] a = here
  Misses-nil n here rest (fixed s ∷ steps) a = absurd a
  Misses-nil n here rest (named ∷ steps) a = absurd a
  Misses-nil n here rest (wildcard ∷ []) a = rest
  Misses-nil n here rest (wildcard ∷ step ∷ steps) a = absurd a

  Misses-cons :
      (segment : Bytes) (parts : List Bytes) (n : Node H)
      → ((steps : List Step) → Accepts steps parts → end_at (fixed segment ∷ steps) n ≡ none)
      → ((steps : List Step) → Accepts steps parts → end_at (named ∷ steps) n ≡ none)
      → end_at (wildcard ∷ []) n ≡ none
      → Misses (segment ∷ parts) n
  Misses-cons segment parts n text param rest [] a = absurd a
  Misses-cons segment parts n text param rest (fixed s ∷ steps) a = rw a.0 (text steps a.1)
  Misses-cons segment parts n text param rest (named ∷ steps) a = param steps a
  Misses-cons segment parts n text param rest (wildcard ∷ []) a = rest
  Misses-cons segment parts n text param rest (wildcard ∷ step ∷ steps) a = absurd a

  module _ (segment : Bytes) (parts : List Bytes)
      (ih : (n : Node H) (ps : Params)
        → Shows (Fits parts n) (Misses parts n) (dfs_match parts n ps))
      (ch : Children H) (p w : Branch H) (hs : List H) (pt : Bytes) (e : Bool) where
    abbrev here : Node H
    here = node ch p w hs pt e

    try_child-Shows :
        (o : Option (Node H)) (ps : Params)
        → find_child segment ch ≡ o
        → Shows
            (Fits (segment ∷ parts) here)
            ((steps : List Step) → Accepts steps parts → end_at (fixed segment ∷ steps) here ≡ none)
            (try_child (dfs_match parts) o ps)
    unfolding try_child end_at
    try_child-Shows none ps eq = λ steps a. rw (eq, end_at) refl
    try_child-Shows (some n) ps eq =
        Shows-mono (Fits parts n) (Fits (segment ∷ parts) here) (Misses parts n)
          ((steps : List Step) → Accepts steps parts → end_at (fixed segment ∷ steps) here ≡ none)
          (dfs_match parts n ps) (λ m f. (fixed segment ∷ f.0, (refl, f.1), rw (eq, end_at) f.2))
          (λ miss steps a. rw (eq, end_at) (miss steps a)) (ih n ps)

    erase-Shows :
        (G : List H × Bytes → Type 0) (Q : Type 0) (name : Bytes) (o : Outcome H)
        → Shows G Q o
        → Shows G Q (or_try o (λ left. (erase name left, none)))
    erase-Shows G Q name o h = or_try-Shows G Q Q o (λ left. (erase name left, none)) h (λ ps q. q)

    try_named-Shows :
        (b : Branch H) (ps : Params)
        → p ≡ b
        → Shows
            (Fits (segment ∷ parts) here)
            ((steps : List Step) → Accepts steps parts → end_at (named ∷ steps) here ≡ none)
            (try_named (dfs_match parts) segment b ps)
    unfolding try_named end_at
    try_named-Shows absent ps eq = λ steps a. rw (eq, end_at) refl
    try_named-Shows (branch name n) ps eq =
        erase-Shows (Fits (segment ∷ parts) here)
          ((steps : List Step) → Accepts steps parts → end_at (named ∷ steps) here ≡ none) name
          (dfs_match parts n (insert name segment ps))
          (Shows-mono (Fits parts n) (Fits (segment ∷ parts) here) (Misses parts n)
            ((steps : List Step) → Accepts steps parts → end_at (named ∷ steps) here ≡ none)
            (dfs_match parts n (insert name segment ps))
            (λ m f. (named ∷ f.0, f.1, rw (eq, end_at) f.2))
            (λ miss steps a. rw (eq, end_at) (miss steps a)) (ih n (insert name segment ps)))

    dfs_match-step :
        (ps : Params)
        → Shows
            (Fits (segment ∷ parts) here)
            (Misses (segment ∷ parts) here)
            (dfs_match (segment ∷ parts) here ps)
    unfolding dfs_match
    dfs_match-step ps =
        or_try-Shows (Fits (segment ∷ parts) here)
          ((steps : List Step) → Accepts steps parts → end_at (fixed segment ∷ steps) here ≡ none)
          (Misses (segment ∷ parts) here) (try_child (dfs_match parts) (find_child segment ch) ps) _
          (try_child-Shows (find_child segment ch) ps refl)
          λ ps' text.
            or_try-Shows (Fits (segment ∷ parts) here)
              ((steps : List Step) → Accepts steps parts → end_at (named ∷ steps) here ≡ none)
              (Misses (segment ∷ parts) here) (try_named (dfs_match parts) segment p ps') _
              (try_named-Shows p ps' refl)
              λ ps'' param.
                Shows-mono (λ m. end_at (wildcard ∷ []) here ≡ some m) (Fits (segment ∷ parts) here)
                  (end_at (wildcard ∷ []) here ≡ none) (Misses (segment ∷ parts) here)
                  (try_wildcard (segment ∷ parts) w ps'') (λ m h. (wildcard ∷ [], tt, h))
                  (Misses-cons segment parts here text param)
                  (try_wildcard-Shows (segment ∷ parts) ch p w hs pt e ps'')

  dfs_match-Shows :
      (parts : List Bytes) (n : Node H) (ps : Params)
      → Shows (Fits parts n) (Misses parts n) (dfs_match parts n ps)
  unfolding dfs_match end_at
  dfs_match-Shows [] (node ch p w hs pt e) ps =
      let n = node ch p w hs pt e in
      or_try-Shows (Fits [] n) (end_at [] n ≡ none) (Misses [] n) (end_of ps n) (try_wildcard [] w)
        (Shows-mono (λ m. end_here n ≡ some m) (Fits [] n) (end_here n ≡ none) (end_at [] n ≡ none)
          (end_of ps n) (λ m h. ([], tt, h)) (λ h. h) (end_of-Shows ps n))
        λ ps' here.
          Shows-mono (λ m. end_at (wildcard ∷ []) n ≡ some m) (Fits [] n)
            (end_at (wildcard ∷ []) n ≡ none) (Misses [] n) (try_wildcard [] w ps')
            (λ m h. (wildcard ∷ [], tt, h)) (Misses-nil n here)
            (try_wildcard-Shows [] ch p w hs pt e ps')
  dfs_match-Shows (segment ∷ parts) (node ch p w hs pt e) ps =
      dfs_match-step segment parts (dfs_match-Shows parts) ch p w hs pt e ps

  -- The matcher is right about every tree and path: what it finds is registered at a route that
  -- accepts the segments of the path, and when it finds nothing no route of the tree accepts them.
  pub match_lem :
      (parts : List Bytes) (n : Node H) (ps : Params)
      → ((m : List H × Bytes) → (dfs_match parts n ps).1 ≡ some m → Fits parts n m)
        × ((dfs_match parts n ps).1 ≡ none → Misses parts n)
  match_lem parts n ps = read (dfs_match parts n ps) (dfs_match-Shows parts n ps)
    where
      cc_none : {m : List H × Bytes} → some m ≡ none → ⊥
      cc_none q = cc

      cc_some : {m : List H × Bytes} → none ≡ some m → ⊥
      cc_some q = cc

      read :
          (o : Outcome H)
          → Shows (Fits parts n) (Misses parts n) o
          → ((m : List H × Bytes) → o.1 ≡ some m → Fits parts n m) × (o.1 ≡ none → Misses parts n)
      read (qs, some m) h =
          ((λ k q. subst (Fits parts n) (some-injective m k q) h), λ q. absurd (cc_none q))
      read (qs, none) h = ((λ k q. absurd (cc_some q)), λ q. h)
