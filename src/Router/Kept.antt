-- ===== src/Router/Kept.antt =====
-- Registration in the prefix tree of http/httpserver.cpp: the routes that `insert` does not touch.
use uco.Prelude.{◌≡◌, ◌≢◌, refl, ap, ◌∙◌, Bool, List, [], ◌∷◌, arith, Bool-cases, inl, inr}
use uco.Prelude.Bytes.{Bytes, bytes_eq, bytes_eq_iff}
use uco.Router.Tree.{
  Node, node, Children, Branch, Kind, kind_of, find_child, put_child, child_or_new, branch_node,
  finish, insert_at,
}
use uco.Router.Found.{Step, fixed, named, wildcard}
use uco.Router.Insert.{steps_of, view_here, view_at, child-put_child, child-put_child_ne}

-- Registering these segments keeps all other routes.
abbrev Keeps : Type 0 → List Bytes → Type 0
Keeps H parts =
    (steps : List Step) (pattern : Bytes) (handles : List H) (n : Node H)
    → steps ≢ steps_of parts
    → view_at steps (insert_at parts pattern handles n) ≡ view_at steps n

module _ {H : Type 0} where
  -- Nodes that differ in one place differ only at the routes through that place.
  module _ (ch : Children H) (p w : Branch H) (hs : List H) (pt : Bytes) (e : Bool) where
    through_named :
        (p' : Branch H) (steps : List Step)
        → ((rest : List Step)
            → steps ≡ named ∷ rest
            → view_at rest (branch_node p') ≡ view_at rest (branch_node p))
        → view_at steps (node ch p' w hs pt e) ≡ view_at steps (node ch p w hs pt e)
    unfolding view_at view_here
    through_named p' [] h = refl
    through_named p' (fixed s ∷ steps) h = refl
    through_named p' (named ∷ steps) h = h steps refl
    through_named p' (wildcard ∷ []) h = refl
    through_named p' (wildcard ∷ step ∷ steps) h = refl

    through_wildcard :
        (w' : Branch H) (steps : List Step)
        → steps ≢ wildcard ∷ []
        → view_at steps (node ch p w' hs pt e) ≡ view_at steps (node ch p w hs pt e)
    unfolding view_at view_here
    through_wildcard w' [] h = refl
    through_wildcard w' (fixed s ∷ steps) h = refl
    through_wildcard w' (named ∷ steps) h = refl
    through_wildcard w' (wildcard ∷ []) h = absurd (h refl)
    through_wildcard w' (wildcard ∷ step ∷ steps) h = refl

    through_child :
        (segment : Bytes) (n : Node H) (steps : List Step)
        → ((rest : List Step)
            → steps ≡ fixed segment ∷ rest
            → view_at rest n ≡ view_at rest (child_or_new (find_child segment ch)))
        → view_at steps (node (put_child segment n ch) p w hs pt e)
          ≡ view_at steps (node ch p w hs pt e)
    unfolding view_at view_here
    through_child segment n [] h = refl
    through_child segment n (fixed s ∷ steps) h = elim (Bool-cases (bytes_eq s segment)) [
      | inl same ↦
          let eq = (bytes_eq_iff s segment).0 same in
          rw (eq, child-put_child segment n ch) (h steps (ap (λ t. fixed t ∷ steps) eq))
      | inr other ↦
          rw (child-put_child_ne segment s n ch (ground (arith, bytes_eq_iff s segment))) refl
    ]
    through_child segment n (named ∷ steps) h = refl
    through_child segment n (wildcard ∷ []) h = refl
    through_child segment n (wildcard ∷ step ∷ steps) h = refl

  finish_ne :
      (steps : List Step) (pattern : Bytes) (handles : List H) (n : Node H)
      → steps ≢ []
      → view_at steps (finish pattern handles n) ≡ view_at steps n
  unfolding view_at finish
  finish_ne [] pattern handles n h = absurd (h refl)
  finish_ne (fixed s ∷ steps) pattern handles (node ch p w hs pt e) h = refl
  finish_ne (named ∷ steps) pattern handles (node ch p w hs pt e) h = refl
  finish_ne (wildcard ∷ []) pattern handles (node ch p w hs pt e) h = refl
  finish_ne (wildcard ∷ step ∷ steps) pattern handles (node ch p w hs pt e) h = refl

  Keeps-cons :
      (segment : Bytes) (rest : List Bytes) (steps : List Step) (pattern : Bytes) (handles : List H)
      (ch : Children H) (p w : Branch H) (hs : List H) (pt : Bytes) (e : Bool)
      → Keeps H rest
      → (k : Kind) → kind_of segment ≡ k
      → steps ≢ steps_of (segment ∷ rest)
      → view_at steps (insert_at (segment ∷ rest) pattern handles (node ch p w hs pt e))
        ≡ view_at steps (node ch p w hs pt e)
  unfolding insert_at steps_of branch_node
  Keeps-cons segment rest steps pattern handles ch p w hs pt e ih (Kind.named name) eq h =
      rw (eq, insert_at)
        (through_named ch p w hs pt e _ steps λ tail same.
          ih tail _ handles (branch_node p)
            (λ again. h (rw (eq, steps_of) (same ∙ ap (◌∷◌ named) again))))
  Keeps-cons segment rest steps pattern handles ch p w hs pt e ih (Kind.wildcard name) eq h =
      rw (eq, insert_at)
        (through_wildcard ch p w hs pt e _ steps (λ same. h (rw (eq, steps_of) same)))
  Keeps-cons segment rest steps pattern handles ch p w hs pt e ih Kind.fixed eq h =
      rw (eq, insert_at)
        (through_child ch p w hs pt e segment _ steps λ tail same.
          ih tail _ handles (child_or_new (find_child segment ch))
            (λ again. h (rw (eq, steps_of) (same ∙ ap (◌∷◌ (fixed segment)) again))))

  keeps : (parts : List Bytes) → Keeps H parts
  unfolding insert_at steps_of
  keeps [] steps pattern handles n h = finish_ne steps pattern handles n h
  keeps (segment ∷ rest) steps pattern handles (node ch p w hs pt e) h =
      Keeps-cons segment rest steps pattern handles ch p w hs pt e (keeps rest) (kind_of segment)
        refl h

  -- Registration leaves every other route as it was.
  pub view_at-insert_at_ne :
      (parts : List Bytes) (steps : List Step) (pattern : Bytes) (handles : List H) (n : Node H)
      → steps ≢ steps_of parts
      → view_at steps (insert_at parts pattern handles n) ≡ view_at steps n
  view_at-insert_at_ne parts steps pattern handles n h = keeps parts steps pattern handles n h
