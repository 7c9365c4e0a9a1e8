-- ===== src/Router/Insert.antt =====
-- Registration in the prefix tree of http/httpserver.cpp: what `insert` changes and what it keeps.
use uco.Prelude.{
  ◌≡◌, ◌≢◌, refl, sym, ap, Bool, true, false, List, [], ◌∷◌, ◌++◌, Option, none, some,
  if◌then◌else◌, arith,
}
use uco.Prelude.Bytes.{Bytes, bytes_eq, bytes_eq_iff, bytes_eq_refl}
use uco.Router.Tree.{
  Node, node, Children, nil, child, absent, branch, Kind, kind_of, new_node, find_child, put_child,
  child_or_new, branch_node, branch_name, route_pattern, finish, insert_at,
}
use uco.Router.Found.{Step, fixed, named, wildcard, end_here, end_at}

-- The route that a list of segments spells; what follows a wildcard is not read.
unfoldable pub steps_of : List Bytes → List Step
steps_of [] = []
steps_of (segment ∷ rest) = elim (kind_of segment) [
  | Kind.named name ↦ named ∷ steps_of rest
  | Kind.wildcard name ↦ wildcard ∷ []
  | Kind.fixed ↦ fixed segment ∷ steps_of rest
]

abbrev pub View : Type 0 → Type 0
View H = List H × Bytes × Bool

module _ {H : Type 0} where
  find_child-put_child :
      (s q : Bytes) (n : Node H) (ch : Children H)
      → find_child q (put_child s n ch) ≡ (if bytes_eq s q then some n else find_child q ch)
  unfolding find_child put_child
  find_child-put_child s q n nil = refl
  find_child-put_child s q n (child t m rest) =
      ground (
        arith,
        bytes_eq_iff t s,
        bytes_eq_iff t q,
        bytes_eq_iff s q,
        find_child-put_child s q n rest,
      )

  unfoldable pub view_here : Node H → View H
  view_here (node ch p w hs pt e) = (hs, pt, e)

  -- Handlers, pattern and end mark at a route; those of a new node where the tree has none.
  unfoldable pub view_at : List Step → Node H → View H
  view_at [] n = view_here n
  view_at (fixed s ∷ steps) (node ch p w hs pt e) = view_at steps (child_or_new (find_child s ch))
  view_at (named ∷ steps) (node ch p w hs pt e) = view_at steps (branch_node p)
  view_at (wildcard ∷ []) (node ch p w hs pt e) = view_here (branch_node w)
  view_at (wildcard ∷ step ∷ steps) (node ch p w hs pt e) = ([], [], false)

  abbrev pub end_of_view : View H → Option (List H × Bytes)
  end_of_view (hs, pt, true) = some (hs, pt)
  end_of_view (hs, pt, false) = none

  pub view_at-new : (steps : List Step) → view_at steps (new_node {H = H}) ≡ ([], [], false)
  unfolding view_at new_node view_here find_child child_or_new branch_node
  view_at-new [] = refl
  view_at-new (fixed s ∷ steps) = view_at-new steps
  view_at-new (named ∷ steps) = view_at-new steps
  view_at-new (wildcard ∷ []) = refl
  view_at-new (wildcard ∷ step ∷ steps) = refl

  end_here-view : (n : Node H) → end_here n ≡ end_of_view (view_here n)
  unfolding end_here view_here
  end_here-view (node ch p w hs pt true) = refl
  end_here-view (node ch p w hs pt false) = refl

  end_of_new : (steps : List Step) → none ≡ end_of_view (view_at steps (new_node {H = H}))
  end_of_new steps = ap end_of_view (sym (view_at-new steps))

  pub end_at-view_at :
      (steps : List Step) (n : Node H) → end_at steps n ≡ end_of_view (view_at steps n)
  unfolding end_at view_at child_or_new branch_node
  end_at-view_at [] n = end_here-view n
  end_at-view_at (fixed s ∷ steps) (node ch p w hs pt e) =
      go (end_at-view_at steps) (find_child s ch) refl
    where
      go :
          ((n : Node H) → end_at steps n ≡ end_of_view (view_at steps n))
          → (o : Option (Node H)) → find_child s ch ≡ o
          → end_at (fixed s ∷ steps) (node ch p w hs pt e)
            ≡ end_of_view (view_at (fixed s ∷ steps) (node ch p w hs pt e))
      go ih none eq = rw (eq, end_at, view_at, child_or_new) (end_of_new steps)
      go ih (some n) eq = rw (eq, end_at, view_at, child_or_new) (ih n)
  end_at-view_at (named ∷ steps) (node ch absent w hs pt e) = end_of_new steps
  end_at-view_at (named ∷ steps) (node ch (branch name n) w hs pt e) = end_at-view_at steps n
  end_at-view_at (wildcard ∷ []) (node ch p absent hs pt e) = end_of_new []
  end_at-view_at (wildcard ∷ []) (node ch p (branch name n) hs pt e) = end_here-view n
  end_at-view_at (wildcard ∷ step ∷ steps) (node ch p w hs pt e) = refl

  view_here-finish :
      (pattern : Bytes) (handles : List H) (n : Node H)
      → view_here (finish pattern handles n)
        ≡ ((view_here n).0 ++ handles, route_pattern pattern, true)
  unfolding view_here finish
  view_here-finish pattern handles (node ch p w hs pt e) = refl

  pub child-put_child :
      (s : Bytes) (n : Node H) (ch : Children H)
      → child_or_new (find_child s (put_child s n ch)) ≡ n
  unfolding child_or_new
  child-put_child s n ch = rw (find_child-put_child s s n ch, bytes_eq_refl s, child_or_new) refl

  pub child-put_child_ne :
      (s q : Bytes) (n : Node H) (ch : Children H)
      → q ≢ s
      → child_or_new (find_child q (put_child s n ch)) ≡ child_or_new (find_child q ch)
  child-put_child_ne s q n ch h =
      let miss : bytes_eq s q ≡ false = ground (arith, bytes_eq_iff s q) in
      ap child_or_new (rw (find_child-put_child s q n ch, miss) refl)

  -- A route registered: its handlers come behind those that the tree had there, and it is an end.
  pub view_at-insert_at :
      (parts : List Bytes) (pattern : Bytes) (handles : List H) (n : Node H)
      → (pt : Bytes) × (view_at (steps_of parts) (insert_at parts pattern handles n)
          ≡ ((view_at (steps_of parts) n).0 ++ handles, pt, true))
  unfolding view_at insert_at steps_of branch_node
  view_at-insert_at [] pattern handles n =
      (route_pattern pattern, view_here-finish pattern handles n)
  view_at-insert_at (segment ∷ rest) pattern handles (node ch p w hs pt e) =
      go (view_at-insert_at rest) (kind_of segment) refl
    where
      go :
          ((pattern : Bytes) (handles : List H) (n : Node H)
            → (pt : Bytes) × (view_at (steps_of rest) (insert_at rest pattern handles n)
                ≡ ((view_at (steps_of rest) n).0 ++ handles, pt, true)))
          → (k : Kind) → kind_of segment ≡ k
          → (q : Bytes) × (view_at
                (steps_of (segment ∷ rest))
                (insert_at (segment ∷ rest) pattern handles (node ch p w hs pt e))
              ≡ ((view_at (steps_of (segment ∷ rest)) (node ch p w hs pt e)).0 ++ handles, q, true))
      go ih (Kind.named name) eq =
          let (q, same) =
            ih (pattern ++ (b'/' ∷ b':' ∷ branch_name name p)) handles (branch_node p) in
          (q, rw (eq, steps_of, insert_at, view_at) same)
      go ih (Kind.wildcard name) eq = (
        route_pattern (pattern ++ (b'/' ∷ b'*' ∷ branch_name name w)),
        rw (eq, steps_of, insert_at, view_at)
            (view_here-finish (pattern ++ (b'/' ∷ b'*' ∷ branch_name name w)) handles
              (branch_node w)),
      )
      go ih Kind.fixed eq =
          let inner =
            insert_at rest (pattern ++ (b'/' ∷ segment)) handles
              (child_or_new (find_child segment ch)) in
          let (q, same) =
            ih (pattern ++ (b'/' ∷ segment)) handles (child_or_new (find_child segment ch)) in
          (q, rw (eq, steps_of, insert_at, view_at, child-put_child segment inner ch) same)
