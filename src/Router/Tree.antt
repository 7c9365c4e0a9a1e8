-- ===== src/Router/Tree.antt =====
-- `TrieNode` and `PrefixTree` of http/httpserver.cpp: the prefix tree of one method's routes. The
-- handlers are of a type of their own; a pointer that is null is an absent branch, and the name of
-- a parameter or wildcard node stands beside the branch that leads to it.
use uco.Prelude.{Bool, true, false, List, [], ◌∷◌, ◌++◌, Option, none, some, ◌==◌, if◌then◌else◌}
use uco.Prelude.Bytes.{Bytes, bytes_eq}
use uco.Prelude.Dict.{insert, erase}
use uco.Text.Search.{join}
use uco.Router.Segments.{split_path}

mutual
  pub data Node (H : Type 0) : Type 0 where
    node : Children H → Branch H → Branch H → List H → Bytes → Bool → Node H

  pub data Children (H : Type 0) : Type 0 where
    nil : Children H
    child : Bytes → Node H → Children H → Children H

  pub data Branch (H : Type 0) : Type 0 where
    absent : Branch H
    branch : Bytes → Node H → Branch H

abbrev pub Params : Type 0
Params = List (Bytes × Bytes)

-- How a segment of a route is read: `:name`, `*name`, or text.
pub data Kind : Type 0 where
  named wildcard : Bytes → Kind
  fixed : Kind

unfoldable pub kind_of : Bytes → Kind
kind_of [] = fixed
kind_of (c ∷ s) = if c == b':' then named s else if c == b'*' then wildcard s else fixed

-- `pattern.empty() ? "/" : pattern`.
unfoldable pub route_pattern : Bytes → Bytes
route_pattern [] = b'/' ∷ []
route_pattern (c ∷ s) = c ∷ s

-- What a match found: the handlers and the pattern, if any, and the parameters as they stand.
abbrev pub Outcome : Type 0 → Type 0
Outcome H = Params × Option (List H × Bytes)

module _ {H : Type 0} where
  -- `new TrieNode()`.
  unfoldable pub new_node : Node H
  new_node = node nil absent absent [] [] false

  unfoldable pub find_child : Bytes → Children H → Option (Node H)
  find_child s nil = none
  find_child s (child t n rest) = if bytes_eq t s then some n else find_child s rest

  unfoldable pub put_child : Bytes → Node H → Children H → Children H
  put_child s m nil = child s m nil
  put_child s m (child t n rest) =
      if bytes_eq t s then child t m rest else child t n (put_child s m rest)

  -- The child, created if there is none.
  unfoldable pub child_or_new : Option (Node H) → Node H
  child_or_new none = new_node
  child_or_new (some n) = n

  unfoldable pub branch_node : Branch H → Node H
  branch_node absent = new_node
  branch_node (branch name n) = n

  -- The name given when the branch was created stays.
  unfoldable pub branch_name : Bytes → Branch H → Bytes
  branch_name name absent = name
  branch_name name (branch old n) = old

  -- The end of `__insert`, and the handlers that `insert` pushes back.
  unfoldable pub finish : Bytes → List H → Node H → Node H
  finish pattern handles (node ch p w hs old e) =
      node ch p w (hs ++ handles) (route_pattern pattern) true

  -- The loop of `__insert` over the segments from a node on; nothing is read after a wildcard.
  unfoldable pub insert_at : List Bytes → Bytes → List H → Node H → Node H
  insert_at [] pattern handles n = finish pattern handles n
  insert_at (segment ∷ rest) pattern handles (node ch p w hs pt e) = elim (kind_of segment) [
    | named name ↦
        node ch
          (branch (branch_name name p) (
            insert_at rest (pattern ++ (b'/' ∷ b':' ∷ branch_name name p)) handles (branch_node p)))
          w hs pt e
    | wildcard name ↦
        node ch p
          (branch (branch_name name w)
            (finish (pattern ++ (b'/' ∷ b'*' ∷ branch_name name w)) handles (branch_node w)))
          hs pt e
    | fixed ↦
        node
          (put_child segment
            (insert_at rest (pattern ++ (b'/' ∷ segment)) handles
              (child_or_new (find_child segment ch)))
            ch)
          p w hs pt e
  ]

  -- `PrefixTree::insert`.
  unfoldable pub insert_route : Bytes → List H → Node H → Node H
  insert_route path handles root = insert_at (split_path path) [] handles root

  -- The code after a failed attempt goes on with the parameters that the attempt left.
  unfoldable pub or_try : Outcome H → (Params → Outcome H) → Outcome H
  or_try (ps, some m) next = (ps, some m)
  or_try (ps, none) next = next ps

  unfoldable pub end_of : Params → Node H → Outcome H
  end_of ps (node ch p w hs pt e) = if e then (ps, some (hs, pt)) else (ps, none)

  unfoldable pub is_end : Node H → Bool
  is_end (node ch p w hs pt e) = e

  -- The wildcard branch, over what is left of the path.
  unfoldable pub try_wildcard : List Bytes → Branch H → Params → Outcome H
  try_wildcard parts absent ps = (ps, none)
  try_wildcard parts (branch name n) ps =
      if is_end n then end_of (insert name (join parts (b'/' ∷ [])) ps) n else (ps, none)

  unfoldable pub try_child : (Node H → Params → Outcome H) → Option (Node H) → Params → Outcome H
  try_child matches none ps = (ps, none)
  try_child matches (some n) ps = matches n ps

  -- A parameter branch that fails takes its parameter out again.
  unfoldable pub try_named : (Node H → Params → Outcome H) → Bytes → Branch H → Params → Outcome H
  try_named matches segment absent ps = (ps, none)
  try_named matches segment (branch name n) ps =
      or_try (matches n (insert name segment ps)) (λ left. (erase name left, none))

  -- `dfsMatch` from a node on.
  unfoldable pub dfs_match : List Bytes → Node H → Params → Outcome H
  dfs_match [] (node ch p w hs pt e) ps =
      or_try (end_of ps (node ch p w hs pt e)) (try_wildcard [] w)
  dfs_match (segment ∷ rest) (node ch p w hs pt e) ps =
      or_try (try_child (dfs_match rest) (find_child segment ch) ps)
        (λ ps'. or_try (try_named (dfs_match rest) segment p ps') (try_wildcard (segment ∷ rest) w))

  -- `PrefixTree::match`.
  unfoldable pub match_route : Bytes → Node H → Outcome H
  match_route path root = dfs_match (split_path path) root []
