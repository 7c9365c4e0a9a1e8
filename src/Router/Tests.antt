-- ===== src/Router/Tests.antt =====
-- The router of http/httpserver.cpp on small route tables, and its theorems at them.
use uco.Prelude.{ℕ, ◌≡◌, refl, true, List, [], ◌∷◌, some}
use uco.Prelude.Bytes.{Bytes, bytes_eq, has_byte}
use uco.Prelude.Dict.{insert, erase}
use uco.Text.Search.{join, join_rest}
use uco.Text.Trim.{trim_left, trim_right, keep_before}
use uco.Router.Segments.{push_segment, split_from, split_path, slashed}
use uco.Router.Tree.{
  kind_of, route_pattern, new_node, find_child, put_child, child_or_new, branch_node, branch_name,
  finish, insert_at, insert_route, or_try, end_of, is_end, try_wildcard, try_child, try_named,
  dfs_match, match_route,
}
use uco.Router.Found.{Step, fixed, Accepts}
use uco.Router.Insert.{steps_of}
use uco.Router.Routes.{
  Routes, steps-discrete, register, handlers_for, is_registered, tree_of, match_route_lem,
  match_route_text,
}
use native.Mathlib.Decide.{ℕ_discrete}
use uco.Router.Group.{
  rooted, strip_end, join_stripped, join_path, root_group, sub_group, instantiate_middleware,
  group_route,
}

program : Unit {0}
unfolding bytes_eq has_byte insert erase join join_rest trim_left trim_right keep_before
    push_segment split_from split_path slashed kind_of route_pattern new_node find_child put_child
    child_or_new branch_node branch_name finish insert_at insert_route or_try end_of is_end
    try_wildcard try_child try_named dfs_match match_route steps_of register rooted strip_end
    join_stripped join_path root_group sub_group instantiate_middleware group_route
program = tt

-- `/a/b`, `/:x` and `/*r`, with the handlers 1, 2 and 3.
abbrev table : Routes ℕ
table =
    ((b'/' ∷ b'a' ∷ b'/' ∷ b'b' ∷ []), 1 ∷ [])
    ∷ ((b'/' ∷ b':' ∷ b'x' ∷ []), 2 ∷ [])
    ∷ ((b'/' ∷ b'*' ∷ b'r' ∷ []), 3 ∷ [])
    ∷ []

found_text :
    (match_route (b'/' ∷ b'a' ∷ b'/' ∷ b'/' ∷ b'b' ∷ b'/' ∷ []) (tree_of table))
    ≡ ([], some (1 ∷ [], (b'/' ∷ b'a' ∷ b'/' ∷ b'b' ∷ [])))
unfolding program
found_text = refl

found_named :
    (match_route (b'/' ∷ b'a' ∷ []) (tree_of table))
    ≡ (((b'x' ∷ []), (b'a' ∷ [])) ∷ [], some (2 ∷ [], (b'/' ∷ b':' ∷ b'x' ∷ [])))
unfolding program
found_named = refl

found_wildcard :
    (match_route (b'/' ∷ b'a' ∷ b'/' ∷ b'c' ∷ []) (tree_of table))
    ≡ (((b'r' ∷ []), (b'a' ∷ b'/' ∷ b'c' ∷ [])) ∷ [], some (3 ∷ [], (b'/' ∷ b'*' ∷ b'r' ∷ [])))
unfolding program
found_wildcard = refl

-- `/:a/:a/x` and `/:a/*r`: the second attempt on `/1/2/3` has lost `a`, which the first one bound
-- twice and took out once.
abbrev clash : Routes ℕ
clash =
    ((b'/' ∷ b':' ∷ b'a' ∷ b'/' ∷ b':' ∷ b'a' ∷ b'/' ∷ b'x' ∷ []), 1 ∷ [])
    ∷ ((b'/' ∷ b':' ∷ b'a' ∷ b'/' ∷ b'*' ∷ b'r' ∷ []), 2 ∷ [])
    ∷ []

param_lost : (match_route (b'/' ∷ b'1' ∷ b'/' ∷ b'2' ∷ b'/' ∷ b'3' ∷ []) (tree_of clash)) ≡ (
  ((b'r' ∷ []), (b'2' ∷ b'/' ∷ b'3' ∷ [])) ∷ [],
  some (2 ∷ [], (b'/' ∷ b':' ∷ b'a' ∷ b'/' ∷ b'*' ∷ b'r' ∷ [])),
)
unfolding program
param_lost = refl

joined :
    join_path (b'a' ∷ b'p' ∷ b'i' ∷ b'/' ∷ []) (b'/' ∷ b'/' ∷ b'u' ∷ b's' ∷ b'e' ∷ b'r' ∷ b's' ∷ [])
    ≡ (b'/' ∷ b'a' ∷ b'p' ∷ b'i' ∷ b'/' ∷ b'u' ∷ b's' ∷ b'e' ∷ b'r' ∷ b's' ∷ [])
unfolding program
joined = refl

match_route_lem_example :
    (steps : List Step) × Accepts steps ((b'a' ∷ []) ∷ [])
    × (is_registered steps table ≡ true)
    × (2 ∷ [] ≡ handlers_for steps table)
unfolding program
match_route_lem_example =
    (match_route_lem table (b'/' ∷ b'a' ∷ [])).0 (2 ∷ [], (b'/' ∷ b':' ∷ b'x' ∷ [])) refl

match_route_text_example :
    (pt : Bytes) × (match_route (b'/' ∷ b'a' ∷ b'/' ∷ b'b' ∷ []) (tree_of table)
      ≡ ([], some (handlers_for (fixed (b'a' ∷ []) ∷ fixed (b'b' ∷ []) ∷ []) table, pt)))
unfolding program is_registered steps-discrete ℕ_discrete
match_route_text_example = match_route_text table (b'/' ∷ b'a' ∷ b'/' ∷ b'b' ∷ []) refl
