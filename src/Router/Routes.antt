-- ===== src/Router/Routes.antt =====
-- A server's routes: registration in order, as `GET`, `POST` and `AddRoute` of http/httpserver.cpp
-- do it for one method, and what the matcher finds in the tree that results.
use uco.Prelude.{
  ◌≡◌, refl, sym, ap, subst, ◌∙◌, Bool, true, false, ◌||◌, List, [], ◌∷◌, ◌++◌, map, none, some,
  arith, Option-cases, inl, inr,
}
use mathlib.Core.List.{append-nil, append_assoc}
use mathlib.Core.Logic.{ite, if_pos, if_neg}
use native.Mathlib.Decide.{ℕ_discrete}
use mathlib.Core.Option.{some-injective}
use uco.Prelude.Bytes.{Bytes}
use uco.Router.Segments.{split_path}
use uco.Router.Tree.{
  Node, node, Children, Branch, Params, new_node, insert_at, insert_route, find_child, or_try,
  end_of, try_child, dfs_match, match_route,
}
use uco.Router.Found.{Step, fixed, Accepts, end_at, end_here, match_lem}
use uco.Router.Insert.{
  steps_of, View, view_at, end_of_view, view_at-new, end_at-view_at, view_at-insert_at,
}
use uco.Router.Kept.{view_at-insert_at_ne}

Step-discrete : Discrete Step
Step-discrete = hlevel ℕ_discrete

unfoldable pub steps-discrete : Discrete (List Step)
unfolding Step-discrete
steps-discrete = hlevel Step-discrete

-- Routes in the order of registration: the path as written, and the handlers given with it.
abbrev pub Routes : Type 0 → Type 0
Routes H = List (Bytes × List H)

or_false : (b : Bool) → (b || false) ≡ b
or_false true = refl
or_false false = refl

or_true : (b : Bool) → (b || true) ≡ true
or_true true = refl
or_true false = refl

module _ {H : Type 0} where
  unfoldable pub register : Routes H → Node H → Node H
  register [] n = n
  register ((path, handles) ∷ routes) n = register routes (insert_route path handles n)

  -- The handlers of all registrations of a route, in order.
  unfoldable pub handlers_for : List Step → Routes H → List H
  handlers_for steps [] = []
  handlers_for steps ((path, handles) ∷ routes) =
      ite (steps-discrete steps (steps_of (split_path path))) (handles ++ handlers_for steps routes)
        (handlers_for steps routes)

  unfoldable pub is_registered : List Step → Routes H → Bool
  is_registered steps [] = false
  is_registered steps ((path, handles) ∷ routes) =
      ite (steps-discrete steps (steps_of (split_path path))) true (is_registered steps routes)

  view_at-register :
      (routes : Routes H) (steps : List Step) (n : Node H)
      → ((view_at steps (register routes n)).0 ≡ (view_at steps n).0 ++ handlers_for steps routes)
        × ((view_at steps (register routes n)).2
            ≡ ((view_at steps n).2 || is_registered steps routes))
  unfolding register handlers_for is_registered insert_route
  view_at-register [] steps n = (sym (append-nil _), sym (or_false _))
  view_at-register ((path, handles) ∷ routes) steps n =
      let parts = split_path path in
      let next = insert_at parts [] handles n in
      let (hs, end) = view_at-register routes steps next in
      let old = (view_at steps n).0 in
      let later = handlers_for steps routes in
      elim (steps-discrete steps (steps_of parts)) [
        | yes same ↦
            let (pt, put) = view_at-insert_at parts [] handles n in
            let put' : view_at steps next ≡ (old ++ handles, pt, true) =
              subst (λ t. view_at t next ≡ ((view_at t n).0 ++ handles, pt, true)) (sym same) put in
            (
              hs
                  ∙ (ap (λ (v : View H). v.0 ++ later) put'
                      ∙ (append_assoc old handles later
                          ∙ ap (λ t. old ++ t)
                              (sym (if_pos (steps-discrete steps (steps_of parts)) same _ _)))),
              end
                  ∙ (ap (λ (v : View H). v.2 || is_registered steps routes) put'
                      ∙ (sym (or_true (view_at steps n).2)
                          ∙ ap (λ t. (view_at steps n).2 || t)
                              (sym (if_pos (steps-discrete steps (steps_of parts)) same _ _)))),
            )
        | no other ↦
            let kept = view_at-insert_at_ne parts steps [] handles n other in
            (
              hs
                  ∙ (ap (λ (v : View H). v.0 ++ later) kept
                      ∙ ap (λ t. old ++ t)
                          (sym (if_neg (steps-discrete steps (steps_of parts)) other _ _))),
              end
                  ∙ (ap (λ (v : View H). v.2 || is_registered steps routes) kept
                      ∙ ap (λ t. (view_at steps n).2 || t)
                          (sym (if_neg (steps-discrete steps (steps_of parts)) other _ _))),
            )
      ]

  -- The tree of a server that has registered these routes.
  abbrev pub tree_of : Routes H → Node H
  tree_of routes = register routes new_node

  view_at-tree_of :
      (routes : Routes H) (steps : List Step)
      → ((view_at steps (tree_of routes)).0 ≡ handlers_for steps routes)
        × ((view_at steps (tree_of routes)).2 ≡ is_registered steps routes)
  view_at-tree_of routes steps =
      let (hs, end) = view_at-register routes steps new_node in
      let fresh = view_at-new steps in
      (
        hs ∙ ap (λ (v : View H). v.0 ++ handlers_for steps routes) fresh,
        end ∙ ap (λ (v : View H). v.2 || is_registered steps routes) fresh,
      )

  end_of_view-some :
      (v : View H) (m : List H × Bytes) → end_of_view v ≡ some m → (v.2 ≡ true) × (m.0 ≡ v.0)
  end_of_view-some (hs, pt, true) m h =
      (refl, ap (λ (k : List H × Bytes). k.0) (sym (some-injective (hs, pt) m h)))
  end_of_view-some (hs, pt, false) m h = absurd (ground arith)

  end_of_view-none : (v : View H) → end_of_view v ≡ none → v.2 ≡ false
  end_of_view-none (hs, pt, true) h = absurd (ground arith)
  end_of_view-none (hs, pt, false) h = refl

  -- Whatever routes a server registers and whatever path it is asked for: the handlers found are
  -- those registered, in order, for a route that accepts the path; and if none are found, no
  -- registered route accepts the path.
  pub match_route_lem :
      (routes : Routes H) (path : Bytes)
      → ((m : List H × Bytes)
          → (match_route path (tree_of routes)).1 ≡ some m
          → (steps : List Step) × Accepts steps (split_path path)
            × (is_registered steps routes ≡ true)
            × (m.0 ≡ handlers_for steps routes))
        × ((match_route path (tree_of routes)).1 ≡ none
            → (steps : List Step) → Accepts steps (split_path path)
            → is_registered steps routes ≡ false)
  unfolding match_route
  match_route_lem routes path =
      let tree = tree_of routes in
      let (found, missed) = match_lem (split_path path) tree [] in
      (
        (λ m e.
            let (steps, accepts, ends) = found m e in
            let (flag, hs) =
              end_of_view-some (view_at steps tree) m (sym (end_at-view_at steps tree) ∙ ends) in
            let (all, registered) = view_at-tree_of routes steps in
            (steps, accepts, sym registered ∙ flag, hs ∙ all)),
        λ e steps accepts.
            sym (view_at-tree_of routes steps).1
            ∙ end_of_view-none (view_at steps tree)
                (sym (end_at-view_at steps tree) ∙ missed e steps accepts),
      )

  end_of_view-end : (v : View H) → v.2 ≡ true → end_of_view v ≡ some (v.0, v.1)
  end_of_view-end (hs, pt, true) h = refl
  end_of_view-end (hs, pt, false) h = absurd (ground arith)

  none-some : {m : List H × Bytes} → none ≡ some m → ⊥
  none-some h = cc

  module _ (s : Bytes) (steps : List Step) (ch : Children H) (p w : Branch H) (hs : List H)
      (pt : Bytes) (e : Bool) where
    child_missing : find_child s ch ≡ none → end_at (fixed s ∷ steps) (node ch p w hs pt e) ≡ none
    unfolding end_at
    child_missing eq = rw (eq, end_at) refl

    child_end :
        (n : Node H)
        → find_child s ch ≡ some n
        → end_at (fixed s ∷ steps) (node ch p w hs pt e) ≡ end_at steps n
    unfolding end_at
    child_end n eq = rw (eq, end_at) refl

  dfs_match_text :
      (parts : List Bytes) (n : Node H) (ps : Params) (m : List H × Bytes)
      → end_at (map fixed parts) n ≡ some m
      → dfs_match parts n ps ≡ (ps, some m)
  unfolding dfs_match end_at end_here end_of or_try try_child
  dfs_match_text [] (node ch p w hs pt true) ps m h = ap (λ o. (ps, o)) h
  dfs_match_text [] (node ch p w hs pt false) ps m h = absurd (ground arith)
  dfs_match_text (s ∷ parts) (node ch p w hs pt e) ps m h = elim (Option-cases (find_child s ch)) [
    | inl eq ↦ absurd (none-some (sym (child_missing s (map fixed parts) ch p w hs pt e eq) ∙ h))
    | inr (n, eq) ↦
        rw
          (
            eq,
            try_child,
            dfs_match_text parts n ps m
                (sym (child_end s (map fixed parts) ch p w hs pt e n eq) ∙ h),
          )
          refl
  ]

  -- A route of text alone wins: its own path finds its handlers, whatever parameters and wildcards
  -- the other routes have, and binds no parameter.
  pub match_route_text :
      (routes : Routes H) (path : Bytes)
      → is_registered (map fixed (split_path path)) routes ≡ true
      → (pt : Bytes) × (match_route path (tree_of routes)
          ≡ ([], some (handlers_for (map fixed (split_path path)) routes, pt)))
  unfolding match_route
  match_route_text routes path h =
      let steps = map fixed (split_path path) in
      let tree = tree_of routes in
      let (hs, end) = view_at-tree_of routes steps in
      let ends : end_at steps tree ≡ some (handlers_for steps routes, (view_at steps tree).1) =
        end_at-view_at steps tree
        ∙ (end_of_view-end (view_at steps tree) (end ∙ h)
            ∙ ap (λ l. some (l, (view_at steps tree).1)) hs) in
      (
        (view_at steps tree).1,
        dfs_match_text (split_path path) tree [] (handlers_for steps routes, (view_at steps tree).1)
            ends,
      )
