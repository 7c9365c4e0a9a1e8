-- ===== src/Router/Group.antt =====
-- `HttpServer::RouteGroup` of http/httpserver.h and http/httpserver.cpp: shared prefixes and
-- middleware. A middleware is the function that makes its handler for a route's full path.
use uco.Prelude.{
  ℕ, ◌≡◌, refl, sym, ap, ap₂, ◌∙◌, true, List, [], ◌∷◌, ◌++◌, map, ◌==◌, if◌then◌else◌, arith,
  Bool-cases, inl, inr,
}
use mathlib.Core.List.{append-nil, map-append}
use uco.Prelude.Bytes.{Bytes, bytes_eq, bytes_eq_iff, has_byte}
use uco.Text.Trim.{trim_right, trim_left, trim_right_lem, Within}
use uco.Router.Segments.{split_path, split_path-slash, split_path-nil, split_path-append_slash}

abbrev slash : Bytes
slash = b'/' ∷ []

-- A slash in front of a prefix that has none.
unfoldable pub rooted : Bytes → Bytes
rooted [] = []
rooted (c ∷ s) = if c == b'/' then c ∷ s else b'/' ∷ c ∷ s

-- `while (base.size() > 1 && base.back() == '/') base.pop_back()`.
unfoldable pub strip_end : Bytes → Bytes
strip_end [] = []
strip_end (c ∷ s) = c ∷ trim_right slash s

-- The last three returns of `JoinPath`, from the base and the path without its leading slashes.
unfoldable pub join_stripped : Bytes → Bytes → Bytes
join_stripped [] [] = b'/' ∷ []
join_stripped (c ∷ base) [] = c ∷ base
join_stripped base (d ∷ path) =
    if bytes_eq base []
    then b'/' ∷ d ∷ path
    else if bytes_eq base slash
    then b'/' ∷ d ∷ path
    else base ++ (b'/' ∷ d ∷ path)

unfoldable pub join_path : Bytes → Bytes → Bytes
join_path prefix path = join_stripped (strip_end (rooted prefix)) (trim_left slash path)

split_path-slashes : (s : Bytes) → Within slash s → split_path s ≡ []
unfolding has_byte
split_path-slashes [] w = split_path-nil
split_path-slashes (c ∷ s) w =
    let e : c ≡ b'/' = ground (arith, w.0) in rw e (split_path-slash s ∙ split_path-slashes s w.1)

split_path-append_slashes : (s r : Bytes) → Within slash r → split_path (s ++ r) ≡ split_path s
unfolding has_byte
split_path-append_slashes s [] w = rw (append-nil s)
split_path-append_slashes s (c ∷ r) w =
    let e : c ≡ b'/' = ground (arith, w.0) in
    rw e (
      split_path-append_slash s r
      ∙ (ap (λ t. split_path s ++ t) (split_path-slashes r w.1) ∙ append-nil (split_path s)))

split_path-rooted : (s : Bytes) → split_path (rooted s) ≡ split_path s
unfolding rooted
split_path-rooted [] = refl
split_path-rooted (c ∷ s) = elim (Bool-cases (c == b'/')) [
  | inl has ↦ rw has refl
  | inr lacks ↦ rw lacks (split_path-slash (c ∷ s))
]

split_path-strip_end : (s : Bytes) → split_path (strip_end s) ≡ split_path s
unfolding strip_end
split_path-strip_end [] = refl
split_path-strip_end (c ∷ s) =
    let (r, cut, inside, _) = trim_right_lem slash s in
    sym (
      ap (λ t. split_path (c ∷ t)) cut
      ∙ split_path-append_slashes (c ∷ trim_right slash s) r inside)

has_slash : (c : ℕ) → has_byte c slash ≡ true → c ≡ b'/'
unfolding has_byte
has_slash c h = ground (arith)

split_path-trim_left : (s : Bytes) → split_path (trim_left slash s) ≡ split_path s
unfolding trim_left
split_path-trim_left [] = refl
split_path-trim_left (c ∷ s) = elim (Bool-cases (has_byte c slash)) [
  | inl has ↦ rw has (split_path-trim_left s ∙ rw (has_slash c has) (sym (split_path-slash s)))
  | inr lacks ↦ rw lacks refl
]

split_path-join_stripped :
    (base path : Bytes) → split_path (join_stripped base path) ≡ split_path base ++ split_path path
unfolding join_stripped
split_path-join_stripped [] [] = split_path-slash [] ∙ rw split_path-nil refl
split_path-join_stripped (c ∷ base) [] =
    rw split_path-nil (sym (append-nil (split_path (c ∷ base))))
split_path-join_stripped base (d ∷ path) = elim (Bool-cases (bytes_eq base [])) [
  | inl empty ↦
      rw (empty, (bytes_eq_iff base []).0 empty, split_path-nil) (split_path-slash (d ∷ path))
  | inr filled ↦ elim (Bool-cases (bytes_eq base slash)) [
    | inl root ↦
        rw (filled, root)
          (split_path-slash (d ∷ path)
            ∙ rw ((bytes_eq_iff base slash).0 root, split_path-slash [], split_path-nil) refl)
    | inr other ↦ rw (filled, other) (split_path-append_slash base (d ∷ path))
  ]
]

-- Joining a prefix and a path joins their segments, wherever slashes are missing or repeated.
pub split_path-join_path :
    (prefix path : Bytes)
    → split_path (join_path prefix path) ≡ split_path prefix ++ split_path path
unfolding join_path
split_path-join_path prefix path =
    split_path-join_stripped (strip_end (rooted prefix)) (trim_left slash path)
    ∙ ap₂ (λ a b. a ++ b) (split_path-strip_end (rooted prefix) ∙ split_path-rooted prefix)
        (split_path-trim_left path)

pub record RouteGroup (H : Type 0) : Type 0 where
  pub prefix : Bytes
  pub middleware : List (Bytes → H)

module _ {H : Type 0} where
  -- `HttpServer::Group`.
  unfoldable pub root_group : Bytes → List (Bytes → H) → RouteGroup H
  root_group prefix middleware = record { prefix = prefix; middleware = middleware }

  -- `RouteGroup::Group`.
  unfoldable pub sub_group : RouteGroup H → Bytes → List (Bytes → H) → RouteGroup H
  sub_group g prefix middleware = record {
    prefix = join_path g.prefix prefix;
    middleware = g.middleware ++ middleware;
  }

  unfoldable pub instantiate_middleware : RouteGroup H → Bytes → List H
  instantiate_middleware g route_pattern = map (λ m. m route_pattern) g.middleware

  -- What `Register` hands to `AddRoute`: the full path and the chain of handlers.
  unfoldable pub group_route : RouteGroup H → Bytes → List H → Bytes × List H
  group_route g path handles =
      let full_path = join_path g.prefix path in
      (full_path, instantiate_middleware g full_path ++ handles)

  -- A route of a group within a group has the segments of both prefixes before its own, and runs
  -- the outer group's middleware, then the inner group's, then its handlers.
  pub group_route_lem :
      (outer inner path : Bytes) (ms ns : List (Bytes → H)) (handles : List H)
      → let route = group_route (sub_group (root_group outer ms) inner ns) path handles in
        (split_path route.0 ≡ (split_path outer ++ split_path inner) ++ split_path path)
        × (route.1 ≡ (map (λ m. m route.0) ms ++ map (λ m. m route.0) ns) ++ handles)
  unfolding group_route sub_group root_group instantiate_middleware
  group_route_lem outer inner path ms ns handles =
      let full = join_path (join_path outer inner) path in
      (
        split_path-join_path (join_path outer inner) path
            ∙ ap (λ t. t ++ split_path path) (split_path-join_path outer inner),
        ap (λ t. t ++ handles) (map-append (λ (m : Bytes → H). m full) ms ns),
      )
