-- ===== src/Prelude/Dict.antt =====
-- `std::unordered_map<std::string, V>` as an association list: each key at most once.
use uco.Prelude.Tests.{if◌then◌else◌}
use uco.Prelude.Lists.{length}
use uco.Prelude.Bytes.{Bytes, bytes_eq, bytes_eq_iff}
use Prim.Native.Nat.{◌+◌, ◌≤◌}
use mathlib.Core.Path.{◌≡◌, refl}
use mathlib.Core.Bool.{false}
use mathlib.Core.List.{List, [], ◌∷◌}
use mathlib.Core.Option.{Option, none, some}
use native.Mathlib.Omega.{arith}

module _ {ℓ} {V : Type ℓ} where
  -- `find(k)`.
  unfoldable pub lookup : Bytes → List (Bytes × V) → Option V
  lookup k [] = none
  lookup k ((j, v) ∷ m) = if bytes_eq j k then some v else lookup k m

  -- `m[k] = v`.
  unfoldable pub insert : Bytes → V → List (Bytes × V) → List (Bytes × V)
  insert k v [] = (k, v) ∷ []
  insert k v ((j, w) ∷ m) = if bytes_eq j k then (j, v) ∷ m else (j, w) ∷ insert k v m

  -- `m.erase(k)`.
  unfoldable pub erase : Bytes → List (Bytes × V) → List (Bytes × V)
  erase k [] = []
  erase k ((j, w) ∷ m) = if bytes_eq j k then m else (j, w) ∷ erase k m

  pub lookup-insert :
      (k q : Bytes) (v : V) (m : List (Bytes × V))
      → lookup q (insert k v m) ≡ (if bytes_eq k q then some v else lookup q m)
  unfolding lookup insert
  lookup-insert k q v [] = refl
  lookup-insert k q v ((j, w) ∷ m) =
      ground (arith, bytes_eq_iff j k, bytes_eq_iff j q, bytes_eq_iff k q, lookup-insert k q v m)

  pub lookup-erase_ne :
      (k q : Bytes) (m : List (Bytes × V))
      → bytes_eq k q ≡ false
      → lookup q (erase k m) ≡ lookup q m
  unfolding lookup erase
  lookup-erase_ne k q [] h = refl
  lookup-erase_ne k q ((j, w) ∷ m) h =
      ground (arith, bytes_eq_iff j k, bytes_eq_iff j q, bytes_eq_iff k q, lookup-erase_ne k q m)

  pub length-insert :
      (k : Bytes) (v : V) (m : List (Bytes × V)) → length (insert k v m) ≤ length m + 1
  unfolding insert
  length-insert k v [] = omega arith
  length-insert k v ((j, w) ∷ m) = ground (arith, length-insert k v m)

  pub length-insert_old :
      (k : Bytes) (v w : V) (m : List (Bytes × V))
      → lookup k m ≡ some w
      → length (insert k v m) ≡ length m
  unfolding insert lookup
  length-insert_old k v w [] h = ground arith
  length-insert_old k v w ((j, u) ∷ m) h = ground (arith, length-insert_old k v w m)
