-- ===== src/Prelude/Occurs.antt =====
-- How often a number stands in a list: connections, coroutines and tasks are numbers.
use uco.Prelude.Tests.{◌==◌, if◌then◌else◌}
use Prim.Native.Nat.{ℕ, suc, ◌+◌}
use mathlib.Core.Path.{◌≡◌}
use mathlib.Core.List.{List, [], ◌∷◌, ◌++◌}
use native.Mathlib.Omega.{arith}

-- How often a number stands in a list.
unfoldable pub occurs : ℕ → List ℕ → ℕ
occurs c [] = 0
occurs c (x ∷ l) = let rest = occurs c l in if x == c then suc rest else rest

pub occurs-append : (c : ℕ) (l r : List ℕ) → occurs c (l ++ r) ≡ occurs c l + occurs c r
unfolding occurs
occurs-append c [] r = omega arith
occurs-append c (x ∷ l) r = ground (arith, occurs-append c l r)

pub occurs-cons : (c x : ℕ) (l : List ℕ) → occurs c (x ∷ l) ≡ occurs c (x ∷ []) + occurs c l
unfolding occurs
occurs-cons c x l = ground arith

pub occurs-one : (c x : ℕ) → occurs c (x ∷ []) ≡ (if x == c then 1 else 0)
unfolding occurs
occurs-one c x = ground arith

-- A list from which one element is taken.
pub occurs-middle :
    (c x : ℕ) (l r : List ℕ) → occurs c (l ++ (x ∷ r)) ≡ occurs c (x ∷ []) + occurs c (l ++ r)
occurs-middle c x l r =
    omega (arith, occurs-append c l (x ∷ r), occurs-append c l r, occurs-cons c x r)
