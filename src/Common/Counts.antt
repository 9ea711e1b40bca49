-- ===== src/Common/Counts.antt =====
-- How often a number stands in a list.
use Prim.Native.Nat.{ℕ, suc, ◌+◌}
use mathlib.Core.Path.{◌≡◌}
use mathlib.Core.List.{List, [], ◌∷◌, ◌++◌}
use native.Mathlib.Omega.{arith}
use machserve.Common.Tests.{◌==◌, if◌then◌else◌}

abbrev pub occurs : ℕ → List ℕ → ℕ
occurs id [] = 0
occurs id (x ∷ xs) = (if x == id then 1 else 0) + occurs id xs

pub occurs-append : (id : ℕ) (xs ys : List ℕ) → occurs id (xs ++ ys) ≡ occurs id xs + occurs id ys
occurs-append id [] ys = omega arith
occurs-append id (x ∷ xs) ys = omega (arith, occurs-append id xs ys)

pub occurs_self : (id : ℕ) (xs : List ℕ) → occurs id (id ∷ xs) ≡ suc (occurs id xs)
occurs_self id xs = ground arith
