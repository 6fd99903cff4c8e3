-- ===== src/Prelude/Occurs.antt =====
-- How often a number stands in a list.
use Prim.Native.Nat.{ℕ, ◌+◌}
use mathlib.Core.Path.{◌≡◌, refl}
use mathlib.Core.List.{List, [], ◌∷◌, ◌++◌, reverse, reverse-cons}
use native.Mathlib.Omega.{arith}
use vllm_cpp.Prelude.Tests.{◌==◌, if◌then◌else◌}

unfoldable pub occurs : ℕ → List ℕ → ℕ
occurs a [] = 0
occurs a (x ∷ xs) = (if x == a then 1 else 0) + occurs a xs

pub occurs-append : (a : ℕ) (xs ys : List ℕ) → occurs a (xs ++ ys) ≡ occurs a xs + occurs a ys
unfolding occurs
occurs-append a [] ys = omega arith
occurs-append a (x ∷ xs) ys = omega (arith, occurs-append a xs ys)

pub occurs-snoc :
    (a b : ℕ) (xs : List ℕ) → occurs a (xs ++ b ∷ []) ≡ occurs a xs + (if b == a then 1 else 0)
unfolding occurs
occurs-snoc a b xs = omega (arith, occurs-append a xs (b ∷ []))

pub occurs-cons :
    (a b : ℕ) (xs : List ℕ) → occurs a (b ∷ xs) ≡ (if b == a then 1 else 0) + occurs a xs
unfolding occurs
occurs-cons a b xs = refl

pub occurs-reverse : (a : ℕ) (xs : List ℕ) → occurs a (reverse xs) ≡ occurs a xs
unfolding occurs
occurs-reverse a [] = refl
occurs-reverse a (x ∷ xs) =
    rw (reverse-cons x xs) (ground (arith, occurs-snoc a x (reverse xs), occurs-reverse a xs))
