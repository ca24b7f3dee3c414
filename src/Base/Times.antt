-- ===== src/Base/Times.antt =====
-- How often a number is in a list.
use Prim.Native.Nat.{ℕ, zero, suc, ◌+◌}
use mathlib.Core.Path.{◌≡◌, ap}
use mathlib.Core.List.{List, [], ◌∷◌, ◌++◌}
use native.Mathlib.Omega.{arith}
use hashpipe.Base.Tests.{◌==◌, if◌then◌else◌}
use hashpipe.Base.Lists.{take, drop}

unfoldable pub times : ℕ → List ℕ → ℕ
times i [] = 0
times i (x ∷ xs) = (if x == i then 1 else 0) + times i xs

pub times-append : (i : ℕ) (xs ys : List ℕ) → times i (xs ++ ys) ≡ times i xs + times i ys
unfolding times
times-append i [] ys = omega arith
times-append i (x ∷ xs) ys =
    omega (arith, ap (λ n. (if x == i then 1 else 0) + n) (times-append i xs ys))

pub times-take-drop :
    (i m : ℕ) (xs : List ℕ) → times i (take m xs) + times i (drop m xs) ≡ times i xs
unfolding times
times-take-drop i zero xs = omega arith
times-take-drop i (suc m) [] = omega arith
times-take-drop i (suc m) (x ∷ xs) =
    omega (arith, ap (λ n. (if x == i then 1 else 0) + n) (times-take-drop i m xs))
