-- ===== src/Prelude/Words.antt =====
-- `usize` and `u64` arithmetic. A sum wraps at 2 ^ 64, as in a release build.
use Prim.Native.Nat.{ℕ, zero, suc, ◌+◌, ◌-◌, ◌%◌, ◌^◌, ◌≤◌, ◌<◌}
use mathlib.Core.Path.{◌≡◌}
use mathlib.Core.List.{List, [], ◌∷◌}
use native.Mathlib.Omega.{arith}
use mcts.Prelude.Lists.{length, get_or, set}

abbrev pub add_usize : ℕ → ℕ → ℕ
add_usize a b = (a + b) % 2 ^ 64

-- `saturating_sub`: the subtraction of ℕ stops at 0 too.
abbrev pub saturating_sub : ℕ → ℕ → ℕ
saturating_sub a b = a - b

abbrev pub sum : List ℕ → ℕ
sum [] = 0
sum (x ∷ xs) = x + sum xs

-- `iter().sum()` over `usize`, from the left.
sum_from : ℕ → List ℕ → ℕ
sum_from acc [] = acc
sum_from acc (x ∷ xs) = sum_from (add_usize acc x) xs

unfoldable pub sum_usize : List ℕ → ℕ
unfolding sum_from
sum_usize xs = sum_from 0 xs

sum_from_lem : (acc : ℕ) (xs : List ℕ) → acc + sum xs < 2 ^ 64 → sum_from acc xs ≡ acc + sum xs
unfolding sum_from
sum_from_lem acc [] h = omega arith
sum_from_lem acc (x ∷ xs) h =
    let e : add_usize acc x ≡ acc + x = omega arith in
    rw e (omega (arith, sum_from_lem (acc + x) xs (omega arith)))

-- With a total that fits in a word the sum is exact.
pub sum_usize-eq-sum : (xs : List ℕ) → sum xs < 2 ^ 64 → sum_usize xs ≡ sum xs
unfolding sum_usize
sum_usize-eq-sum xs h = omega (arith, sum_from_lem 0 xs (omega arith))

pub get_or-le-sum : (xs : List ℕ) (i : ℕ) → get_or xs i 0 ≤ sum xs
get_or-le-sum [] i = omega arith
get_or-le-sum (x ∷ xs) zero = omega arith
get_or-le-sum (x ∷ xs) (suc i) = omega (arith, get_or-le-sum xs i)

pub sum-set :
    (xs : List ℕ) (i v : ℕ) → i < length xs → sum (set xs i v) + get_or xs i 0 ≡ sum xs + v
sum-set [] i v h = absurd (omega arith)
sum-set (x ∷ xs) zero v h = omega arith
sum-set (x ∷ xs) (suc i) v h = omega (arith, sum-set xs i v (omega arith))
