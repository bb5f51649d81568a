-- ===== src/Float.antt =====
-- `f32` as the program uses it: a type with the operations that the source calls. Rounding is not
-- modelled; a theorem that needs a law of an operation takes that law as a hypothesis.
use mathlib.Core.Option.{Option}
use mcts.Prelude.{ℕ, Bool, ◌||◌, List, [], ◌∷◌}
use Prim.Native.Nat.{Ordering}

pub record Float (F : Type 0) : Type 0 where
  -- The `f32` nearest to `m / 10 ^ k`: the literals of the source.
  pub lit : ℕ → ℕ → F
  pub neg : F → F
  pub add : F → F → F
  pub sub : F → F → F
  pub mul : F → F → F
  pub div : F → F → F
  pub sqrt : F → F
  pub powf : F → F → F
  pub abs : F → F
  pub floor : F → F
  pub ceil : F → F
  pub round : F → F
  pub exp : F → F
  pub ln : F → F
  pub tanh : F → F
  pub powi : F → ℕ → F
  -- `f32::max` and `f32::min`.
  pub max_of : F → F → F
  pub min_of : F → F → F
  pub infinity : F
  -- The comparisons `<` and `==`, false at a NaN, and `partial_cmp`.
  pub lt : F → F → Bool
  pub eq : F → F → Bool
  pub partial_cmp : F → F → Option Ordering
  -- `as f32` of a `usize`, and `as usize` of an `f32`.
  pub of_usize : ℕ → F
  pub to_usize : F → ℕ

module _ {F : Type 0} ⦃fl : Float F⦄ where
  abbrev pub f_zero : F
  f_zero = fl.lit 0 0

  abbrev pub f_one : F
  f_one = fl.lit 1 0

  -- `iter().sum()` over `f32`, from the left.
  unfoldable pub sum_from : F → List F → F
  sum_from acc [] = acc
  sum_from acc (x ∷ xs) = sum_from (fl.add acc x) xs

  unfoldable pub sum_f32 : List F → F
  unfolding sum_from
  sum_f32 xs = sum_from f_zero xs

  -- `<=` and `>=`, false at a NaN.
  abbrev pub le : F → F → Bool
  le x y = fl.lt x y || fl.eq x y
