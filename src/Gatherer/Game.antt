-- ===== src/Gatherer/Game.antt =====
-- What mcts-tilers/src/gatherer.rs calls of the game's library and of the random numbers, as
-- parameters, and its own small calls of them.
use mcts.Prelude.{
  ℕ, ◌%◌, ◌^◌, Bool, Option, none, some, List, [], ◌∷◌, Exec, ok, ◌>>=◌, expect, take,
}
use mcts.Node.{Action}

-- The crate `tilers`: a game `E` with moves `Move`, and its heuristic solver.
pub record Library (F E Move Cell : Type 0) : Type 0 where
  pub height : E → ℕ
  pub width : E → ℕ
  pub num_ancillas : E → ℕ
  pub num_objectives : E → ℕ
  pub done : E → Bool
  -- `depth(true, true)`
  pub depth : E → F
  pub valid_actions : E → List Move
  -- `rl::encode` and `rl::decode`; none is an error.
  pub encode : E → Move → Option ℕ
  pub decode : E → ℕ → Option Move
  -- `step`, whose result the gatherer drops, and `finish_cultivating(None, None)`.
  pub step : Move → E → E
  pub finish_cultivating : E → E
  pub set_cultivation_time : ℕ → E → E
  -- `TilersEnv::new(env, lookahead).build_obs().board`
  pub board : E → ℕ → List (List Cell)
  pub factor_progress : E → E → ℕ × ℕ
  pub achieved_goal_env : E → E → Option E
  -- `Solver::solve` with true: the game after it, and the plan, or none for an error; and its plan
  -- with false.
  pub solve : E → E × Option (List Move)
  pub solve_plainly : E → Option (List Move)

-- The crates `rand` and `rand_distr`; `R` is the state of the generator.
pub record Random (F R : Type 0) : Type 0 where
  pub random : R → F × R
  pub gamma : F → R → F × R
  -- `WeightedIndex::new`, none for an error, and its sample.
  pub weighted_index : List F → R → Option (ℕ × R)

module _ {F E Move Cell : Type 0} (lib : Library F E Move Cell) where
  -- `as Action`
  unfoldable pub encoded : E → List Move → Exec (List Action)
  encoded e [] = ok []
  encoded e (a ∷ actions) = do
    id ← expect (lib.encode e a)
    rest ← encoded e actions
    ok (id % 2 ^ 16 ∷ rest)

  unfoldable pub valid_ids : E → Exec (List Action)
  valid_ids e = encoded e (lib.valid_actions e)

  unfoldable pub step_move : Move → E → E
  step_move a e = lib.finish_cultivating (lib.step a e)

  -- A plan that is played out.
  unfoldable pub replay : List Move → E → E
  replay [] e = e
  replay (a ∷ plan) e = replay plan (step_move a e)

  unfoldable pub solve_with_heuristic : E → Exec (F × List Action)
  solve_with_heuristic env = do
    let (solved_env, plan) = lib.solve env
    moves ← expect plan
    actions ← encoded solved_env moves
    ok (lib.depth solved_env, actions)

  unfoldable pub or_empty : Option (List Move) → List Move
  or_empty none = []
  or_empty (some plan) = plan

  unfoldable pub heuristic_typed_plan : E → F × List Move
  heuristic_typed_plan env = let (e, plan) = lib.solve env in (lib.depth e, or_empty plan)

  unfoldable pub make_reverse_start : E → List Move → ℕ → E
  make_reverse_start game plan prefix_len =
      replay (take prefix_len plan) (lib.set_cultivation_time 10 game)
