-- ===== src/Tilers.antt =====
-- mcts-tilers/src/constants.rs, environment.rs and client.rs: the observation, its action mask and
-- the client with uniform priors. The board's cells are of a type of the game's library.
pub mod Uniform
use mcts.Prelude.{
  ℕ, zero, suc, ◌+◌, Bool, true, false, ◌&&◌, Option, some, List, [], ◌∷◌, length, set, replicate,
  map, ltb, if◌then◌else◌,
}
use mcts.Float.{Float, f_zero, f_one}
use mcts.Environment.{InferenceClient}
use mcts.Node.{Action}

abbrev pub max_ancillas : ℕ
max_ancillas = 50

abbrev pub num_actions : ℕ
num_actions = 301

-- `struct TilersObs`
pub record TilersObs (Cell : Type 0) : Type 0 where
  pub height : ℕ
  pub width : ℕ
  pub num_ancillas : ℕ
  pub num_layers : ℕ
  pub board : List (List Cell)
  pub action_mask : List Bool

-- The loop over `mask.iter().enumerate()`, from an index on.
pub pad_from : ℕ → List Bool → List Bool → List Bool
pad_from id [] action_mask = action_mask
pad_from id (on ∷ mask) action_mask =
    pad_from (id + 1) mask
      (if on && ltb id num_actions then set action_mask id true else action_mask)

-- The part of `build_obs` after the calls of the game's library.
unfoldable pub build_obs :
    {Cell : Type 0} → ℕ → ℕ → ℕ → List (List Cell) → List Bool → TilersObs Cell
build_obs height width num_ancillas board mask = record {
  height = height;
  width = width;
  num_ancillas = num_ancillas;
  num_layers = length board;
  board = board;
  action_mask = pad_from 0 mask (replicate num_actions false);
}

-- The actions of a mask, from an index on, each with prior 1.
pub uniform_from : {F : Type 0} → F → ℕ → List Bool → List (Action × F)
uniform_from p a [] = []
uniform_from p a (on ∷ mask) =
    let rest = uniform_from p (a + 1) mask in if on then (a, p) ∷ rest else rest

-- `TrivialTilersIpcClient`, which has no state and does not fail.
unfoldable pub trivial_client :
    {F Cell : Type 0} → ⦃fl : Float F⦄ → InferenceClient F (TilersObs Cell) Unit
trivial_client ⦃fl⦄ = record {
  infer = λ c observations. (
    c,
    some (
      map (λ obs. uniform_from f_one 0 obs.action_mask) observations,
      replicate (length observations) f_zero,
    ),
  );
}
