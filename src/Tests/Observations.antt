-- ===== src/Tests/Observations.antt =====
-- An observation of a game with three actions, and a batch for the uniform client.
use mcts.Prelude.{ℕ, ◌≡◌, true, false, List, [], ◌∷◌, Bool, length, get_or, arith}
use mcts.Tilers.{TilersObs, num_actions, build_obs}
use mcts.Tilers.Uniform.{build_obs-mask}
use mcts.Tests.Setup.{numbers}

abbrev mask : List Bool
mask = true ∷ false ∷ true ∷ []

abbrev layers : List (List ℕ)
layers = (1 ∷ 2 ∷ []) ∷ []

build_obs-mask_example :
    (length (build_obs 1 2 1 layers mask).action_mask ≡ num_actions)
    × (get_or (build_obs 1 2 1 layers mask).action_mask 2 false ≡ get_or mask 2 false)
build_obs-mask_example = build_obs-mask 1 2 1 layers mask 2 (omega arith)

-- A batch of one observation, whose mask selects the actions 0 and 2.
abbrev batch : List (TilersObs ℕ)
batch =
    record {
      height = 1;
      width = 2;
      num_ancillas = 1;
      num_layers = 1;
      board = layers;
      action_mask = mask;
    }
    ∷ []
