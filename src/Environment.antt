-- ===== src/Environment.antt =====
-- mcts-core/src/environment.rs and inference.rs: the game and the inference client, which the
-- search takes as parameters.
use Prim.Native.String.{String}
use mcts.Prelude.{ℕ, Bool, Option, List}
use mcts.Node.{Action}

-- `trait Environment`. `S` is the game's state and `O` its observations.
pub record Environment (S O : Type 0) : Type 0 where
  pub step : Action → S → S
  pub done : S → Bool
  pub observation : S → O
  pub valid_actions : S → List Action
  pub num_actions : S → ℕ
  pub hash : S → ℕ
  pub render : S → String

-- `trait InferenceClient`: one call may change the client (`C`), and none stands for an error. A
-- prior is a hash map from actions, an entry for each observation of the batch.
pub record InferenceClient (F O C : Type 0) : Type 0 where
  pub infer : C → List O → C × Option (List (List (Action × F)) × List F)
