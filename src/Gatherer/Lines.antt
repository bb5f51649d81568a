-- ===== src/Gatherer/Lines.antt =====
-- mcts-tilers/src/gatherer.rs: the lines of the files that a gatherer writes.
use mcts.Prelude.{ℕ, Bool, true, false, List}
use mcts.Node.{Action}
use mcts.Gatherer.Curriculum.{RewardKind, kind_her, kind_floor}

-- A line of the resignation log; the settings in use stand in it too.
pub record Resignation (F : Type 0) : Type 0 where
  pub gather_id : ℕ
  pub h : ℕ
  pub w : ℕ
  pub num_ancillas : ℕ
  pub num_objectives : ℕ
  pub achieved_objectives : ℕ
  pub reference_depth : F
  pub final_depth : F
  pub final_score : F
  pub done : Bool
  pub resign_allowed : Bool
  pub resignation_enabled : Bool
  pub resigned : Bool
  pub resign_threshold_in_use : F
  pub resign_consecutive_moves_in_use : ℕ
  pub num_steps : ℕ
  pub q_per_step : List F
  pub over_solver_per_step : List Bool

-- A line of a trajectory.
pub record TrajectoryLine (F Cell : Type 0) : Type 0 where
  pub height : ℕ
  pub width : ℕ
  pub num_ancillas : ℕ
  pub board : List (List Cell)
  pub valid_actions : List Action
  pub edge_visits : List (Action × ℕ)
  pub reward : F

-- A weight of a policy target: a count, or a float in the demos.
pub data Weight (F : Type 0) : Type 0 where
  count : ℕ → Weight F
  weight : F → Weight F

-- What a training record says of its reward; "demo" is a kind of its own.
pub data Label : Type 0 where
  episode : RewardKind → Label
  demo : Label

-- A training record; a flag that the source leaves out of a line is false.
pub record TrainingLine (F Cell : Type 0) : Type 0 where
  pub height : ℕ
  pub width : ℕ
  pub num_ancillas : ℕ
  pub board : List (List Cell)
  pub valid_actions : List Action
  pub edge_visits : List (Action × Weight F)
  pub reward : F
  pub reward_kind : Label
  pub achieved_objectives : ℕ
  pub reverse_curriculum : Bool
  pub gold : Bool
  pub is_demo : Bool

-- The files of a gatherer.
pub record Files (F Cell : Type 0) : Type 0 where
  pub resignations : List (Resignation F)
  pub trajectories : List (TrajectoryLine F Cell)
  pub output : List (TrainingLine F Cell)
  pub gold : List (TrainingLine F Cell)

abbrev pub is_her : RewardKind → Bool
is_her kind_her = true
is_her _ = false

abbrev pub is_floor : RewardKind → Bool
is_floor kind_floor = true
is_floor _ = false
