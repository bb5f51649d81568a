-- ===== src/Gatherer/Corpus.antt =====
-- mcts-tilers/src/gatherer.rs, `write_episode` and `write_demo_episode`: the lines that an episode
-- adds to the files. A file is the list of its lines, an object of JSON the list of its entries; the
-- file system takes every write.
pub mod Banked
use mcts.Prelude.{
  ℕ, zero, suc, ◌+◌, ◌-◌, ◌*◌, ◌%◌, ◌^◌, Bool, true, false, not, ◌&&◌, Option, none, some, List, [],
  ◌∷◌, ◌++◌, length, map, any, ltb, leb, ◌==◌, if◌then◌else◌, saturating_sub, Exec, ok, ◌>>=◌,
}
use mcts.Float.{Float, f_zero, f_one, le}
use mcts.Node.{Action}
use mcts.Gatherer.{Gatherer}
use mcts.Gatherer.Game.{Library, Random, valid_ids, step_move, heuristic_typed_plan}
use mcts.Gatherer.Episode.{TempData, StepData, is_some}
use mcts.Gatherer.Curriculum.{
  EpisodeOutcome, RewardKind, kind_done, kind_her, kind_cusp, kind_floor,
}
use mcts.Gatherer.Lines.{
  Resignation, TrajectoryLine, Weight, count, weight, Label, episode, demo, TrainingLine, Files,
  is_her, is_floor,
}

-- The near-one-hot target of a trajectory.
unfoldable pub winner_visits : Action → List Action → List (Action × ℕ)
winner_visits action valid_actions =
    let n_others = saturating_sub (length valid_actions) 1 in
    let winner_weight = if ltb 0 n_others then n_others * 99 else 1 in
    map (λ va. (va, if va == action then winner_weight else 1)) valid_actions

module _ {F : Type 0} ⦃fl : Float F⦄ where
  -- The value of a state with so many steps before the end.
  unfoldable pub step_value : ℕ → F
  step_value steps_remaining =
      if ltb 2 steps_remaining
      then fl.sub
          (fl.min_of (fl.mul (fl.lit 2 0) (fl.powi (fl.lit 80 2) steps_remaining)) (fl.lit 2 0))
          f_one
      else f_one

  -- `HER_SATURATION_FLOOR`, -0.999.
  abbrev pub her_saturation_floor : F
  her_saturation_floor = fl.neg (fl.lit 999 3)

module _ {F Cell : Type 0} ⦃fl : Float F⦄ (g : Gatherer F) where
  unfoldable pub log_resignation : EpisodeOutcome F Cell → Files F Cell → Files F Cell
  log_resignation o files =
      if is_some g.resignation_log_dir
      then record files {
        resignations =
            files.resignations
            ++ (record {
              gather_id = g.gather_id;
              h = o.height;
              w = o.width;
              num_ancillas = o.num_ancillas;
              num_objectives = o.num_objectives;
              achieved_objectives = o.achieved_objectives;
              reference_depth = o.reference_depth;
              final_depth = o.solution_depth;
              final_score = o.score;
              done = o.done;
              resign_allowed = o.resign_allowed;
              resignation_enabled = o.resignation_enabled;
              resigned = o.resigned;
              resign_threshold_in_use = g.resign_value_threshold;
              resign_consecutive_moves_in_use = g.resign_consecutive_moves;
              num_steps = length o.q_trace;
              q_per_step = o.q_trace;
              over_solver_per_step = o.over_solver_trace;
            }
                ∷ []);
      }
      else files

  -- The lines of a trajectory of `depth` steps, from `step` on.
  unfoldable pub trajectory_from : ℕ → ℕ → List (StepData Cell) → List (TrajectoryLine F Cell)
  trajectory_from depth step [] = []
  trajectory_from depth step ((board, num_ancillas, valid_actions, action, h, w) ∷ steps) =
      record {
        height = h;
        width = w;
        num_ancillas = num_ancillas;
        board = board;
        valid_actions = valid_actions;
        edge_visits = winner_visits action valid_actions;
        reward = step_value (depth - step);
      }
      ∷ trajectory_from depth (step + 1) steps

  unfoldable pub write_trajectory : EpisodeOutcome F Cell → Files F Cell → Files F Cell
  write_trajectory o files =
      if fl.lt f_zero o.score && is_some g.trajectory_dir
      then record files {
        trajectories =
            files.trajectories ++ trajectory_from (length o.all_steps_data) 0 o.all_steps_data;
      }
      else files

  unfoldable pub training_line :
      EpisodeOutcome F Cell → Bool → Bool → TempData Cell → TrainingLine F Cell
  training_line o is_reverse gold (board, num_ancillas, va, ev) = record {
    height = o.height;
    width = o.width;
    num_ancillas = num_ancillas;
    board = board;
    valid_actions = va;
    edge_visits = map (λ e. (e.0, count e.1)) ev;
    reward = o.score;
    reward_kind = episode o.reward_kind;
    achieved_objectives = o.achieved_objectives;
    reverse_curriculum = is_reverse;
    gold = gold;
    is_demo = false;
  }

  unfoldable pub is_gold : EpisodeOutcome F Cell → Bool → Bool
  is_gold o is_reverse =
      is_some g.gold_shard_dir
      && o.done
      && not is_reverse
      && le g.gold_min_reward o.score
      && leb g.gold_min_len o.reference_action_count

  unfoldable pub bank : EpisodeOutcome F Cell → Bool → Files F Cell → Files F Cell
  bank o is_reverse files =
      if is_gold o is_reverse
      then record files { gold = files.gold ++ map (training_line o is_reverse true) o.temp_data }
      else files

  -- The training records and the gold.
  unfoldable pub write_records : EpisodeOutcome F Cell → Bool → Files F Cell → Files F Cell
  write_records o is_reverse files =
      bank o is_reverse (record files {
        output = files.output ++ map (training_line o is_reverse false) o.temp_data;
      })

  module _ {R : Type 0} (rand : Random F R) where
    -- Whether the records of a floor episode are kept, with the draw that this takes.
    unfoldable pub keep_floor : EpisodeOutcome F Cell → R → Bool × R
    keep_floor o rng =
        if is_floor o.reward_kind && fl.lt g.floor_keep_fraction f_one
        then (let (x, r) = rand.random rng in (not (le g.floor_keep_fraction x), r))
        else (true, rng)

    unfoldable pub write_kept :
        EpisodeOutcome F Cell → Bool → Files F Cell → Bool × R → Files F Cell × R
    write_kept o is_reverse files (keep, r) =
        (if keep then write_records o is_reverse files else files, r)

    unfoldable pub write_lines : EpisodeOutcome F Cell → Bool → R → Files F Cell → Files F Cell × R
    write_lines o is_reverse rng files =
        let logged = write_trajectory o (log_resignation o files) in
        if is_her o.reward_kind && le o.score her_saturation_floor
        then (logged, rng)
        else write_kept o is_reverse logged (keep_floor o rng)

    unfoldable pub write_episode :
        EpisodeOutcome F Cell → Bool → R → Files F Cell → (F × F × Bool) × (Files F Cell × R)
    write_episode o is_reverse rng files =
        let written = write_lines o is_reverse rng files in
        ((o.solution_depth, o.reference_depth, o.done), written)
