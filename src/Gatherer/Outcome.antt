-- ===== src/Gatherer/Outcome.antt =====
-- mcts-tilers/src/gatherer.rs, `run_episode_from`: the budget of an episode, its score and what it
-- comes to. What it prints is left out.
pub mod Scored
pub mod Played
use mcts.Prelude.{
  ℕ, ◌+◌, ◌-◌, max, Bool, true, false, not, ◌&&◌, ◌||◌, Option, none, some, List, [], ◌∷◌, ltb,
  ◌==◌, if◌then◌else◌, add_usize, saturating_sub, Exec, ok, ◌>>=◌, length,
}
use mcts.Float.{Float, f_zero, f_one, le}
use mcts.Environment.{Environment, InferenceClient}
use mcts.Node.{Action}
use mcts.Mcts.{Mcts, new_search}
use mcts.Gatherer.{Gatherer, cusp_partial_reward, cusp_factor_reward}
use mcts.Gatherer.Game.{Library, Random, solve_with_heuristic}
use mcts.Gatherer.Episode.{Episode, resignation_enabled, episode_loop}
use mcts.Gatherer.Curriculum.{
  EpisodeOutcome, RewardKind, kind_done, kind_her, kind_cusp, kind_floor,
}

module _ {F : Type 0} ⦃fl : Float F⦄ where
  -- `tanh(ratio / temperature)` against a depth of reference.
  unfoldable pub graded : Gatherer F → F → F → F → F
  graded g baseline ref_d d = fl.tanh (
      fl.div (fl.div (fl.sub baseline d) (fl.add ref_d (fl.lit 1 6)))
        g.reward_saturation_temperature)

  unfoldable pub max_actions_of : Gatherer F → Option ℕ → ℕ → ℕ
  max_actions_of g (some budget) reference_action_count = budget
  max_actions_of g none reference_action_count =
      add_usize
        (fl.to_usize
          (fl.ceil (fl.mul (fl.of_usize reference_action_count) g.max_action_multiplier)))
        2

module _ {F E Move Cell : Type 0} ⦃fl : Float F⦄ (lib : Library F E Move Cell)
    (g : Gatherer F) where
  unfoldable pub terminal_evaluator : F → E → F
  terminal_evaluator reference_depth e =
      if not (lib.done e)
      then fl.neg f_one
      else graded g reference_depth reference_depth (lib.depth e)

  -- The score of an episode that stopped short on a start of the reverse curriculum.
  unfoldable pub reverse_score : ℕ → ℕ → F × RewardKind × ℕ
  reverse_score start_objs remaining =
      let achieved = saturating_sub start_objs remaining in
      if achieved == 0 || start_objs == 0 then (fl.neg f_one, kind_floor, 0) else (
        cusp_partial_reward achieved start_objs g.cusp_frontier g.cusp_margin,
        kind_her,
        achieved,
      )

  unfoldable pub cusp_score : E → E → F × RewardKind × ℕ
  cusp_score game final =
      let start_objs = lib.num_objectives game in
      let (merged, total) = lib.factor_progress game final in
      if merged == 0 then (fl.neg f_one, kind_floor, 0) else (
        cusp_factor_reward merged total start_objs g.cusp_frontier g.cusp_margin,
        kind_cusp,
        saturating_sub start_objs (lib.num_objectives final),
      )

  -- The goal that was reached, as the heuristic solves it.
  unfoldable pub solved_score : F → ℕ → E × Option (List Move) → F × RewardKind × ℕ
  solved_score solution_depth k (her_env, none) = (fl.neg f_one, kind_floor, k)
  solved_score solution_depth k (her_env, some plan) =
      let ref_d = lib.depth her_env in
      (graded g (fl.mul (fl.add f_one g.her_reward_margin) ref_d) ref_d solution_depth, kind_her, k)

  unfoldable pub hindsight_score : F → Option E → F × RewardKind × ℕ
  hindsight_score solution_depth none = (fl.neg f_one, kind_floor, 0)
  hindsight_score solution_depth (some her_env) =
      solved_score solution_depth (lib.num_objectives her_env) (lib.solve her_env)

  -- The score, where it comes from, and the number of objectives reached.
  unfoldable pub score_episode : Bool → E → E → F → F → F × RewardKind × ℕ
  score_episode is_override game final reference_depth solution_depth =
      if lib.done final
      then (
        graded g reference_depth reference_depth solution_depth,
        kind_done,
        lib.num_objectives game,
      )
      else if is_override
      then reverse_score (lib.num_objectives game) (lib.num_objectives final)
      else if g.cusp_reward && ltb g.cusp_frontier (lib.num_objectives game)
      then cusp_score game final
      else hindsight_score solution_depth (lib.achieved_goal_env game final)

  -- The reference of an episode: the caller's, or the heuristic's own solution.
  unfoldable pub reference_of : Option (F × ℕ) → E → Exec (F × ℕ)
  reference_of (some r) game = ok r
  reference_of none game = do (d, acts) ← solve_with_heuristic lib game; ok (d, length acts)

  abbrev pub overridden : Option (F × ℕ) → Bool
  overridden none = false
  overridden (some r) = true

  -- The outcome, from the state that the loop leaves.
  unfoldable pub outcome_of :
      {C R : Type 0} → Bool → E → F → ℕ → Bool → Bool → Episode F E Cell C R → EpisodeOutcome F Cell
  outcome_of is_override game reference_depth reference_action_count resign_allowed enabled s =
      let final = lib.set_cultivation_time 10 s.game in
      let solution_depth = lib.depth final in
      let (score, kind, achieved) =
        score_episode is_override game final reference_depth solution_depth in
      record {
        reference_depth = reference_depth;
        solution_depth = solution_depth;
        done = lib.done final;
        score = score;
        reward_kind = kind;
        achieved_objectives = achieved;
        reference_action_count = reference_action_count;
        temp_data = s.temp_data;
        all_steps_data = s.all_steps_data;
        q_trace = s.q_trace;
        over_solver_trace = s.over_solver_trace;
        resigned = s.resigned;
        resign_allowed = resign_allowed;
        resignation_enabled = enabled;
        height = lib.height game;
        width = lib.width game;
        num_ancillas = lib.num_ancillas game;
        num_objectives = lib.num_objectives game;
      }

  abbrev pub new_episode : {C R : Type 0} → E → C → R → Episode F E Cell C R
  new_episode game c rng = record {
    game = game;
    mcts = new_search g.batch_size;
    client = c;
    rng = rng;
    low_value_streak = 0;
    q_trace = [];
    over_solver_trace = [];
    resigned = false;
    temp_data = [];
    all_steps_data = [];
  }

module _ {F E Move Cell O C R : Type 0} ⦃fl : Float F⦄ (lib : Library F E Move Cell)
    (rand : Random F R) (env : Environment E O) (client : InferenceClient F O C) (g : Gatherer F)
    (c_puct : F) where
  -- Whether this episode may be resigned; the draw is made only where resignation is on.
  unfoldable pub allow_resign : Bool → R → Bool × R
  allow_resign enabled rng =
      if enabled then (let (x, r) = rand.random rng in (le g.no_resign_rate x, r)) else (false, rng)

  -- `resignation_enabled`
  abbrev pub enabled_for : F → Bool
  enabled_for reference_depth =
      resignation_enabled lib rand env client (terminal_evaluator lib g reference_depth) g c_puct
        reference_depth false

  -- From the reference on.
  unfoldable pub play_episode : Bool → E → C → R → F × ℕ → ℕ → Exec (EpisodeOutcome F Cell × C × R)
  play_episode is_override game c rng (reference_depth, count) max_actions = do
    let (allowed, r) = allow_resign (enabled_for reference_depth) rng
    s ←
        episode_loop lib rand env client (terminal_evaluator lib g reference_depth) g c_puct
          reference_depth allowed 0 max_actions (new_episode lib g game c r)
    ok (
      outcome_of lib g is_override game reference_depth count allowed (enabled_for reference_depth)
          s,
      s.client,
      s.rng,
    )

  unfoldable pub run_episode_from :
      E → C → R → Option (F × ℕ) → Exec (EpisodeOutcome F Cell × C × R)
  run_episode_from start_env c rng reference_override = do
    let game = lib.set_cultivation_time 10 start_env
    reference ← reference_of lib g reference_override game
    play_episode (overridden lib g reference_override) game c rng reference
        (max_actions_of g g.max_actions reference.1)
