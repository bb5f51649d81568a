-- ===== src/Gatherer.antt =====
-- mcts-tilers/src/gatherer.rs: the settings of a gatherer, the shaping of its rewards, and the
-- search for the frontier of the reverse curriculum. f32 and f64 are one type here.
pub mod Curriculum
pub mod Game
pub mod Sampling
pub mod Episode
pub mod Outcome
pub mod Lines
pub mod Corpus
pub mod Demos
pub mod Frontier
use Prim.Native.String.{String}
use mcts.Prelude.{
  ℕ, zero, suc, ◌+◌, ◌-◌, ◌*◌, ◌/◌, ◌%◌, ◌^◌, Bool, true, false, ◌&&◌, ◌||◌, Option, none, some,
  List, [], ◌∷◌, ◌++◌, length, min, max, ltb, leb, ◌==◌, if◌then◌else◌, add_usize, Exec, ok, panic,
}
use mcts.Float.{Float, f_zero, f_one}
use mcts.Node.{Action}
use mcts.Mcts.{clamp}

abbrev pub usize_max : ℕ
usize_max = 2 ^ 64 - 1

-- `struct Gatherer`
pub record Gatherer (F : Type 0) : Type 0 where
  pub batch_size : ℕ
  pub mcts_steps : ℕ
  pub fast_steps : ℕ
  pub p_full_search : F
  pub max_actions : Option ℕ
  pub max_action_multiplier : F
  pub output_path : String
  pub noise_strength : F
  pub dirichlet_epsilon : F
  pub lookahead : ℕ
  pub gather_id : ℕ
  pub reward_saturation_temperature : F
  pub resign_value_threshold : F
  pub resign_consecutive_moves : ℕ
  pub no_resign_rate : F
  pub floor_keep_fraction : F
  pub her_reward_margin : F
  pub trajectory_dir : Option String
  pub resignation_log_dir : Option String
  pub reverse_curriculum : Bool
  pub reverse_curriculum_min_len : ℕ
  pub reverse_curriculum_max_probes : ℕ
  pub reverse_curriculum_k_start_actions : ℕ
  pub reverse_curriculum_prob : F
  pub gold_shard_dir : Option String
  pub gold_min_len : ℕ
  pub gold_min_reward : F
  pub cusp_reward : Bool
  pub cusp_frontier : ℕ
  pub cusp_margin : ℕ
  pub demo_fraction : F
  pub demo_min_objectives : ℕ
  pub demo_subsample : F

-- `unwrap_or`.
abbrev pub or_else {ℓ} : {A : Type ℓ} → A → Option A → A
or_else d none = d
or_else d (some a) = a

module _ {F : Type 0} ⦃fl : Float F⦄ where
  -- `Gatherer::new`, its arguments in the source's order.
  unfoldable pub new_gatherer :
      ℕ
      → ℕ
      → ℕ
      → F
      → String
      → F
      → F
      → ℕ
      → ℕ
      → Option String
      → Option F
      → Option ℕ
      → Option F
      → Option F
      → Option ℕ
      → Option F
      → Option String
      → Option F
      → Option F
      → Gatherer F
  new_gatherer batch_size mcts_steps fast_steps p_full_search output_path noise_strength
        dirichlet_epsilon lookahead gather_id trajectory_dir reward_saturation_temperature
        max_actions max_action_multiplier resign_value_threshold resign_consecutive_moves
        no_resign_rate resignation_log_dir floor_keep_fraction her_reward_margin =
      record {
        batch_size = batch_size;
        mcts_steps = mcts_steps;
        fast_steps = fast_steps;
        p_full_search = p_full_search;
        max_actions = max_actions;
        max_action_multiplier = or_else (fl.lit 12 1) max_action_multiplier;
        output_path = output_path;
        noise_strength = noise_strength;
        dirichlet_epsilon = dirichlet_epsilon;
        lookahead = lookahead;
        gather_id = gather_id;
        reward_saturation_temperature = or_else (fl.lit 3 1) reward_saturation_temperature;
        resign_value_threshold = or_else (fl.neg (fl.lit 9 1)) resign_value_threshold;
        resign_consecutive_moves = or_else 5 resign_consecutive_moves;
        no_resign_rate = or_else (fl.lit 1 1) no_resign_rate;
        floor_keep_fraction = or_else f_one floor_keep_fraction;
        her_reward_margin = or_else f_zero her_reward_margin;
        trajectory_dir = trajectory_dir;
        resignation_log_dir = resignation_log_dir;
        reverse_curriculum = false;
        reverse_curriculum_min_len = usize_max;
        reverse_curriculum_max_probes = 5;
        reverse_curriculum_k_start_actions = 16;
        reverse_curriculum_prob = f_one;
        gold_shard_dir = none;
        gold_min_len = usize_max;
        gold_min_reward = f_zero;
        cusp_reward = false;
        cusp_frontier = 2;
        cusp_margin = 2;
        demo_fraction = f_zero;
        demo_min_objectives = 2;
        demo_subsample = f_one;
      }

  unfoldable pub set_demo : F → ℕ → F → Gatherer F → Gatherer F
  set_demo fraction min_objectives subsample g = record g {
    demo_fraction = clamp f_zero f_one fraction;
    demo_subsample = clamp f_zero f_one subsample;
    demo_min_objectives = min_objectives;
  }

  unfoldable pub set_cusp_reward : Bool → ℕ → ℕ → Gatherer F → Gatherer F
  set_cusp_reward enabled frontier margin g = record g {
    cusp_reward = enabled;
    cusp_frontier = frontier;
    cusp_margin = max margin 1;
  }

  unfoldable pub set_gold_banking : Option String → ℕ → F → Gatherer F → Gatherer F
  set_gold_banking dir min_len min_reward g = record g {
    gold_shard_dir = dir;
    gold_min_reward = min_reward;
    gold_min_len = min_len;
  }

  unfoldable pub set_reverse_curriculum : Bool → ℕ → ℕ → ℕ → F → Gatherer F → Gatherer F
  set_reverse_curriculum enabled min_len max_probes k_start_actions prob g = record g {
    reverse_curriculum = enabled;
    reverse_curriculum_prob = clamp f_zero f_one prob;
    reverse_curriculum_min_len = min_len;
    reverse_curriculum_max_probes = max max_probes 1;
    reverse_curriculum_k_start_actions = max k_start_actions 1;
  }

  unfoldable pub cusp_partial_reward : ℕ → ℕ → ℕ → ℕ → F
  cusp_partial_reward achieved num_objectives frontier margin =
      let cusp = max (min num_objectives (add_usize frontier margin)) 1 in
      fl.sub (fl.div (fl.of_usize (min achieved cusp)) (fl.of_usize cusp)) f_one

  unfoldable pub cusp_factor_reward : ℕ → ℕ → ℕ → ℕ → ℕ → F
  cusp_factor_reward merged total num_objectives frontier margin =
      if total == 0 || num_objectives == 0
      then fl.neg f_one
      else let cusp_objs = max (min num_objectives (add_usize frontier margin)) 1 in
        let budget =
          fl.max_of
            (fl.div (fl.mul (fl.of_usize total) (fl.of_usize cusp_objs))
              (fl.of_usize num_objectives))
            f_one in
        fl.sub (fl.div (fl.min_of (fl.of_usize merged) budget) budget) f_one

-- The candidate, unless it is the bracket's lower end.
abbrev pub fresh : ℕ → ℕ → Option ℕ
fresh lo next = if next == lo then none else some next

unfoldable pub next_probe_k : ℕ → ℕ → ℕ → ℕ → Option ℕ
next_probe_k k lo hi len =
    if ltb len hi
    then fresh lo (min (k * 2 % 2 ^ 64) len)
    else if ltb 1 (hi - lo)
    then fresh lo (lo + (hi - lo) / 2)
    else none
