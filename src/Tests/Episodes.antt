-- ===== src/Tests/Episodes.antt =====
-- Episodes of the small game, with a generator that counts its draws.
use mcts.Prelude.{
  ℕ, ◌+◌, ◌*◌, ◌≡◌, refl, true, false, none, some, List, [], ◌∷◌, ◌++◌, All, length, map, leb, Exec,
  ok, arith, replicate, sum_usize, ◌≤◌,
}
use mcts.Float.{le, sum_f32, f_one}
use mcts.Environment.{InferenceClient}
use mcts.Gatherer.{Gatherer, new_gatherer}
use mcts.Gatherer.Game.{Library, Random, encoded, valid_ids, step_move, solve_with_heuristic}
use mcts.Gatherer.Curriculum.{EpisodeOutcome, kind_her}
use mcts.Gatherer.Sampling.{
  gammas, dirichlet_noise, greedy, softmax, action_probabilities, mixed_with, noise_of,
  move_weights, draw, select_action,
}
use mcts.Gatherer.Episode.{
  perturb, trace, check_resign, edge_visits_of, record_full, play, take_step, search, after_move,
  after_search, round, episode_loop,
}
use mcts.Gatherer.Outcome.{
  graded, max_actions_of, terminal_evaluator, reverse_score, cusp_score, solved_score,
  hindsight_score, score_episode, reference_of, outcome_of, allow_resign, play_episode,
  run_episode_from,
}
use mcts.Run.{
  num_batches, expand_all, settle, put_aside, add_leaf, add_playout, fill_batch, blocking_infer,
  infer_batch, run_batches, ensure_root, search_from, run,
}
use mcts.Leaf.{
  check_state_repeat, mark_and_step, follow, descend, descend_by, choose, leaf_loop, select_leaf,
}
use mcts.Backup.{
  add_visit, child_data, accumulate, recomputed_visits, recomputed_value, recomputed,
  recompute_value, revert_losses, count_visits, penalise, backpropagate,
}
use mcts.Expand.{set_child, ensure_node, expand}
use mcts.Advance.{
  children_of, advance_root, expanded, unseen, enqueue, collect, keep_nodes, prune, move_root,
  advance_to, advance_at, advance_from,
}
use mcts.Target.{
  policy_target, leader_from, visited_from, update_counts, retain_many, q_values_from, max_subtract,
  forced_count, reduced, pruned_visits, shares, distribution, target_with, target_of, target_at,
  target_from,
}
use mcts.Puct.{
  gather, write_each, update_each, explored, child_at, renormalise, mixed_prior, blend, soften,
  needs_softmax, needs_noise, effective_priors, q_value, first_play_urgency, score_of, score_action,
  node_scores, puct_scores, max_from, max_by_score, best_of, select_action_puct,
}
use mcts.Mcts.{
  get_node, with_node, node_exists, insert_node, add_child, new_search, clamp, perturb_root_prior,
  node_of, create_node,
}
use mcts.Node.{add_virtual_loss, revert_virtual_loss, new_terminal, new, apply_penalty, Action}
use mcts.Priors.{normalize_prior}
use mcts.Gatherer.Outcome.Scored.{IsScore}
use mcts.Gatherer.Outcome.Played.{
  run_episode_from-IsScore, IsSpent, run_episode_from-IsSpent, run_episode_from-Resigned,
}
use mcts.Tests.Setup.{numbers, game, answer}

abbrev pub lib : Library ℕ ℕ ℕ ℕ
lib = record {
  height = λ e. 1;
  width = λ e. 1;
  num_ancillas = λ e. 1;
  num_objectives = λ e. 3;
  done = λ e. leb 7 e;
  depth = λ e. e;
  valid_actions = λ e. 0 ∷ 1 ∷ [];
  encode = λ e a. some a;
  decode = λ e id. some id;
  step = λ a e. 2 * e + a + 1;
  finish_cultivating = λ e. e;
  set_cultivation_time = λ n e. e;
  board = λ e lookahead. (e ∷ []) ∷ [];
  factor_progress = λ a b. (1, 2);
  achieved_goal_env = λ a b. some a;
  solve = λ e. (7, some (0 ∷ 0 ∷ []));
  solve_plainly = λ e. some (0 ∷ 0 ∷ []);
}

-- It draws the first index of the weights.
abbrev pub rand : Random ℕ ℕ
rand = record {
  random = λ r. (1, r + 1);
  gamma = λ alpha r. (1, r + 1);
  weighted_index = λ weights r. elim weights [ [] ↦ none | w ∷ ws ↦ some (0, r + 1) ];
}

-- A client that sees no hope.
abbrev pub client : InferenceClient ℕ ℕ ℕ
client = record {
  infer = λ calls batch. (calls + 1, some (map answer batch, replicate (length batch) 0));
}

abbrev pub gatherer : Gatherer ℕ
gatherer =
    record (new_gatherer 1 1 1 2 "out" 0 0 1 0 none none none none none none none none none none) {
      resignation_log_dir = some "log";
      resign_value_threshold = 0;
      resign_consecutive_moves = 1;
      no_resign_rate = 0;
      max_actions = some 3;
    }

abbrev ran : Exec (EpisodeOutcome ℕ ℕ × ℕ × ℕ)
ran = run_episode_from lib rand game client gatherer 1 0 0 0 none

-- The agent moves twice and resigns.
abbrev pub outcome : EpisodeOutcome ℕ ℕ
outcome = record {
  reference_depth = 7;
  solution_depth = 3;
  done = false;
  score = 0;
  reward_kind = kind_her;
  achieved_objectives = 3;
  reference_action_count = 2;
  temp_data =
      ((0 ∷ []) ∷ [], 1, 0 ∷ 1 ∷ [], (1, 1) ∷ [])
      ∷ ((1 ∷ []) ∷ [], 1, 0 ∷ 1 ∷ [], (1, 1) ∷ [])
      ∷ [];
  all_steps_data =
      ((0 ∷ []) ∷ [], 1, 0 ∷ 1 ∷ [], 0, 1, 1) ∷ ((1 ∷ []) ∷ [], 1, 0 ∷ 1 ∷ [], 0, 1, 1) ∷ [];
  q_trace = 1 ∷ 1 ∷ 0 ∷ [];
  over_solver_trace = false ∷ false ∷ false ∷ [];
  resigned = true;
  resign_allowed = true;
  resignation_enabled = true;
  height = 1;
  width = 1;
  num_ancillas = 1;
  num_objectives = 3;
}

ran_lem : run_episode_from lib rand game client gatherer 1 0 0 0 none ≡ ok (outcome, 5, 6)
unfolding encoded valid_ids step_move solve_with_heuristic gammas dirichlet_noise greedy softmax
    action_probabilities mixed_with noise_of move_weights draw select_action perturb trace
    check_resign edge_visits_of record_full play take_step search after_move after_search round
    episode_loop graded max_actions_of terminal_evaluator reverse_score cusp_score solved_score
    hindsight_score score_episode reference_of outcome_of allow_resign play_episode run_episode_from
    num_batches expand_all settle put_aside add_leaf add_playout fill_batch blocking_infer
    infer_batch run_batches ensure_root search_from run check_state_repeat mark_and_step follow
    descend descend_by choose leaf_loop select_leaf add_visit child_data accumulate
    recomputed_visits recomputed_value recomputed recompute_value revert_losses count_visits
    penalise backpropagate set_child ensure_node expand children_of advance_root policy_target
    gather write_each update_each explored child_at renormalise mixed_prior blend soften
    needs_softmax needs_noise effective_priors q_value first_play_urgency score_of score_action
    node_scores puct_scores max_from max_by_score best_of select_action_puct get_node with_node
    node_exists insert_node add_child new_search clamp perturb_root_prior node_of create_node
    add_virtual_loss revert_virtual_loss new_terminal new apply_penalty normalize_prior new_gatherer
    numbers sum_usize sum_f32 mcts.Leaf.round expanded unseen enqueue collect keep_nodes prune
    move_root advance_to advance_at advance_from leader_from visited_from update_counts retain_many
    q_values_from max_subtract forced_count reduced pruned_visits shares distribution target_with
    target_of target_at target_from mcts.Node.better
ran_lem = refl

below_one : numbers.lt gatherer.resign_value_threshold f_one ≡ true
unfolding numbers new_gatherer
below_one = refl

run_episode_from-IsScore_example : IsScore {F = ℕ} false 0 kind_her
run_episode_from-IsScore_example =
    run_episode_from-IsScore lib rand game client gatherer 1 0 0 5 0 6 none outcome ran_lem

run_episode_from-IsSpent_example : IsSpent lib rand game client gatherer 1 outcome
run_episode_from-IsSpent_example =
    run_episode_from-IsSpent lib rand game client gatherer 1 0 0 5 0 6 none outcome ran_lem

run_episode_from-Resigned_example :
    (outcome.resign_allowed ≡ true)
    × (before : List ℕ) × (low : List ℕ) × (outcome.q_trace ≡ before ++ low)
    × All (λ q. le q gatherer.resign_value_threshold ≡ true) low
    × (gatherer.resign_consecutive_moves ≤ length low)
run_episode_from-Resigned_example =
    run_episode_from-Resigned lib rand game client gatherer 1 0 0 5 0 6 none outcome refl
      (omega arith) below_one ran_lem refl
