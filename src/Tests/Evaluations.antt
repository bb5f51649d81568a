-- ===== src/Tests/Evaluations.antt =====
-- An evaluation of the small game.
use mcts.Prelude.{ℕ, ◌≡◌, refl, true, false, none, some, List, [], sum_usize, ◌∷◌, ◌++◌, ok, ◌⊎◌}
use mcts.Run.{
  num_batches, expand_all, settle, put_aside, add_leaf, add_playout, fill_batch, blocking_infer,
  infer_batch, run_batches, ensure_root, search_from, run,
}
use mcts.Leaf.{
  check_state_repeat, mark_and_step, follow, descend, descend_by, choose, leaf_loop, select_leaf,
}
use mcts.Backup.{
  add_visit, child_data, accumulate, recomputed_visits, recomputed_value, recomputed,
  recompute_value, revert_losses, count_visits, penalise, backpropagate,
}
use mcts.Expand.{set_child, ensure_node, expand}
use mcts.Advance.{
  children_of, advance_root, expanded, unseen, enqueue, collect, keep_nodes, prune, move_root,
  advance_to, advance_at, advance_from,
}
use mcts.Puct.{
  gather, write_each, update_each, explored, child_at, renormalise, mixed_prior, blend, soften,
  needs_softmax, needs_noise, effective_priors, q_value, first_play_urgency, score_of, score_action,
  node_scores, puct_scores, max_from, max_by_score, best_of, select_action_puct,
}
use mcts.Mcts.{
  get_node, with_node, node_exists, insert_node, add_child, new_search, clamp, perturb_root_prior,
  node_of, create_node,
}
use mcts.Node.{add_virtual_loss, revert_virtual_loss, new_terminal, new, apply_penalty}
use mcts.Priors.{normalize_prior}
use mcts.Gatherer.Game.{encoded, valid_ids, step_move}
use mcts.Evaluator.{
  Evaluator, HoldoutEnvironment, Evaluation, Solution, margin, eval_terminal, reference,
  eval_budget, eval_move, eval_round, eval_loop, eval_score, evaluation_of, evaluate_against,
  evaluate_single, attempted, solution_of, insert_or_ignore, attempt, evaluate_holdout,
  evaluate_agent_with_client,
}
use mcts.Evaluator.Certified.{IsPlayed, evaluate_single-IsPlayed}
use mcts.Evaluator.Resumes.{evaluate_agent_with_client_resumes}
use mcts.Tests.Episodes.{lib, client}
use mcts.Tests.Setup.{numbers, game}
use mcts.Float.{sum_f32}

abbrev evaluator : Evaluator ℕ
evaluator = record {
  mcts_steps = 1;
  c_puct = 1;
  reward_saturation_temperature = 1;
  max_action_multiplier = 2;
}

abbrev holdouts : List (HoldoutEnvironment ℕ)
holdouts =
    record {
      environment_id = 4;
      json = 0;
      num_objectives = 3;
      difficulty_bin = 0;
      action_count = 2;
    }
    ∷ record {
      environment_id = 5;
      json = 0;
      num_objectives = 3;
      difficulty_bin = 0;
      action_count = 2;
    }
    ∷ []

-- The environment 4 has been attempted.
abbrev table : List (Solution ℕ)
table =
    record {
      agent_id = 1;
      environment_id = 4;
      actions = none;
      solution_depth = none;
      achieved_objectives = 0;
      eval_reward = none;
    }
    ∷ []

abbrev evaluation : Evaluation ℕ
evaluation = record {
  actions = 1 ∷ 1 ∷ 1 ∷ [];
  solution_depth = some 14;
  achieved_objectives = 3;
  eval_reward = some 0;
  heuristic_unsolvable = false;
  factor_prog = none;
}

single_lem : evaluate_single lib game client evaluator 0 0 ≡ ok (evaluation, 3)
unfolding encoded valid_ids step_move margin eval_terminal reference eval_budget eval_move
    eval_round eval_loop eval_score evaluation_of evaluate_against evaluate_single sum_f32
    num_batches expand_all settle put_aside add_leaf add_playout fill_batch blocking_infer
    infer_batch run_batches ensure_root search_from run check_state_repeat mark_and_step follow
    descend descend_by choose leaf_loop select_leaf add_visit child_data accumulate
    recomputed_visits recomputed_value recomputed recompute_value revert_losses count_visits
    penalise backpropagate set_child ensure_node expand children_of advance_root gather write_each
    update_each explored child_at renormalise mixed_prior blend soften needs_softmax needs_noise
    effective_priors q_value first_play_urgency score_of score_action node_scores puct_scores
    max_from max_by_score best_of select_action_puct get_node with_node node_exists insert_node
    add_child new_search clamp perturb_root_prior node_of create_node add_virtual_loss
    revert_virtual_loss new_terminal new apply_penalty normalize_prior numbers mcts.Leaf.round
    expanded unseen enqueue collect keep_nodes prune move_root advance_to advance_at advance_from
    mcts.Node.better sum_usize
single_lem = refl

evaluate_single-IsPlayed_example :
    ((reference lib game client evaluator 0 ≡ none)
      × (evaluation.heuristic_unsolvable ≡ true)
      × (evaluation.solution_depth ≡ none))
    ⊎ ((evaluation.heuristic_unsolvable ≡ false) × IsPlayed lib game client evaluator 0 evaluation)
evaluate_single-IsPlayed_example =
    evaluate_single-IsPlayed lib game client evaluator 0 0 3 evaluation single_lem

-- The environment 5 is added.
abbrev results : List (Solution ℕ)
results =
    table
    ++ (record {
      agent_id = 1;
      environment_id = 5;
      actions = some (1 ∷ 1 ∷ 1 ∷ []);
      solution_depth = some 14;
      achieved_objectives = 3;
      eval_reward = some 0;
    }
        ∷ [])

whole_lem :
    evaluate_agent_with_client lib game client evaluator (λ j. some j) 1 holdouts 0 table
    ≡ ok (results, 3)
unfolding attempted solution_of insert_or_ignore attempt evaluate_holdout evaluate_agent_with_client
whole_lem = rw single_lem refl

evaluate_agent_with_client_resumes_example :
    ((new : List (Solution ℕ)) × (results ≡ table ++ new))
    × (evaluate_agent_with_client lib game client evaluator (λ j. some j) 1 holdouts 9 results
        ≡ ok (results, 9))
evaluate_agent_with_client_resumes_example =
    evaluate_agent_with_client_resumes lib game client evaluator (λ j. some j) 1 holdouts 0 3 9
      table results whole_lem
