-- ===== src/Tests/Search.antt =====
-- The search as a whole: a run, a walk, and the move of the root.
use mcts.Prelude.{ℕ, Option, sum_usize, ◌≡◌, refl, true, false, some, none, ok, Exec}
use mcts.Node.{Node, new, add_virtual_loss, revert_virtual_loss}
use mcts.Mcts.{Mcts, get_node, new_search, create_node, node_exists, with_node, clamp}
use mcts.Expand.{expand, set_child, ensure_node}
use mcts.Tree.{IsSound}
use mcts.Leaf.{
  Walk, select_leaf, leaf_loop, round, choose, descend_by, descend, follow, mark_and_step,
  check_state_repeat,
}
use mcts.Leaf.Steps.{FromTree}
use mcts.Leaf.Ends.{select_leaf-returns}
use mcts.Advance.{advance_root}
use mcts.Advance.Closed.{Moved, advance_root-Moved, advance_root-IsSound}
use mcts.Puct.{
  select_action_puct, best_of, max_by_score, max_from, puct_scores, node_scores, score_action,
  score_of, first_play_urgency, q_value, effective_priors, needs_noise, needs_softmax, explored,
  child_at, mixed_prior,
}
use mcts.Run.{
  run, ensure_root, blocking_infer, search_from, run_batches, fill_batch, add_playout, add_leaf,
  put_aside, settle, infer_batch, expand_all, num_batches,
}
use mcts.Backup.{
  backpropagate, count_visits, revert_losses, penalise, recompute_value, recomputed,
  recomputed_visits, recomputed_value, child_data, accumulate, add_visit,
}
use mcts.Priors.{normalize_prior}
use mcts.Float.{sum_f32}
use mcts.Run.Total.{run-returns}
use mcts.Tests.Setup.{
  numbers, game, evaluator, client, game-IsLawful, client-Answers, blank, blank-IsSound, grown,
  grown-IsSound, root_node, root-at,
}

run-returns_example :
    (c : ℕ) × (m : Mcts ℕ) × (n : Node ℕ) × (run game evaluator client 0 5 2 true 0 blank
      ≡ ok (c, m, n))
    × IsSound game m
    × (get_node m 0 ≡ some n)
run-returns_example =
    run-returns game game-IsLawful evaluator client client-Answers 0 5 2 true 0 blank blank-IsSound

select_leaf-returns_example :
    (w : Walk ℕ ℕ) × (select_leaf game grown 0 0 2 false ≡ ok w) × FromTree game grown w
select_leaf-returns_example = select_leaf-returns game grown 0 0 2 false grown-IsSound refl

advance_root-IsSound_example : (m : Mcts ℕ) × (advance_root 0 grown ≡ ok m) × IsSound game m
advance_root-IsSound_example = advance_root-IsSound game grown grown-IsSound 0

advance_root-Moved_example : (m : Mcts ℕ) × (advance_root 0 grown ≡ ok m) × Moved game grown 1 m
unfolding expand create_node new_search child_at
advance_root-Moved_example =
    advance_root-Moved game grown grown-IsSound 0 0 1 root_node refl root-at refl

-- One simulation after another: the root's visits after a run.
root_visits : Exec (ℕ × Mcts ℕ × Node ℕ) → Option ℕ
root_visits (ok (c, m, n)) = some n.node_visits
root_visits r = none

-- Three batches of two playouts, and the root itself.
run_counts : root_visits (run game evaluator client 0 5 2 true 0 blank) ≡ some 7
unfolding run ensure_root blocking_infer search_from run_batches fill_batch add_playout add_leaf
    put_aside settle infer_batch expand_all backpropagate count_visits revert_losses penalise
    recompute_value recomputed recomputed_visits recomputed_value child_data accumulate add_visit
    revert_virtual_loss num_batches select_leaf leaf_loop round choose descend_by descend follow
    mark_and_step check_state_repeat node_exists with_node ensure_node normalize_prior
    add_virtual_loss mixed_prior select_action_puct best_of max_by_score max_from puct_scores
    node_scores score_action score_of first_play_urgency q_value effective_priors needs_noise
    needs_softmax explored child_at get_node expand create_node set_child new new_search clamp
    numbers sum_usize sum_f32 root_visits
run_counts = refl
