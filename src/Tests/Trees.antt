-- ===== src/Tests/Trees.antt =====
-- What a playout does to the counters of a tree, and what growing it does to its table.
use mcts.Prelude.{
  ℕ, ◌+◌, ◌-◌, ◌≡◌, ◌≢◌, refl, true, false, some, none, [], ◌∷◌, ok, if◌then◌else◌, ◌==◌, contains,
  arith, sum_usize,
}
use mcts.Float.{sum_f32}
use mcts.Node.{NodeId, new, add_virtual_loss, revert_virtual_loss}
use mcts.Node.Dense.{revert-add_virtual_loss}
use mcts.Mcts.{get_node, with_node, new_search, create_node, insert_node, node_exists, clamp}
use mcts.Mcts.Table.{IsConsistent, get_node-insert_node}
use mcts.Tree.{IsSound}
use mcts.Tree.Expansion.{expand-IsSound}
use mcts.Expand.{expand, set_child}
use mcts.Leaf.{
  Walk, SearchPath, select_leaf, leaf_loop, round, choose, descend_by, descend, follow,
  mark_and_step, check_state_repeat,
}
use mcts.Puct.{
  child_at, select_action_puct, best_of, max_by_score, max_from, puct_scores, node_scores,
  score_action, score_of, first_play_urgency, q_value, effective_priors, needs_noise, needs_softmax,
  explored,
}
use mcts.Backup.{backpropagate, recompute_value}
use mcts.Backup.Sound.{SameShape, backpropagate-SameShape}
use mcts.Backup.Counters.{losses, visits, times, read}
use mcts.Backup.Counting.{visits-backpropagate, losses-backpropagate}
use mcts.Backup.Restore.{select-backpropagate_losses}
use mcts.Backup.Value.{expanded_visits, all_visits, average, recompute_value_lem}
use mcts.Advance.{prune}
use mcts.Advance.Prune.{prune-Kept}
use mcts.Tests.Setup.{
  numbers, game, answer, game-IsLawful, grown, grown-IsSound, root_node, root-at,
}

abbrev path : SearchPath
path = (0, 0) ∷ (1, 1) ∷ []

visits-backpropagate_example :
    visits (backpropagate path false grown) 0 0 ≡ visits grown 0 0 + times 0 0 path
unfolding read times
visits-backpropagate_example =
    visits-backpropagate path false grown 0 0 grown-IsSound.consistent (ground (arith, root-at))
      (ground (arith, root-at))

losses-backpropagate_example :
    losses (backpropagate path true grown) 0 0 ≡ losses grown 0 0 - times 0 0 path
losses-backpropagate_example = losses-backpropagate path true grown 0 0 grown-IsSound.consistent

backpropagate-SameShape_example : SameShape game grown (backpropagate path true grown)
backpropagate-SameShape_example = backpropagate-SameShape game path true grown grown-IsSound

recompute_value_lem_example :
    (get_node (recompute_value 0 grown) 0
      ≡ some (record root_node {
        node_visits = 1 + all_visits root_node;
        value = average grown root_node;
      }))
    × ((j : NodeId) → 0 ≢ j → get_node (recompute_value 0 grown) j ≡ get_node grown j)
unfolding all_visits expanded_visits child_at
recompute_value_lem_example =
    recompute_value_lem grown 0 root_node grown-IsSound.consistent root-at (omega arith)

abbrev walk : Walk ℕ ℕ
walk = record {
  tree = with_node 0 (add_virtual_loss 1) grown;
  path = (0, 1) ∷ [];
  node_id = 0;
  parent = some 0;
  action = some 1;
  game = 2;
  repeat_detected = false;
}

walked : select_leaf game grown 0 0 2 false ≡ ok walk
unfolding select_leaf leaf_loop round choose descend_by descend follow mark_and_step
    check_state_repeat select_action_puct best_of max_by_score max_from puct_scores node_scores
    score_action score_of first_play_urgency q_value effective_priors needs_noise needs_softmax
    explored child_at get_node with_node node_exists expand create_node set_child new new_search
    clamp numbers add_virtual_loss sum_usize sum_f32
walked = refl

select-backpropagate_losses_example :
    losses (backpropagate walk.path false walk.tree) 0 1 ≡ losses grown 0 1
unfolding read times
select-backpropagate_losses_example =
    select-backpropagate_losses game grown 0 0 2 false false walk 0 1 grown-IsSound refl walked
      (ground (arith, root-at))

expand-IsSound_example : IsSound game (expand game 0 1 2 (answer 2) 1 grown)
expand-IsSound_example =
    expand-IsSound game grown grown-IsSound 0 1 2 0 (answer 2) 1 game-IsLawful refl refl

revert-add_virtual_loss_example : revert_virtual_loss 1 (add_virtual_loss 1 root_node) ≡ root_node
revert-add_virtual_loss_example = revert-add_virtual_loss 1 root_node (omega arith)

get_node-insert_node_example :
    get_node (insert_node 9 root_node grown) 0
    ≡ (if 9 == 0 then some root_node else get_node grown 0)
get_node-insert_node_example = get_node-insert_node grown-IsSound.consistent 9 0 root_node

prune-Kept_example :
    IsConsistent (prune (1 ∷ []) grown)
    × ((id : NodeId)
        → get_node (prune (1 ∷ []) grown) id
          ≡ (if contains id (1 ∷ []) then get_node grown id else none))
prune-Kept_example = prune-Kept grown grown-IsSound.consistent (1 ∷ [])
