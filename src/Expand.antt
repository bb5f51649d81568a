-- ===== src/Expand.antt =====
-- mcts-core/src/mcts.rs, `expand`: the leaf's node, and the edge that leads to it. The messages
-- that the source prints are left out.
use mcts.Prelude.{Option, none, some, List, modify, if◌then◌else◌}
use mcts.Float.{Float}
use mcts.Environment.{Environment}
use mcts.Node.{Node, NodeId, Action, to_action_index}
use mcts.Mcts.{Mcts, with_node, node_exists, create_node}
use mcts.Priors.{normalize_prior}

-- An edge that has a child keeps it.
abbrev pub link : NodeId → Option NodeId → Option NodeId
link leaf_id none = some leaf_id
link leaf_id (some existing_id) = some existing_id

unfoldable pub set_child : {F : Type 0} → Action → NodeId → Node F → Node F
set_child action leaf_id parent = record parent {
  children = modify parent.children (to_action_index action) (link leaf_id);
}

module _ {F S O : Type 0} ⦃fl : Float F⦄ (env : Environment S O) where
  -- The first half: the leaf's node, unless it is there.
  unfoldable pub ensure_node : S → List (Action × F) → F → Mcts F → Mcts F
  unfolding node_exists create_node normalize_prior
  ensure_node s priors value m =
      if node_exists m (env.hash s)
      then m
      else create_node env s (normalize_prior priors (env.valid_actions s)) value m

  unfoldable pub expand : NodeId → Action → S → List (Action × F) → F → Mcts F → Mcts F
  unfolding ensure_node with_node set_child
  expand parent_id action s priors value m =
      with_node parent_id (set_child action (env.hash s)) (ensure_node s priors value m)
