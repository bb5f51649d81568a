-- ===== src/Backup.antt =====
-- mcts-core/src/mcts.rs, `recompute_value` and `backpropagate`: the way back up a search path.
pub mod Sound
pub mod Counters
pub mod Counting
pub mod Restore
pub mod Value
use mcts.Prelude.{
  ℕ, Bool, true, false, Option, none, some, List, [], ◌∷◌, map, reverse, get_or, modify, last?,
  ◌==◌, if◌then◌else◌, add_usize, sum_usize,
}
use mcts.Float.{Float, f_zero}
use mcts.Node.{Node, NodeId, Action, to_action_index, revert_virtual_loss, apply_penalty}
use mcts.Mcts.{Mcts, get_node, with_node}
use mcts.Puct.{child_at}
use mcts.Leaf.{SearchPath}

module _ {F : Type 0} where
  -- `node.edge_visits[idx] += 1` behind its guard.
  unfoldable pub add_visit : Action → Node F → Node F
  add_visit a node = record node {
    edge_visits = modify node.edge_visits (to_action_index a) (λ v. add_usize v 1);
  }

module _ {F : Type 0} ⦃fl : Float F⦄ where
  -- `child_data`: the child, the visits and the penalty of each expanded edge.
  unfoldable pub child_data : Node F → List Action → List (NodeId × ℕ × F)
  child_data parent [] = []
  child_data parent (a ∷ actions) =
      let rest = child_data parent actions in
      elim (child_at parent a) [
        | none ↦ rest
        | some c ↦
            (
              c,
              get_or parent.edge_visits (to_action_index a) 0,
              get_or parent.edge_penalties (to_action_index a) f_zero,
            )
            ∷ rest
      ]

  abbrev pub edge_visit_count : Node F → ℕ
  edge_visit_count parent = sum_usize (map (λ d. d.1) (child_data parent parent.valid_actions))

  abbrev pub total_edge_visits : Node F → ℕ
  total_edge_visits parent = add_usize (edge_visit_count parent) (sum_usize parent.virtual_losses)

  -- The weighted sum of the children's values.
  unfoldable pub accumulate : Mcts F → F → List (NodeId × ℕ × F) → F
  accumulate m acc [] = acc
  accumulate m acc ((child_id, ev, ep) ∷ rest) =
      accumulate m
        (if ev == 0 then acc else elim (get_node m child_id) [
          | none ↦ acc
          | some child ↦ fl.add acc (fl.mul (fl.of_usize ev) (fl.add child.value ep))
        ])
        rest

  -- With no visit yet the node counts one and keeps its own estimate.
  unfoldable pub recomputed_visits : Node F → ℕ
  recomputed_visits parent =
      if total_edge_visits parent == 0 then 1 else add_usize 1 (total_edge_visits parent)

  unfoldable pub recomputed_value : Mcts F → Node F → F
  recomputed_value m parent =
      if total_edge_visits parent == 0
      then parent.value_estimate
      else fl.div
          (fl.add parent.value_estimate
            (accumulate m f_zero (child_data parent parent.valid_actions)))
          (fl.of_usize (add_usize 1 (total_edge_visits parent)))

  -- The node with its visits and value computed anew from the edges of `parent`.
  unfoldable pub recomputed : Mcts F → Node F → Node F → Node F
  recomputed m parent node = record node {
    node_visits = recomputed_visits parent;
    value = recomputed_value m parent;
  }

  unfoldable pub recompute_value : NodeId → Mcts F → Mcts F
  recompute_value id m = elim (get_node m id) [
    | none ↦ m
    | some parent ↦ with_node id (recomputed m parent) m
  ]

  -- The first loop, over the reversed path.
  unfoldable pub revert_losses : SearchPath → Mcts F → Mcts F
  revert_losses [] m = m
  revert_losses ((id, a) ∷ path) m = revert_losses path (with_node id (revert_virtual_loss a) m)

  -- The last loop, over the reversed path.
  unfoldable pub count_visits : SearchPath → Mcts F → Mcts F
  count_visits [] m = m
  count_visits ((id, a) ∷ path) m =
      count_visits path (recompute_value id (with_node id (add_visit a) m))

  unfoldable pub penalise : Bool → Option (NodeId × Action) → Mcts F → Mcts F
  penalise true (some (id, a)) m = with_node id (apply_penalty a) m
  penalise true none m = m
  penalise false last m = m

  -- An empty path changes nothing.
  unfoldable pub backpropagate : SearchPath → Bool → Mcts F → Mcts F
  backpropagate search_path repeat_detected m =
      count_visits (reverse search_path)
        (penalise repeat_detected (last? search_path) (revert_losses (reverse search_path) m))
