-- ===== src/Advance.antt =====
-- mcts-core/src/mcts.rs, `advance_root`: the new root, and the arena that is left below it.
pub mod Work
pub mod Reach
pub mod Prune
pub mod Closed
use mcts.Prelude.{
  ℕ, zero, suc, ◌+◌, Bool, true, false, Option, none, some, List, [], ◌∷◌, ◌++◌, length, contains,
  ◌==◌, if◌then◌else◌, Exec, ok, out_of_fuel, ◌>>=◌,
}
use mcts.Node.{Node, NodeId, Action}
use mcts.Mcts.{Mcts, get_node}
use mcts.Puct.{child_at}

-- The expanded slots of a node's children, in slot order.
unfoldable pub expanded : List (Option NodeId) → List NodeId
expanded [] = []
expanded (none ∷ slots) = expanded slots
expanded (some c ∷ slots) = c ∷ expanded slots

-- The ids that are not in the set yet.
unfoldable pub unseen : List NodeId → List NodeId → List NodeId
unseen reachable [] = []
unseen reachable (c ∷ cs) =
    if contains c reachable then unseen reachable cs else c ∷ unseen reachable cs

module _ {F : Type 0} where
  -- The children of an id: none if it has no node.
  unfoldable pub children_of : Mcts F → NodeId → List NodeId
  children_of m id = elim (get_node m id) [ none ↦ [] | some node ↦ expanded node.children ]

  -- The queue after `id` has been taken from its front, and the set with it.
  unfoldable pub enqueue : Mcts F → NodeId → List NodeId → List NodeId → List NodeId
  enqueue m id queue reachable = queue ++ unseen (id ∷ reachable) (children_of m id)

  -- The `while` loop over the queue. The set is the list of what was inserted.
  unfoldable pub collect : Mcts F → ℕ → List NodeId → List NodeId → Exec (List NodeId)
  collect m fuel [] reachable = ok reachable
  collect m zero (id ∷ queue) reachable = out_of_fuel
  collect m (suc fuel) (id ∷ queue) reachable =
      collect m fuel (if contains id reachable then queue else enqueue m id queue reachable)
        (if contains id reachable then reachable else id ∷ reachable)

  -- The number of child slots in the arena: each queued id but the first is one of them.
  abbrev pub total_slots : List (Node F) → ℕ
  total_slots [] = 0
  total_slots (n ∷ nodes) = length n.children + total_slots nodes

  -- The loop over `self.nodes.drain(..)`.
  unfoldable pub keep_nodes :
      List NodeId
      → List (Node F)
      → List (Node F)
      → (NodeId → Option ℕ)
      → List (Node F) × (NodeId → Option ℕ)
  keep_nodes reachable [] kept table = (kept, table)
  keep_nodes reachable (n ∷ nodes) kept table =
      keep_nodes reachable nodes (if contains n.id reachable then kept ++ (n ∷ []) else kept) (
        if contains n.id reachable
        then (λ k. if n.id == k then some (length kept) else table k)
        else table)

  unfoldable pub prune : List NodeId → Mcts F → Mcts F
  prune reachable m =
      let kept = keep_nodes reachable m.nodes [] (λ _. none) in
      record m { nodes = kept.0; transposition_table = kept.1 }

  unfoldable pub move_root : NodeId → Mcts F → Exec (Mcts F)
  move_root new_root_id m = do
    reachable ← collect m (suc (total_slots m.nodes)) (new_root_id ∷ []) []
    ok (record (prune reachable m) { root_id = some new_root_id })

  -- The child is the new root, or the search starts anew.
  unfoldable pub advance_to : Mcts F → Option NodeId → Exec (Mcts F)
  advance_to m none = ok (record m { root_id = none })
  advance_to m (some new_root_id) = move_root new_root_id m

  unfoldable pub advance_at : Action → Mcts F → Option (Node F) → Exec (Mcts F)
  advance_at action m none = ok (record m { root_id = none })
  advance_at action m (some old_root_node) = advance_to m (child_at old_root_node action)

  unfoldable pub advance_from : Action → Mcts F → Option NodeId → Exec (Mcts F)
  advance_from action m none = ok m
  advance_from action m (some old_root_id) = advance_at action m (get_node m old_root_id)

  unfoldable pub advance_root : Action → Mcts F → Exec (Mcts F)
  advance_root action m = advance_from action m m.root_id
