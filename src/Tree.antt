-- ===== src/Tree.antt =====
-- The invariant of the search tree: what the search relies on between any two operations.
pub mod Update
pub mod Measure
pub mod Grow
pub mod Expansion
use mcts.Prelude.{ℕ, ◌<◌, ◌≡◌, Option, some, List, All, true}
use mcts.Environment.{Environment}
use mcts.Node.{Node, NodeId, Action}
use mcts.Node.Dense.{IsDense}
use mcts.Mcts.{Mcts, get_node, node_exists}
use mcts.Mcts.Table.{IsConsistent}
use mcts.Puct.{child_at}

-- What the search asks of an environment: every valid action has a slot in its state's action
-- space, and the hash of a state decides the hashes of its successors.
pub record IsLawful {S O : Type 0} (env : Environment S O) : Type 0 where
  pub in_bounds : (s : S) → All (λ a. a < env.num_actions s) (env.valid_actions s)
  pub hash_step :
      (a : Action) (s t : S)
      → env.hash s ≡ env.hash t
      → env.hash (env.step a s) ≡ env.hash (env.step a t)

-- The table and the arena agree; every node is dense; an expanded edge leads to a node of the
-- table, whose id is the hash of every state that the edge's action leads to.
pub record IsSound {F S O : Type 0} (env : Environment S O) (m : Mcts F) : Type 0 where
  pub consistent : IsConsistent m
  pub dense : (id : NodeId) (n : Node F) → get_node m id ≡ some n → IsDense n
  pub closed :
      (id c : NodeId) (a : Action) (n : Node F)
      → get_node m id ≡ some n
      → child_at n a ≡ some c
      → node_exists m c ≡ true
  pub linked :
      (id c : NodeId) (a : Action) (n : Node F) (s : S)
      → get_node m id ≡ some n
      → child_at n a ≡ some c
      → env.hash s ≡ id
      → env.hash (env.step a s) ≡ c
