-- ===== src/Mcts.antt =====
-- mcts-core/src/mcts.rs: the search's state, and the arena of nodes behind its transposition table.
pub mod Table
use mcts.Prelude.{
  ℕ, ◌≡◌, Bool, true, false, Option, none, some, List, [], ◌∷◌, ◌++◌, length, get_elem?, set,
  modify, ◌==◌, if◌then◌else◌,
}
use mcts.Float.{Float, f_zero, f_one}
use mcts.Environment.{Environment}
use mcts.Node.{Node, NodeId, Action, to_action_index, new, new_terminal}

-- `struct MCTS`. The table is only read and written by key, so it is a function.
pub record Mcts (F : Type 0) : Type 0 where
  pub root_id : Option NodeId
  pub transposition_table : NodeId → Option ℕ
  pub nodes : List (Node F)
  pub batch_size : ℕ
  pub c_fpu : F
  pub root_softmax_temp : F
  pub k_forced : F
  pub root_noise : Option (List (Action × F))
  pub root_noise_epsilon : F

module _ {F : Type 0} where
  -- `get_node_immut`, and what `get_node_mut` finds.
  unfoldable pub get_node : Mcts F → NodeId → Option (Node F)
  get_node m id = elim (m.transposition_table id) [ none ↦ none | some i ↦ get_elem? m.nodes i ]

  -- `if let Some(node) = self.get_node_mut(id) { … }`: the body runs on the node in the arena.
  unfoldable pub with_node : NodeId → (Node F → Node F) → Mcts F → Mcts F
  with_node id f m = elim (m.transposition_table id) [
    | none ↦ m
    | some i ↦ record m { nodes = modify m.nodes i f }
  ]

  unfoldable pub node_exists : Mcts F → NodeId → Bool
  node_exists m id = elim (m.transposition_table id) [ none ↦ false | some i ↦ true ]

  unfoldable pub insert_node : NodeId → Node F → Mcts F → Mcts F
  insert_node id node m = record m {
    nodes = m.nodes ++ (node ∷ []);
    transposition_table = λ k. if id == k then some (length m.nodes) else m.transposition_table k;
  }

  unfoldable pub add_child : NodeId → Action → NodeId → Mcts F → Mcts F
  unfolding with_node
  add_child parent_id action child_id = with_node parent_id λ parent. record parent {
    children = modify parent.children (to_action_index action) (λ _. some child_id);
  }

module _ {F : Type 0} ⦃fl : Float F⦄ where
  -- `MCTS::new`.
  unfoldable pub new_search : ℕ → Mcts F
  new_search batch_size = record {
    root_id = none;
    transposition_table = λ _. none;
    nodes = [];
    batch_size = batch_size;
    c_fpu = fl.lit 2 1;
    root_softmax_temp = fl.lit 103 2;
    k_forced = fl.lit 2 0;
    root_noise = none;
    root_noise_epsilon = f_zero;
  }

  -- `f32::clamp`.
  unfoldable pub clamp : F → F → F → F
  clamp lo hi x = let y = if fl.lt x lo then lo else x in if fl.lt hi y then hi else y

  -- `perturb_root_prior`.
  unfoldable pub perturb_root_prior : List (Action × F) → F → Mcts F → Mcts F
  perturb_root_prior noise epsilon m = record m {
    root_noise = some noise;
    root_noise_epsilon = epsilon;
  }

  module _ {S O : Type 0} (env : Environment S O) where
    -- The node that `create_node` builds for a state.
    unfoldable pub node_of : S → List (Action × F) → F → Node F
    unfolding clamp new new_terminal
    node_of s priors value =
        if env.done s
        then new_terminal (env.hash s) value none
        else new (env.num_actions s) priors (clamp (fl.neg f_one) f_one value) (env.hash s) none

    unfoldable pub create_node : S → List (Action × F) → F → Mcts F → Mcts F
    unfolding insert_node node_of
    create_node s priors value m = insert_node (env.hash s) (node_of s priors value) m
