-- ===== src/Leaf.antt =====
-- mcts-core/src/mcts.rs, `select_leaf` and `check_state_repeat`: a playout's walk from the root.

pub mod Steps
pub mod Ends
use mcts.Prelude.{
  ℕ, zero, suc, Bool, true, false, not, ◌&&◌, ◌||◌, Option, none, some, List, [], ◌∷◌, ◌++◌, length,
  any, ◌==◌, if◌then◌else◌, Exec, ok, out_of_fuel, ◌>>=◌,
}
use mcts.Float.{Float}
use mcts.Environment.{Environment}
use mcts.Node.{NodeId, Action, add_virtual_loss}
use mcts.Mcts.{Mcts, get_node, with_node, node_exists}
use mcts.Puct.{child_at, select_action_puct}

abbrev pub SearchPath : Type 0
SearchPath = List (NodeId × Action)

unfoldable pub check_state_repeat : ℕ → SearchPath → Bool
check_state_repeat hash path = any (λ e. e.0 == hash) path

-- The local variables of the walk, and the tree that it marks.
pub record Walk (F S : Type 0) : Type 0 where
  pub tree : Mcts F
  pub path : SearchPath
  pub node_id : NodeId
  pub parent : Option NodeId
  pub action : Option Action
  pub game : S
  pub repeat_detected : Bool

-- Whether the loop goes on after a round.
pub data Next : Type 0 where
  again stop : Next

module _ {F S O : Type 0} ⦃fl : Float F⦄ (env : Environment S O) where
  -- The virtual loss, the move, and the path.
  unfoldable pub mark_and_step : Walk F S → Action → Walk F S
  unfolding with_node
  mark_and_step w chosen = record {
    tree = with_node w.node_id (add_virtual_loss chosen) w.tree;
    path = w.path ++ ((w.node_id, chosen) ∷ []);
    node_id = w.node_id;
    parent = some w.node_id;
    action = some chosen;
    game = env.step chosen w.game;
    repeat_detected = w.repeat_detected;
  }

  -- The child that the parent has for the action: the walk goes on there.
  unfoldable pub follow : Walk F S → Option NodeId → Walk F S × Next
  follow w none = (w, stop)
  follow w (some cid) = (record w { node_id = cid }, again)

  -- The rest of a round, from the chosen action on.
  unfoldable pub descend : Walk F S → Action → Walk F S × Next
  descend w chosen =
      let moved = mark_and_step w chosen in
      elim (get_node moved.tree w.node_id) [
        | none ↦ (moved, stop)
        | some parent_node ↦ follow moved (child_at parent_node chosen)
      ]

  unfoldable pub descend_by : Walk F S → Option Action → Walk F S × Next
  descend_by w none = (w, stop)
  descend_by w (some a) = descend w a

  module _ (root_id : NodeId) (c_puct : F) (forced_playouts : Bool) where
    -- From the choice of the action on.
    unfoldable pub choose : Walk F S → Exec (Walk F S × Next)
    choose w = do
      chosen ← select_action_puct w.tree w.node_id c_puct (w.node_id == root_id) forced_playouts
      ok (descend_by w chosen)

    -- One round, under the loop's test.
    unfoldable pub round : Walk F S → Exec (Walk F S × Next)
    round w =
        if not (node_exists w.tree w.node_id)
        then ok (w, stop)
        else if check_state_repeat (env.hash w.game) w.path
        then ok (record w { repeat_detected = true }, stop)
        else choose w

    unfoldable pub leaf_loop : ℕ → Walk F S → Exec (Walk F S)
    leaf_loop zero w = out_of_fuel
    leaf_loop (suc fuel) w =
        if env.done w.game || w.repeat_detected
        then ok w
        else (do r ← round w; elim r.1 [ again ↦ leaf_loop fuel r.0 | stop ↦ ok r.0 ])

  abbrev pub start : Mcts F → NodeId → S → Walk F S
  start m root_id s = record {
    tree = m;
    path = [];
    node_id = root_id;
    parent = none;
    action = none;
    game = s;
    repeat_detected = false;
  }

  -- The fuel is one round for each node of the arena, and two more.
  unfoldable pub select_leaf : Mcts F → NodeId → S → F → Bool → Exec (Walk F S)
  select_leaf m root_id s c_puct forced_playouts =
      leaf_loop root_id c_puct forced_playouts (suc (suc (length m.nodes))) (start m root_id s)
