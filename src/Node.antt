-- ===== src/Node.antt =====
-- mcts-core/src/node.rs: a node of the search graph, with its per-edge data in dense vectors.
-- An action is the number that `to_action_index` casts it to: every implementation of `Act` is an
-- unsigned integer type. `HashMap` arguments are lists of entries in iteration order.
pub mod Dense
pub mod Build
pub mod Choice
use Prim.Native.String.{String}
use mcts.Prelude.{
  ℕ, zero, suc, ◌+◌, Bool, true, false, Option, none, some, List, [], ◌∷◌, ◌++◌, length, get_or,
  set, modify, replicate, ltb, leb, ◌==◌, if◌then◌else◌, add_usize, saturating_sub, Exec, ok, ◌>>=◌,
  index,
}
use mcts.Float.{Float, f_zero, f_one}

-- `NodeId`
abbrev pub NodeId : Type 0
NodeId = ℕ

abbrev pub Action : Type 0
Action = ℕ

abbrev pub to_action_index : Action → ℕ
to_action_index a = a

pub record Node (F : Type 0) : Type 0 where
  pub id : NodeId
  pub num_actions : ℕ
  pub valid_actions : List Action
  pub prior_probs : List F
  pub value_estimate : F
  pub node_visits : ℕ
  pub children : List (Option NodeId)
  pub edge_visits : List ℕ
  pub virtual_losses : List ℕ
  pub edge_penalties : List F
  pub value : F
  pub terminal_state : Bool
  pub repr : Option String

-- One round of the loop in `select_action`: `best` is kept on a tie.
unfoldable pub better : ℕ → Action → Option (Action × ℕ) → Option (Action × ℕ)
better v a none = some (a, v)
better v a (some (b, bv)) = if leb v bv then some (b, bv) else some (a, v)

pub most_visited : List ℕ → List Action → Option (Action × ℕ) → Exec (Option (Action × ℕ))
unfolding better
most_visited visits [] best = ok best
most_visited visits (a ∷ actions) best = do
  v ← index visits (to_action_index a)
  most_visited visits actions (if v == 0 then best else better v a best)

abbrev pub action_of : Option (Action × ℕ) → Option Action
action_of none = none
action_of (some (a, v)) = some a

module _ {F : Type 0} where
  -- The loop over `prior_probs_map.iter()`: an index out of bounds writes no prior, and the action
  -- is listed all the same.
  pub fill_priors : ℕ → List (Action × F) → List F → List Action → List F × List Action
  fill_priors num_actions [] probs valid = (probs, valid)
  fill_priors num_actions ((a, p) ∷ m) probs valid =
      fill_priors num_actions m
        (if ltb (to_action_index a) num_actions then set probs (to_action_index a) p else probs)
        (valid ++ (a ∷ []))

  -- A write through an index that is guarded by `idx < len` is a `modify`.
  unfoldable pub add_virtual_loss : Action → Node F → Node F
  add_virtual_loss action node = record node {
    virtual_losses = modify node.virtual_losses (to_action_index action) (λ v. add_usize v 1);
  }

  unfoldable pub revert_virtual_loss : Action → Node F → Node F
  revert_virtual_loss action node = record node {
    virtual_losses = modify node.virtual_losses (to_action_index action) (λ v. saturating_sub v 1);
  }

  unfoldable pub select_action : Node F → Exec (Option Action)
  unfolding most_visited
  select_action node = do
    best ← most_visited node.edge_visits node.valid_actions none
    ok (action_of best)

  unfoldable pub new_terminal : NodeId → F → Option String → Node F
  new_terminal id value repr = record {
    id = id;
    num_actions = 0;
    valid_actions = [];
    prior_probs = [];
    value_estimate = value;
    node_visits = 0;
    children = [];
    edge_visits = [];
    virtual_losses = [];
    edge_penalties = [];
    value = value;
    terminal_state = true;
    repr = repr;
  }

module _ {F : Type 0} ⦃fl : Float F⦄ where
  unfoldable pub new : ℕ → List (Action × F) → F → NodeId → Option String → Node F
  unfolding fill_priors
  new num_actions priors value id repr =
      let filled = fill_priors num_actions priors (replicate num_actions f_zero) [] in
      record {
        id = id;
        num_actions = num_actions;
        valid_actions = filled.1;
        prior_probs = filled.0;
        value_estimate = value;
        node_visits = 0;
        children = replicate num_actions none;
        edge_visits = replicate num_actions 0;
        virtual_losses = replicate num_actions 0;
        edge_penalties = replicate num_actions f_zero;
        value = value;
        terminal_state = false;
        repr = repr;
      }

  unfoldable pub apply_penalty : Action → Node F → Node F
  apply_penalty action node =
      let penalty_amount = fl.div (fl.neg f_one) (fl.of_usize (length node.valid_actions)) in
      record node {
        edge_penalties =
            modify node.edge_penalties (to_action_index action) (λ p. fl.add p penalty_amount);
      }

  unfoldable pub revert_penalty : Action → Node F → Node F
  revert_penalty action node = record node {
    edge_penalties =
        modify node.edge_penalties (to_action_index action)
          (λ p. fl.min_of (fl.add p f_one) f_zero);
  }
