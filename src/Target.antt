-- ===== src/Target.antt =====
-- mcts-core/src/mcts.rs, `policy_target`: the training target, from the root's visits less the
-- forced ones. A hash map is filled by `insert`; none of the loops over one depends on its order.
pub mod Counts
pub mod Pruned
use mcts.Prelude.{
  ℕ, suc, ◌-◌, Bool, true, false, ◌||◌, Option, none, some, List, [], ◌∷◌, length, get_or, map, min,
  ltb, leb, ◌==◌, if◌then◌else◌, get_elem?, lookup, insert, saturating_sub, sum_usize, Exec, ok,
  ◌>>=◌, index,
}
use mcts.Float.{Float, f_zero, f_one}
use mcts.Node.{Node, NodeId, Action, to_action_index, better, action_of}
use mcts.Mcts.{Mcts, get_node}
use mcts.Puct.{q_value, n_forced, or_zero, puct_scores}

-- The loop for the most visited action.
unfoldable pub leader_from : List ℕ → List Action → Option (Action × ℕ) → Exec (Option (Action × ℕ))
leader_from visits [] best = ok best
leader_from visits (a ∷ actions) best = do
  v ← index visits (to_action_index a)
  leader_from visits actions (better v a best)

-- The visited actions, with their visits.
unfoldable pub visited_from : List ℕ → List Action → List (Action × ℕ) → Exec (List (Action × ℕ))
visited_from visits [] counts = ok counts
visited_from visits (a ∷ actions) counts = do
  v ← index visits (to_action_index a)
  visited_from visits actions (if ltb 0 v then insert a v counts else counts)

-- The loop over `pruned.iter_mut()`.
unfoldable pub update_counts : (Action → ℕ → ℕ) → List (Action × ℕ) → List (Action × ℕ)
update_counts f [] = []
update_counts f ((a, v) ∷ counts) = (a, f a v) ∷ update_counts f counts

unfoldable pub retain_many : List (Action × ℕ) → List (Action × ℕ)
retain_many [] = []
retain_many ((a, v) ∷ counts) = if ltb 1 v then (a, v) ∷ retain_many counts else retain_many counts

module _ {F : Type 0} ⦃fl : Float F⦄ where
  unfoldable pub q_values_from :
      Mcts F → Node F → List Action → List (Action × F) → Exec (List (Action × F))
  q_values_from m node [] qs = ok qs
  q_values_from m node (a ∷ actions) qs = do
    penalty ← index node.edge_penalties (to_action_index a)
    q_values_from m node actions (insert a (q_value m node node.value penalty a) qs)

  -- The visits that can go while the action's score stays below the best one's.
  unfoldable pub max_subtract : F → F → ℕ → F → F → ℕ → ℕ
  max_subtract c_puct prior n_total puct_best q_c visits =
      let puct_diff = fl.sub puct_best q_c in
      if fl.lt puct_diff f_zero || fl.eq puct_diff f_zero
      then 0
      else fl.to_usize (
          fl.max_of
            (fl.floor (
              fl.sub (fl.of_usize visits) (
                fl.sub
                  (fl.div (fl.mul (fl.mul c_puct prior) (fl.sqrt (fl.of_usize n_total))) puct_diff)
                  f_one)))
            f_zero)

  unfoldable pub forced_count : Mcts F → F → ℕ → ℕ
  forced_count m prior n_total = fl.to_usize (fl.floor (n_forced m prior n_total))

  -- The visits of an action of the given prior and value, less the forced ones.
  unfoldable pub reduced : Mcts F → F → F → ℕ → F → F → ℕ → ℕ
  reduced m c_puct prior n_total puct_best q_c visits =
      if fl.eq prior f_zero || forced_count m prior n_total == 0
      then visits
      else saturating_sub visits (
          min (forced_count m prior n_total)
            (max_subtract c_puct prior n_total puct_best q_c visits))

  -- The body of the loop: the best action's visits stay.
  unfoldable pub pruned_visits :
      Mcts F → Node F → F → ℕ → Action → F → List (Action × F) → Action → ℕ → ℕ
  pruned_visits m node c_puct n_total best puct_best qs a visits =
      if a == best
      then visits
      else reduced m c_puct (or_zero f_zero (get_elem? node.prior_probs (to_action_index a)))
          n_total puct_best (or_zero node.value (lookup a qs)) visits

  unfoldable pub shares : F → List (Action × ℕ) → List (Action × F)
  shares total [] = []
  shares total ((a, v) ∷ counts) = (a, fl.div (fl.of_usize v) total) ∷ shares total counts

  -- The distribution of the visits that are left, or the best action where none is.
  unfoldable pub distribution : Action → List (Action × ℕ) → List (Action × F)
  distribution best [] = (best, f_one) ∷ []
  distribution best (c ∷ counts) =
      shares (fl.of_usize (sum_usize (map (λ e. e.1) (c ∷ counts)))) (c ∷ counts)

  -- From the choice of the best action on.
  unfoldable pub target_with :
      Mcts F
      → Node F
      → F
      → List F
      → List (Action × F)
      → Option Action
      → Exec (Option (List (Action × F)))
  target_with m node c_puct scores qs none = ok none
  target_with m node c_puct scores qs (some best) = do
    visited ← visited_from node.edge_visits node.valid_actions []
    let n_total = sum_usize node.edge_visits
    let puct_best = or_zero (fl.neg fl.infinity) (get_elem? scores (to_action_index best))
    ok (
        some (
          distribution best (
            retain_many
              (update_counts (pruned_visits m node c_puct n_total best puct_best qs) visited))))

  unfoldable pub target_of : Mcts F → NodeId → F → Node F → Exec (Option (List (Action × F)))
  target_of m root_id c_puct node = if sum_usize node.edge_visits == 0 then ok none else (do
    qs ← q_values_from m node node.valid_actions []
    scores ← puct_scores m root_id c_puct true false
    best ← leader_from node.edge_visits node.valid_actions none
    target_with m node c_puct scores qs (action_of best))

  unfoldable pub target_at :
      Mcts F → F → NodeId → Option (Node F) → Exec (Option (List (Action × F)))
  target_at m c_puct root_id none = ok none
  target_at m c_puct root_id (some node) = target_of m root_id c_puct node

  unfoldable pub target_from : Mcts F → F → Option NodeId → Exec (Option (List (Action × F)))
  target_from m c_puct none = ok none
  target_from m c_puct (some root_id) = target_at m c_puct root_id (get_node m root_id)

  unfoldable pub policy_target : F → Mcts F → Exec (Option (List (Action × F)))
  policy_target c_puct m = target_from m c_puct m.root_id
