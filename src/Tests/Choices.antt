-- ===== src/Tests/Choices.antt =====
-- The choice of an action, and the nodes and priors that it rests on.
use mcts.Prelude.{
  ℕ, ◌≡◌, ◌<◌, refl, true, false, Option, some, none, List, [], ◌∷◌, ok, arith, get_or, keys,
  lookup, lookup_or, sum_usize, contains, map_some, length, if◌then◌else◌,
}
use mcts.Float.{f_zero, sum_f32}
use mcts.Node.{Node, Action, new, select_action}
use mcts.Node.Dense.{IsDense}
use mcts.Node.Build.{new_lem}
use mcts.Node.Choice.{MostVisited, select_action-MostVisited}
use mcts.Priors.{normalize_prior}
use mcts.Priors.Lookup.{mass, lookup-normalize_prior}
use mcts.Puct.{
  select_action_puct, best_of, max_by_score, max_from, puct_scores, node_scores, score_action,
  score_of, first_play_urgency, q_value, effective_priors, needs_noise, needs_softmax, explored,
  child_at,
}
use mcts.Mcts.{Mcts, with_node, get_node, create_node, new_search, clamp}
use mcts.Expand.{expand, set_child}
use mcts.Puct.Best.{
  Ordered, Chosen, Unexceeded, select_action_puct-Chosen, select_action_puct-Unexceeded,
}
use mcts.Target.{policy_target}
use mcts.Target.Pruned.{IsPruned, IsShared, policy_target_lem}
use mcts.Tests.Setup.{numbers, answer, grown, grown-IsSound, root_node, root-at}

abbrev visited : Node ℕ
visited = record root_node { edge_visits = 2 ∷ 5 ∷ [] }

visited-IsDense : IsDense visited
visited-IsDense = record {
  priors = refl;
  slots = refl;
  visits = refl;
  losses = refl;
  penalties = refl;
  valid = (omega arith, (omega arith, tt));
}

select_action-MostVisited_example :
    (r : Option Action) × (select_action visited ≡ ok r) × MostVisited visited r
select_action-MostVisited_example = select_action-MostVisited visited visited-IsDense

select_action_puct-Chosen_example :
    (r : Option Action) × (select_action_puct grown 0 2 true true ≡ ok r) × Chosen root_node r
select_action_puct-Chosen_example =
    select_action_puct-Chosen grown 0 root_node 2 true true root-at
      (grown-IsSound.dense 0 root_node root-at)

new_lem_example :
    ((new 2 (answer 0) 1 0 none).valid_actions ≡ keys (answer 0))
    × ((j : ℕ)
        → j < 2
        → get_or (new 2 (answer 0) 1 0 none).prior_probs j f_zero ≡ lookup_or j (answer 0) f_zero)
    × ((j : ℕ) → get_or (new 2 (answer 0) 1 0 none).edge_visits j 0 ≡ 0)
    × ((j : ℕ) → get_or (new 2 (answer 0) 1 0 none).virtual_losses j 0 ≡ 0)
    × ((j : ℕ) → get_or (new 2 (answer 0) 1 0 none).children j none ≡ none)
new_lem_example = new_lem 2 (answer 0) 1 0 none (refl, (refl, tt))

abbrev moves : List Action
moves = 1 ∷ []

lookup-normalize_prior_example : lookup 1 (normalize_prior (answer 0) moves) ≡ (
    if contains 1 moves
    then (if numbers.eq (mass (answer 0) moves) f_zero
        then some (numbers.div (numbers.lit 1 0) (numbers.of_usize (length moves)))
        else map_some (λ p. numbers.div p (mass (answer 0) moves)) (lookup 1 (answer 0)))
    else none)
lookup-normalize_prior_example = lookup-normalize_prior (answer 0) moves 1

numbers-Ordered : Ordered numbers (λ x. Unit)
unfolding numbers
numbers-Ordered = record {
  asymm = λ x y h. ground arith;
  self = λ x. ground arith;
  chain = λ x y z p q r h k. ground arith;
}

-- The scores of the root's two actions.
abbrev scores : List ℕ
scores = 1 ∷ 1 ∷ []

select_action_puct-Unexceeded_example : Unexceeded scores 1 (0 ∷ 1 ∷ [])
unfolding select_action_puct best_of max_by_score max_from puct_scores node_scores score_action
    score_of first_play_urgency q_value effective_priors needs_noise needs_softmax explored child_at
    get_node expand create_node set_child new new_search clamp numbers sum_usize sum_f32
select_action_puct-Unexceeded_example =
    select_action_puct-Unexceeded numbers-Ordered grown 0 root_node 2 true false scores 1 root-at
      (grown-IsSound.dense 0 root_node root-at) refl (tt, (tt, tt)) refl

-- The grown tree after seven visits of the root.
abbrev played : Mcts ℕ
played = with_node 0 (λ n. record n { edge_visits = 2 ∷ 5 ∷ [] }) grown

played-at : get_node played 0 ≡ some visited
unfolding get_node with_node expand create_node set_child new new_search clamp numbers
played-at = refl

policy_target_lem_example :
    (best : Action) × (counts : List (Action × ℕ)) × (target : List (Action × ℕ)) × (policy_target 2
        played
      ≡ ok (some target))
    × IsPruned played visited best counts
    × IsShared best counts target
unfolding with_node expand create_node new_search sum_usize
policy_target_lem_example =
    policy_target_lem played 0 visited 2 refl played-at visited-IsDense refl (omega arith)
