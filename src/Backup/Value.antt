-- ===== src/Backup/Value.antt =====
-- The visits that `recompute_value` gives a node.
use mcts.Prelude.{
  ℕ, ◌+◌, ◌<◌, ◌^◌, ◌≡◌, ◌≢◌, ◌∙◌, refl, ap₂, add_usize, none, some, List, [], ◌∷◌, map, get_or,
  ==_self, arith, Option-cases, Bool-cases, inl, inr, sum, ◌++◌, ◌==◌, if◌then◌else◌,
  sum_usize-eq-sum,
}
use mcts.Float.{Float, f_zero, sum_from, sum_f32}
use mcts.Node.{Node, NodeId, Action}
use mcts.Mcts.{Mcts, get_node}
use mcts.Mcts.Table.{IsConsistent, get_node-with_node}
use mcts.Puct.{child_at}
use mcts.Backup.{
  total_edge_visits, accumulate, child_data, recomputed_visits, recomputed_value, recomputed,
  recompute_value,
}

-- The visits of the edges that have a child.
unfoldable pub expanded_visits : {F : Type 0} → Node F → List Action → ℕ
expanded_visits n [] = 0
expanded_visits n (a ∷ actions) =
    (elim (child_at n a) [ none ↦ 0 | some c ↦ get_or n.edge_visits a 0 ])
    + expanded_visits n actions

module _ {F : Type 0} ⦃fl : Float F⦄ where
  sum-child_data :
      (n : Node F) (actions : List Action)
      → sum (map (λ d. d.1) (child_data n actions)) ≡ expanded_visits n actions
  unfolding child_data expanded_visits
  sum-child_data n [] = refl
  sum-child_data n (a ∷ actions) = elim (Option-cases (child_at n a)) [
    | inl gone ↦ rw (gone, child_data) (omega (arith, sum-child_data n actions))
    | inr (c, there) ↦ rw (there, child_data) (omega (arith, sum-child_data n actions))
  ]

  -- What an edge adds to the value: its child's value with the edge's penalty, once
  -- for each visit. An edge without a visit, or whose child the table does not hold, adds nothing.
  edge_terms : Mcts F → Node F → Action → List F
  edge_terms m n a = elim (child_at n a) [
    | none ↦ []
    | some c ↦ if get_or n.edge_visits a 0 == 0 then [] else elim (get_node m c) [
      | none ↦ []
      | some child ↦
          fl.mul (fl.of_usize (get_or n.edge_visits a 0))
            (fl.add child.value (get_or n.edge_penalties a f_zero))
          ∷ []
    ]
  ]

  all_terms : Mcts F → Node F → List Action → List F
  all_terms m n [] = []
  all_terms m n (a ∷ actions) = edge_terms m n a ++ all_terms m n actions

  -- The sum over the edges of the valid actions.
  pub edge_sum : Mcts F → Node F → F
  unfolding edge_terms all_terms
  edge_sum m n = sum_f32 (all_terms m n n.valid_actions)

  accumulate-child_data :
      (m : Mcts F) (n : Node F) (acc : F) (actions : List Action)
      → accumulate m acc (child_data n actions) ≡ sum_from acc (all_terms m n actions)
  unfolding child_data accumulate all_terms edge_terms sum_from
  accumulate-child_data m n acc [] = refl
  accumulate-child_data m n acc (a ∷ actions) = elim (Option-cases (child_at n a)) [
    | inl gone ↦ rw (gone, child_data, edge_terms) (accumulate-child_data m n acc actions)
    | inr (c, there) ↦ elim (Bool-cases (get_or n.edge_visits a 0 == 0)) [
      | inl new ↦ rw (there, child_data, edge_terms, new) (accumulate-child_data m n acc actions)
      | inr visited ↦ elim (Option-cases (get_node m c)) [
        | inl lost ↦
            rw (there, child_data, edge_terms, visited, lost)
              (accumulate-child_data m n acc actions)
        | inr (child, held) ↦
            rw (there, child_data, edge_terms, visited, held)
              (accumulate-child_data m n
                (fl.add acc (
                  fl.mul (fl.of_usize (get_or n.edge_visits a 0))
                    (fl.add child.value (get_or n.edge_penalties a f_zero))))
                actions)
      ]
    ]
  ]

  accumulate-eq-edge_sum :
      (m : Mcts F) (n : Node F) → accumulate m f_zero (child_data n n.valid_actions) ≡ edge_sum m n
  unfolding edge_sum sum_f32
  accumulate-eq-edge_sum m n = accumulate-child_data m n f_zero n.valid_actions

  -- The visits of the expanded edges and the virtual losses together.
  unfoldable pub all_visits : Node F → ℕ
  all_visits n = expanded_visits n n.valid_actions + sum n.virtual_losses

  -- The average of the node's own estimate and the values of its edges, by visits.
  pub average : Mcts F → Node F → F
  unfolding all_visits
  average m n =
      if all_visits n == 0
      then n.value_estimate
      else fl.div (fl.add n.value_estimate (edge_sum m n)) (fl.of_usize (1 + all_visits n))

  recomputed-average :
      (m : Mcts F) (n : Node F)
      → all_visits n + 1 < 2 ^ 64
      → (recomputed_visits n ≡ 1 + all_visits n) × (recomputed_value m n ≡ average m n)
  unfolding recomputed_visits recomputed_value average all_visits
  recomputed-average m n small =
      let data_sum = sum-child_data n n.valid_actions in
      let e₁ =
        sum_usize-eq-sum (map (λ d. d.1) (child_data n n.valid_actions))
          (omega (arith, data_sum)) in
      let e₂ = sum_usize-eq-sum n.virtual_losses (omega arith) in
      let total : total_edge_visits n ≡ all_visits n = ground (arith, e₁, e₂, data_sum) in
      (
        rw total (ground (arith, small)),
        rw (total, accumulate-eq-edge_sum m n)
            (elim (Bool-cases (all_visits n == 0)) [
              | inl new ↦ rw new refl
              | inr some_visit ↦
                  let count : add_usize 1 (all_visits n) ≡ 1 + all_visits n =
                    ground (arith, small) in
                  rw (some_visit, count) refl
            ]),
      )

  -- Where table and arena agree, on a node of the table whose visits do not wrap: `recompute_value`
  -- sets its visits to one more than the visits of its expanded edges and its virtual losses
  -- together. Its value becomes its own estimate where there are none of these, and otherwise that
  -- estimate plus, for each visited edge whose child the table holds, the visits times the child's
  -- value with the edge's penalty, all over the node's visits. Every other node stays as it is.
  pub recompute_value_lem :
      (m : Mcts F) (id : NodeId) (n : Node F)
      → IsConsistent m
      → get_node m id ≡ some n
      → all_visits n + 1 < 2 ^ 64
      → (get_node (recompute_value id m) id
          ≡ some (record n { node_visits = 1 + all_visits n; value = average m n }))
        × ((j : NodeId) → id ≢ j → get_node (recompute_value id m) j ≡ get_node m j)
  unfolding recompute_value recomputed
  recompute_value_lem m id n c at small =
      let (visits, value) = recomputed-average m n small in
      (
        rw (at, recompute_value)
            (get_node-with_node c id id (recomputed m n)
              ∙ rw (==_self id, at)
                  (ap₂ (λ v x. some (record n { node_visits = v; value = x })) visits value)),
        λ j other.
            rw (at, recompute_value) (ground (arith, get_node-with_node c id j (recomputed m n))),
      )
