-- ===== src/Advance/Work.antt =====
-- The walk over the children ends: each slot of the arena is queued at most once.
use mcts.Prelude.{
  ℕ, zero, suc, ◌+◌, ◌≤◌, ◌≡◌, refl, false, Option, none, some, List, [], ◌∷◌, length,
  length-append, arith, Bool-cases, Option-cases, inl, inr, ok, contains,
}
use mcts.Node.{Node, NodeId}
use mcts.Mcts.{Mcts, get_node}
use mcts.Mcts.Table.{IsConsistent}
use mcts.Tree.Measure.{weight, weight_drop, weight_mono}
use mcts.Advance.{expanded, unseen, children_of, enqueue, collect}

length-expanded : (slots : List (Option NodeId)) → length (expanded slots) ≤ length slots
unfolding expanded
length-expanded [] = omega arith
length-expanded (none ∷ slots) = omega (arith, length-expanded slots)
length-expanded (some c ∷ slots) = omega (arith, length-expanded slots)

length-unseen : (r cs : List NodeId) → length (unseen r cs) ≤ length cs
unfolding unseen
length-unseen r [] = omega arith
length-unseen r (c ∷ cs) = ground (arith, length-unseen r cs)

module _ {F : Type 0} (m : Mcts F) (c : IsConsistent m) where
  -- What is left to do: the queue, and the slots of the nodes that are not in the set.
  abbrev work : List NodeId → List NodeId → ℕ
  work queue r = length queue + weight (λ j. contains j r) (λ n. length n.children) m.nodes

  work-enqueue :
      (id : NodeId) (queue r : List NodeId)
      → contains id r ≡ false
      → work (enqueue m id queue r) (id ∷ r) ≤ work queue r
  unfolding enqueue children_of get_node
  work-enqueue id queue r new =
      let seen = λ (j : NodeId). contains j r in
      let seen' = λ (j : NodeId). contains j (id ∷ r) in
      let slots = λ (n : Node F). length n.children in
      let grown = length-append queue (unseen (id ∷ r) (children_of m id)) in
      let few = length-unseen (id ∷ r) (children_of m id) in
      elim (Option-cases (m.transposition_table id)) [
        | inl gone ↦
            let none_there : length (children_of m id) ≡ 0 = rw (gone, children_of) in
            omega (arith, weight_mono seen seen' id slots m.nodes (λ j. refl))
        | inr (i, e) ↦
            let (n, at, id_n) = c.indexed id i e in
            let bound : length (children_of m id) ≤ length n.children =
              rw (e, children_of, at) (length-expanded n.children) in
            omega (arith, weight_drop seen seen' slots m.nodes i n (λ j. rw id_n) at (rw id_n new))
      ]

  pub collect-returns :
      (fuel : ℕ) (queue r : List NodeId)
      → work queue r ≤ fuel
      → (r' : List NodeId) × (collect m fuel queue r ≡ ok r')
  unfolding collect
  collect-returns zero [] r h = (r, refl)
  collect-returns (suc fuel) [] r h = (r, refl)
  collect-returns zero (id ∷ queue) r h = absurd (omega arith)
  collect-returns (suc fuel) (id ∷ queue) r h = elim (Bool-cases (contains id r)) [
    | inl old ↦ rw (old, collect) (collect-returns fuel queue r (omega arith))
    | inr new ↦
        rw (new, collect)
          (collect-returns fuel (enqueue m id queue r) (id ∷ r)
            (omega (arith, work-enqueue id queue r new)))
  ]
