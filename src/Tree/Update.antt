-- ===== src/Tree/Update.antt =====
-- An update of a node's counters keeps the invariant.
use mcts.Prelude.{
  ◌≡◌, ◌∙◌, refl, sym, subst, ap, none, some, length, get_elem?, length-modify, ◌==◌, arith,
  Bool-cases, Option-cases, inl, inr, ◌⊎◌,
}
use mcts.Environment.{Environment}
use mcts.Node.{Node, NodeId, Action}
use mcts.Node.Dense.{IsDense}
use mcts.Mcts.{Mcts, get_node, with_node, node_exists}
use mcts.Mcts.Table.{IsConsistent, get_node-with_node, with_node-IsConsistent}
use mcts.Puct.{child_at}
use mcts.Tree.{IsSound}

-- The update touches neither the id nor the children, and no length.
pub record Keeps {F : Type 0} (f : Node F → Node F) : Type 0 where
  pub id : (n : Node F) → (f n).id ≡ n.id
  pub children : (n : Node F) → (f n).children ≡ n.children
  pub dense : (n : Node F) → IsDense n → IsDense (f n)

module _ {F : Type 0} where
  pub exists-with_node :
      (i j : NodeId) (f : Node F → Node F) (m : Mcts F)
      → node_exists (with_node i f m) j ≡ node_exists m j
  unfolding node_exists with_node
  exists-with_node i j f m = ground arith

  pub length-with_node :
      (i : NodeId) (f : Node F → Node F) (m : Mcts F)
      → length (with_node i f m).nodes ≡ length m.nodes
  unfolding with_node
  length-with_node i f m = elim (Option-cases (m.transposition_table i)) [
    | inl e ↦ rw (e, with_node)
    | inr (k, e) ↦ rw (e, with_node) (length-modify m.nodes k f)
  ]

  -- A node of the updated tree is one of the tree before, updated or not.
  pub with_node-found :
      (m : Mcts F) (i j : NodeId) (f : Node F → Node F) (n : Node F)
      → IsConsistent m
      → get_node (with_node i f m) j ≡ some n
      → (o : Node F) × (get_node m j ≡ some o) × ((n ≡ o) ⊎ (n ≡ f o) × (i ≡ j))
  with_node-found m i j f n c h = elim (Bool-cases (i == j)) [
    | inl same ↦ elim (Option-cases (get_node m j)) [
      | inl e ↦ absurd (ground (arith, get_node-with_node c i j f))
      | inr (o, e) ↦ (o, e, inr (ground (arith, get_node-with_node c i j f)))
    ]
    | inr other ↦ (n, ground (arith, get_node-with_node c i j f), inl refl)
  ]

  pub child_at-eq :
      (n o : Node F) (a : Action) → n.children ≡ o.children → child_at n a ≡ child_at o a
  unfolding child_at
  child_at-eq n o a e = ap (λ cs. elim (get_elem? cs a) [ none ↦ none | some c ↦ c ]) e

module _ {F S O : Type 0} (env : Environment S O) (m : Mcts F) (t : IsSound env m) where
  pub with_node-IsSound :
      (i : NodeId) (f : Node F → Node F) → Keeps f → IsSound env (with_node i f m)
  with_node-IsSound i f k = record {
    consistent = with_node-IsConsistent t.consistent i f k.id;
    dense = λ j n h.
        let (o, e, was) = with_node-found m i j f n t.consistent h in
        elim was [
          | inl same ↦ subst IsDense (sym same) (t.dense j o e)
          | inr (new, _) ↦ subst IsDense (sym new) (k.dense o (t.dense j o e))
        ];
    closed = λ j c a n h e.
        let (o, at, edge) = before j c a n h e in
        exists-with_node i c f m ∙ t.closed j c a o at edge;
    linked = λ j c a n s h e. let (o, at, edge) = before j c a n h e in t.linked j c a o s at edge;
  }
    where
      before :
          (j c : NodeId) (a : Action) (n : Node F)
          → get_node (with_node i f m) j ≡ some n
          → child_at n a ≡ some c
          → (o : Node F) × (get_node m j ≡ some o) × (child_at o a ≡ some c)
      before j c a n h e =
          let (o, at, was) = with_node-found m i j f n t.consistent h in
          elim was [
            | inl same ↦ (o, at, ap (λ x. child_at x a) (sym same) ∙ e)
            | inr (new, _) ↦
                (o, at, sym (ap (λ x. child_at x a) new ∙ child_at-eq (f o) o a (k.children o)) ∙ e)
          ]
