-- ===== src/Tree/Grow.antt =====
-- A new node without children, and a new edge, keep the invariant.
use mcts.Prelude.{
  ℕ, zero, suc, ◌≡◌, ◌∙◌, refl, sym, subst, ap, true, false, Option, none, some, get_elem?,
  length-modify, get_elem?-modify_self, get_elem?-modify_ne, replicate, ◌==◌, arith, Bool-cases,
  Option-cases, inl, inr, ◌⊎◌,
}
use mcts.Environment.{Environment}
use mcts.Node.{Node, NodeId, Action, new}
use mcts.Node.Dense.{IsDense}
use mcts.Mcts.{Mcts, get_node, with_node, node_exists, insert_node}
use mcts.Mcts.Table.{with_node-IsConsistent, get_node-insert_node, insert_node-IsConsistent}
use mcts.Puct.{child_at}
use mcts.Expand.{link, set_child}
use mcts.Tree.{IsSound}
use mcts.Tree.Update.{with_node-found, exists-with_node}

get_elem?-blank :
    {A : Type 0} (n i : ℕ) (x : Option A) → get_elem? (replicate n none) i ≡ some x → x ≡ none
get_elem?-blank zero i x h = cc
get_elem?-blank (suc n) zero x h = cc
get_elem?-blank (suc n) (suc i) x h = get_elem?-blank n i x h

module _ {F : Type 0} where
  -- No edge of a node leads to a child yet.
  abbrev pub IsBare : Node F → Type 0
  IsBare n = (a : Action) → child_at n a ≡ none

  pub child_at-blank : (n : Node F) (k : ℕ) → n.children ≡ replicate k none → IsBare n
  unfolding child_at
  child_at-blank n k e a =
      elim (Option-cases {A = Option NodeId} (get_elem? (replicate k none) a)) [
        | inl gone ↦ rw (e, child_at, gone)
        | inr (x, there) ↦ rw (e, child_at, there) (get_elem?-blank k a x there)
      ]

  -- The edge that `expand` sets: a slot that has a child keeps it.
  pub child_at-set_child :
      (n : Node F) (a b : Action) (leaf c : NodeId)
      → child_at (set_child a leaf n) b ≡ some c
      → (child_at n b ≡ some c) ⊎ (a ≡ b) × (c ≡ leaf)
  unfolding child_at set_child
  child_at-set_child n a b leaf c h = elim (Bool-cases (a == b)) [
    | inr other ↦ inl (ground (arith, get_elem?-modify_ne n.children a b (link leaf)))
    | inl same ↦ elim (Option-cases (get_elem? n.children b)) [
      | inl gone ↦ absurd (ground (arith, get_elem?-modify_self n.children a (link leaf)))
      | inr (x, there) ↦ elim (Option-cases x) [
        | inl empty ↦
            inr (ground arith, ground (arith, get_elem?-modify_self n.children a (link leaf)))
        | inr (k, full) ↦ inl (ground (arith, get_elem?-modify_self n.children a (link leaf)))
      ]
    ]
  ]

  set_child-IsDense :
      (a : Action) (leaf : NodeId) (n : Node F) → IsDense n → IsDense (set_child a leaf n)
  unfolding set_child
  set_child-IsDense a leaf n d = record {
    priors = d.priors;
    slots = length-modify n.children a (link leaf) ∙ d.slots;
    visits = d.visits;
    losses = d.losses;
    penalties = d.penalties;
    valid = d.valid;
  }

  id-set_child : (a : Action) (leaf : NodeId) (n : Node F) → (set_child a leaf n).id ≡ n.id
  unfolding set_child
  id-set_child a leaf n = refl

module _ {F S O : Type 0} (env : Environment S O) (m : Mcts F) (t : IsSound env m) where
  insert_node-found :
      (id j : NodeId) (n o : Node F)
      → get_node (insert_node id n m) j ≡ some o
      → (get_node m j ≡ some o) ⊎ (o ≡ n)
  insert_node-found id j n o h = elim (Bool-cases (id == j)) [
    | inl same ↦ inr (ground (arith, get_node-insert_node t.consistent id j n))
    | inr other ↦ inl (ground (arith, get_node-insert_node t.consistent id j n))
  ]

  pub exists-insert_node :
      (id j : NodeId) (n : Node F)
      → node_exists m j ≡ true
      → node_exists (insert_node id n m) j ≡ true
  unfolding node_exists insert_node
  exists-insert_node id j n h = ground arith

  -- A bare node under a new id.
  pub insert_node-IsSound :
      (id : NodeId) (n : Node F)
      → n.id ≡ id
      → node_exists m id ≡ false
      → IsDense n
      → IsBare n
      → IsSound env (insert_node id n m)
  insert_node-IsSound id n e new d bare = record {
    consistent = insert_node-IsConsistent t.consistent id n e new;
    dense = λ j o h. elim (insert_node-found id j n o h) [
      | inl old ↦ t.dense j o old
      | inr same ↦ subst IsDense (sym same) d
    ];
    closed = λ j c a o h edge. elim (insert_node-found id j n o h) [
      | inl old ↦ exists-insert_node id c n (t.closed j c a o old edge)
      | inr same ↦ absurd (ground (arith, bare a))
    ];
    linked = λ j c a o s h edge. elim (insert_node-found id j n o h) [
      | inl old ↦ t.linked j c a o s old edge
      | inr same ↦ absurd (ground (arith, bare a))
    ];
  }

  -- An edge to a node that is there, along an action that leads to its state.
  pub link-IsSound :
      (parent_id : NodeId) (a : Action) (leaf : NodeId)
      → node_exists m leaf ≡ true
      → ((s : S) → env.hash s ≡ parent_id → env.hash (env.step a s) ≡ leaf)
      → IsSound env (with_node parent_id (set_child a leaf) m)
  link-IsSound p a leaf there leads = record {
    consistent = with_node-IsConsistent t.consistent p (set_child a leaf) (id-set_child a leaf);
    dense = λ j n h.
        let (o, e, was) = with_node-found m p j (set_child a leaf) n t.consistent h in
        elim was [
          | inl same ↦ subst IsDense (sym same) (t.dense j o e)
          | inr (new, _) ↦ subst IsDense (sym new) (set_child-IsDense a leaf o (t.dense j o e))
        ];
    closed = λ j c b n h edge.
        exists-with_node p c (set_child a leaf) m ∙ elim (origin j c b n h edge) [
          | inl (o, at, old) ↦ t.closed j c b o at old
          | inr (_, _, same) ↦ rw same there
        ];
    linked = λ j c b n s h edge hs. elim (origin j c b n h edge) [
      | inl (o, at, old) ↦ t.linked j c b o s at old hs
      | inr (here, act, same) ↦
          ap (λ x. env.hash (env.step x s)) (sym act) ∙ leads s (hs ∙ sym here) ∙ sym same
    ];
  }
    where
      origin :
          (j c : NodeId) (b : Action) (n : Node F)
          → get_node (with_node p (set_child a leaf) m) j ≡ some n
          → child_at n b ≡ some c
          → ((o : Node F) × (get_node m j ≡ some o) × (child_at o b ≡ some c))
            ⊎ (p ≡ j) × (a ≡ b) × (c ≡ leaf)
      origin j c b n h edge =
          let (o, at, was) = with_node-found m p j (set_child a leaf) n t.consistent h in
          elim was [
            | inl same ↦ inl (o, at, ap (λ x. child_at x b) (sym same) ∙ edge)
            | inr (new, here) ↦
                elim (child_at-set_child o a b leaf c (ap (λ x. child_at x b) (sym new) ∙ edge)) [
                  | inl old ↦ inl (o, at, old)
                  | inr (act, same) ↦ inr (here, act, same)
                ]
          ]
