-- ===== src/Tree/Expansion.antt =====
-- `create_node` and `expand` keep the invariant, for an environment that keeps its contract.
use mcts.Prelude.{
  ◌<◌, ◌≡◌, ◌∙◌, refl, sym, true, false, none, List, arith, Bool-cases, inl, inr, ◌⊎◌, All, keys,
}
use mcts.Float.{Float, f_one}
use mcts.Environment.{Environment}
use mcts.Node.{Node, NodeId, Action}
use mcts.Node.Dense.{IsDense, new_terminal-IsDense}
use mcts.Node.Build.{new-IsDense}
use mcts.Mcts.{Mcts, node_exists, insert_node, node_of, create_node, clamp}
use mcts.Priors.{normalize_prior}
use mcts.Priors.Lookup.{All-normalize_prior}
use mcts.Expand.{set_child, ensure_node, expand}
use mcts.Tree.{IsLawful, IsSound}
use mcts.Tree.Update.{exists-with_node}
use mcts.Tree.Grow.{IsBare, child_at-blank, insert_node-IsSound, link-IsSound, exists-insert_node}

module _ {F S O : Type 0} ⦃fl : Float F⦄ (env : Environment S O) where
  node_of-lem :
      (s : S) (priors : List (Action × F)) (v : F)
      → (env.done s ≡ true) ⊎ All (λ a. a < env.num_actions s) (keys priors)
      → IsDense (node_of env s priors v)
        × ((node_of env s priors v).id ≡ env.hash s)
        × IsBare (node_of env s priors v)
  unfolding node_of
  node_of-lem s priors v h = elim (Bool-cases (env.done s)) [
    | inl over ↦ rw over (new_terminal-IsDense (env.hash s) v none, refl, child_at-blank _ 0 refl)
    | inr live ↦ elim h [
      | inl over ↦ absurd (ground arith)
      | inr below ↦ rw live (
        new-IsDense (env.num_actions s) priors (clamp (fl.neg f_one) f_one v) (env.hash s) none
            below,
        refl,
        child_at-blank _ (env.num_actions s) refl,
      )
    ]
  ]

  module _ (m : Mcts F) (t : IsSound env m) where
    exists-insert_self : (id : NodeId) (n : Node F) → node_exists (insert_node id n m) id ≡ true
    unfolding node_exists insert_node
    exists-insert_self id n = ground arith

    -- Creating the node of a state that has none.
    pub create_node-IsSound :
        (s : S) (priors : List (Action × F)) (v : F)
        → node_exists m (env.hash s) ≡ false
        → (env.done s ≡ true) ⊎ All (λ a. a < env.num_actions s) (keys priors)
        → IsSound env (create_node env s priors v m)
          × (node_exists (create_node env s priors v m) (env.hash s) ≡ true)
    unfolding create_node
    create_node-IsSound s priors v new h =
        let (d, e, bare) = node_of-lem s priors v h in
        (
          insert_node-IsSound env m t (env.hash s) (node_of env s priors v) e new d bare,
          exists-insert_self (env.hash s) (node_of env s priors v),
        )

    ensure_node-IsSound :
        (s : S) (priors : List (Action × F)) (v : F)
        → IsLawful env
        → IsSound env (ensure_node env s priors v m)
          × (node_exists (ensure_node env s priors v m) (env.hash s) ≡ true)
    unfolding ensure_node
    ensure_node-IsSound s priors v law = elim (Bool-cases (node_exists m (env.hash s))) [
      | inl old ↦ rw old (t, old)
      | inr new ↦ rw new (
          create_node-IsSound s (normalize_prior priors (env.valid_actions s)) v new (
            inr (
              All-normalize_prior (env.num_actions s) priors (env.valid_actions s)
                (law.in_bounds s))))
    ]

    -- In a lawful environment `expand` keeps a tree sound when the leaf's state is where the
    -- action leads from a state of the parent.
    pub expand-IsSound :
        (parent_id : NodeId) (a : Action) (s s₀ : S) (priors : List (Action × F)) (v : F)
        → IsLawful env
        → env.hash s₀ ≡ parent_id
        → env.hash s ≡ env.hash (env.step a s₀)
        → IsSound env (expand env parent_id a s priors v m)
    unfolding expand
    expand-IsSound p a s s₀ priors v law hp hs =
        let (t', there) = ensure_node-IsSound s priors v law in
        link-IsSound env (ensure_node env s priors v m) t' p a (env.hash s) there
          λ s₁ h₁. law.hash_step a s₁ s₀ (h₁ ∙ sym hp) ∙ sym hs

    exists-ensure_node :
        (j : NodeId) (s : S) (priors : List (Action × F)) (v : F)
        → node_exists m j ≡ true
        → node_exists (ensure_node env s priors v m) j ≡ true
    unfolding ensure_node create_node
    exists-ensure_node j s priors v h = elim (Bool-cases (node_exists m (env.hash s))) [
      | inl old ↦ rw old h
      | inr new ↦ rw new (
          exists-insert_node env m t (env.hash s) j
            (node_of env s (normalize_prior priors (env.valid_actions s)) v) h)
    ]

    -- No node is lost.
    pub exists-expand :
        (j parent_id : NodeId) (a : Action) (s : S) (priors : List (Action × F)) (v : F)
        → node_exists m j ≡ true
        → node_exists (expand env parent_id a s priors v m) j ≡ true
    unfolding expand
    exists-expand j p a s priors v h =
        exists-with_node p j (set_child a (env.hash s)) (ensure_node env s priors v m)
        ∙ exists-ensure_node j s priors v h
