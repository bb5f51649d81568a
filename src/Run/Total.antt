-- ===== src/Run/Total.antt =====
-- `run` returns: no index is out of bounds, no loop is endless, and the root is in the tree.
use mcts.Prelude.{
  ℕ, zero, suc, ◌≡◌, refl, Bool, Option, none, some, List, [], ◌∷◌, length, arith, Bool-cases,
  List-cases, inl, inr, ok, index,
}
use mcts.Float.{Float, f_zero}
use mcts.Environment.{Environment, InferenceClient}
use mcts.Node.{Node, NodeId, Action}
use mcts.Mcts.{Mcts, get_node, node_exists, create_node}
use mcts.Mcts.Table.{get_node-exists}
use mcts.Priors.{normalize_prior}
use mcts.Priors.Lookup.{All-normalize_prior}
use mcts.Tree.{IsLawful, IsSound}
use mcts.Tree.Expansion.{create_node-IsSound}
use mcts.Run.{
  Batch, expand_all, blocking_infer, infer_batch, run_batches, ensure_root, search_from, run,
  num_batches,
}
use mcts.Run.Batches.{Rooted, IsReady, Rooted-expand_all, fill_batch-IsReady}

-- A client that does not fail, and gives a prior and a value for each observation.
pub record Answers {F O C : Type 0} (client : InferenceClient F O C) : Type 0 where
  pub answers :
      (c : C) (batch : List O)
      → (c' : C) × (priors : List (List (Action × F))) × (values : List F) × (client.infer c batch
          ≡ (c', some (priors, values)))
        × (length priors ≡ length batch)
        × (length values ≡ length batch)

-- A list of the length of another that is not empty.
head-ok : {A : Type 0} (xs : List A) (n : ℕ) → length xs ≡ suc n → (x : A) × (index xs 0 ≡ ok x)
head-ok [] n h = absurd (omega arith)
head-ok (x ∷ xs) n h = (x, refl)

-- The settings of a search do not bear on the invariant.
retarget :
    {F S O : Type 0} (env : Environment S O) (m : Mcts F) (root : Option NodeId)
    (noise : Option (List (Action × F))) (eps : F)
    → IsSound env m
    → IsSound env (record m { root_id = root; root_noise = noise; root_noise_epsilon = eps })
unfolding get_node node_exists
retarget env m root noise eps t = record {
  consistent = record { indexed = t.consistent.indexed; owned = t.consistent.owned };
  dense = t.dense;
  closed = t.closed;
  linked = t.linked;
}

module _ {F S O C : Type 0} ⦃fl : Float F⦄ (env : Environment S O) (law : IsLawful env)
    (value_of : S → F) (client : InferenceClient F O C) (good : Answers client) where
  blocking_infer-ok :
      (c : C) (batch : List O)
      → (c' : C) × (priors : List (List (Action × F))) × (values : List F) × (blocking_infer env
            value_of client c batch
          ≡ ok (c', priors, values))
        × (length priors ≡ length batch)
        × (length values ≡ length batch)
  unfolding blocking_infer
  blocking_infer-ok c batch =
      let (c', priors, values, e, lp, lv) = good.answers c batch in
      (c', priors, values, rw e, lp, lv)

  infer_batch-Rooted :
      (root : NodeId) (c : C) (b : Batch F S O)
      → IsReady env law root b
      → (c' : C) × (m' : Mcts F) × (infer_batch env value_of client c b ≡ ok (c', m'))
        × Rooted env law root m'
  unfolding infer_batch
  infer_batch-Rooted root c b r = elim (List-cases b.leaf_batch) [
    | inl empty ↦ (c, b.tree, rw empty, r.tree)
    | inr (o, os, some_leaf) ↦
        let (c', priors, values, e, _, _) = blocking_infer-ok c (o ∷ os) in
        (
          c',
          expand_all env b.pending priors values b.tree,
          rw (some_leaf, e),
          Rooted-expand_all env law root b.pending priors values b.tree r.pending r.tree,
        )
  ]

  run_batches-Rooted :
      (s : S) (c_puct : F) (forced : Bool) (n : ℕ) (c : C) (m : Mcts F)
      → Rooted env law (env.hash s) m
      → (c' : C) × (m' : Mcts F) × (run_batches env value_of client
            (env.hash s)
            s
            c_puct
            forced
            n
            c
            m
          ≡ ok (c', m'))
        × Rooted env law (env.hash s) m'
  unfolding run_batches
  run_batches-Rooted s c_puct forced zero c m r = (c, m, refl, r)
  run_batches-Rooted s c_puct forced (suc n) c m r =
      let empty : Batch F S O = record { tree = m; leaf_batch = []; pending = [] } in
      let (b, e, ready) =
        fill_batch-IsReady env law value_of (env.hash s) s c_puct forced m.batch_size empty refl
          (record { tree = r; pending = tt }) in
      let (c₁, m₁, e₁, r₁) = infer_batch-Rooted (env.hash s) c b ready in
      let (c₂, m₂, e₂, r₂) = run_batches-Rooted s c_puct forced n c₁ m₁ r₁ in
      (c₂, m₂, rw (e, e₁, e₂), r₂)

  ensure_root-Rooted :
      (s : S) (c : C) (m : Mcts F)
      → IsSound env m
      → (c' : C) × (m' : Mcts F) × (ensure_root env value_of client s c m ≡ ok (c', m'))
        × Rooted env law (env.hash s) m'
  unfolding ensure_root
  ensure_root-Rooted s c m t = elim (Bool-cases (node_exists m (env.hash s))) [
    | inl there ↦ (c, m, rw there, record { sound = t; root_exists = there })
    | inr new ↦ elim (Bool-cases (env.done s)) [
      | inl over ↦
          let (t', there) = create_node-IsSound env m t s [] (value_of s) new (inl over) in
          (
            c,
            create_node env s [] (value_of s) m,
            rw (new, over),
            record { sound = t'; root_exists = there },
          )
      | inr live ↦
          let (c', priors, values, e, lp, lv) = blocking_infer-ok c (env.observation s ∷ []) in
          let (p, ep) = head-ok priors 0 lp in
          let (v, ev) = head-ok values 0 lv in
          let prior = normalize_prior p (env.valid_actions s) in
          let (t', there) = create_node-IsSound env m t s prior v new (
            inr (
              All-normalize_prior (env.num_actions s) p (env.valid_actions s) (law.in_bounds s))) in
          (
            c',
            create_node env s prior v m,
            rw (new, live, e, ep, ev),
            record { sound = t'; root_exists = there },
          )
    ]
  ]

  search_from-Rooted :
      (s : S) (steps : ℕ) (c_puct : F) (forced : Bool) (c : C) (m : Mcts F)
      → Rooted env law (env.hash s) m
      → (c' : C) × (m' : Mcts F) × (search_from env value_of client s steps c_puct forced c m
          ≡ ok (c', m'))
        × Rooted env law (env.hash s) m'
        × (m'.root_noise ≡ none)
  unfolding search_from node_exists
  search_from-Rooted s steps c_puct forced c m r =
      let (c', m', e, r') =
        run_batches-Rooted s c_puct forced (num_batches steps m.batch_size) c m r in
      (
        c',
        record m' { root_noise = none; root_noise_epsilon = f_zero },
        rw e,
        record {
          sound = retarget env m' m'.root_id none f_zero r'.sound;
          root_exists = r'.root_exists;
        },
        refl,
      )

  -- From a sound tree, in a lawful environment and with a client that answers, `run` returns the
  -- root's node: no index is out of bounds, no walk exhausts its fuel, and no `unwrap` fails. The
  -- tree that it leaves is sound again, and holds that node under the hash of the root's state.
  pub run-returns :
      (s : S) (steps : ℕ) (c_puct : F) (forced : Bool) (c : C) (m : Mcts F)
      → IsSound env m
      → (c' : C) × (m' : Mcts F) × (n : Node F) × (run env value_of client s steps c_puct forced c m
          ≡ ok (c', m', n))
        × IsSound env m'
        × (get_node m' (env.hash s) ≡ some n)
  unfolding run
  run-returns s steps c_puct forced c m t =
      let t₀ = retarget env m (some (env.hash s)) m.root_noise m.root_noise_epsilon t in
      let (c₁, m₁, e₁, r₁) = ensure_root-Rooted s c (record m { root_id = some (env.hash s) }) t₀ in
      elim (Bool-cases (env.done s)) [
        | inl over ↦
            let (n, at) = get_node-exists r₁.sound.consistent (env.hash s) r₁.root_exists in
            (c₁, m₁, n, rw (e₁, over, at), r₁.sound, at)
        | inr live ↦
            let (c₂, m₂, e₂, r₂, _) = search_from-Rooted s steps c_puct forced c₁ m₁ r₁ in
            let (n, at) = get_node-exists r₂.sound.consistent (env.hash s) r₂.root_exists in
            (c₂, m₂, n, rw (e₁, live, e₂, at), r₂.sound, at)
      ]
