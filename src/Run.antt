-- ===== src/Run.antt =====
-- mcts-core/src/mcts.rs, `run`: batches of playouts, inferred together and then backed up.
pub mod Batches
pub mod Total
use mcts.Prelude.{
  ℕ, zero, suc, ◌+◌, ◌-◌, ◌/◌, ◌%◌, ◌^◌, max, Bool, true, false, ◌||◌, Option, none, some, List, [],
  ◌∷◌, ◌++◌, if◌then◌else◌, add_usize, Exec, ok, ◌>>=◌, index, expect,
}
use mcts.Float.{Float, f_zero}
use mcts.Environment.{Environment, InferenceClient}
use mcts.Node.{Node, NodeId, Action}
use mcts.Mcts.{Mcts, get_node, node_exists, create_node}
use mcts.Priors.{normalize_prior}
use mcts.Leaf.{Walk, SearchPath, select_leaf}
use mcts.Expand.{expand}
use mcts.Backup.{backpropagate}

-- `struct PendingInference`
pub record PendingInference (S : Type 0) : Type 0 where
  pub path : SearchPath
  pub parent_id : NodeId
  pub action : Action
  pub game : S

-- The tree, and what the selection has put aside for inference.
pub record Batch (F S O : Type 0) : Type 0 where
  pub tree : Mcts F
  pub leaf_batch : List O
  pub pending : List (PendingInference S)

-- `(num_steps + batch_size - 1) / batch_size.max(1)`: both operations wrap.
unfoldable pub num_batches : ℕ → ℕ → ℕ
num_batches num_steps batch_size =
    (add_usize num_steps batch_size + 2 ^ 64 - 1) % 2 ^ 64 / max batch_size 1

module _ {F S O : Type 0} ⦃fl : Float F⦄ (env : Environment S O) where
  -- The loop over the first `n` results, `n` being the length of the shortest list.
  unfoldable pub expand_all :
      List (PendingInference S) → List (List (Action × F)) → List F → Mcts F → Mcts F
  expand_all (p ∷ pending) (priors ∷ prior_batch) (value ∷ value_batch) m =
      expand_all pending prior_batch value_batch
        (backpropagate p.path false (expand env p.parent_id p.action p.game priors value m))
  expand_all pending prior_batch value_batch m = m

module _ {F S O : Type 0} ⦃fl : Float F⦄ (env : Environment S O) (terminal_evaluator : S → F) where
  -- A playout that ends in a repeat or a terminal state is backed up at once.
  unfoldable pub settle : NodeId → Action → Walk F S → Mcts F
  settle parent_id action w = backpropagate w.path w.repeat_detected (
      if w.repeat_detected
      then w.tree
      else expand env parent_id action w.game [] (terminal_evaluator w.game) w.tree)

  -- What one playout adds to the batch.
  unfoldable pub put_aside : NodeId → Action → Batch F S O → Walk F S → Batch F S O
  put_aside parent_id action b w = record {
    tree = w.tree;
    leaf_batch = b.leaf_batch ++ (env.observation w.game ∷ []);
    pending =
        b.pending
        ++ (record { path = w.path; parent_id = parent_id; action = action; game = w.game } ∷ []);
  }

  -- A walk with no action or no parent adds nothing but the tree that it has marked.
  unfoldable pub add_leaf : Option NodeId → Option Action → Batch F S O → Walk F S → Batch F S O
  add_leaf (some parent_id) (some action) b w =
      if w.repeat_detected || env.done w.game
      then record b { tree = settle parent_id action w }
      else put_aside parent_id action b w
  add_leaf parent action b w = record b { tree = w.tree }

  unfoldable pub add_playout : Batch F S O → Walk F S → Batch F S O
  add_playout b w = add_leaf w.parent w.action b w

  unfoldable pub fill_batch : NodeId → S → F → Bool → ℕ → Batch F S O → Exec (Batch F S O)
  fill_batch root_hash s c_puct forced zero b = ok b
  fill_batch root_hash s c_puct forced (suc n) b = do
    w ← select_leaf env b.tree root_hash s c_puct forced
    fill_batch root_hash s c_puct forced n (add_playout b w)

  module _ {C : Type 0} (client : InferenceClient F O C) where
    -- `blocking_infer`: an error of the client is a panic.
    unfoldable pub blocking_infer : C → List O → Exec (C × List (List (Action × F)) × List F)
    blocking_infer c batch = do
      let (c', answer) = client.infer c batch
      r ← expect answer
      ok (c', r.0, r.1)

    unfoldable pub infer_batch : C → Batch F S O → Exec (C × Mcts F)
    infer_batch c b = elim b.leaf_batch [
      | [] ↦ ok (c, b.tree)
      | _ ∷ _ ↦ do
        r ← blocking_infer c b.leaf_batch
        ok (r.0, expand_all env b.pending r.1 r.2 b.tree)
    ]

    unfoldable pub run_batches : NodeId → S → F → Bool → ℕ → C → Mcts F → Exec (C × Mcts F)
    run_batches root_hash s c_puct forced zero c m = ok (c, m)
    run_batches root_hash s c_puct forced (suc n) c m = do
      b ←
          fill_batch root_hash s c_puct forced m.batch_size
            (record { tree = m; leaf_batch = []; pending = [] })
      (c', m') ← infer_batch c b
      run_batches root_hash s c_puct forced n c' m'

    -- The root's node, unless it is there.
    unfoldable pub ensure_root : S → C → Mcts F → Exec (C × Mcts F)
    ensure_root s c m =
        if node_exists m (env.hash s)
        then ok (c, m)
        else if env.done s
        then ok (c, create_node env s [] (terminal_evaluator s) m)
        else (do
          r ← blocking_infer c (env.observation s ∷ [])
          p ← index r.1 0
          v ← index r.2 0
          ok (r.0, create_node env s (normalize_prior p (env.valid_actions s)) v m))

    -- The search proper, and the clearing of the noise after it.
    unfoldable pub search_from : S → ℕ → F → Bool → C → Mcts F → Exec (C × Mcts F)
    search_from s num_steps c_puct forced c m = do
      (c', m') ← run_batches (env.hash s) s c_puct forced (num_batches num_steps m.batch_size) c m
      ok (c', record m' { root_noise = none; root_noise_epsilon = f_zero })

    unfoldable pub run : S → ℕ → F → Bool → C → Mcts F → Exec (C × Mcts F × Node F)
    run s num_steps c_puct forced c m = do
      (c₁, m₁) ← ensure_root s c (record m { root_id = some (env.hash s) })
      (c₂, m₂) ← if env.done s then ok (c₁, m₁) else search_from s num_steps c_puct forced c₁ m₁
      node ← expect (get_node m₂ (env.hash s))
      ok (c₂, m₂, node)
