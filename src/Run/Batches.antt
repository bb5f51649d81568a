-- ===== src/Run/Batches.antt =====
-- A batch of playouts keeps the tree's invariant, and each leaf put aside has its parent.
use mcts.Prelude.{
  ℕ, zero, suc, ◌≡◌, ◌∙◌, refl, Bool, true, false, ◌||◌, Option, none, some, List, [], ◌∷◌, ◌++◌,
  Bool-cases, inl, inr, ok, All,
}
use mcts.Float.{Float}
use mcts.Environment.{Environment}
use mcts.Node.{NodeId, Action}
use mcts.Mcts.{Mcts, node_exists}
use mcts.Leaf.{Walk}
use mcts.Leaf.Steps.{Came}
use mcts.Leaf.Ends.{select_leaf-returns}
use mcts.Expand.{expand}
use mcts.Backup.{backpropagate}
use mcts.Backup.Sound.{backpropagate-SameShape}
use mcts.Tree.{IsLawful, IsSound}
use mcts.Tree.Expansion.{expand-IsSound, exists-expand}
use mcts.Run.{
  PendingInference, Batch, settle, put_aside, add_leaf, add_playout, fill_batch, expand_all,
}

-- The leaf's game is where the action leads from a state of the parent.
abbrev pub HasParent : {S O : Type 0} → Environment S O → PendingInference S → Type 0
HasParent env p = Came env (some p.parent_id) (some p.action) p.game

module _ {F S O : Type 0} ⦃fl : Float F⦄ (env : Environment S O) (law : IsLawful env) where
  -- A sound tree that holds the root.
  pub record Rooted (root : NodeId) (m : Mcts F) : Type 0 where
    pub sound : IsSound env m
    pub root_exists : node_exists m root ≡ true

  pub record IsReady (root : NodeId) (b : Batch F S O) : Type 0 where
    pub tree : Rooted root b.tree
    pub pending : All (HasParent env) b.pending

  Rooted-backpropagate :
      (root : NodeId) (path : List (NodeId × Action)) (repeat : Bool) (m : Mcts F)
      → Rooted root m
      → Rooted root (backpropagate path repeat m)
  Rooted-backpropagate root path repeat m r =
      let shape = backpropagate-SameShape env path repeat m r.sound in
      record { sound = shape.sound; root_exists = shape.exists root ∙ r.root_exists }

  pub Rooted-expand :
      (root p : NodeId) (a : Action) (s : S) (priors : List (Action × F)) (v : F) (m : Mcts F)
      → Rooted root m
      → Came env (some p) (some a) s
      → Rooted root (expand env p a s priors v m)
  Rooted-expand root p a s priors v m r (s₀, here, moved) = record {
    sound = expand-IsSound env m r.sound p a s s₀ priors v law here (rw moved);
    root_exists = exists-expand env m r.sound root p a s priors v r.root_exists;
  }

  pub Rooted-expand_all :
      (root : NodeId) (pending : List (PendingInference S)) (priors : List (List (Action × F)))
      (values : List F) (m : Mcts F)
      → All (HasParent env) pending
      → Rooted root m
      → Rooted root (expand_all env pending priors values m)
  unfolding expand_all
  Rooted-expand_all root (p ∷ pending) (pr ∷ priors) (v ∷ values) m h r =
      Rooted-expand_all root pending priors values _ h.1 (
        Rooted-backpropagate root p.path false _
          (Rooted-expand root p.parent_id p.action p.game pr v m r h.0))
  Rooted-expand_all root [] priors values m h r = r
  Rooted-expand_all root (p ∷ pending) [] values m h r = r
  Rooted-expand_all root (p ∷ pending) (pr ∷ priors) [] m h r = r

  module _ (value_of : S → F) (root : NodeId) where
    settle-Rooted :
        (p : NodeId) (a : Action) (w : Walk F S)
        → Rooted root w.tree
        → Came env (some p) (some a) w.game
        → Rooted root (settle env value_of p a w)
    unfolding settle
    settle-Rooted p a w r came = elim (Bool-cases w.repeat_detected) [
      | inl again ↦ rw again (Rooted-backpropagate root w.path true w.tree r)
      | inr new ↦ rw new (
          Rooted-backpropagate root w.path false _
            (Rooted-expand root p a w.game [] (value_of w.game) w.tree r came))
    ]

    All-concat :
        (ps : List (PendingInference S)) (p : PendingInference S)
        → All (HasParent env) ps
        → HasParent env p
        → All (HasParent env) (ps ++ (p ∷ []))
    All-concat [] p hs h = (h, tt)
    All-concat (q ∷ ps) p hs h = (hs.0, All-concat ps p hs.1 h)

    add_leaf-IsReady :
        (parent : Option NodeId) (action : Option Action) (b : Batch F S O) (w : Walk F S)
        → All (HasParent env) b.pending
        → Rooted root w.tree
        → Came env parent action w.game
        → IsReady root (add_leaf env value_of parent action b w)
    unfolding add_leaf put_aside
    add_leaf-IsReady (some p) (some a) b w hs r came =
        elim (Bool-cases (w.repeat_detected || env.done w.game)) [
          | inl at_once ↦ rw at_once (record { tree = settle-Rooted p a w r came; pending = hs })
          | inr later ↦ rw later (record { tree = r; pending = All-concat b.pending _ hs came })
        ]
    add_leaf-IsReady none action b w hs r came = record { tree = r; pending = hs }
    add_leaf-IsReady (some p) none b w hs r came = record { tree = r; pending = hs }

    -- A whole batch of selections returns, and is ready for its inference.
    pub fill_batch-IsReady :
        (s : S) (c_puct : F) (forced : Bool) (n : ℕ) (b : Batch F S O)
        → env.hash s ≡ root
        → IsReady root b
        → (b' : Batch F S O) × (fill_batch env value_of root s c_puct forced n b ≡ ok b')
          × IsReady root b'
    unfolding fill_batch add_playout
    fill_batch-IsReady s c_puct forced zero b here r = (b, refl, r)
    fill_batch-IsReady s c_puct forced (suc n) b here r =
        let (w, e, f) = select_leaf-returns env b.tree root s c_puct forced r.tree.sound here in
        let rooted : Rooted root w.tree = record {
          sound = f.sound;
          root_exists = f.exists root ∙ r.tree.root_exists;
        } in
        let ready = add_leaf-IsReady w.parent w.action b w r.pending rooted f.came in
        let (b', e', ready') = fill_batch-IsReady s c_puct forced n _ here ready in
        (b', rw (e, e'), ready')
