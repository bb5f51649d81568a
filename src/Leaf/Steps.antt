-- ===== src/Leaf/Steps.antt =====
-- What a round of `select_leaf` keeps, and where it goes.
use mcts.Prelude.{
  ℕ, ◌<◌, ◌≡◌, ◌∙◌, refl, sym, ap, false, Option, some, [], ◌∷◌, ◌++◌, ◌==◌, ==_self, arith,
  Option-cases, inl, inr,
}
use mcts.Float.{Float}
use mcts.Environment.{Environment}
use mcts.Node.{Node, NodeId, Action, add_virtual_loss}
use mcts.Node.Dense.{add_virtual_loss-IsDense}
use mcts.Mcts.{Mcts, get_node, with_node, node_exists}
use mcts.Mcts.Table.{IsConsistent, get_node-with_node, id-get_node}
use mcts.Puct.{child_at}
use mcts.Leaf.{
  SearchPath, Walk, Next, again, stop, check_state_repeat, mark_and_step, follow, descend,
}
use mcts.Tree.{IsSound}
use mcts.Tree.Update.{Keeps, with_node-IsSound, exists-with_node, child_at-eq}
use mcts.Tree.Measure.{weight, weight_drop, weight-modify, any-append}

add_virtual_loss-Keeps : {F : Type 0} (a : Action) → Keeps (add_virtual_loss {F = F} a)
unfolding add_virtual_loss
add_virtual_loss-Keeps a = record {
  id = λ n. refl;
  children = λ n. refl;
  dense = λ n d. add_virtual_loss-IsDense a d;
}

-- The tree with a virtual loss on each edge of a path, in the path's order.
unfoldable pub mark : {F : Type 0} → SearchPath → Mcts F → Mcts F
mark [] m = m
mark ((id, a) ∷ path) m = mark path (with_node id (add_virtual_loss a) m)

mark-concat :
    {F : Type 0} (path : SearchPath) (id : NodeId) (a : Action) (m : Mcts F)
    → mark (path ++ ((id, a) ∷ [])) m ≡ with_node id (add_virtual_loss a) (mark path m)
unfolding mark
mark-concat [] id a m = refl
mark-concat ((j, b) ∷ path) id a m = mark-concat path id a (with_node j (add_virtual_loss b) m)

-- Where a walk has come from: its last move led from a state of the parent.
abbrev pub Came : {S O : Type 0} → Environment S O → Option NodeId → Option Action → S → Type 0
Came {S} env (some p) (some a) game = (s : S) × (env.hash s ≡ p) × (game ≡ env.step a s)
Came env parent action game = Unit

-- What every walk from the tree `m` keeps.
pub record FromTree {F S O : Type 0} (env : Environment S O) (m : Mcts F) (w : Walk F S)
    : Type 0 where
  pub sound : IsSound env w.tree
  pub exists : (j : NodeId) → node_exists w.tree j ≡ node_exists m j
  pub came : Came env w.parent w.action w.game
  pub marked : w.tree ≡ mark w.path m

-- The part of the arena that is not on the path.
abbrev pub room : {F S : Type 0} → Walk F S → ℕ
room v = weight (λ j. check_state_repeat j v.path) (λ _. 1) v.tree.nodes

module _ {F S O : Type 0} ⦃fl : Float F⦄ (env : Environment S O) (m : Mcts F) (w : Walk F S) where
  mark_and_step-FromTree :
      (a : Action)
      → FromTree env m w
      → env.hash w.game ≡ w.node_id
      → FromTree env m (mark_and_step env w a)
  unfolding mark_and_step
  mark_and_step-FromTree a f here = record {
    sound =
        with_node-IsSound env w.tree f.sound w.node_id (add_virtual_loss a)
          (add_virtual_loss-Keeps a);
    exists = λ j. exists-with_node w.node_id j (add_virtual_loss a) w.tree ∙ f.exists j;
    came = (w.game, here, refl);
    marked =
        ap (with_node w.node_id (add_virtual_loss a)) f.marked
        ∙ sym (mark-concat w.path w.node_id a m);
  }

  -- A walk that goes on stands at the node of its game, with less of the arena before it.
  abbrev pub Goes : Next → Walk F S → Type 0
  Goes stop v = Unit
  Goes again v = (env.hash v.game ≡ v.node_id) × (room v < room w)

  room-mark_and_step :
      (a : Action) (n : Node F)
      → IsConsistent w.tree
      → get_node w.tree w.node_id ≡ some n
      → check_state_repeat w.node_id w.path ≡ false
      → room (mark_and_step env w a) < room w
  unfolding mark_and_step check_state_repeat with_node get_node
  room-mark_and_step a n c at new = elim (Option-cases (w.tree.transposition_table w.node_id)) [
    | inl e ↦ absurd (ground arith)
    | inr (i, e) ↦
        let id_n = id-get_node c w.node_id n at in
        let seen = λ (j : NodeId). check_state_repeat j w.path in
        let seen' = λ (j : NodeId). check_state_repeat j (w.path ++ ((w.node_id, a) ∷ [])) in
        let same =
          weight-modify seen' (λ _. 1) w.tree.nodes i (add_virtual_loss a)
            (add_virtual_loss-Keeps a).id (λ _. refl) in
        let drop =
          weight_drop seen seen' (λ _. 1) w.tree.nodes i n
            (λ j.
              ground (
                arith,
                any-append (λ (e : NodeId × Action). e.0 == j) w.path ((w.node_id, a) ∷ []),
              ))
            (ground arith) (rw id_n new) in
        rw (e, with_node) (omega (arith, same, drop))
  ]

  -- The parent's node, after its virtual loss.
  found :
      (a : Action) (n : Node F)
      → IsConsistent w.tree
      → get_node w.tree w.node_id ≡ some n
      → get_node (mark_and_step env w a).tree w.node_id ≡ some (add_virtual_loss a n)
  unfolding mark_and_step
  found a n c at =
      ground
        (arith, get_node-with_node c w.node_id w.node_id (add_virtual_loss a), ==_self w.node_id)

  pub descend-Goes :
      (a : Action) (n : Node F)
      → FromTree env m w
      → env.hash w.game ≡ w.node_id
      → get_node w.tree w.node_id ≡ some n
      → check_state_repeat w.node_id w.path ≡ false
      → (v : Walk F S) × (next : Next) × (descend env w a ≡ (v, next))
        × FromTree env m v
        × Goes next v
  unfolding descend follow
  descend-Goes a n f here at new =
      let c = f.sound.consistent in
      let v = mark_and_step env w a in
      let f' = mark_and_step-FromTree a f here in
      let less = room-mark_and_step a n c at new in
      let same = child_at-eq (add_virtual_loss a n) n a ((add_virtual_loss-Keeps a).children n) in
      elim (Option-cases (child_at n a)) [
        | inl leaf ↦ (v, stop, rw (found a n c at, descend, same, leaf), f', tt)
        | inr (cid, edge) ↦ (
          record v { node_id = cid },
          again,
          rw (found a n c at, descend, same, edge),
          record { sound = f'.sound; exists = f'.exists; came = f'.came; marked = f'.marked },
          (unfold mark_and_step in f.sound.linked w.node_id cid a n w.game at edge here, less),
        )
      ]
