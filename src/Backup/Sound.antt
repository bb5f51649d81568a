-- ===== src/Backup/Sound.antt =====
-- The way back up keeps the invariant of the tree.
use mcts.Prelude.{
  ◌≡◌, ◌∙◌, refl, Bool, true, false, Option, none, some, [], ◌∷◌, reverse, length-modify,
  Option-cases, inl, inr,
}
use mcts.Float.{Float}
use mcts.Environment.{Environment}
use mcts.Node.{Node, NodeId, Action, revert_virtual_loss, apply_penalty}
use mcts.Node.Dense.{revert_virtual_loss-IsDense, apply_penalty-IsDense}
use mcts.Mcts.{Mcts, get_node, with_node, node_exists}
use mcts.Leaf.{SearchPath}
use mcts.Backup.{
  add_visit, recomputed, recompute_value, revert_losses, count_visits, penalise, backpropagate,
}
use mcts.Tree.{IsSound}
use mcts.Tree.Update.{Keeps, with_node-IsSound, exists-with_node}

-- Nothing but the counters and values of the nodes has changed.
pub record SameShape {F S O : Type 0} (env : Environment S O) (m m' : Mcts F) : Type 0 where
  pub sound : IsSound env m'
  pub exists : (j : NodeId) → node_exists m' j ≡ node_exists m j

module _ {F : Type 0} where
  pub revert_virtual_loss-Keeps : (a : Action) → Keeps (revert_virtual_loss {F = F} a)
  unfolding revert_virtual_loss
  revert_virtual_loss-Keeps a = record {
    id = λ n. refl;
    children = λ n. refl;
    dense = λ n d. revert_virtual_loss-IsDense a d;
  }

  pub add_visit-Keeps : (a : Action) → Keeps (add_visit {F = F} a)
  unfolding add_visit
  add_visit-Keeps a = record {
    id = λ n. refl;
    children = λ n. refl;
    dense = λ n d. record {
      priors = d.priors;
      slots = d.slots;
      visits = length-modify n.edge_visits a _ ∙ d.visits;
      losses = d.losses;
      penalties = d.penalties;
      valid = d.valid;
    };
  }

module _ {F : Type 0} ⦃fl : Float F⦄ where
  pub apply_penalty-Keeps : (a : Action) → Keeps (apply_penalty {F = F} a)
  unfolding apply_penalty
  apply_penalty-Keeps a = record {
    id = λ n. refl;
    children = λ n. refl;
    dense = λ n d. apply_penalty-IsDense a d;
  }

  pub recomputed-Keeps : (m : Mcts F) (parent : Node F) → Keeps (recomputed m parent)
  unfolding recomputed
  recomputed-Keeps m parent = record {
    id = λ n. refl;
    children = λ n. refl;
    dense = λ n d. record {
      priors = d.priors;
      slots = d.slots;
      visits = d.visits;
      losses = d.losses;
      penalties = d.penalties;
      valid = d.valid;
    };
  }

  module _ {S O : Type 0} (env : Environment S O) where
    keep :
        (m : Mcts F) (id : NodeId) {f : Node F → Node F}
        → IsSound env m
        → Keeps f
        → SameShape env m (with_node id f m)
    keep m id {f} t k = record {
      sound = with_node-IsSound env m t id f k;
      exists = λ j. exists-with_node id j f m;
    }

    SameShape-trans : {a b c : Mcts F} → SameShape env a b → SameShape env b c → SameShape env a c
    SameShape-trans p q = record { sound = q.sound; exists = λ j. q.exists j ∙ p.exists j }

    recompute_value-SameShape :
        (id : NodeId) (m : Mcts F) → IsSound env m → SameShape env m (recompute_value id m)
    unfolding recompute_value
    recompute_value-SameShape id m t = elim (Option-cases (get_node m id)) [
      | inl gone ↦ rw (gone, recompute_value) (record { sound = t; exists = λ j. refl })
      | inr (parent, at) ↦ rw (at, recompute_value) (keep m id t (recomputed-Keeps m parent))
    ]

    revert_losses-SameShape :
        (path : SearchPath) (m : Mcts F) → IsSound env m → SameShape env m (revert_losses path m)
    unfolding revert_losses
    revert_losses-SameShape [] m t = record { sound = t; exists = λ j. refl }
    revert_losses-SameShape ((id, a) ∷ path) m t =
        let k = keep m id t (revert_virtual_loss-Keeps a) in
        SameShape-trans k (revert_losses-SameShape path _ k.sound)

    count_visits-SameShape :
        (path : SearchPath) (m : Mcts F) → IsSound env m → SameShape env m (count_visits path m)
    unfolding count_visits
    count_visits-SameShape [] m t = record { sound = t; exists = λ j. refl }
    count_visits-SameShape ((id, a) ∷ path) m t =
        let k = keep m id t (add_visit-Keeps a) in
        let r = recompute_value-SameShape id (with_node id (add_visit a) m) k.sound in
        SameShape-trans (SameShape-trans k r) (count_visits-SameShape path _ r.sound)

    penalise-SameShape :
        (repeat : Bool) (last : Option (NodeId × Action)) (m : Mcts F)
        → IsSound env m
        → SameShape env m (penalise repeat last m)
    unfolding penalise
    penalise-SameShape true (some (id, a)) m t = keep m id t (apply_penalty-Keeps a)
    penalise-SameShape true none m t = record { sound = t; exists = λ j. refl }
    penalise-SameShape false last m t = record { sound = t; exists = λ j. refl }

    -- Backing up a path keeps the invariant of a sound tree, and the set of its nodes.
    pub backpropagate-SameShape :
        (path : SearchPath) (repeat : Bool) (m : Mcts F)
        → IsSound env m
        → SameShape env m (backpropagate path repeat m)
    unfolding backpropagate
    backpropagate-SameShape path repeat m t =
        let a = revert_losses-SameShape (reverse path) m t in
        let b = penalise-SameShape repeat _ (revert_losses (reverse path) m) a.sound in
        let c = count_visits-SameShape (reverse path) _ b.sound in
        SameShape-trans (SameShape-trans a b) c
