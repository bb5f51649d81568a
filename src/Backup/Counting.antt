-- ===== src/Backup/Counting.antt =====
-- What `backpropagate` does to the visits and virtual losses of an edge.
use mcts.Prelude.{
  ℕ, ◌+◌, ◌-◌, ◌<◌, ◌^◌, ◌≡◌, ◌∙◌, refl, ap, Bool, true, false, ◌&&◌, Option, none, some, [], ◌∷◌,
  reverse, length, get_or, length-modify, last?, ◌==◌, if◌then◌else◌, arith, Option-cases, inl, inr,
  add_usize,
}
use mcts.Float.{Float}
use mcts.Node.{Node, NodeId, Action, revert_virtual_loss, apply_penalty}
use mcts.Mcts.{Mcts, get_node, with_node}
use mcts.Mcts.Table.{IsConsistent, with_node-IsConsistent}
use mcts.Leaf.{SearchPath}
use mcts.Backup.{
  add_visit, recomputed, recompute_value, revert_losses, count_visits, penalise, backpropagate,
}
use mcts.Backup.Sound.{
  add_visit-Keeps, recomputed-Keeps, revert_virtual_loss-Keeps, apply_penalty-Keeps,
}
use mcts.Backup.Counters.{
  times, times-reverse, read, read-with_node, read-same, losses, visits, slots, losses-revert,
  get_or-add,
}

module _ {F : Type 0} ⦃fl : Float F⦄ where
  -- A reading that no value or penalty bears on.
  record IsCount (g : Node F → ℕ) : Type 0 where
    recomputes : (m : Mcts F) (p n : Node F) → g (recomputed m p n) ≡ g n
    penalises : (a : Action) (n : Node F) → g (apply_penalty a n) ≡ g n

  IsConsistent-recompute :
      (id : NodeId) (m : Mcts F) → IsConsistent m → IsConsistent (recompute_value id m)
  unfolding recompute_value
  IsConsistent-recompute id m c = elim (Option-cases (get_node m id)) [
    | inl gone ↦ rw (gone, recompute_value) c
    | inr (p, at) ↦
        rw (at, recompute_value)
          (with_node-IsConsistent c id (recomputed m p) (recomputed-Keeps m p).id)
  ]

  read-recompute :
      (g : Node F → ℕ) (m : Mcts F) (j id : NodeId)
      → IsConsistent m
      → IsCount g
      → read g (recompute_value j m) id ≡ read g m id
  unfolding recompute_value
  read-recompute g m j id c k = elim (Option-cases (get_node m j)) [
    | inl gone ↦ rw (gone, recompute_value)
    | inr (p, at) ↦
        rw (at, recompute_value) (read-same g m j id (recomputed m p) c (k.recomputes m p))
  ]

  read-penalise :
      (g : Node F → ℕ) (m : Mcts F) (repeat : Bool) (last : Option (NodeId × Action)) (id : NodeId)
      → IsConsistent m
      → IsCount g
      → (read g (penalise repeat last m) id ≡ read g m id) × IsConsistent (penalise repeat last m)
  unfolding penalise
  read-penalise g m true (some (j, a)) id c k = (
    read-same g m j id (apply_penalty a) c (k.penalises a),
    with_node-IsConsistent c j (apply_penalty a) (apply_penalty-Keeps a).id,
  )
  read-penalise g m true none id c k = (refl, c)
  read-penalise g m false last id c k = (refl, c)

  -- The first loop takes one virtual loss for each time that the edge is on the path.
  losses-revert_losses :
      (path : SearchPath) (m : Mcts F) (id : NodeId) (a : Action)
      → IsConsistent m
      → (losses (revert_losses path m) id a ≡ losses m id a - times id a path)
        × IsConsistent (revert_losses path m)
  unfolding revert_losses times
  losses-revert_losses [] m id a c = (omega arith, c)
  losses-revert_losses ((j, b) ∷ path) m id a c =
      let c' =
        with_node-IsConsistent c j (revert_virtual_loss b) (revert_virtual_loss-Keeps b).id in
      let (e, c₂) = losses-revert_losses path (with_node j (revert_virtual_loss b) m) id a c' in
      (omega (arith, e, losses-revert m j id b a c), c₂)

  read-revert_losses :
      (g : Node F → ℕ) (path : SearchPath) (m : Mcts F) (id : NodeId)
      → IsConsistent m
      → ((a : Action) (n : Node F) → g (revert_virtual_loss a n) ≡ g n)
      → read g (revert_losses path m) id ≡ read g m id
  unfolding revert_losses
  read-revert_losses g [] m id c k = refl
  read-revert_losses g ((j, b) ∷ path) m id c k =
      let c' =
        with_node-IsConsistent c j (revert_virtual_loss b) (revert_virtual_loss-Keeps b).id in
      read-revert_losses g path _ id c' k ∙ read-same g m j id (revert_virtual_loss b) c (k b)

  -- The last loop does not touch the virtual losses.
  read-count_visits :
      (g : Node F → ℕ) (path : SearchPath) (m : Mcts F) (id : NodeId)
      → IsConsistent m
      → IsCount g
      → ((a : Action) (n : Node F) → g (add_visit a n) ≡ g n)
      → read g (count_visits path m) id ≡ read g m id
  unfolding count_visits
  read-count_visits g [] m id c k v = refl
  read-count_visits g ((j, b) ∷ path) m id c k v =
      let c' = with_node-IsConsistent c j (add_visit b) (add_visit-Keeps b).id in
      let m' = with_node j (add_visit b) m in
      read-count_visits g path (recompute_value j m') id (IsConsistent-recompute j m' c') k v
      ∙ read-recompute g m' j id c' k
      ∙ read-same g m j id (add_visit b) c (v b)

  losses-IsCount : (a : Action) → IsCount (λ n. get_or n.virtual_losses a 0)
  unfolding recomputed apply_penalty
  losses-IsCount a = record { recomputes = λ m p n. refl; penalises = λ b n. refl }

  visits-IsCount : (a : Action) → IsCount (λ n. get_or n.edge_visits a 0)
  unfolding recomputed apply_penalty
  visits-IsCount a = record { recomputes = λ m p n. refl; penalises = λ b n. refl }

  slots-IsCount : IsCount (λ n. length n.edge_visits)
  unfolding recomputed apply_penalty
  slots-IsCount = record { recomputes = λ m p n. refl; penalises = λ b n. refl }

  -- Where table and arena agree, backing up a path takes one virtual loss from an edge for each
  -- time that it is on the path, down to 0, and none from any other edge.
  pub losses-backpropagate :
      (path : SearchPath) (repeat : Bool) (m : Mcts F) (id : NodeId) (a : Action)
      → IsConsistent m
      → losses (backpropagate path repeat m) id a ≡ losses m id a - times id a path
  unfolding backpropagate add_visit
  losses-backpropagate path repeat m id a c =
      let g = λ (n : Node F). get_or n.virtual_losses a 0 in
      let (e₁, c₁) = losses-revert_losses (reverse path) m id a c in
      let m₁ = revert_losses (reverse path) m in
      let (e₂, c₂) = read-penalise g m₁ repeat (last? path) id c₁ (losses-IsCount a) in
      read-count_visits g (reverse path) (penalise repeat (last? path) m₁) id c₂ (losses-IsCount a)
        (λ b n. refl)
      ∙ e₂
      ∙ e₁
      ∙ ap (λ k. losses m id a - k) (times-reverse id a path)

  visits-add :
      (m : Mcts F) (j id : NodeId) (b a : Action)
      → IsConsistent m
      → a < slots m id
      → visits m id a + 1 < 2 ^ 64
      → visits (with_node j (add_visit b) m) id a
        ≡ visits m id a + (if j == id && b == a then 1 else 0)
  unfolding add_visit read
  visits-add m j id b a c h s = elim (Option-cases (get_node m id)) [
    | inl gone ↦ absurd (ground arith)
    | inr (n, at) ↦ ground (
      arith,
      read-with_node (λ n. get_or n.edge_visits a 0) m j id (add_visit b) c,
      get_or-add n.edge_visits b a,
    )
  ]

  visits-count_visits :
      (path : SearchPath) (m : Mcts F) (id : NodeId) (a : Action)
      → IsConsistent m
      → a < slots m id
      → visits m id a + times id a path + 1 < 2 ^ 64
      → visits (count_visits path m) id a ≡ visits m id a + times id a path
  unfolding count_visits times
  visits-count_visits [] m id a c h s = omega arith
  visits-count_visits ((j, b) ∷ path) m id a c h s =
      let c' = with_node-IsConsistent c j (add_visit b) (add_visit-Keeps b).id in
      let m' = with_node j (add_visit b) m in
      let m₂ = recompute_value j m' in
      let e₁ = visits-add m j id b a c h (omega arith) in
      let e₂ = read-recompute (λ n. get_or n.edge_visits a 0) m' j id c' (visits-IsCount a) in
      let l₁ = read-same (λ n. length n.edge_visits) m j id (add_visit b) c (add_visit-slots b) in
      let l₂ = read-recompute (λ n. length n.edge_visits) m' j id c' slots-IsCount in
      let e₃ =
        visits-count_visits path m₂ id a (IsConsistent-recompute j m' c') (omega (arith, l₁, l₂, h))
          (omega (arith, e₁, e₂, s)) in
      omega (arith, e₁, e₂, e₃)
    where
      add_visit-slots :
          (x : Action) (n : Node F) → length (add_visit x n).edge_visits ≡ length n.edge_visits
      add_visit-slots x n = unfold add_visit in length-modify n.edge_visits x (λ v. add_usize v 1)

  -- Where table and arena agree, backing up a path counts one visit of an edge for each time that
  -- it is on the path, if the edge has a slot and its counter does not wrap.
  pub visits-backpropagate :
      (path : SearchPath) (repeat : Bool) (m : Mcts F) (id : NodeId) (a : Action)
      → IsConsistent m
      → a < slots m id
      → visits m id a + times id a path + 1 < 2 ^ 64
      → visits (backpropagate path repeat m) id a ≡ visits m id a + times id a path
  unfolding backpropagate revert_virtual_loss
  visits-backpropagate path repeat m id a c h s =
      let g = λ (n : Node F). get_or n.edge_visits a 0 in
      let g' = λ (n : Node F). length n.edge_visits in
      let m₁ = revert_losses (reverse path) m in
      let c₁ = (losses-revert_losses (reverse path) m id a c).1 in
      let e₁ = read-revert_losses g (reverse path) m id c (λ b n. refl) in
      let l₁ = read-revert_losses g' (reverse path) m id c (λ b n. refl) in
      let (e₂, c₂) = read-penalise g m₁ repeat (last? path) id c₁ (visits-IsCount a) in
      let (l₂, _) = read-penalise g' m₁ repeat (last? path) id c₁ slots-IsCount in
      let t = times-reverse id a path in
      let e₃ =
        visits-count_visits (reverse path) (penalise repeat (last? path) m₁) id a c₂
          (omega (arith, l₁, l₂, h)) (omega (arith, e₁, e₂, t, s)) in
      omega (arith, e₁, e₂, e₃, t)
