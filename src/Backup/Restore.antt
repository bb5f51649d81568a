-- ===== src/Backup/Restore.antt =====
-- The virtual losses that a selection puts on its path are gone once the path is backed up.
use mcts.Prelude.{
  ℕ, zero, suc, ◌+◌, ◌-◌, ◌<◌, ◌^◌, ◌≡◌, ◌∙◌, refl, sym, ap, subst, Bool, false, ◌&&◌, List, [],
  ◌∷◌, length, get_or, length-modify, ◌==◌, ltb, ltb→lt, if◌then◌else◌, arith, Bool-cases,
  Option-cases, inl, inr, ok, add_usize,
}
use mcts.Float.{Float}
use mcts.Environment.{Environment}
use mcts.Node.{Node, NodeId, Action, add_virtual_loss}
use mcts.Mcts.{Mcts, get_node, with_node}
use mcts.Mcts.Table.{IsConsistent, with_node-IsConsistent}
use mcts.Leaf.{SearchPath, Walk, select_leaf}
use mcts.Leaf.Steps.{FromTree, mark}
use mcts.Leaf.Ends.{select_leaf-returns}
use mcts.Backup.{backpropagate}
use mcts.Backup.Counters.{times, read, read-with_node, read-same, losses, get_or-add}
use mcts.Backup.Counting.{losses-backpropagate}
use mcts.Tree.{IsSound}

get_or-past : (xs : List ℕ) (i : ℕ) → ltb i (length xs) ≡ false → get_or xs i 0 ≡ 0
get_or-past [] i h = refl
get_or-past (x ∷ xs) zero h = absurd (ground arith)
get_or-past (x ∷ xs) (suc i) h = get_or-past xs i (ground arith)

module _ {F : Type 0} where
  abbrev loss_slots : Mcts F → NodeId → ℕ
  loss_slots m id = read (λ n. length n.virtual_losses) m id

  id-add_virtual_loss : (b : Action) (n : Node F) → (add_virtual_loss b n).id ≡ n.id
  unfolding add_virtual_loss
  id-add_virtual_loss b n = refl

  loss_slots-add :
      (m : Mcts F) (j id : NodeId) (b : Action)
      → IsConsistent m
      → loss_slots (with_node j (add_virtual_loss b) m) id ≡ loss_slots m id
  unfolding add_virtual_loss
  loss_slots-add m j id b c =
      read-same (λ n. length n.virtual_losses) m j id (add_virtual_loss b) c
        (λ n. length-modify n.virtual_losses b (λ v. add_usize v 1))

  losses-add :
      (m : Mcts F) (j id : NodeId) (b a : Action)
      → IsConsistent m
      → a < loss_slots m id
      → losses m id a + 1 < 2 ^ 64
      → losses (with_node j (add_virtual_loss b) m) id a
        ≡ losses m id a + (if j == id && b == a then 1 else 0)
  unfolding add_virtual_loss read
  losses-add m j id b a c h s = elim (Option-cases (get_node m id)) [
    | inl gone ↦ absurd (ground arith)
    | inr (n, at) ↦ ground (
      arith,
      read-with_node (λ n. get_or n.virtual_losses a 0) m j id (add_virtual_loss b) c,
      get_or-add n.virtual_losses b a,
    )
  ]

  losses-mark :
      (path : SearchPath) (m : Mcts F) (id : NodeId) (a : Action)
      → IsConsistent m
      → a < loss_slots m id
      → losses m id a + times id a path + 1 < 2 ^ 64
      → losses (mark path m) id a ≡ losses m id a + times id a path
  unfolding mark times
  losses-mark [] m id a c h s = omega arith
  losses-mark ((j, b) ∷ path) m id a c h s =
      let c' = with_node-IsConsistent c j (add_virtual_loss b) (id-add_virtual_loss b) in
      let l = loss_slots-add m j id b c in
      let e = losses-add m j id b a c h (omega arith) in
      let e' =
        losses-mark path (with_node j (add_virtual_loss b) m) id a c' (omega (arith, l, h))
          (omega (arith, e, s)) in
      omega (arith, e, e')

  -- Without a slot there is no loss to count.
  no_slot :
      (m : Mcts F) (id : NodeId) (a : Action) → ltb a (loss_slots m id) ≡ false → losses m id a ≡ 0
  unfolding read
  no_slot m id a h = elim (Option-cases (get_node m id)) [
    | inl gone ↦ ground arith
    | inr (n, at) ↦ ground (arith, get_or-past n.virtual_losses a)
  ]

  loss_slots-mark :
      (path : SearchPath) (m : Mcts F) (id : NodeId)
      → IsConsistent m
      → loss_slots (mark path m) id ≡ loss_slots m id
  unfolding mark
  loss_slots-mark [] m id c = refl
  loss_slots-mark ((j, b) ∷ path) m id c =
      loss_slots-mark path _ id
        (with_node-IsConsistent c j (add_virtual_loss b) (id-add_virtual_loss b))
      ∙ loss_slots-add m j id b c

  losses-mark-undone :
      (path : SearchPath) (m : Mcts F) (id : NodeId) (a : Action)
      → IsConsistent m
      → losses m id a + times id a path + 1 < 2 ^ 64
      → losses (mark path m) id a - times id a path ≡ losses m id a
  losses-mark-undone path m id a c s = elim (Bool-cases (ltb a (loss_slots m id))) [
    | inl slot ↦ omega (arith, losses-mark path m id a c (ltb→lt a (loss_slots m id) slot) s)
    | inr past ↦ omega (
      arith,
      no_slot m id a past,
      no_slot (mark path m) id a (rw (loss_slots-mark path m id c) past),
    )
  ]

ok-injective : {A : Type 0} {x y : A} → ok x ≡ ok y → x ≡ y
ok-injective h = cc

-- On a sound tree, from a root whose id is the hash of the game: a playout that `select_leaf`
-- returns and that is then backed up leaves every virtual loss as it was, as long as the counter
-- does not wrap on the way.
pub select-backpropagate_losses :
    {F S O : Type 0} ⦃fl : Float F⦄ (env : Environment S O) (m : Mcts F) (root_id : NodeId) (s : S)
    (c_puct : F) (forced repeat : Bool) (w : Walk F S) (id : NodeId) (a : Action)
    → IsSound env m
    → env.hash s ≡ root_id
    → select_leaf env m root_id s c_puct forced ≡ ok w
    → losses m id a + times id a w.path + 1 < 2 ^ 64
    → losses (backpropagate w.path repeat w.tree) id a ≡ losses m id a
select-backpropagate_losses env m root_id s c_puct forced repeat w id a t here e small =
    let (v, e', from_tree) = select_leaf-returns env m root_id s c_puct forced t here in
    let f = subst (FromTree env m) (ok-injective (sym e' ∙ e)) from_tree in
    losses-backpropagate w.path repeat w.tree id a f.sound.consistent
    ∙ ap (λ x. losses x id a - times id a w.path) f.marked
    ∙ losses-mark-undone w.path m id a t.consistent small
