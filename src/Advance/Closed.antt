-- ===== src/Advance/Closed.antt =====
-- `advance_root`: it returns, keeps the tree sound, and keeps what the new root reaches.
use mcts.Prelude.{
  ℕ, zero, suc, ◌+◌, ◌≤◌, ◌≡◌, ◌∙◌, refl, ap, true, Option, none, some, List, [], ◌∷◌, length,
  get_elem?, ==_self, if◌then◌else◌, arith, Bool-cases, Option-cases, inl, inr, contains, ok,
}
use mcts.Environment.{Environment}
use mcts.Node.{Node, NodeId, Action}
use mcts.Mcts.{Mcts, get_node, node_exists}
use mcts.Mcts.Table.{get_node-exists, exists_of_get_node}
use mcts.Puct.{child_at}
use mcts.Tree.{IsSound}
use mcts.Tree.Measure.{weight-le}
use mcts.Advance.{
  expanded, children_of, total_slots, prune, move_root, advance_to, advance_at, advance_from,
  advance_root,
}
use mcts.Advance.Work.{collect-returns}
use mcts.Advance.Reach.{Reach, next, collect-Reach}
use mcts.Advance.Prune.{prune-Kept}

contains-expanded :
    (slots : List (Option NodeId)) (i : ℕ) (c : NodeId)
    → get_elem? slots i ≡ some (some c)
    → contains c (expanded slots) ≡ true
unfolding expanded
contains-expanded [] i c h = cc
contains-expanded (none ∷ slots) zero c h = cc
contains-expanded (some d ∷ slots) zero c h = let same : d ≡ c = cc in rw (same, ==_self c)
contains-expanded (none ∷ slots) (suc i) c h = contains-expanded slots i c h
contains-expanded (some d ∷ slots) (suc i) c h = ground (arith, contains-expanded slots i c h)

module _ {F : Type 0} where
  child_at-contains :
      (m : Mcts F) (id c : NodeId) (a : Action) (n : Node F)
      → get_node m id ≡ some n
      → child_at n a ≡ some c
      → contains c (children_of m id) ≡ true
  unfolding child_at children_of
  child_at-contains m id c a n at h = elim (Option-cases (get_elem? n.children a)) [
    | inl gone ↦ absurd (ground arith)
    | inr (slot, e) ↦
        let full : slot ≡ some c = ground arith in
        rw (at, children_of) (contains-expanded n.children a c (rw (← full) e))
  ]

  -- The fuel covers the queue at the start.
  total_slots-bound :
      (n : Node F) (ns : List (Node F)) → length n.children + total_slots ns ≤ total_slots (n ∷ ns)
  total_slots-bound n ns = omega arith

-- What moving the root to `new` leaves of `m`.
pub record Moved {F S O : Type 0} (env : Environment S O) (m : Mcts F) (new : NodeId) (m' : Mcts F)
    : Type 0 where
  pub root : m'.root_id ≡ some new
  pub sound : IsSound env m'
  pub kept : (id : NodeId) → Reach m new id → get_node m' id ≡ get_node m id
  pub dropped : (id : NodeId) → ¬ Reach m new id → get_node m' id ≡ none

module _ {F S O : Type 0} (env : Environment S O) (m : Mcts F) (t : IsSound env m) where
  prune-before :
      (r : List NodeId) (id : NodeId) (n : Node F)
      → get_node (prune r m) id ≡ some n
      → (contains id r ≡ true) × (get_node m id ≡ some n)
  prune-before r id n h =
      let finds = (prune-Kept m t.consistent r).1 in
      elim (Bool-cases (contains id r)) [
        | inl stays ↦ (stays, ground (arith, finds id))
        | inr out ↦ absurd (ground (arith, finds id))
      ]

  prune-IsSound :
      (new : NodeId) (r : List NodeId)
      → ((j : NodeId) → contains j r ≡ true → Reach m new j)
      → ((j : NodeId) → Reach m new j → contains j r ≡ true)
      → IsSound env (prune r m)
  prune-IsSound new r sound complete = record {
    consistent = (prune-Kept m t.consistent r).0;
    dense = λ id n h. t.dense id n (prune-before r id n h).1;
    closed = λ id c a n h edge.
        let (stays, at) = prune-before r id n h in
        let c_in = complete c (next (sound id stays) (child_at-contains m id c a n at edge)) in
        let (k, there) = get_node-exists t.consistent c (t.closed id c a n at edge) in
        exists_of_get_node (prune r m) c k ((prune-Kept m t.consistent r).1 c ∙ rw c_in there);
    linked = λ id c a n s h edge. t.linked id c a n s (prune-before r id n h).1 edge;
  }

  prune-Moved :
      (new : NodeId) (r : List NodeId)
      → ((j : NodeId) → contains j r ≡ true → Reach m new j)
      → ((j : NodeId) → Reach m new j → contains j r ≡ true)
      → Moved env m new (record (prune r m) { root_id = some new })
  unfolding get_node node_exists
  prune-Moved new r sound complete =
      let p = prune-IsSound new r sound complete in
      let finds = (prune-Kept m t.consistent r).1 in
      record {
        root = refl;
        sound = record {
          consistent = record { indexed = p.consistent.indexed; owned = p.consistent.owned };
          dense = p.dense;
          closed = p.closed;
          linked = p.linked;
        };
        kept =
            λ id reach. finds id ∙ ap (λ b. if b then get_node m id else none) (complete id reach);
        dropped = λ id far. elim (Bool-cases (contains id r)) [
          | inl stays ↦ absurd (far (sound id stays))
          | inr out ↦ finds id ∙ ap (λ b. if b then get_node m id else none) out
        ];
      }

  -- Moving the root to a child returns, and keeps exactly what the child reaches.
  move_root-Moved : (new : NodeId) → (m' : Mcts F) × (move_root new m ≡ ok m') × Moved env m new m'
  unfolding move_root
  move_root-Moved new =
      let fuel =
        weight-le (λ j. contains j []) (λ (n : Node F). length n.children) total_slots m.nodes
          total_slots-bound in
      let (r, e) =
        collect-returns m t.consistent (suc (total_slots m.nodes)) (new ∷ []) []
          (omega (arith, fuel)) in
      let (sound, complete) = collect-Reach m new (suc (total_slots m.nodes)) r e in
      (record (prune r m) { root_id = some new }, rw e, prune-Moved new r sound complete)

  -- From a sound tree whose root has an expanded child for the action, `advance_root` returns:
  -- that child is the new root, every node that it reaches is kept as it was, every other node is
  -- gone, and the tree is sound.
  pub advance_root-Moved :
      (a : Action) (root new : NodeId) (n : Node F)
      → m.root_id ≡ some root
      → get_node m root ≡ some n
      → child_at n a ≡ some new
      → (m' : Mcts F) × (advance_root a m ≡ ok m') × Moved env m new m'
  unfolding advance_root advance_from advance_at advance_to
  advance_root-Moved a root new n hr at edge =
      let (m', e, moved) = move_root-Moved new in
      (m', ap (advance_from a m) hr ∙ ap (advance_at a m) at ∙ ap (advance_to m) edge ∙ e, moved)

  rootless-IsSound : IsSound env (record m { root_id = none })
  unfolding get_node node_exists
  rootless-IsSound = record {
    consistent = record { indexed = t.consistent.indexed; owned = t.consistent.owned };
    dense = t.dense;
    closed = t.closed;
    linked = t.linked;
  }

  advance_to-IsSound :
      (new : Option NodeId) → (m' : Mcts F) × (advance_to m new ≡ ok m') × IsSound env m'
  unfolding advance_to
  advance_to-IsSound none = (record m { root_id = none }, refl, rootless-IsSound)
  advance_to-IsSound (some new) = let (m', e, moved) = move_root-Moved new in (m', e, moved.sound)

  advance_at-IsSound :
      (a : Action) (n : Option (Node F))
      → (m' : Mcts F) × (advance_at a m n ≡ ok m') × IsSound env m'
  unfolding advance_at
  advance_at-IsSound a none = (record m { root_id = none }, refl, rootless-IsSound)
  advance_at-IsSound a (some n) = advance_to-IsSound (child_at n a)

  advance_from-IsSound :
      (a : Action) (root : Option NodeId)
      → (m' : Mcts F) × (advance_from a m root ≡ ok m') × IsSound env m'
  unfolding advance_from
  advance_from-IsSound a none = (m, refl, t)
  advance_from-IsSound a (some root) = advance_at-IsSound a (get_node m root)

  -- From a sound tree `advance_root` ends within its fuel, on every branch, and leaves a sound
  -- tree.
  pub advance_root-IsSound :
      (a : Action) → (m' : Mcts F) × (advance_root a m ≡ ok m') × IsSound env m'
  unfolding advance_root
  advance_root-IsSound a = advance_from-IsSound a m.root_id
