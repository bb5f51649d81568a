-- ===== src/Backup/Counters.antt =====
-- What a search path adds to the counters of an edge.
use mcts.Prelude.{
  ℕ, zero, suc, ◌+◌, ◌-◌, ◌<◌, ◌^◌, ◌≡◌, ◌∙◌, refl, ap, fun_ext, ◌&&◌, none, some, List, [], ◌∷◌,
  ◌++◌, reverse, length, get_or, modify, ◌==◌, if◌then◌else◌, arith, Bool-cases, Option-cases, inl,
  inr, add_usize, saturating_sub,
}
use mathlib.Core.List.{reverse-append}
use mcts.Node.{Node, NodeId, Action, revert_virtual_loss}
use mcts.Mcts.{Mcts, get_node, with_node}
use mcts.Mcts.Table.{IsConsistent, get_node-with_node}
use mcts.Leaf.{SearchPath}

-- How often an edge is on a path.
unfoldable pub times : NodeId → Action → SearchPath → ℕ
times id a [] = 0
times id a ((j, b) ∷ path) = (if j == id && b == a then 1 else 0) + times id a path

times-append :
    (id : NodeId) (a : Action) (p q : SearchPath)
    → times id a (p ++ q) ≡ times id a p + times id a q
unfolding times
times-append id a [] q = omega arith
times-append id a ((j, b) ∷ p) q = omega (arith, times-append id a p q)

pub times-reverse :
    (id : NodeId) (a : Action) (p : SearchPath) → times id a (reverse p) ≡ times id a p
unfolding times
times-reverse id a [] = refl
times-reverse id a ((j, b) ∷ p) =
    ap (times id a) (reverse-append ((j, b) ∷ []) p)
    ∙ times-append id a (reverse p) ((j, b) ∷ [])
    ∙ omega (arith, times-reverse id a p)

module _ {F : Type 0} where
  -- A number read off a node, 0 where there is no node.
  unfoldable pub read : (Node F → ℕ) → Mcts F → NodeId → ℕ
  read g m id = elim (get_node m id) [ none ↦ 0 | some n ↦ g n ]

  pub read-with_node :
      (g : Node F → ℕ) (m : Mcts F) (j id : NodeId) (f : Node F → Node F)
      → IsConsistent m
      → read g (with_node j f m) id ≡ (if j == id then read (λ n. g (f n)) m id else read g m id)
  unfolding read
  read-with_node g m j id f c = elim (Bool-cases (j == id)) [
    | inl same ↦ elim (Option-cases (get_node m id)) [
      | inl gone ↦ ground (arith, get_node-with_node c j id f)
      | inr (n, at) ↦ ground (arith, get_node-with_node c j id f)
    ]
    | inr other ↦ ground (arith, get_node-with_node c j id f)
  ]

  -- An update that the reading does not see.
  pub read-same :
      (g : Node F → ℕ) (m : Mcts F) (j id : NodeId) (f : Node F → Node F)
      → IsConsistent m
      → ((n : Node F) → g (f n) ≡ g n)
      → read g (with_node j f m) id ≡ read g m id
  read-same g m j id f c same = read-with_node g m j id f c ∙ rw (fun_ext same) (ground arith)

  -- The virtual losses, the visits, and the number of edge slots of a node.
  abbrev pub losses : Mcts F → NodeId → Action → ℕ
  losses m id a = read (λ n. get_or n.virtual_losses a 0) m id

  abbrev pub visits : Mcts F → NodeId → Action → ℕ
  visits m id a = read (λ n. get_or n.edge_visits a 0) m id

  abbrev pub slots : Mcts F → NodeId → ℕ
  slots m id = read (λ n. length n.edge_visits) m id

get_or-sub :
    (xs : List ℕ) (i j : ℕ)
    → get_or (modify xs i (λ v. saturating_sub v 1)) j 0 ≡ get_or xs j 0 - (if i == j then 1 else 0)
get_or-sub [] i j = ground arith
get_or-sub (x ∷ xs) zero zero = ground arith
get_or-sub (x ∷ xs) zero (suc j) = ground arith
get_or-sub (x ∷ xs) (suc i) zero = ground arith
get_or-sub (x ∷ xs) (suc i) (suc j) = ground (arith, get_or-sub xs i j)

pub get_or-add :
    (xs : List ℕ) (i j : ℕ)
    → j < length xs
    → get_or xs j 0 + 1 < 2 ^ 64
    → get_or (modify xs i (λ v. add_usize v 1)) j 0 ≡ get_or xs j 0 + (if i == j then 1 else 0)
get_or-add [] i j h s = absurd (omega arith)
get_or-add (x ∷ xs) zero zero h s = ground arith
get_or-add (x ∷ xs) zero (suc j) h s = ground arith
get_or-add (x ∷ xs) (suc i) zero h s = ground arith
get_or-add (x ∷ xs) (suc i) (suc j) h s = ground (arith, get_or-add xs i j)

module _ {F : Type 0} where
  pub losses-revert :
      (m : Mcts F) (j id : NodeId) (b a : Action)
      → IsConsistent m
      → losses (with_node j (revert_virtual_loss b) m) id a
        ≡ losses m id a - (if j == id && b == a then 1 else 0)
  unfolding revert_virtual_loss read
  losses-revert m j id b a c = elim (Option-cases (get_node m id)) [
    | inl gone ↦
        ground (
          arith,
          read-with_node (λ n. get_or n.virtual_losses a 0) m j id (revert_virtual_loss b) c,
        )
    | inr (n, at) ↦ ground (
      arith,
      read-with_node (λ n. get_or n.virtual_losses a 0) m j id (revert_virtual_loss b) c,
      get_or-sub n.virtual_losses b a,
    )
  ]
