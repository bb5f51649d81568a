-- ===== src/Tree/Measure.antt =====
-- How much of the arena is still unseen: the bound on the rounds of the two walks over it.
use mcts.Prelude.{
  ℕ, zero, suc, ◌+◌, ◌≤◌, ◌≡◌, refl, Bool, false, ◌||◌, some, List, [], ◌∷◌, ◌++◌, get_elem?,
  modify, any, ◌==◌, ==_self, if◌then◌else◌, arith, Bool-cases, inl, inr,
}
use mcts.Node.{Node, NodeId}

pub any-append {ℓ} :
    {A : Type ℓ} (p : A → Bool) (xs ys : List A) → any p (xs ++ ys) ≡ (any p xs || any p ys)
any-append p [] ys = refl
any-append p (x ∷ xs) ys = ground (arith, any-append p xs ys)

module _ {F : Type 0} where
  -- The sum of a node's weight, over the nodes whose id is not seen.
  pub weight : (NodeId → Bool) → (Node F → ℕ) → List (Node F) → ℕ
  weight seen w [] = 0
  weight seen w (n ∷ nodes) = (if seen n.id then 0 else w n) + weight seen w nodes

  pub weight-le :
      (seen : NodeId → Bool) (w : Node F → ℕ) (bound : List (Node F) → ℕ) (nodes : List (Node F))
      → ((n : Node F) (ns : List (Node F)) → w n + bound ns ≤ bound (n ∷ ns))
      → weight seen w nodes ≤ bound nodes
  unfolding weight
  weight-le seen w bound [] h = omega arith
  weight-le seen w bound (n ∷ nodes) h = elim (Bool-cases (seen n.id)) [
    | inl e ↦ rw e (omega (arith, weight-le seen w bound nodes h, h n nodes))
    | inr e ↦ rw e (omega (arith, weight-le seen w bound nodes h, h n nodes))
  ]

  pub weight_mono :
      (seen seen' : NodeId → Bool) (id : NodeId) (w : Node F → ℕ) (nodes : List (Node F))
      → ((j : NodeId) → seen' j ≡ (id == j || seen j))
      → weight seen' w nodes ≤ weight seen w nodes
  unfolding weight
  weight_mono seen seen' id w [] h = omega arith
  weight_mono seen seen' id w (n ∷ nodes) h =
      ground (arith, h n.id, weight_mono seen seen' id w nodes h)

  -- To see a node of the arena takes its weight away.
  pub weight_drop :
      (seen seen' : NodeId → Bool) (w : Node F → ℕ) (nodes : List (Node F)) (i : ℕ) (n : Node F)
      → ((j : NodeId) → seen' j ≡ (n.id == j || seen j))
      → get_elem? nodes i ≡ some n
      → seen n.id ≡ false
      → weight seen' w nodes + w n ≤ weight seen w nodes
  unfolding weight
  weight_drop seen seen' w [] i n h at new = cc
  weight_drop seen seen' w (x ∷ nodes) zero n h at new =
      let same : x ≡ n = some_node at in
      rw (same, new, h n.id, ==_self n.id) (omega (arith, weight_mono seen seen' n.id w nodes h))
    where
      some_node : some x ≡ some n → x ≡ n
      some_node e = cc
  weight_drop seen seen' w (x ∷ nodes) (suc i) n h at new =
      ground (arith, h x.id, weight_drop seen seen' w nodes i n h at new)

  -- An update that keeps ids and weights.
  pub weight-modify :
      (seen : NodeId → Bool) (w : Node F → ℕ) (nodes : List (Node F)) (i : ℕ) (f : Node F → Node F)
      → ((n : Node F) → (f n).id ≡ n.id)
      → ((n : Node F) → w (f n) ≡ w n)
      → weight seen w (modify nodes i f) ≡ weight seen w nodes
  unfolding weight
  weight-modify seen w [] i f h k = refl
  weight-modify seen w (x ∷ nodes) zero f h k = simp (h x, k x)
  weight-modify seen w (x ∷ nodes) (suc i) f h k =
      ground (arith, weight-modify seen w nodes i f h k)
