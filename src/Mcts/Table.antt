-- ===== src/Mcts/Table.antt =====
-- The transposition table and the arena agree.
use mcts.Prelude.{
  ℕ, ◌≡◌, true, false, some, length, get_elem?, modify, arith, ◌∷◌, [], map_some,
  get_elem?-modify_self, get_elem?-modify_ne, get_elem?-concat, get_elem?-append_left,
  get_elem?-concat_none, get_elem?-lt, ◌==◌, if◌then◌else◌, Option-cases, inl, inr, Bool-cases, ◌∙◌,
  ltb,
}
use mcts.Node.{Node, NodeId}
use mcts.Mcts.{Mcts, get_node, with_node, node_exists, insert_node}

-- Every entry of the table leads to the node with that id, and every node of the arena is the one
-- that the table has for its id.
pub record IsConsistent {F : Type 0} (m : Mcts F) : Type 0 where
  pub indexed :
      (id i : ℕ)
      → m.transposition_table id ≡ some i
      → (n : Node F) × (get_elem? m.nodes i ≡ some n) × (n.id ≡ id)
  pub owned :
      (i : ℕ) (n : Node F) → get_elem? m.nodes i ≡ some n → m.transposition_table n.id ≡ some i

pub exists_of_get_node :
    {F : Type 0} (m : Mcts F) (id : NodeId) (n : Node F)
    → get_node m id ≡ some n
    → node_exists m id ≡ true
unfolding get_node node_exists
exists_of_get_node m id n h = ground arith

module _ {F : Type 0} {m : Mcts F} (c : IsConsistent m) where
  pub id-get_node : (id : ℕ) (n : Node F) → get_node m id ≡ some n → n.id ≡ id
  unfolding get_node
  id-get_node id n h = elim (Option-cases (m.transposition_table id)) [
    | inl e ↦ ground arith
    | inr (i, e) ↦ ground (arith, c.indexed id i)
  ]

  -- A node exists exactly if it is found.
  pub get_node-exists : (id : ℕ) → node_exists m id ≡ true → (n : Node F) × (get_node m id ≡ some n)
  unfolding get_node node_exists
  get_node-exists id h = elim (Option-cases (m.transposition_table id)) [
    | inl e ↦ absurd (ground arith)
    | inr (i, e) ↦ let (n, a, _) = c.indexed id i e in (n, ground arith)
  ]

  -- An update of one node is seen at its id alone.
  pub get_node-with_node :
      (i j : NodeId) (f : Node F → Node F)
      → get_node (with_node i f m) j ≡ (if i == j then map_some f (get_node m j) else get_node m j)
  unfolding get_node with_node
  get_node-with_node i j f = elim (Option-cases (m.transposition_table i)) [
    | inl e ↦ ground arith
    | inr (k, e) ↦ elim (Option-cases (m.transposition_table j)) [
      | inl e' ↦ ground arith
      | inr (l, e') ↦ ground (
        arith,
        c.indexed i k e,
        c.indexed j l e',
        get_elem?-modify_self m.nodes k f,
        get_elem?-modify_ne m.nodes k l f,
      )
    ]
  ]

  modify-indexed :
      (k : ℕ) (f : Node F → Node F)
      → ((n : Node F) → (f n).id ≡ n.id)
      → (j l : ℕ) → m.transposition_table j ≡ some l
      → (n : Node F) × (get_elem? (modify m.nodes k f) l ≡ some n) × (n.id ≡ j)
  modify-indexed k f keep j l h =
      let (n, at, e) = c.indexed j l h in
      elim (Bool-cases (k == l)) [
        | inl same ↦ (f n, ground (arith, get_elem?-modify_self m.nodes k f), keep n ∙ e)
        | inr other ↦ (n, ground (arith, get_elem?-modify_ne m.nodes k l f), e)
      ]

  modify-owned :
      (k : ℕ) (f : Node F → Node F)
      → ((n : Node F) → (f n).id ≡ n.id)
      → (l : ℕ) (n : Node F) → get_elem? (modify m.nodes k f) l ≡ some n
      → m.transposition_table n.id ≡ some l
  modify-owned k f keep l n h = elim (Bool-cases (k == l)) [
    | inl same ↦ elim (Option-cases (get_elem? m.nodes l)) [
      | inl e ↦ absurd (ground (arith, get_elem?-modify_self m.nodes k f))
      | inr (n₀, e) ↦ ground (arith, get_elem?-modify_self m.nodes k f, keep n₀, c.owned l n₀)
    ]
    | inr other ↦ ground (arith, get_elem?-modify_ne m.nodes k l f, c.owned l n)
  ]

  pub with_node-IsConsistent :
      (i : NodeId) (f : Node F → Node F)
      → ((n : Node F) → (f n).id ≡ n.id)
      → IsConsistent (with_node i f m)
  unfolding with_node
  with_node-IsConsistent i f keep = elim (Option-cases (m.transposition_table i)) [
    | inl e ↦ rw (e, with_node) c
    | inr (k, e) ↦
        rw (e, with_node)
          (record { indexed = modify-indexed k f keep; owned = modify-owned k f keep })
  ]

  pub get_node-insert_node :
      (id j : NodeId) (n : Node F)
      → get_node (insert_node id n m) j ≡ (if id == j then some n else get_node m j)
  unfolding get_node insert_node
  get_node-insert_node id j n = elim (Option-cases (m.transposition_table j)) [
    | inl e' ↦ ground (arith, get_elem?-concat m.nodes n)
    | inr (l, e') ↦ ground (
      arith,
      get_elem?-concat m.nodes n,
      c.indexed j l e',
      get_elem?-lt m.nodes l (c.indexed j l e').0,
      get_elem?-append_left m.nodes (n ∷ []) l,
    )
  ]

  pub insert_node-IsConsistent :
      (id : NodeId) (n : Node F)
      → n.id ≡ id
      → node_exists m id ≡ false
      → IsConsistent (insert_node id n m)
  unfolding insert_node node_exists
  insert_node-IsConsistent id n e new = record {
    indexed = λ j l h. elim (Bool-cases (id == j)) [
      | inl same ↦ (n, ground (arith, get_elem?-concat m.nodes n), ground arith)
      | inr other ↦
          let (k, at, k_id) = c.indexed j l (rw other at h) in
          (k, get_elem?-append_left m.nodes (n ∷ []) l (get_elem?-lt m.nodes l k at) ∙ at, k_id)
    ];
    owned = λ l k h. elim (Bool-cases (ltb l (length m.nodes))) [
      | inl old ↦ ground (arith, c.owned l k, get_elem?-append_left m.nodes (n ∷ []) l)
      | inr past ↦ ground (arith, get_elem?-concat m.nodes n, get_elem?-concat_none m.nodes n l)
    ];
  }
