-- ===== src/Advance/Prune.antt =====
-- The arena that is rebuilt: it holds the nodes of the set, and the table agrees with it.
use mcts.Prelude.{
  ℕ, zero, suc, ◌≡◌, ◌∙◌, refl, sym, ap, true, false, Option, none, some, List, [], ◌∷◌, ◌++◌,
  length, get_elem?, ◌==◌, if◌then◌else◌, arith, Bool-cases, Option-cases, inl, inr, contains, All,
}
use mcts.Node.{Node, NodeId}
use mcts.Mcts.{Mcts, get_node, node_exists, insert_node}
use mcts.Mcts.Table.{IsConsistent, get_node-insert_node, insert_node-IsConsistent}
use mcts.Advance.{keep_nodes, prune}

module _ {F : Type 0} where
  -- The first node with an id.
  find_id : NodeId → List (Node F) → Option (Node F)
  find_id id [] = none
  find_id id (n ∷ ns) = if n.id == id then some n else find_id id ns

  abbrev DistinctIds : List (Node F) → Type 0
  DistinctIds [] = Unit
  DistinctIds (n ∷ ns) = (find_id n.id ns ≡ none) × DistinctIds ns

  find_id-at :
      (id : NodeId) (ns : List (Node F)) (n : Node F)
      → find_id id ns ≡ some n
      → (i : ℕ) × (get_elem? ns i ≡ some n) × (n.id ≡ id)
  unfolding find_id
  find_id-at id [] n h = cc
  find_id-at id (x ∷ ns) n h = elim (Bool-cases (x.id == id)) [
    | inl same ↦ (0, ground arith, ground arith)
    | inr other ↦ let (i, at, e) = find_id-at id ns n (rw other at h) in (suc i, at, e)
  ]

  at-find_id :
      (id : NodeId) (ns : List (Node F)) (i : ℕ) (n : Node F)
      → get_elem? ns i ≡ some n
      → n.id ≡ id
      → (k : Node F) × (find_id id ns ≡ some k)
  unfolding find_id
  at-find_id id [] i n at e = cc
  at-find_id id (x ∷ ns) zero n at e = (x, ground arith)
  at-find_id id (x ∷ ns) (suc i) n at e = elim (Bool-cases (x.id == id)) [
    | inl same ↦ (x, rw same)
    | inr other ↦ let (k, f) = at-find_id id ns i n at e in (k, rw other f)
  ]

  distinct_of_injective :
      (ns : List (Node F))
      → ((i j : ℕ) (a b : Node F)
          → get_elem? ns i ≡ some a
          → get_elem? ns j ≡ some b
          → a.id ≡ b.id
          → i ≡ j)
      → DistinctIds ns
  distinct_of_injective [] h = tt
  distinct_of_injective (n ∷ ns) h = (
    elim (Option-cases (find_id n.id ns)) [
      | inl gone ↦ gone
      | inr (k, there) ↦
          let (i, at, e) = find_id-at n.id ns k there in
          absurd (omega (arith, h 0 (suc i) n k refl at (sym e)))
    ],
    distinct_of_injective ns (λ i j a b ha hb e. omega (arith, h (suc i) (suc j) a b ha hb e)),
  )

module _ {F : Type 0} (m : Mcts F) (c : IsConsistent m) where
  distinct : DistinctIds m.nodes
  distinct =
      distinct_of_injective m.nodes
        λ i j a b ha hb e. ground (arith, c.owned i a ha, c.owned j b hb)

  find_id-get_node : (id : NodeId) → find_id id m.nodes ≡ get_node m id
  unfolding get_node
  find_id-get_node id = elim (Option-cases (find_id id m.nodes)) [
    | inr (n, there) ↦
        let (i, at, e) = find_id-at id m.nodes n there in ground (arith, c.owned i n at)
    | inl gone ↦ elim (Option-cases (m.transposition_table id)) [
      | inl missing ↦ ground arith
      | inr (i, e) ↦
          let (n, at, id_n) = c.indexed id i e in
          let (k, there) = at-find_id id m.nodes i n at id_n in absurd (ground arith)
    ]
  ]

  -- The search with another arena and table.
  abbrev arena : List (Node F) × (NodeId → Option ℕ) → Mcts F
  arena kept = record m { nodes = kept.0; transposition_table = kept.1 }

  abbrev or_else : Option (Node F) → Option (Node F) → Option (Node F)
  or_else none b = b
  or_else (some n) b = some n

  or_else-none : (o : Option (Node F)) → or_else o none ≡ o
  or_else-none none = refl
  or_else-none (some n) = refl

  abbrev Fresh : Mcts F → List (Node F) → Type 0
  Fresh acc ns = All (λ n. node_exists acc n.id ≡ false) ns

  Fresh-insert_node :
      (acc : Mcts F) (n : Node F) (ns : List (Node F))
      → find_id n.id ns ≡ none
      → Fresh acc ns
      → Fresh (insert_node n.id n acc) ns
  unfolding find_id insert_node node_exists
  Fresh-insert_node acc n [] h f = tt
  Fresh-insert_node acc n (x ∷ ns) h f = elim (Bool-cases (x.id == n.id)) [
    | inl same ↦ absurd (ground arith)
    | inr other ↦ (ground (arith, f.0), Fresh-insert_node acc n ns (rw other at h) f.1)
  ]

  find_id-skip :
      (r : List NodeId) (n : Node F) (ns : List (Node F)) (g : Option (Node F))
      → contains n.id r ≡ false
      → (id : NodeId)
      → (if contains id r then or_else (find_id id ns) g else g)
        ≡ (if contains id r then or_else (find_id id (n ∷ ns)) g else g)
  unfolding find_id
  find_id-skip r n ns g out id = elim (Bool-cases (n.id == id)) [
    | inl same ↦
        let e : n.id ≡ id = ground arith in
        let out' : contains id r ≡ false = rw (← e) out in rw out'
    | inr other ↦ rw other
  ]

  find_id-stays :
      (r : List NodeId) (n : Node F) (ns : List (Node F)) (g g' : Option (Node F))
      → contains n.id r ≡ true
      → find_id n.id ns ≡ none
      → (id : NodeId) → g' ≡ (if n.id == id then some n else g)
      → (if contains id r then or_else (find_id id ns) g' else g')
        ≡ (if contains id r then or_else (find_id id (n ∷ ns)) g else g)
  unfolding find_id
  find_id-stays r n ns g g' stays alone id e = elim (Bool-cases (n.id == id)) [
    | inl same ↦
        let here : n.id ≡ id = ground arith in
        let in_r : contains id r ≡ true = rw (← here) stays in
        let gone : find_id id ns ≡ none = rw (← here) alone in
        let found : g' ≡ some n = rw same at e in rw (in_r, gone, same) found
    | inr other ↦ let kept : g' ≡ g = rw other at e in rw (other, kept)
  ]

  -- What the loop over the nodes has made of the arena.
  record Kept (r : List NodeId) (ns : List (Node F)) (acc res : Mcts F) : Type 0 where
    consistent : IsConsistent res
    finds :
        (id : NodeId)
        → get_node res id
          ≡ (if contains id r then or_else (find_id id ns) (get_node acc id) else get_node acc id)

  keep_nodes-Kept :
      (r : List NodeId) (ns kept : List (Node F)) (table : NodeId → Option ℕ)
      → IsConsistent (arena (kept, table))
      → DistinctIds ns
      → Fresh (arena (kept, table)) ns
      → Kept r ns (arena (kept, table)) (arena (keep_nodes r ns kept table))
  unfolding keep_nodes find_id insert_node
  keep_nodes-Kept r [] kept table ok_acc d f = record {
    consistent = ok_acc;
    finds = λ id. ground arith;
  }
  keep_nodes-Kept r (n ∷ ns) kept table ok_acc d f = elim (Bool-cases (contains n.id r)) [
    | inr out ↦
        let k = keep_nodes-Kept r ns kept table ok_acc d.1 f.1 in
        rw (out, keep_nodes)
          (record {
            consistent = k.consistent;
            finds =
                λ id. k.finds id ∙ find_id-skip r n ns (get_node (arena (kept, table)) id) out id;
          })
    | inl stays ↦
        let acc = arena (kept, table) in
        let k =
          keep_nodes-Kept r ns (kept ++ (n ∷ []))
            (λ j. if n.id == j then some (length kept) else table j)
            (insert_node-IsConsistent ok_acc n.id n refl f.0) d.1
            (Fresh-insert_node acc n ns d.0 f.1) in
        rw (stays, keep_nodes)
          (record {
            consistent = k.consistent;
            finds = λ id.
                k.finds id
                ∙ find_id-stays r n ns (get_node acc id) _ stays d.0 id
                    (get_node-insert_node ok_acc n.id id n);
          })
  ]

  nothing-IsConsistent : IsConsistent (arena ([], λ _. none))
  nothing-IsConsistent = record { indexed = λ id i h. cc; owned = λ i n h. cc }

  all-Fresh : (ns : List (Node F)) → Fresh (arena ([], λ _. none)) ns
  unfolding node_exists
  all-Fresh [] = tt
  all-Fresh (n ∷ ns) = (refl, all-Fresh ns)

  -- Where table and arena agree, pruning keeps the nodes of the set, under their ids, and no
  -- other; the table agrees with the arena that is left.
  pub prune-Kept :
      (r : List NodeId)
      → IsConsistent (prune r m)
        × ((id : NodeId)
            → get_node (prune r m) id ≡ (if contains id r then get_node m id else none))
  unfolding prune get_node
  prune-Kept r =
      let k =
        keep_nodes-Kept r m.nodes [] (λ _. none) nothing-IsConsistent distinct
          (all-Fresh m.nodes) in
      (
        k.consistent,
        λ id.
            k.finds id
            ∙ ap (λ o. if contains id r then o else none)
                (or_else-none (find_id id m.nodes) ∙ find_id-get_node id),
      )
