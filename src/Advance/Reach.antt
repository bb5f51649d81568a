-- ===== src/Advance/Reach.antt =====
-- The walk over the children finds exactly the ids that are reachable.
use mcts.Prelude.{
  ℕ, zero, suc, ◌≡◌, ◌∙◌, refl, sym, Bool, true, false, ◌||◌, List, [], ◌∷◌, ◌++◌, ◌==◌, ==_self,
  arith, Bool-cases, inl, inr, ◌⊎◌, ok, contains,
}
use mcts.Node.{NodeId}
use mcts.Mcts.{Mcts}
use mcts.Advance.{unseen, children_of, enqueue, collect}

-- The ids reachable along expanded edges.
pub data Reach {F : Type 0} (m : Mcts F) (from : NodeId) : NodeId → Type 0 where
  here : Reach m from from
  next : {i j : NodeId} → Reach m from i → contains j (children_of m i) ≡ true → Reach m from j

-- A set that holds the source and every child of its members holds all that is reachable.
Reach-contains :
    {F : Type 0} {m : Mcts F} {from j : NodeId} (r : List NodeId)
    → contains from r ≡ true
    → ((i k : NodeId)
        → contains i r ≡ true
        → contains k (children_of m i) ≡ true
        → contains k r ≡ true)
    → Reach m from j
    → contains j r ≡ true
Reach-contains r source closed here = source
Reach-contains r source closed (next {i} {j} p child) =
    closed i j (Reach-contains r source closed p) child

contains-unseen :
    (r cs : List NodeId) (j : NodeId)
    → contains j cs ≡ true
    → contains j r ≡ false
    → contains j (unseen r cs) ≡ true
unfolding unseen
contains-unseen r [] j h new = cc
contains-unseen r (c ∷ cs) j h new = ground (arith, contains-unseen r cs j)

unseen-sub :
    (r cs : List NodeId) (j : NodeId) → contains j (unseen r cs) ≡ true → contains j cs ≡ true
unfolding unseen
unseen-sub r [] j h = cc
unseen-sub r (c ∷ cs) j h = ground (arith, unseen-sub r cs j)

contains-append :
    (xs ys : List NodeId) (j : NodeId) → contains j (xs ++ ys) ≡ (contains j xs || contains j ys)
contains-append [] ys j = refl
contains-append (x ∷ xs) ys j = ground (arith, contains-append xs ys j)

module _ {F : Type 0} (m : Mcts F) (root : NodeId) where
  abbrev known : List NodeId → List NodeId → NodeId → Bool
  known queue r j = contains j queue || contains j r

  record IsSearching (queue r : List NodeId) : Type 0 where
    source : known queue r root ≡ true
    sound : (j : NodeId) → known queue r j ≡ true → Reach m root j
    closed :
        (i j : NodeId)
        → contains i r ≡ true
        → contains j (children_of m i) ≡ true
        → known queue r j ≡ true

  known-skip :
      (id : NodeId) (queue r : List NodeId) (j : NodeId)
      → contains id r ≡ true
      → known (id ∷ queue) r j ≡ known queue r j
  known-skip id queue r j old = elim (Bool-cases (id == j)) [
    | inl same ↦ let e : id ≡ j = ground arith in rw (← e, old, ==_self id) (ground arith)
    | inr other ↦ rw other
  ]

  skip-IsSearching :
      (id : NodeId) (queue r : List NodeId)
      → contains id r ≡ true
      → IsSearching (id ∷ queue) r
      → IsSearching queue r
  skip-IsSearching id queue r old s = record {
    source = rw (← known-skip id queue r root old) s.source;
    sound = λ j h. s.sound j (known-skip id queue r j old ∙ h);
    closed = λ i j hi hj. sym (known-skip id queue r j old) ∙ s.closed i j hi hj;
  }

  known-enqueue :
      (id : NodeId) (queue r : List NodeId) (j : NodeId)
      → known (enqueue m id queue r) (id ∷ r) j ≡ true
      → (known (id ∷ queue) r j ≡ true) ⊎ (contains j (children_of m id) ≡ true)
  unfolding enqueue
  known-enqueue id queue r j h = ground (
    arith,
    contains-append queue (unseen (id ∷ r) (children_of m id)) j,
    unseen-sub (id ∷ r) (children_of m id) j,
  )

  enqueue-known :
      (id : NodeId) (queue r : List NodeId) (j : NodeId)
      → (known (id ∷ queue) r j ≡ true) ⊎ (contains j (children_of m id) ≡ true)
      → known (enqueue m id queue r) (id ∷ r) j ≡ true
  unfolding enqueue
  enqueue-known id queue r j h = ground (
    arith,
    contains-append queue (unseen (id ∷ r) (children_of m id)) j,
    contains-unseen (id ∷ r) (children_of m id) j,
  )

  enqueue-IsSearching :
      (id : NodeId) (queue r : List NodeId)
      → IsSearching (id ∷ queue) r
      → IsSearching (enqueue m id queue r) (id ∷ r)
  enqueue-IsSearching id queue r s = record {
    source = enqueue-known id queue r root (inl s.source);
    sound = λ j h. elim (known-enqueue id queue r j h) [
      | inl old ↦ s.sound j old
      | inr child ↦ next (s.sound id (rw (==_self id))) child
    ];
    closed = λ i j hi hj. enqueue-known id queue r j (elim (Bool-cases (id == i)) [
      | inl same ↦ let e : id ≡ i = ground arith in inr (rw e hj)
      | inr other ↦ inl (s.closed i j (rw other at hi) hj)
    ]);
  }

  collect-IsSearching :
      (fuel : ℕ) (queue r r' : List NodeId)
      → IsSearching queue r
      → collect m fuel queue r ≡ ok r'
      → IsSearching [] r'
  unfolding collect
  collect-IsSearching zero [] r r' s e = let same : r ≡ r' = cc in rw (← same) s
  collect-IsSearching (suc fuel) [] r r' s e = let same : r ≡ r' = cc in rw (← same) s
  collect-IsSearching zero (id ∷ queue) r r' s e = cc
  collect-IsSearching (suc fuel) (id ∷ queue) r r' s e = elim (Bool-cases (contains id r)) [
    | inl old ↦
        collect-IsSearching fuel queue r r' (skip-IsSearching id queue r old s)
          (rw (old, collect) at e)
    | inr new ↦
        collect-IsSearching fuel (enqueue m id queue r) (id ∷ r) r'
          (enqueue-IsSearching id queue r s) (rw (new, collect) at e)
  ]

  -- What the loop finds is exactly what is reachable.
  pub collect-Reach :
      (fuel : ℕ) (r : List NodeId)
      → collect m fuel (root ∷ []) [] ≡ ok r
      → ((j : NodeId) → contains j r ≡ true → Reach m root j)
        × ((j : NodeId) → Reach m root j → contains j r ≡ true)
  collect-Reach fuel r e =
      let s =
        collect-IsSearching fuel (root ∷ []) [] r
          (record {
            source = rw (==_self root);
            sound = λ j h. let same : root ≡ j = ground arith in rw (← same) here;
            closed = λ i j hi hj. cc;
          })
          e in
      (s.sound, λ j p. Reach-contains r s.source s.closed p)
