-- ===== src/Node/Choice.antt =====
-- `Node::select_action`: the most visited action.
use mcts.Prelude.{
  ℕ, ◌<◌, ◌≤◌, ◌≡◌, ◌⊎◌, inl, refl, subst, sym, true, Option, none, some, List, [], ◌∷◌, length,
  get_or, All, arith, contains, ok, ◌==◌, if◌then◌else◌, get_elem?-eq-get_or,
}
use mcts.Node.{Node, Action, better, most_visited, action_of, select_action}
use mcts.Node.Dense.{IsDense}

-- `best` carries the visit count of its action, which is not zero.
abbrev Counts : List ℕ → Option (Action × ℕ) → Type 0
Counts visits none = Unit
Counts visits (some (a, v)) = (v ≡ get_or visits a 0) × (0 < v)

abbrev count : Option (Action × ℕ) → ℕ
count none = 0
count (some (a, v)) = v

abbrev Among : Option (Action × ℕ) → Option (Action × ℕ) → List Action → Type 0
Among none best actions = best ≡ none
Among (some (a, v)) best actions = (some (a, v) ≡ best) ⊎ (contains a actions ≡ true)

record IsTop (visits : List ℕ) (actions : List Action) (best r : Option (Action × ℕ)) : Type 0 where
  counts : Counts visits r
  above : count best ≤ count r
  top : All (λ a. get_or visits a 0 ≤ count r) actions
  among : Among r best actions

-- One round: the action is skipped at no visit, or compared with the best so far.
abbrev round : List ℕ → Action → Option (Action × ℕ) → Option (Action × ℕ)
round visits a best = if get_or visits a 0 == 0 then best else better (get_or visits a 0) a best

round-Counts :
    (visits : List ℕ) (a : Action) (best : Option (Action × ℕ))
    → Counts visits best
    → Counts visits (round visits a best)
unfolding better
round-Counts visits a none h = ground arith
round-Counts visits a (some (b, bv)) h = ground arith

round-count :
    (visits : List ℕ) (a : Action) (best : Option (Action × ℕ))
    → (count best ≤ count (round visits a best)) × (get_or visits a 0 ≤ count (round visits a best))
unfolding better
round-count visits a none = ground arith
round-count visits a (some (b, bv)) = ground arith

Among-round :
    (visits : List ℕ) (a : Action) (actions : List Action) (best r : Option (Action × ℕ))
    → Among r (round visits a best) actions
    → Among r best (a ∷ actions)
unfolding better
Among-round visits a actions none none h = refl
Among-round visits a actions (some (b, bv)) none h = ground arith
Among-round visits a actions none (some (c, cv)) h = ground arith
Among-round visits a actions (some (b, bv)) (some (c, cv)) h = ground arith

Among-self : (best : Option (Action × ℕ)) → Among best best []
Among-self none = refl
Among-self (some (a, v)) = inl refl

most_visited-IsTop :
    (visits : List ℕ) (actions : List Action) (best : Option (Action × ℕ))
    → All (λ a. a < length visits) actions
    → Counts visits best
    → (r : Option (Action × ℕ)) × (most_visited visits actions best ≡ ok r)
      × IsTop visits actions best r
unfolding most_visited
most_visited-IsTop visits [] best h c =
    (best, refl, record { counts = c; above = omega arith; top = tt; among = Among-self best })
most_visited-IsTop visits (a ∷ actions) best h c =
    let (r, e, t) =
      most_visited-IsTop visits actions (round visits a best) h.1 (round-Counts visits a best c) in
    let (up, here) = round-count visits a best in
    (
      r,
      rw (get_elem?-eq-get_or visits a 0 h.0) e,
      record {
        counts = t.counts;
        above = omega (arith, t.above);
        top = (omega (arith, t.above), t.top);
        among = Among-round visits a actions best r t.among;
      },
    )

-- What `select_action` promises: no action only if no valid action was visited, and otherwise a
-- valid action, visited at least once, that no valid action exceeds in visits.
abbrev pub MostVisited : {F : Type 0} → Node F → Option Action → Type 0
MostVisited n none = All (λ b. get_or n.edge_visits b 0 ≡ 0) n.valid_actions
MostVisited n (some a) =
    (contains a n.valid_actions ≡ true)
    × (0 < get_or n.edge_visits a 0)
    × All (λ b. get_or n.edge_visits b 0 ≤ get_or n.edge_visits a 0) n.valid_actions

All-zero :
    (visits : List ℕ) (actions : List Action)
    → All (λ b. get_or visits b 0 ≤ 0) actions
    → All (λ b. get_or visits b 0 ≡ 0) actions
All-zero visits [] h = tt
All-zero visits (a ∷ actions) h = (omega arith, All-zero visits actions h.1)

top-MostVisited :
    {F : Type 0} (n : Node F) (r : Option (Action × ℕ))
    → IsTop n.edge_visits n.valid_actions none r
    → MostVisited n (action_of r)
top-MostVisited n none t = All-zero n.edge_visits n.valid_actions t.top
top-MostVisited n (some (a, v)) t = (
  ground arith,
  omega (arith, t.counts),
  subst (λ k. All (λ b. get_or n.edge_visits b 0 ≤ k) n.valid_actions) t.counts.0 t.top,
)

-- On a dense node `select_action` returns without a panic, and its answer is a most visited
-- valid action, or none if no valid action was visited.
pub select_action-MostVisited :
    {F : Type 0} (n : Node F)
    → IsDense n
    → (r : Option Action) × (select_action n ≡ ok r) × MostVisited n r
unfolding select_action
select_action-MostVisited n d =
    let (r, e, t) =
      most_visited-IsTop n.edge_visits n.valid_actions none
        (subst (λ k. All (λ a. a < k) n.valid_actions) (sym d.visits) d.valid) tt in
    (action_of r, rw e, top-MostVisited n r t)
