-- ===== src/Target/Counts.antt =====
-- The maps of visits that `policy_target` builds, and its search for the most visited action.
use mcts.Prelude.{
  ℕ, ◌<◌, ◌≤◌, ◌≡◌, ◌∙◌, refl, ap, true, false, ◌&&◌, Option, none, some, List, [], ◌∷◌, length,
  get_or, All, arith, inl, inr, contains, keys, lookup, lookup-none, insert, lookup-insert,
  contains-keys-insert, Distinct, map_some, ltb, leb, ◌==◌, ==_self, if◌then◌else◌, Bool-cases,
  get_elem?-eq-get_or, ok,
}
use mcts.Node.{Action, better}
use mcts.Target.{leader_from, visited_from, update_counts, retain_many}

-- A count of more than one stays.
abbrev pub many : Option ℕ → Option ℕ
many none = none
many (some v) = if ltb 1 v then some v else none

pub Distinct-insert :
    (k v : ℕ) (m : List (ℕ × ℕ)) → Distinct (keys m) → Distinct (keys (insert k v m))
Distinct-insert k v [] h = (refl, tt)
Distinct-insert k v ((j, w) ∷ m) h = elim (Bool-cases (j == k)) [
  | inl same ↦ let e : j ≡ k = ground (arith, same) in rw same (rw (← e) h)
  | inr other ↦
      rw other (ground (arith, contains-keys-insert k j v m, other, h.0), Distinct-insert k v m h.1)
]

pub keys-update_counts :
    (f : Action → ℕ → ℕ) (m : List (Action × ℕ)) → keys (update_counts f m) ≡ keys m
unfolding update_counts
keys-update_counts f [] = refl
keys-update_counts f ((a, v) ∷ m) = ap (λ ks. a ∷ ks) (keys-update_counts f m)

pub lookup-update_counts :
    (f : Action → ℕ → ℕ) (a : Action) (m : List (Action × ℕ))
    → lookup a (update_counts f m) ≡ map_some (f a) (lookup a m)
unfolding update_counts
lookup-update_counts f a [] = refl
lookup-update_counts f a ((b, v) ∷ m) = elim (Bool-cases (b == a)) [
  | inl same ↦ let e : b ≡ a = ground (arith, same) in rw (same, e) refl
  | inr other ↦ rw other (lookup-update_counts f a m)
]

pub lookup-retain_many :
    (a : Action) (m : List (Action × ℕ))
    → Distinct (keys m)
    → lookup a (retain_many m) ≡ many (lookup a m)
unfolding retain_many
lookup-retain_many a [] h = refl
lookup-retain_many a ((b, v) ∷ m) h =
    let rest = lookup-retain_many a m h.1 in
    elim (Bool-cases (b == a)) [
      | inl same ↦
          let e : b ≡ a = ground (arith, same) in
          let gone : lookup a m ≡ none = lookup-none a m (rw (← e) h.0) in
          ground (arith, rest, gone, same)
      | inr other ↦ ground (arith, rest, other)
    ]

-- A visit of `a` is entered before the other actions.
seen-insert :
    (visits : List ℕ) (a b : Action) (actions : List Action) (counts : List (Action × ℕ))
    → ltb 0 (get_or visits a 0) ≡ true
    → (if contains b actions && ltb 0 (get_or visits b 0)
        then some (get_or visits b 0)
        else lookup b (insert a (get_or visits a 0) counts))
      ≡ (if contains b (a ∷ actions) && ltb 0 (get_or visits b 0)
          then some (get_or visits b 0)
          else lookup b counts)
seen-insert visits a b actions counts h = elim (Bool-cases (a == b)) [
  | inl same ↦
      let e : a ≡ b = ground (arith, same) in
      rw (← e) (ground (arith, h, lookup-insert a a (get_or visits a 0) counts, ==_self a))
  | inr other ↦ ground (arith, other, lookup-insert a b (get_or visits a 0) counts)
]

seen-skip :
    (visits : List ℕ) (a b : Action) (actions : List Action) (counts : List (Action × ℕ))
    → ltb 0 (get_or visits a 0) ≡ false
    → (if contains b actions && ltb 0 (get_or visits b 0)
        then some (get_or visits b 0)
        else lookup b counts)
      ≡ (if contains b (a ∷ actions) && ltb 0 (get_or visits b 0)
          then some (get_or visits b 0)
          else lookup b counts)
seen-skip visits a b actions counts h = elim (Bool-cases (a == b)) [
  | inl same ↦ let e : a ≡ b = ground (arith, same) in rw (← e) (ground (arith, h))
  | inr other ↦ ground (arith, other)
]

-- The first map: each valid action that was visited, and its visits.
pub visited-lookup :
    (visits : List ℕ) (actions : List Action) (counts : List (Action × ℕ))
    → All (λ a. a < length visits) actions
    → Distinct (keys counts)
    → (r : List (Action × ℕ)) × (visited_from visits actions counts ≡ ok r)
      × Distinct (keys r)
      × ((b : Action)
          → lookup b r ≡ (
              if contains b actions && ltb 0 (get_or visits b 0)
              then some (get_or visits b 0)
              else lookup b counts))
unfolding visited_from
visited-lookup visits [] counts h d = (counts, refl, d, λ b. refl)
visited-lookup visits (a ∷ actions) counts h d = elim (Bool-cases (ltb 0 (get_or visits a 0))) [
  | inl some_visit ↦
      let (r, e, d', l) =
        visited-lookup visits actions (insert a (get_or visits a 0) counts) h.1
          (Distinct-insert a (get_or visits a 0) counts d) in
      (
        r,
        rw (get_elem?-eq-get_or visits a 0 h.0, some_visit, visited_from) e,
        d',
        λ b. l b ∙ seen-insert visits a b actions counts some_visit,
      )
  | inr unvisited ↦
      let (r, e, d', l) = visited-lookup visits actions counts h.1 d in
      (
        r,
        rw (get_elem?-eq-get_or visits a 0 h.0, unvisited, visited_from) e,
        d',
        λ b. l b ∙ seen-skip visits a b actions counts unvisited,
      )
]

-- From a best action on, the loop ends with one that no action exceeds in visits.
lead :
    (visits : List ℕ) (actions : List Action) (b : Action)
    → All (λ a. a < length visits) actions
    → (r : Action) × (leader_from visits actions (some (b, get_or visits b 0))
        ≡ ok (some (r, get_or visits r 0)))
      × (get_or visits b 0 ≤ get_or visits r 0)
      × All (λ a. get_or visits a 0 ≤ get_or visits r 0) actions
      × (contains r (b ∷ actions) ≡ true)
unfolding leader_from better
lead visits [] b h = (b, refl, omega arith, tt, ground (arith, ==_self b))
lead visits (a ∷ actions) b h = elim (Bool-cases (leb (get_or visits a 0) (get_or visits b 0))) [
  | inl keep ↦
      let (r, e, up, top, there) = lead visits actions b h.1 in
      (
        r,
        rw (get_elem?-eq-get_or visits a 0 h.0, keep, leader_from, better) e,
        up,
        (ground (arith, keep, up), top),
        ground (arith, there),
      )
  | inr better_one ↦
      let (r, e, up, top, there) = lead visits actions a h.1 in
      (
        r,
        rw (get_elem?-eq-get_or visits a 0 h.0, better_one, leader_from, better) e,
        ground (arith, better_one, up),
        (up, top),
        ground (arith, there),
      )
]

-- From no action at all.
pub leader :
    (visits : List ℕ) (actions : List Action)
    → 0 < length actions
    → All (λ a. a < length visits) actions
    → (r : Action) × (leader_from visits actions none ≡ ok (some (r, get_or visits r 0)))
      × All (λ a. get_or visits a 0 ≤ get_or visits r 0) actions
      × (contains r actions ≡ true)
unfolding leader_from better
leader visits [] p h = absurd (omega arith)
leader visits (a ∷ actions) p h =
    let (r, e, up, top, there) = lead visits actions a h.1 in
    (r, rw (get_elem?-eq-get_or visits a 0 h.0, leader_from, better) e, (up, top), there)
