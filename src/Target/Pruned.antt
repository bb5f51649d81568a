-- ===== src/Target/Pruned.antt =====
-- What `policy_target` makes of the visits: nothing but the visits of valid actions, and the best
-- action's in full.
use mcts.Prelude.{
  ℕ, suc, map, max, Bool-cases, inl, inr, ◌-◌, ◌<◌, ◌≤◌, ◌≡◌, ◌∙◌, refl, ap, true, false, ◌&&◌,
  ◌||◌, Option, none, some, List, [], ◌∷◌, length, get_or, All, arith, contains, keys, lookup,
  insert, Distinct, map_some, min, ltb, ◌==◌, ==_self, if◌then◌else◌, Bool, get_elem?,
  get_elem?-eq-get_or, sum_usize, ok,
}
use mcts.Float.{Float, f_zero, f_one}
use mcts.Node.{Node, NodeId, Action}
use mcts.Node.Dense.{IsDense}
use mcts.Mcts.{Mcts, get_node}
use mcts.Puct.{puct_scores, q_value, or_zero}
use mcts.Puct.Safe.{node_scores-ok}
use mcts.Target.{
  update_counts, retain_many, q_values_from, reduced, forced_count, max_subtract, pruned_visits,
  shares, distribution, target_with, target_of, target_at, target_from, policy_target,
}
use mcts.Target.Counts.{
  many, keys-update_counts, lookup-update_counts, lookup-retain_many, visited-lookup, leader,
}

if_le : (b : Bool) (x y v : ℕ) → x ≤ v → y ≤ v → (if b then x else y) ≤ v
if_le true x y v h k = h
if_le false x y v h k = k

-- The visits of a map's entry, 0 where there is none.
abbrev pub visits_of : Option ℕ → ℕ
visits_of none = 0
visits_of (some v) = v

many-le : (o : Option ℕ) (v : ℕ) → visits_of o ≤ v → visits_of (many o) ≤ v
many-le none v h = h
many-le (some x) v h = if_some (ltb 1 x) x v h
  where
    if_some : (b : Bool) (x v : ℕ) → x ≤ v → visits_of (if b then some x else none) ≤ v
    if_some true x v h = h
    if_some false x v h = omega arith

-- The counts that are left: the best action is a most visited valid one and keeps its visits
-- unless there is only one, and no other action has more than its visits. Each visited valid action
-- loses at most its forced playouts, and is left out if it then has fewer than two.
pub record IsPruned {F : Type 0} ⦃fl : Float F⦄ (m : Mcts F) (n : Node F) (best : Action)
    (counts : List (Action × ℕ)) : Type 0 where
  pub lost : Action → ℕ
  pub forced :
      (b : Action)
      → lost b
        ≤ forced_count m (or_zero f_zero (get_elem? n.prior_probs b)) (sum_usize n.edge_visits)
  pub left :
      (b : Action)
      → lookup b counts ≡ (
          if contains b n.valid_actions && ltb 0 (get_or n.edge_visits b 0)
          then many (some (get_or n.edge_visits b 0 - lost b))
          else none)
  pub chosen : contains best n.valid_actions ≡ true
  pub top : All (λ a. get_or n.edge_visits a 0 ≤ get_or n.edge_visits best 0) n.valid_actions
  pub kept : lookup best counts ≡ many (some (get_or n.edge_visits best 0))
  pub bounded :
      (b : Action)
      → visits_of (lookup b counts)
        ≤ (if contains b n.valid_actions then get_or n.edge_visits b 0 else 0)

-- A target that gives each action of the counts its share of their sum, and no other action anything;
-- all of it goes to the best action where there are no counts.
pub record IsShared {F : Type 0} ⦃fl : Float F⦄ (best : Action) (counts : List (Action × ℕ))
    (target : List (Action × F)) : Type 0 where
  pub share :
      (b : Action)
      → lookup b target ≡ (
          if length counts == 0
          then (if best == b then some f_one else none)
          else map_some
              (λ v. fl.div (fl.of_usize v) (fl.of_usize (sum_usize (map (λ e. e.1) counts))))
              (lookup b counts))
  pub size : length target ≡ max 1 (length counts)

module _ {F : Type 0} ⦃fl : Float F⦄ where
  lookup-shares :
      (total : F) (counts : List (Action × ℕ)) (b : Action)
      → lookup b (shares total counts)
        ≡ map_some (λ v. fl.div (fl.of_usize v) total) (lookup b counts)
  unfolding shares
  lookup-shares total [] b = refl
  lookup-shares total ((a, v) ∷ counts) b = elim (Bool-cases (a == b)) [
    | inl here ↦ rw here refl
    | inr other ↦ rw other (lookup-shares total counts b)
  ]

  length-shares :
      (total : F) (counts : List (Action × ℕ)) → length (shares total counts) ≡ length counts
  unfolding shares
  length-shares total [] = refl
  length-shares total ((a, v) ∷ counts) = ap suc (length-shares total counts)

  distribution-IsShared :
      (best : Action) (counts : List (Action × ℕ))
      → IsShared {F = F} best counts (distribution best counts)
  unfolding distribution
  distribution-IsShared best [] = record { share = λ b. refl; size = refl }
  distribution-IsShared best (c ∷ counts) =
      let total : F = fl.of_usize (sum_usize (map (λ e. e.1) (c ∷ counts))) in
      let busy : (length (c ∷ counts) == 0) ≡ false = ground arith in
      record {
        share = λ b. rw busy (lookup-shares total (c ∷ counts) b);
        size = length-shares total (c ∷ counts) ∙ omega arith;
      }

  q_values-ok :
      (m : Mcts F) (n : Node F) (actions : List Action) (qs : List (Action × F))
      → All (λ a. a < length n.edge_penalties) actions
      → (r : List (Action × F)) × (q_values_from m n actions qs ≡ ok r)
  unfolding q_values_from
  q_values-ok m n [] qs h = (qs, refl)
  q_values-ok m n (a ∷ actions) qs h =
      let (r, e) =
        q_values-ok m n actions
          (insert a (q_value m n n.value (get_or n.edge_penalties a f_zero) a) qs) h.1 in
      (r, rw (get_elem?-eq-get_or n.edge_penalties a f_zero h.0) e)

  reduced-le :
      (m : Mcts F) (c_puct prior : F) (n_total : ℕ) (p q : F) (v : ℕ)
      → reduced m c_puct prior n_total p q v ≤ v
  unfolding reduced
  reduced-le m c_puct prior n_total p q v =
      let less : v - min (forced_count m prior n_total) (max_subtract c_puct prior n_total p q v)
          ≤ v =
        omega arith in
      if_le (fl.eq prior f_zero || forced_count m prior n_total == 0) v
        (v - min (forced_count m prior n_total) (max_subtract c_puct prior n_total p q v)) v
        (omega arith) less

  pruned_visits-le :
      (m : Mcts F) (n : Node F) (c_puct : F) (n_total : ℕ) (best : Action) (p : F)
      (qs : List (Action × F)) (a : Action) (v : ℕ)
      → pruned_visits m n c_puct n_total best p qs a v ≤ v
  unfolding pruned_visits
  pruned_visits-le m n c_puct n_total best p qs a v =
      let prior = or_zero f_zero (get_elem? n.prior_probs a) in
      let q = or_zero n.value (lookup a qs) in
      if_le (a == best) v (reduced m c_puct prior n_total p q v) v (omega arith)
        (reduced-le m c_puct prior n_total p q v)

  puct_scores-ok :
      (m : Mcts F) (id : NodeId) (n : Node F) (c_puct : F)
      → get_node m id ≡ some n
      → IsDense n
      → (scores : List F) × (puct_scores m id c_puct true false ≡ ok scores)
  unfolding puct_scores
  puct_scores-ok m id n c_puct at d =
      let (scores, e, size) = node_scores-ok m n c_puct true false d in
      (scores, rw (at, puct_scores) e)

  -- Pruning takes at most the forced playouts of an action.
  reduced-forced :
      (m : Mcts F) (c_puct prior : F) (n_total : ℕ) (p q : F) (v : ℕ)
      → v - reduced m c_puct prior n_total p q v ≤ forced_count m prior n_total
  unfolding reduced
  reduced-forced m c_puct prior n_total p q v =
      elim (Bool-cases (fl.eq prior f_zero || forced_count m prior n_total == 0)) [
        | inl free ↦ rw free (omega arith)
        | inr bound ↦ rw bound (omega arith)
      ]

  pruned_visits-forced :
      (m : Mcts F) (n : Node F) (c_puct : F) (n_total : ℕ) (best : Action) (p : F)
      (qs : List (Action × F)) (a : Action) (v : ℕ)
      → v - pruned_visits m n c_puct n_total best p qs a v
        ≤ forced_count m (or_zero f_zero (get_elem? n.prior_probs a)) n_total
  unfolding pruned_visits
  pruned_visits-forced m n c_puct n_total best p qs a v = elim (Bool-cases (a == best)) [
    | inl leader ↦ rw leader (omega arith)
    | inr other ↦ rw other (
        reduced-forced m c_puct (or_zero f_zero (get_elem? n.prior_probs a)) n_total p
          (or_zero n.value (lookup a qs)) v)
  ]

  pruned_visits-best :
      (m : Mcts F) (n : Node F) (c_puct : F) (n_total : ℕ) (best : Action) (p : F)
      (qs : List (Action × F)) (v : ℕ)
      → pruned_visits m n c_puct n_total best p qs best v ≡ v
  unfolding pruned_visits
  pruned_visits-best m n c_puct n_total best p qs v = rw (==_self best) refl

  -- What a pruning that takes visits away, and none from the best action, leaves.
  prune-IsPruned :
      (m : Mcts F) (n : Node F) (best : Action) (f : Action → ℕ → ℕ) (visited : List (Action × ℕ))
      → ((a : Action) (v : ℕ) → f a v ≤ v)
      → ((a : Action) (v : ℕ)
          → v - f a v
            ≤ forced_count m (or_zero f_zero (get_elem? n.prior_probs a)) (sum_usize n.edge_visits))
      → ((v : ℕ) → f best v ≡ v)
      → contains best n.valid_actions ≡ true
      → All (λ a. get_or n.edge_visits a 0 ≤ get_or n.edge_visits best 0) n.valid_actions
      → Distinct (keys visited)
      → ((b : Action)
          → lookup b visited ≡ (
              if contains b n.valid_actions && ltb 0 (get_or n.edge_visits b 0)
              then some (get_or n.edge_visits b 0)
              else none))
      → IsPruned m n best (retain_many (update_counts f visited))
  prune-IsPruned m n best f visited le forced same there top d at =
      let look : (b : Action)
          → lookup b (retain_many (update_counts f visited))
            ≡ many (map_some (f b) (lookup b visited)) =
        λ b.
          lookup-retain_many b (update_counts f visited) (rw (keys-update_counts f visited) d)
          ∙ ap many (lookup-update_counts f b visited) in
      record {
        lost = λ b. get_or n.edge_visits b 0 - f b (get_or n.edge_visits b 0);
        forced = λ b. forced b (get_or n.edge_visits b 0);
        left = λ b.
            let v : ℕ = get_or n.edge_visits b 0 in
            let back : v - (v - f b v) ≡ f b v = omega (arith, le b v) in
            rw back (look b ∙ ground (arith, at b));
        chosen = there;
        top = top;
        kept = look best ∙ ground (arith, at best, there, same (get_or n.edge_visits best 0));
        bounded = λ b. rw (look b) (
            many-le (map_some (f b) (lookup b visited)) _
              (ground (arith, at b, le b (get_or n.edge_visits b 0))));
      }

  -- On a tree whose root is there and dense, has a total of visits that is not 0 and has a valid
  -- action, `policy_target` returns a target that gives each action of certain counts its share
  -- of their sum, or all to the best action where there are no counts. In the counts the best
  -- action, a most visited valid one, keeps its visits; every other visited valid action has its
  -- visits less at most its forced playouts; and an action that then has fewer than two, or that is
  -- not valid, has none.
  pub policy_target_lem :
      (m : Mcts F) (root : NodeId) (n : Node F) (c_puct : F)
      → m.root_id ≡ some root
      → get_node m root ≡ some n
      → IsDense n
      → (sum_usize n.edge_visits == 0) ≡ false
      → 0 < length n.valid_actions
      → (best : Action) × (counts : List (Action × ℕ)) × (target : List (Action × F))
        × (policy_target c_puct m ≡ ok (some target))
        × IsPruned m n best counts
        × IsShared {F = F} best counts target
  unfolding policy_target target_from target_at target_of target_with
  policy_target_lem m root n c_puct at_root at d some_visit some_action =
      let (qs, e₁) = q_values-ok m n n.valid_actions [] (rw d.penalties d.valid) in
      let (scores, e₂) = puct_scores-ok m root n c_puct at d in
      let (best, e₃, top, there) =
        leader n.edge_visits n.valid_actions some_action (rw d.visits d.valid) in
      let (visited, e₄, distinct, look) =
        visited-lookup n.edge_visits n.valid_actions [] (rw d.visits d.valid) tt in
      let n_total = sum_usize n.edge_visits in
      let puct_best = or_zero (fl.neg fl.infinity) (get_elem? scores best) in
      let counts : List (Action × ℕ) =
        retain_many (update_counts (pruned_visits m n c_puct n_total best puct_best qs) visited) in
      (
        best,
        counts,
        distribution best counts,
        ap (target_from m c_puct) at_root
            ∙ ap (target_at m c_puct root) at
            ∙ rw (some_visit, target_of, e₁, e₂, e₃, e₄) refl,
        prune-IsPruned m n best (pruned_visits m n c_puct n_total best puct_best qs) visited
            (pruned_visits-le m n c_puct n_total best puct_best qs)
            (pruned_visits-forced m n c_puct n_total best puct_best qs)
            (pruned_visits-best m n c_puct n_total best puct_best qs) there top distinct look,
        distribution-IsShared best counts,
      )
