-- ===== src/Puct.antt =====
-- mcts-core/src/mcts.rs, `puct_scores` and `select_action_puct`: the score of each action of a
-- node, and the action that a playout takes. An index out of bounds is a panic.
pub mod Bounds
pub mod Safe
pub mod Best
use Prim.Native.Nat.{Ordering}
use mcts.Prelude.{
  ℕ, Bool, true, false, ◌&&◌, ◌||◌, Option, none, some, List, [], ◌∷◌, length, get_elem?, set,
  replicate, ltb, ◌==◌, if◌then◌else◌, add_usize, sum_usize, Exec, ok, panic, ◌>>=◌, index, lookup,
}
use mcts.Float.{Float, f_zero, f_one, sum_f32}
use mcts.Node.{Node, NodeId, Action, to_action_index}
use mcts.Mcts.{Mcts, get_node}

module _ {A : Type 0} where
  -- `v[i] = x`.
  abbrev pub assign : List A → ℕ → A → Exec (List A)
  assign xs i x = if ltb i (length xs) then ok (set xs i x) else panic

  -- The values at the actions' slots, in the order of the actions.
  unfoldable pub gather : List A → List Action → Exec (List A)
  gather xs [] = ok []
  gather xs (a ∷ actions) = do
    x ← index xs (to_action_index a)
    rest ← gather xs actions
    ok (x ∷ rest)

  -- A loop that computes a new value for the slot of each action.
  unfoldable pub write_each : (Action → Exec A) → List Action → List A → Exec (List A)
  write_each f [] xs = ok xs
  write_each f (a ∷ actions) xs = do
    x ← f a
    ys ← assign xs (to_action_index a) x
    write_each f actions ys

  -- A loop that updates the slot of each action in place.
  unfoldable pub update_each : (A → A) → List Action → List A → Exec (List A)
  update_each f [] xs = ok xs
  update_each f (a ∷ actions) xs = do
    x ← index xs (to_action_index a)
    ys ← assign xs (to_action_index a) (f x)
    update_each f actions ys

module _ {F : Type 0} where
  -- The actions that have been visited.
  unfoldable pub explored : Node F → List Action → Exec (List Action)
  explored node [] = ok []
  explored node (a ∷ actions) = do
    v ← index node.edge_visits (to_action_index a)
    rest ← explored node actions
    ok (if ltb 0 v then a ∷ rest else rest)

  -- `node.children.get(idx).and_then(|c| *c)`
  unfoldable pub child_at : Node F → Action → Option NodeId
  child_at node a = elim (get_elem? node.children (to_action_index a)) [ none ↦ none | some c ↦ c ]

  abbrev pub or_zero : F → Option F → F
  or_zero z none = z
  or_zero z (some x) = x

module _ {F : Type 0} ⦃fl : Float F⦄ where
  -- Divide the slots of the actions by their sum, if it is positive.
  unfoldable pub renormalise : List Action → List F → Exec (List F)
  unfolding gather update_each
  renormalise actions buf = do
    xs ← gather buf actions
    let total = sum_f32 xs
    if fl.lt f_zero total then update_each (λ x. fl.div x total) actions buf else ok buf

  -- `(1 - eps) * prior + eps * n`.
  unfoldable pub mixed_prior : F → List (Action × F) → Node F → Action → Exec F
  mixed_prior eps noise node a = do
    prior ← index node.prior_probs (to_action_index a)
    ok (fl.add (fl.mul (fl.sub f_one eps) prior) (fl.mul eps (or_zero f_zero (lookup a noise))))

  -- The part under `if let Some(noise)`.
  unfoldable pub blend : F → Option (List (Action × F)) → Node F → Exec (List F)
  unfolding mixed_prior write_each renormalise
  blend eps none node = ok node.prior_probs
  blend eps (some noise) node = do
    mixed ← write_each (mixed_prior eps noise node) node.valid_actions node.prior_probs
    renormalise node.valid_actions mixed

  -- The part under `if needs_softmax`.
  unfoldable pub soften : F → Node F → List F → Exec (List F)
  unfolding update_each renormalise
  soften temp node buf = do
    raised ←
        update_each (λ x. fl.powf (fl.max_of x (fl.lit 1 30)) (fl.div f_one temp))
          node.valid_actions buf
    renormalise node.valid_actions raised

  unfoldable pub needs_softmax : Mcts F → Bool → Bool
  needs_softmax m is_root =
      is_root && fl.lt (fl.lit 1 6) (fl.abs (fl.sub m.root_softmax_temp f_one))

  unfoldable pub needs_noise : Mcts F → Bool → Bool
  needs_noise m is_root = elim m.root_noise [ none ↦ false | some _ ↦ is_root ]

  -- `effective_buf`, or the node's own priors where there is none: a later read of either is at
  -- the same index.
  unfoldable pub effective_priors : Mcts F → Node F → Bool → Exec (List F)
  unfolding needs_softmax needs_noise blend soften
  effective_priors m node is_root =
      if needs_noise m is_root || needs_softmax m is_root
      then (do
        mixed ← blend m.root_noise_epsilon m.root_noise node
        if needs_softmax m is_root then soften m.root_softmax_temp node mixed else ok mixed)
      else ok node.prior_probs

  -- Q of an action: the value of its child in the table, or else the first-play urgency.
  unfoldable pub q_value : Mcts F → Node F → F → F → Action → F
  unfolding child_at get_node
  q_value m node fpu_q penalty a = elim (child_at node a) [
    | none ↦ fl.add fpu_q penalty
    | some c ↦ elim (get_node m c) [
      | none ↦ fl.add fpu_q penalty
      | some child ↦ fl.add child.value penalty
    ]
  ]

  -- `V(n) − c_fpu × √P_explored`, with no reduction at the root.
  unfoldable pub first_play_urgency : Mcts F → Node F → Bool → Exec F
  unfolding explored gather
  first_play_urgency m node is_root = do
    seen ← explored node node.valid_actions
    priors ← gather node.prior_probs seen
    let c_fpu_eff = if is_root then f_zero else m.c_fpu
    ok (fl.sub node.value (fl.mul c_fpu_eff (fl.sqrt (sum_f32 priors))))

  -- The visits below which a root child is forced.
  abbrev pub n_forced : Mcts F → F → ℕ → F
  n_forced m prior total_visits =
      fl.sqrt (fl.mul (fl.mul m.k_forced prior) (fl.of_usize total_visits))

  -- The score of an action with the given visits, virtual losses, penalty and prior.
  unfoldable pub score_of : Mcts F → Node F → F → Bool → Bool → ℕ → F → Action → ℕ → ℕ → F → F → F
  unfolding q_value
  score_of m node c_puct is_root apply_forced total_visits fpu_q a visits losses penalty prior =
      if is_root
        && apply_forced
        && ltb 0 total_visits
        && fl.lt (fl.of_usize visits) (n_forced m prior total_visits)
      then fl.infinity
      else fl.add (q_value m node fpu_q penalty a) (
          fl.mul (fl.mul c_puct prior) (
            fl.div (fl.add (fl.sqrt (fl.of_usize total_visits)) (fl.lit 1 8))
              (fl.add f_one (fl.of_usize (add_usize visits losses)))))

  -- The body of the loop over the valid actions.
  unfoldable pub score_action : Mcts F → Node F → F → Bool → Bool → ℕ → F → List F → Action → Exec F
  unfolding score_of
  score_action m node c_puct is_root apply_forced total_visits fpu_q priors a = do
    visits ← index node.edge_visits (to_action_index a)
    losses ← index node.virtual_losses (to_action_index a)
    penalty ← index node.edge_penalties (to_action_index a)
    prior ← index priors (to_action_index a)
    ok (
        score_of m node c_puct is_root apply_forced total_visits fpu_q a visits losses penalty
          prior)

  -- The scores of a node that is there.
  unfoldable pub node_scores : Mcts F → Node F → F → Bool → Bool → Exec (List F)
  unfolding first_play_urgency effective_priors score_action write_each
  node_scores m node c_puct is_root apply_forced = do
    fpu_q ← first_play_urgency m node is_root
    priors ← effective_priors m node is_root
    write_each
        (score_action m node c_puct is_root apply_forced (sum_usize node.edge_visits) fpu_q priors)
        node.valid_actions (replicate node.num_actions (fl.neg fl.infinity))

  unfoldable pub puct_scores : Mcts F → NodeId → F → Bool → Bool → Exec (List F)
  unfolding get_node node_scores
  puct_scores m id c_puct is_root apply_forced = elim (get_node m id) [
    | none ↦ ok []
    | some node ↦ node_scores m node c_puct is_root apply_forced
  ]

  -- `partial_cmp` is `Greater`, an incomparable pair counting as equal.
  abbrev pub exceeds : F → F → Bool
  exceeds x y = elim (fl.partial_cmp x y) [
    | none ↦ false
    | some o ↦ elim o [ Ordering.gt ↦ true | _ ↦ false ]
  ]

  -- `Iterator::max_by`: a later action replaces the best one unless the best one exceeds it.
  unfoldable pub max_from : List F → Action → List Action → Exec Action
  max_from scores best [] = ok best
  max_from scores best (a ∷ actions) = do
    sb ← index scores (to_action_index best)
    sa ← index scores (to_action_index a)
    max_from scores (if exceeds sb sa then best else a) actions

  unfoldable pub max_by_score : List F → List Action → Exec (Option Action)
  unfolding max_from
  max_by_score scores [] = ok none
  max_by_score scores (a ∷ actions) = do best ← max_from scores a actions; ok (some best)

  unfoldable pub best_of : List F → Option (Node F) → Exec (Option Action)
  unfolding max_by_score
  best_of scores none = ok none
  best_of scores (some node) = max_by_score scores node.valid_actions

  -- No score, or no node, means no action.
  unfoldable pub select_action_puct : Mcts F → NodeId → F → Bool → Bool → Exec (Option Action)
  unfolding puct_scores best_of
  select_action_puct m id c_puct is_root apply_forced = do
    scores ← puct_scores m id c_puct is_root apply_forced
    best_of scores (if length scores == 0 then none else get_node m id)
