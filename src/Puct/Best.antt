-- ===== src/Puct/Best.antt =====
-- The action that `select_action_puct` takes.
use mcts.Prelude.{
  ◌<◌, ◌≡◌, ◌∙◌, refl, sym, ap, subst, Bool, true, false, Option, none, some, List, [], ◌∷◌, length,
  get_or, ◌==◌, ==_self, ok, ◌>>=◌, arith, All, contains, Bool-cases, List-cases, inl, inr,
  get_elem?-eq-get_or,
}
use mcts.Float.{Float, f_zero}
use mcts.Node.{Node, NodeId, Action}
use mcts.Node.Dense.{IsDense}
use mcts.Mcts.{Mcts, get_node}
use mcts.Puct.{
  node_scores, puct_scores, max_from, max_by_score, best_of, select_action_puct, exceeds,
}
use mcts.Puct.Bounds.{Below}
use mcts.Puct.Safe.{node_scores-ok}

some_ok : {A : Type 0} {x y : A} → ok (some x) ≡ ok (some y) → x ≡ y
some_ok h = cc

-- The comparison orders the floats that are numbers: a fact of IEEE 754, NaN left out.
pub record Ordered {F : Type 0} (fl : Float F) (IsNumber : F → Type 0) : Type 0 where
  pub asymm : (x y : F) → exceeds ⦃fl = fl⦄ x y ≡ true → exceeds ⦃fl = fl⦄ y x ≡ false
  pub self : (x : F) → exceeds ⦃fl = fl⦄ x x ≡ false
  pub chain :
      (x y z : F)
      → IsNumber x
      → IsNumber y
      → IsNumber z
      → exceeds ⦃fl = fl⦄ x y ≡ false
      → exceeds ⦃fl = fl⦄ y z ≡ false
      → exceeds ⦃fl = fl⦄ x z ≡ false

module _ {F : Type 0} ⦃fl : Float F⦄ where
  max_from-ok :
      (scores : List F) (best : Action) (actions : List Action)
      → best < length scores
      → Below (length scores) actions
      → (r : Action) × (max_from scores best actions ≡ ok r) × (contains r (best ∷ actions) ≡ true)
  unfolding max_from
  max_from-ok scores best [] h hs = (best, refl, rw (==_self best))
  max_from-ok scores best (a ∷ actions) h hs =
      let sb = get_elem?-eq-get_or scores best f_zero h in
      let sa = get_elem?-eq-get_or scores a f_zero hs.0 in
      elim (Bool-cases (exceeds (get_or scores best f_zero) (get_or scores a f_zero))) [
        | inl keep ↦
            let (r, e, c) = max_from-ok scores best actions h hs.1 in
            (r, rw (sb, sa, keep, e), ground arith)
        | inr change ↦
            let (r, e, c) = max_from-ok scores a actions hs.0 hs.1 in
            (r, rw (sb, sa, change, e), ground arith)
      ]

  pub puct_scores-found :
      (m : Mcts F) (id : NodeId) (n : Node F) (c_puct : F) (is_root forced : Bool)
      → get_node m id ≡ some n
      → puct_scores m id c_puct is_root forced ≡ node_scores m n c_puct is_root forced
  unfolding puct_scores
  puct_scores-found m id n c_puct is_root forced at = rw (at, puct_scores)

  -- An action of the node, or none if the node has no action.
  abbrev pub Chosen : Node F → Option Action → Type 0
  Chosen n none = n.valid_actions ≡ []
  Chosen n (some a) = contains a n.valid_actions ≡ true

  -- At a dense node of the table the choice of an action does not panic. It gives one of the
  -- node's valid actions, and no action only where there is none.
  pub select_action_puct-Chosen :
      (m : Mcts F) (id : NodeId) (n : Node F) (c_puct : F) (is_root forced : Bool)
      → get_node m id ≡ some n
      → IsDense n
      → (r : Option Action) × (select_action_puct m id c_puct is_root forced ≡ ok r) × Chosen n r
  unfolding select_action_puct best_of max_by_score
  select_action_puct-Chosen m id n c_puct is_root forced at d =
      let (scores, e₀, l) = node_scores-ok m n c_puct is_root forced d in
      let e = puct_scores-found m id n c_puct is_root forced at ∙ e₀ in
      elim (List-cases n.valid_actions) [
        | inl empty ↦ elim (Bool-cases (length scores == 0)) [
          | inl z ↦ (none, rw (e, z), empty)
          | inr nz ↦ (none, rw (e, nz, at, empty), empty)
        ]
        | inr (a, actions, some_action) ↦
            let below =
              subst (λ t. Below (length scores) t) some_action
                (subst (λ k. Below k n.valid_actions) (sym l) d.valid) in
            let (r, e', c) = max_from-ok scores a actions below.0 below.1 in
            let nz : (length scores == 0) ≡ false = ground (arith, below.0) in
            (some r, rw (e, nz, at, some_action, e'), rw some_action c)
      ]

  -- No action of the list has a score above that of `a`.
  abbrev pub Unexceeded : List F → Action → List Action → Type 0
  Unexceeded scores a actions =
      All (λ b. exceeds (get_or scores b f_zero) (get_or scores a f_zero) ≡ false) actions

  module _ {IsNumber : F → Type 0} (o : Ordered fl IsNumber) where
    max_from-Unexceeded :
        (scores : List F) (best : Action) (actions : List Action) (r : Action)
        → best < length scores
        → Below (length scores) actions
        → All (λ b. IsNumber (get_or scores b f_zero)) (best ∷ actions)
        → max_from scores best actions ≡ ok r
        → Unexceeded scores r (best ∷ actions) × IsNumber (get_or scores r f_zero)
    unfolding max_from
    max_from-Unexceeded scores best [] r h hs nums e =
        let same : best ≡ r = cc in rw (← same) ((o.self (get_or scores best f_zero), tt), nums.0)
    max_from-Unexceeded scores best (a ∷ actions) r h hs nums e =
        let sb = get_elem?-eq-get_or scores best f_zero h in
        let sa = get_elem?-eq-get_or scores a f_zero hs.0 in
        elim (Bool-cases (exceeds (get_or scores best f_zero) (get_or scores a f_zero))) [
          | inl keep ↦
              let (top, num) =
                max_from-Unexceeded scores best actions r h hs.1 (nums.0, nums.1.1)
                  (rw (sb, sa, keep) at e) in
              (
                (
                  top.0,
                  (
                    o.chain (get_or scores a f_zero) (get_or scores best f_zero)
                        (get_or scores r f_zero) nums.1.0 nums.0 num (o.asymm _ _ keep) top.0,
                    top.1,
                  ),
                ),
                num,
              )
          | inr change ↦
              let (top, num) =
                max_from-Unexceeded scores a actions r hs.0 hs.1 nums.1
                  (rw (sb, sa, change) at e) in
              (
                (
                  o.chain (get_or scores best f_zero) (get_or scores a f_zero)
                      (get_or scores r f_zero) nums.0 nums.1.0 num change top.0,
                  top,
                ),
                num,
              )
        ]

    -- At a dense node, where the comparison orders numbers and every valid action's score is a
    -- number: if an action is chosen, no valid action scores above it.
    pub select_action_puct-Unexceeded :
        (m : Mcts F) (id : NodeId) (n : Node F) (c_puct : F) (is_root forced : Bool)
        (scores : List F) (a : Action)
        → get_node m id ≡ some n
        → IsDense n
        → puct_scores m id c_puct is_root forced ≡ ok scores
        → All (λ b. IsNumber (get_or scores b f_zero)) n.valid_actions
        → select_action_puct m id c_puct is_root forced ≡ ok (some a)
        → Unexceeded scores a n.valid_actions
    unfolding select_action_puct best_of max_by_score
    select_action_puct-Unexceeded m id n c_puct is_root forced scores a at d e nums h =
        let (scores', e', l') = node_scores-ok m n c_puct is_root forced d in
        let same : scores ≡ scores' = cc (puct_scores-found m id n c_puct is_root forced at) in
        let l : length scores ≡ n.num_actions = rw same l' in
        elim (List-cases n.valid_actions) [
          | inl empty ↦ rw empty tt
          | inr (b, actions, some_action) ↦
              let below =
                subst (λ t. Below (length scores) t) some_action
                  (subst (λ k. Below k n.valid_actions) (sym l) d.valid) in
              let nz : (length scores == 0) ≡ false = ground (arith, below.0) in
              let h' : (max_from scores b actions >>= λ best. ok (some best)) ≡ ok (some a) =
                rw (e, nz, at, some_action) at h in
              let (r, found, _) = max_from-ok scores b actions below.0 below.1 in
              let same_r : r ≡ a = some_ok (rw found at h') in
              rw some_action
                (max_from-Unexceeded scores b actions a below.0 below.1 (rw some_action at nums)
                  (found ∙ ap ok same_r)).0
        ]
