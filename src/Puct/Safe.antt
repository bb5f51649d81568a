-- ===== src/Puct/Safe.antt =====
-- On a dense node no index of the scoring is out of bounds.
use mcts.Prelude.{
  ℕ, ◌<◌, ◌≡◌, ◌∙◌, refl, sym, subst, Bool, ◌||◌, Option, none, some, List, [], ◌∷◌, length, lookup,
  replicate, length-replicate, ltb, if◌then◌else◌, ok, index, arith, All, Bool-cases, inl, inr,
  sum_usize,
}
use mcts.Float.{Float, f_zero, f_one, sum_f32}
use mcts.Node.{Node, Action}
use mcts.Node.Dense.{IsDense}
use mcts.Mcts.{Mcts}
use mcts.Puct.{
  explored, renormalise, mixed_prior, blend, soften, needs_softmax, needs_noise, effective_priors,
  first_play_urgency, score_of, score_action, node_scores, or_zero,
}
use mcts.Puct.Bounds.{Below, index-ok, gather-ok, write_each-ok, update_each-ok}

All-index {ℓ} :
    {A : Type ℓ} (xs : List A) (actions : List Action)
    → Below (length xs) actions
    → All (λ a. (x : A) × (index xs a ≡ ok x)) actions
All-index xs [] h = tt
All-index xs (a ∷ actions) h = (index-ok xs a h.0, All-index xs actions h.1)

module _ {F : Type 0} where
  explored-ok :
      (n : Node F) (k : ℕ) (actions : List Action)
      → length n.edge_visits ≡ k
      → Below k actions
      → (seen : List Action) × (explored n actions ≡ ok seen) × Below k seen
  unfolding explored
  explored-ok n k [] e h = ([], refl, tt)
  explored-ok n k (a ∷ actions) e h =
      let (v, ev) = index-ok n.edge_visits a (omega (arith, h.0)) in
      let (seen, es, hs) = explored-ok n k actions e h.1 in
      elim (Bool-cases (ltb 0 v)) [
        | inl more ↦ (a ∷ seen, rw (ev, es, more), (h.0, hs))
        | inr less ↦ (seen, rw (ev, es, less), hs)
      ]

module _ {F : Type 0} ⦃fl : Float F⦄ where
  renormalise-ok :
      (actions : List Action) (buf : List F)
      → Below (length buf) actions
      → (out : List F) × (renormalise actions buf ≡ ok out) × (length out ≡ length buf)
  unfolding renormalise
  renormalise-ok actions buf h =
      let (xs, e) = gather-ok buf actions h in
      elim (Bool-cases (fl.lt f_zero (sum_f32 xs))) [
        | inl more ↦
            let (out, es, l) = update_each-ok (λ x. fl.div x (sum_f32 xs)) actions buf h in
            (out, rw (e, more, es), l)
        | inr less ↦ (buf, rw (e, less), refl)
      ]

  soften-ok :
      (temp : F) (n : Node F) (buf : List F)
      → Below (length buf) n.valid_actions
      → (out : List F) × (soften temp n buf ≡ ok out) × (length out ≡ length buf)
  unfolding soften
  soften-ok temp n buf h =
      let (raised, e, l) =
        update_each-ok (λ x. fl.powf (fl.max_of x (fl.lit 1 30)) (fl.div f_one temp))
          n.valid_actions buf h in
      let (out, es, l') =
        renormalise-ok n.valid_actions raised (subst (λ k. Below k n.valid_actions) (sym l) h) in
      (out, rw (e, es), l' ∙ l)

  mixed_prior-ok :
      (eps : F) (noise : List (Action × F)) (n : Node F) (a : Action)
      → a < length n.prior_probs
      → (x : F) × (mixed_prior eps noise n a ≡ ok x)
  unfolding mixed_prior
  mixed_prior-ok eps noise n a h =
      let (p, e) = index-ok n.prior_probs a h in
      (fl.add (fl.mul (fl.sub f_one eps) p) (fl.mul eps (or_zero f_zero (lookup a noise))), rw e)

  All-mixed_prior :
      (eps : F) (noise : List (Action × F)) (n : Node F) (actions : List Action)
      → Below (length n.prior_probs) actions
      → All (λ a. (x : F) × (mixed_prior eps noise n a ≡ ok x)) actions
  All-mixed_prior eps noise n [] h = tt
  All-mixed_prior eps noise n (a ∷ actions) h =
      (mixed_prior-ok eps noise n a h.0, All-mixed_prior eps noise n actions h.1)

  blend-ok :
      (eps : F) (noise : Option (List (Action × F))) (n : Node F)
      → Below (length n.prior_probs) n.valid_actions
      → (out : List F) × (blend eps noise n ≡ ok out) × (length out ≡ length n.prior_probs)
  unfolding blend
  blend-ok eps none n h = (n.prior_probs, refl, refl)
  blend-ok eps (some noise) n h =
      let (mixed, e, l) =
        write_each-ok (mixed_prior eps noise n) n.valid_actions n.prior_probs
          (All-mixed_prior eps noise n n.valid_actions h) h in
      let (out, es, l') =
        renormalise-ok n.valid_actions mixed (subst (λ k. Below k n.valid_actions) (sym l) h) in
      (out, rw (e, es), l' ∙ l)

  -- The part that is softened last.
  softened-ok :
      (m : Mcts F) (n : Node F) (is_root : Bool) (mixed : List F)
      → Below (length mixed) n.valid_actions
      → (out : List F) × ((if needs_softmax m is_root
            then soften m.root_softmax_temp n mixed
            else ok mixed)
          ≡ ok out)
        × (length out ≡ length mixed)
  softened-ok m n is_root mixed h = elim (Bool-cases (needs_softmax m is_root)) [
    | inl e ↦ let (out, es, l) = soften-ok m.root_softmax_temp n mixed h in (out, rw (e, es), l)
    | inr e ↦ (mixed, rw e, refl)
  ]

  effective_priors-ok :
      (m : Mcts F) (n : Node F) (is_root : Bool)
      → IsDense n
      → (out : List F) × (effective_priors m n is_root ≡ ok out) × (length out ≡ n.num_actions)
  unfolding effective_priors
  effective_priors-ok m n is_root d =
      let inside = subst (λ k. Below k n.valid_actions) (sym d.priors) d.valid in
      elim (Bool-cases (needs_noise m is_root || needs_softmax m is_root)) [
        | inr plain ↦ (n.prior_probs, rw plain, d.priors)
        | inl some_change ↦
            let (mixed, e, l) = blend-ok m.root_noise_epsilon m.root_noise n inside in
            let (out, e', l') =
              softened-ok m n is_root mixed (subst (λ k. Below k n.valid_actions) (sym l) inside) in
            (out, rw (some_change, e, e'), l' ∙ l ∙ d.priors)
      ]

  score_action-ok :
      (m : Mcts F) (n : Node F) (c_puct : F) (is_root forced : Bool) (total : ℕ) (fpu_q : F)
      (priors : List F) (a : Action)
      → IsDense n
      → length priors ≡ n.num_actions
      → a < n.num_actions
      → (x : F) × (score_action m n c_puct is_root forced total fpu_q priors a ≡ ok x)
  unfolding score_action
  score_action-ok m n c_puct is_root forced total fpu_q priors a d l h =
      let (v, ev) = index-ok n.edge_visits a (omega (arith, d.visits)) in
      let (w, ew) = index-ok n.virtual_losses a (omega (arith, d.losses)) in
      let (q, eq) = index-ok n.edge_penalties a (omega (arith, d.penalties)) in
      let (p, ep) = index-ok priors a (omega arith) in
      (score_of m n c_puct is_root forced total fpu_q a v w q p, rw (ev, ew, eq, ep))

  All-score_action :
      (m : Mcts F) (n : Node F) (c_puct : F) (is_root forced : Bool) (total : ℕ) (fpu_q : F)
      (priors : List F) (actions : List Action)
      → IsDense n
      → length priors ≡ n.num_actions
      → Below n.num_actions actions
      → All
          (λ a. (x : F) × (score_action m n c_puct is_root forced total fpu_q priors a ≡ ok x))
          actions
  All-score_action m n c_puct is_root forced total fpu_q priors [] d l h = tt
  All-score_action m n c_puct is_root forced total fpu_q priors (a ∷ actions) d l h = (
    score_action-ok m n c_puct is_root forced total fpu_q priors a d l h.0,
    All-score_action m n c_puct is_root forced total fpu_q priors actions d l h.1,
  )

  first_play_urgency-ok :
      (m : Mcts F) (n : Node F) (is_root : Bool)
      → IsDense n
      → (q : F) × (first_play_urgency m n is_root ≡ ok q)
  unfolding first_play_urgency
  first_play_urgency-ok m n is_root d =
      let (seen, e, below) = explored-ok n n.num_actions n.valid_actions d.visits d.valid in
      let (priors, e') =
        gather-ok n.prior_probs seen (subst (λ k. Below k seen) (sym d.priors) below) in
      (
        fl.sub n.value (fl.mul (if is_root then f_zero else m.c_fpu) (fl.sqrt (sum_f32 priors))),
        rw (e, e'),
      )

  -- A dense node has a score for each action of its state.
  pub node_scores-ok :
      (m : Mcts F) (n : Node F) (c_puct : F) (is_root forced : Bool)
      → IsDense n
      → (scores : List F) × (node_scores m n c_puct is_root forced ≡ ok scores)
        × (length scores ≡ n.num_actions)
  unfolding node_scores
  node_scores-ok m n c_puct is_root forced d =
      let (fpu_q, e₁) = first_play_urgency-ok m n is_root d in
      let (priors, e₂, l) = effective_priors-ok m n is_root d in
      let blank = replicate n.num_actions (fl.neg fl.infinity) in
      let l₀ = length-replicate n.num_actions (fl.neg fl.infinity) in
      let (scores, e₃, l₃) =
        write_each-ok
          (score_action m n c_puct is_root forced (sum_usize n.edge_visits) fpu_q priors)
          n.valid_actions blank
          (All-score_action m n c_puct is_root forced (sum_usize n.edge_visits) fpu_q priors
            n.valid_actions d l d.valid)
          (subst (λ k. Below k n.valid_actions) (sym l₀) d.valid) in
      (scores, rw (e₁, e₂, e₃), l₃ ∙ l₀)
