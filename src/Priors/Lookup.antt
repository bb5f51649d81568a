-- ===== src/Priors/Lookup.antt =====
-- What `normalize_prior` gives each action.
use mcts.Prelude.{
  ℕ, ◌≡◌, refl, none, some, List, [], ◌∷◌, length, lookup, insert, keys, lookup-insert, contains,
  ◌==◌, if◌then◌else◌, arith, map_some, All, Bool-cases, Option-cases, inl, inr, ◌<◌,
}
use mcts.Float.{Float, f_zero, f_one, sum_from, sum_f32}
use mcts.Node.{Action}
use mcts.Priors.{total_from, insert_uniform, insert_scaled, normalize_prior}

module _ {F : Type 0} ⦃fl : Float F⦄ where
  lookup-insert_uniform :
      (p : F) (actions : List Action) (m : List (Action × F)) (a : Action)
      → lookup a (insert_uniform p actions m) ≡ (if contains a actions then some p else lookup a m)
  unfolding insert_uniform
  lookup-insert_uniform p [] m a = refl
  lookup-insert_uniform p (b ∷ actions) m a =
      ground (arith, lookup-insert_uniform p actions (insert b p m) a, lookup-insert b a p m)

  lookup-insert_scaled :
      (priors : List (Action × F)) (t : F) (actions : List Action) (m : List (Action × F))
      (a : Action)
      → lookup a (insert_scaled priors t actions m) ≡ (
          if contains a actions
          then (elim (lookup a priors) [ none ↦ lookup a m | some p ↦ some (fl.div p t) ])
          else lookup a m)
  unfolding insert_scaled
  lookup-insert_scaled priors t [] m a = refl
  lookup-insert_scaled priors t (b ∷ actions) m a = elim (Option-cases (lookup b priors)) [
    | inl e ↦ ground (arith, lookup-insert_scaled priors t actions m a)
    | inr (p, e) ↦ ground (
      arith,
      lookup-insert_scaled priors t actions (insert b (fl.div p t) m) a,
      lookup-insert b a (fl.div p t) m,
    )
  ]

  -- The priors that the valid actions have.
  found : List (Action × F) → List Action → List F
  found priors [] = []
  found priors (a ∷ actions) = elim (lookup a priors) [
    | none ↦ found priors actions
    | some p ↦ p ∷ found priors actions
  ]

  -- The prior mass of the valid actions.
  pub mass : List (Action × F) → List Action → F
  unfolding found
  mass priors actions = sum_f32 (found priors actions)

  total_from-eq-sum :
      (priors : List (Action × F)) (total : F) (actions : List Action)
      → total_from priors total actions ≡ sum_from total (found priors actions)
  unfolding total_from found sum_from
  total_from-eq-sum priors total [] = refl
  total_from-eq-sum priors total (a ∷ actions) = elim (Option-cases (lookup a priors)) [
    | inl e ↦ rw (e, found) (total_from-eq-sum priors total actions)
    | inr (p, e) ↦ rw (e, found) (total_from-eq-sum priors (fl.add total p) actions)
  ]

  total_from-eq-mass :
      (priors : List (Action × F)) (actions : List Action)
      → total_from priors f_zero actions ≡ mass priors actions
  unfolding mass sum_f32
  total_from-eq-mass priors actions = total_from-eq-sum priors f_zero actions

  -- With no mass on the valid actions each of them gets one over their number; otherwise each
  -- that has a prior gets that prior divided by the mass, the sum of the priors of valid actions. No other action gets anything.
  pub lookup-normalize_prior :
      (priors : List (Action × F)) (actions : List Action) (a : Action)
      → lookup a (normalize_prior priors actions) ≡ (
          if contains a actions
          then (if fl.eq (mass priors actions) f_zero
              then some (fl.div f_one (fl.of_usize (length actions)))
              else map_some (λ p. fl.div p (mass priors actions)) (lookup a priors))
          else none)
  unfolding normalize_prior
  lookup-normalize_prior priors actions a =
      rw (total_from-eq-mass priors actions)
        (elim (Bool-cases (fl.eq (mass priors actions) f_zero)) [
          | inl e ↦ ground (
            arith,
            lookup-insert_uniform (fl.div f_one (fl.of_usize (length actions))) actions [] a,
          )
          | inr e ↦ ground (arith, lookup-insert_scaled priors (mass priors actions) actions [] a)
        ])

  -- A bound on the valid actions is one on the entries.
  All-insert :
      (n a : ℕ) (p : F) (m : List (Action × F))
      → a < n
      → All (λ k. k < n) (keys m)
      → All (λ k. k < n) (keys (insert a p m))
  All-insert n a p [] h hs = (h, tt)
  All-insert n a p ((b, q) ∷ m) h hs = elim (Bool-cases (b == a)) [
    | inl e ↦ rw e (h, hs.1)
    | inr e ↦ rw e (hs.0, All-insert n a p m h hs.1)
  ]

  All-insert_uniform :
      (n : ℕ) (p : F) (actions : List Action) (m : List (Action × F))
      → All (λ k. k < n) actions
      → All (λ k. k < n) (keys m)
      → All (λ k. k < n) (keys (insert_uniform p actions m))
  unfolding insert_uniform
  All-insert_uniform n p [] m h hs = hs
  All-insert_uniform n p (a ∷ actions) m h hs =
      All-insert_uniform n p actions (insert a p m) h.1 (All-insert n a p m h.0 hs)

  All-insert_scaled :
      (n : ℕ) (priors : List (Action × F)) (t : F) (actions : List Action) (m : List (Action × F))
      → All (λ k. k < n) actions
      → All (λ k. k < n) (keys m)
      → All (λ k. k < n) (keys (insert_scaled priors t actions m))
  unfolding insert_scaled
  All-insert_scaled n priors t [] m h hs = hs
  All-insert_scaled n priors t (a ∷ actions) m h hs = elim (Option-cases (lookup a priors)) [
    | inl e ↦ rw e (All-insert_scaled n priors t actions m h.1 hs)
    | inr (p, e) ↦ rw e (
        All-insert_scaled n priors t actions (insert a (fl.div p t) m) h.1
          (All-insert n a (fl.div p t) m h.0 hs))
  ]

  pub All-normalize_prior :
      (n : ℕ) (priors : List (Action × F)) (actions : List Action)
      → All (λ k. k < n) actions
      → All (λ k. k < n) (keys (normalize_prior priors actions))
  unfolding normalize_prior
  All-normalize_prior n priors actions h =
      elim (Bool-cases (fl.eq (total_from priors f_zero actions) f_zero)) [
        | inl e ↦ rw e (All-insert_uniform n _ actions [] h tt)
        | inr e ↦ rw e (All-insert_scaled n priors _ actions [] h tt)
      ]
