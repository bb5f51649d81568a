-- ===== src/Gatherer/Sampling/Valid.antt =====
-- The move that is drawn is one of the game's.
use mcts.Prelude.{
  ℕ, zero, suc, ◌<◌, ◌≡◌, ◌∙◌, refl, sym, ap, false, some, List, [], ◌∷◌, length, length-map,
  length-replicate, get_or, get_elem?, get_elem?-eq-get_or, map, sum_usize, ◌==◌, ok, arith,
  Bool-cases, inl, inr,
}
use mcts.Float.{Float, f_zero, sum_f32}
use mcts.Node.{Node, Action}
use mcts.Gatherer.{Gatherer}
use mcts.Gatherer.Game.{Library, Random, valid_ids}
use mcts.Gatherer.Sampling.{
  gammas, dirichlet_noise, greedy, softmax, action_probabilities, mixed_with, noise_of, decay,
  move_weights, draw, select_action,
}

module _ {F : Type 0} ⦃fl : Float F⦄ where
  module _ {R : Type 0} (rand : Random F R) where
    length-gammas : (alpha : F) (n : ℕ) (rng : R) → length (gammas rand alpha n rng).0 ≡ n
    unfolding gammas
    length-gammas alpha zero rng = refl
    length-gammas alpha (suc n) rng = ap suc (length-gammas alpha n (rand.gamma alpha rng).1)

    length-dirichlet_noise : (n : ℕ) (rng : R) → length (dirichlet_noise rand n rng).0 ≡ n
    unfolding dirichlet_noise
    length-dirichlet_noise n rng =
        let alpha : F = fl.min_of (fl.div (fl.lit 10 0) (fl.of_usize n)) (fl.lit 5 1) in
        let xs : List F = (gammas rand alpha n rng).0 in
        elim (Bool-cases (fl.lt f_zero (sum_f32 xs))) [
          | inl pos ↦
              rw pos (length-map xs (λ x. fl.div x (sum_f32 xs)) ∙ length-gammas alpha n rng)
          | inr nil ↦ rw nil (length-gammas alpha n rng)
        ]

    length-noise_of : (s : F) (n : ℕ) (rng : R) → length (noise_of rand s n rng).0 ≡ n
    unfolding noise_of
    length-noise_of s n rng = elim (Bool-cases (fl.lt f_zero s)) [
      | inl noisy ↦ rw noisy (length-dirichlet_noise n rng)
      | inr quiet ↦ rw quiet (length-replicate n f_zero)
    ]

  length-action_probabilities :
      (counts : List ℕ) (temperature : F)
      → length (action_probabilities counts temperature) ≡ length counts
  unfolding action_probabilities greedy softmax
  length-action_probabilities counts temperature = elim (Bool-cases (sum_usize counts == 0)) [
    | inl none_yet ↦ rw none_yet (length-replicate (length counts) _)
    | inr visited ↦ elim (Bool-cases (fl.lt temperature (fl.lit 1 8))) [
      | inl cold ↦ rw (visited, cold) (length-map counts _)
      | inr warm ↦
          rw (visited, warm)
            (length-map (map _ (map _ counts)) _
              ∙ length-map (map _ counts) _
              ∙ length-map counts _)
    ]
  ]

  length-mixed_with :
      (s : F) (probs noise : List F)
      → length probs ≡ length noise
      → length (mixed_with s probs noise) ≡ length probs
  unfolding mixed_with
  length-mixed_with s [] [] e = refl
  length-mixed_with s [] (n ∷ noise) e = refl
  length-mixed_with s (p ∷ probs) [] e = absurd (omega arith)
  length-mixed_with s (p ∷ probs) (n ∷ noise) e =
      ap suc (length-mixed_with s probs noise (omega arith))

  module _ {R : Type 0} (rand : Random F R) where
    length-move_weights :
        (g : Gatherer F) (node : Node F) (ids : List Action) (step : ℕ) (rng : R)
        → length (move_weights rand g node ids step rng).0 ≡ length ids
    unfolding move_weights
    length-move_weights g node ids step rng =
        let strength : F = fl.mul g.noise_strength (decay step) in
        let counts : List ℕ = map (λ a. get_or node.edge_visits a 0) ids in
        let probs : List F =
          action_probabilities counts (fl.add (fl.lit 1 1) (fl.mul (fl.lit 9 1) (decay step))) in
        let p : length probs ≡ length ids =
          length-action_probabilities counts _
          ∙ length-map ids (λ a. get_or node.edge_visits a 0) in
        length-mixed_with strength probs (noise_of rand strength (length ids) rng).0
          (p ∙ sym (length-noise_of rand strength (length ids) rng))
        ∙ p

  -- A sampler that draws an index of its weights.
  pub record IsSampler {R : Type 0} (rand : Random F R) : Type 0 where
    pub inside :
        (weights : List F) (rng rng' : R) (i : ℕ)
        → rand.weighted_index weights rng ≡ some (i, rng')
        → i < length weights

  module _ {R E Move Cell : Type 0} (rand : Random F R) (lib : Library F E Move Cell) where
    -- With a sampler that draws indices of its weights: where every valid move encodes and the
    -- sampler accepts the weights that the visits and the noise give, the choice does not panic, and what it returns is one of the game's valid moves.
    pub select_action-Valid :
        (g : Gatherer F) (node : Node F) (env : E) (step : ℕ) (rng rng' : R) (ids : List Action)
        (i : ℕ)
        → IsSampler rand
        → valid_ids lib env ≡ ok ids
        → rand.weighted_index
            (move_weights rand g node ids step rng).0
            (move_weights rand g node ids step rng).1
          ≡ some (i, rng')
        → (a : Action) × (select_action rand lib g node env step rng ≡ ok (a, rng'))
          × (get_elem? ids i ≡ some a)
    unfolding select_action draw
    select_action-Valid g node env step rng rng' ids i sampler valid drawn =
        let within : i < length ids = omega (
          arith,
          sampler.inside (move_weights rand g node ids step rng).0
              (move_weights rand g node ids step rng).1 rng' i drawn,
          length-move_weights rand g node ids step rng,
        ) in
        let there : get_elem? ids i ≡ some (get_or ids i 0) = get_elem?-eq-get_or ids i 0 within in
        let busy : (length ids == 0) ≡ false = ground (arith, within) in
        (get_or ids i 0, rw (valid, busy, drawn, there) refl, there)
