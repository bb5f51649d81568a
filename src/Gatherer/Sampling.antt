-- ===== src/Gatherer/Sampling.antt =====
-- mcts-tilers/src/gatherer.rs: the noise, the move probabilities and the choice of a move. f64 is f32
-- here.
pub mod Valid
use mcts.Prelude.{
  ℕ, zero, suc, ◌+◌, max, Bool, true, false, List, [], ◌∷◌, length, get_or, map, replicate,
  sum_usize, ◌==◌, ltb, if◌then◌else◌, Exec, ok, panic, ◌>>=◌, index, expect,
}
use mcts.Float.{Float, f_zero, f_one, sum_f32}
use mcts.Node.{Node, Action}
use mcts.Gatherer.{Gatherer}
use mcts.Gatherer.Game.{Library, Random, valid_ids}

-- `iter().max().unwrap()` of a list that is not empty.
abbrev pub max_count : List ℕ → ℕ
max_count [] = 0
max_count (c ∷ counts) = max c (max_count counts)

abbrev pub count_eq : ℕ → List ℕ → ℕ
count_eq m [] = 0
count_eq m (c ∷ counts) = let rest = count_eq m counts in if c == m then suc rest else rest

module _ {F : Type 0} ⦃fl : Float F⦄ where
  abbrev pub max_f64 : F → List F → F
  max_f64 m [] = m
  max_f64 m (x ∷ xs) = max_f64 (fl.max_of m x) xs

  module _ {R : Type 0} (rand : Random F R) where
    unfoldable pub gammas : F → ℕ → R → List F × R
    gammas alpha zero rng = ([], rng)
    gammas alpha (suc n) rng =
        let (x, r) = rand.gamma alpha rng in let (xs, r') = gammas alpha n r in (x ∷ xs, r')

    unfoldable pub dirichlet_noise : ℕ → R → List F × R
    dirichlet_noise num_actions rng =
        let alpha = fl.min_of (fl.div (fl.lit 10 0) (fl.of_usize num_actions)) (fl.lit 5 1) in
        let (xs, r) = gammas alpha num_actions rng in
        let sum_xs = sum_f32 xs in
        (if fl.lt f_zero sum_xs then map (λ x. fl.div x sum_xs) xs else xs, r)

  unfoldable pub greedy : List ℕ → List F
  greedy visit_counts =
      let m = max_count visit_counts in
      map (λ c. if c == m then fl.div f_one (fl.of_usize (count_eq m visit_counts)) else f_zero)
        visit_counts

  -- The softmax of the logarithms.
  unfoldable pub softmax : F → List ℕ → List F
  softmax temperature visit_counts =
      let inv_temp = fl.div f_one temperature in
      let log_counts =
        map (λ c. if ltb 0 c then fl.mul (fl.ln (fl.of_usize c)) inv_temp else fl.neg fl.infinity)
          visit_counts in
      let max_log = max_f64 (fl.neg fl.infinity) log_counts in
      let exps = map (λ l. fl.exp (fl.sub l max_log)) log_counts in
      map (λ e. fl.div e (sum_f32 exps)) exps

  unfoldable pub action_probabilities : List ℕ → F → List F
  action_probabilities visit_counts temperature =
      if sum_usize visit_counts == 0
      then replicate (length visit_counts) (fl.div f_one (fl.of_usize (length visit_counts)))
      else if fl.lt temperature (fl.lit 1 8)
      then greedy visit_counts
      else softmax temperature visit_counts

  -- `iter().zip()`, mixed and cut off at 0.
  unfoldable pub mixed_with : F → List F → List F → List F
  mixed_with s (p ∷ probs) (n ∷ noise) =
      fl.max_of (fl.add (fl.mul (fl.sub f_one s) p) (fl.mul s n)) f_zero ∷ mixed_with s probs noise
  mixed_with s probs noise = []

  -- `(-0.5 * step as f64).exp()`
  abbrev pub decay : ℕ → F
  decay step = fl.exp (fl.mul (fl.neg (fl.lit 5 1)) (fl.of_usize step))

  module _ {R : Type 0} (rand : Random F R) where
    unfoldable pub noise_of : F → ℕ → R → List F × R
    noise_of strength n rng =
        if fl.lt f_zero strength then dirichlet_noise rand n rng else (replicate n f_zero, rng)

    -- The weights of the moves, and the generator after the noise.
    unfoldable pub move_weights : Gatherer F → Node F → List Action → ℕ → R → List F × R
    move_weights g node ids step rng =
        let temperature = fl.add (fl.lit 1 1) (fl.mul (fl.lit 9 1) (decay step)) in
        let noise_strength = fl.mul g.noise_strength (decay step) in
        let probs = action_probabilities (map (λ a. get_or node.edge_visits a 0) ids) temperature in
        let (noise, r) = noise_of noise_strength (length ids) rng in
        (mixed_with noise_strength probs noise, r)

    unfoldable pub draw : List Action → List F × R → Exec (Action × R)
    draw ids (weights, rng) = do
      (i, r) ← expect (rand.weighted_index weights rng)
      a ← index ids i
      ok (a, r)

    module _ {E Move Cell : Type 0} (lib : Library F E Move Cell) where
      unfoldable pub select_action : Gatherer F → Node F → E → ℕ → R → Exec (Action × R)
      select_action g node env step rng = do
        ids ← valid_ids lib env
        if length ids == 0 then panic else draw ids (move_weights g node ids step rng)
