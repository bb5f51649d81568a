-- ===== src/Gatherer/Episode.antt =====
-- mcts-tilers/src/gatherer.rs, the loop of `run_episode_from`: one search and one move a round, until
-- the game is over, the budget is spent or the agent resigns.
pub mod Rounds
pub mod Resigns
pub mod Ends
pub mod Records
use mcts.Prelude.{
  ℕ, zero, suc, ◌+◌, Bool, true, false, not, ◌&&◌, Option, none, some, List, [], ◌∷◌, ◌++◌, length,
  map, sum_usize, ltb, leb, if◌then◌else◌, Exec, ok, ◌>>=◌, expect, add_usize,
}
use mcts.Float.{Float, f_zero, f_one, le}
use mcts.Environment.{Environment, InferenceClient}
use mcts.Node.{Node, Action}
use mcts.Mcts.{Mcts, new_search, perturb_root_prior}
use mcts.Advance.{advance_root}
use mcts.Run.{run}
use mcts.Target.{policy_target}
use mcts.Gatherer.{Gatherer, or_else}
use mcts.Gatherer.Game.{Library, Random, valid_ids, step_move}
use mcts.Gatherer.Sampling.{dirichlet_noise, select_action}

-- A state before a move, as it is recorded: board, ancillas, valid moves, and what else is kept.
abbrev pub TempData : Type 0 → Type 0
TempData Cell = List (List Cell) × ℕ × List Action × List (Action × ℕ)

abbrev pub StepData : Type 0 → Type 0
StepData Cell = List (List Cell) × ℕ × List Action × Action × ℕ × ℕ

-- The variables of the loop. `C` is the state of the client, `R` that of the generator.
pub record Episode (F E Cell C R : Type 0) : Type 0 where
  pub game : E
  pub mcts : Mcts F
  pub client : C
  pub rng : R
  pub low_value_streak : ℕ
  pub q_trace : List F
  pub over_solver_trace : List Bool
  pub resigned : Bool
  pub temp_data : List (TempData Cell)
  pub all_steps_data : List (StepData Cell)

abbrev pub is_some {ℓ} : {A : Type ℓ} → Option A → Bool
is_some none = false
is_some (some a) = true

module _ {F E Move Cell O C R : Type 0} ⦃fl : Float F⦄ (lib : Library F E Move Cell)
    (rand : Random F R) (env : Environment E O) (client : InferenceClient F O C)
    (terminal_evaluator : E → F) (g : Gatherer F) (c_puct reference_depth : F)
    (resign_allowed : Bool) where
  abbrev pub resignation_enabled : Bool
  resignation_enabled = ltb 0 g.resign_consecutive_moves && fl.lt g.resign_value_threshold f_one

  abbrev zip_noise : List Action → List F → List (Action × F)
  zip_noise (a ∷ ids) (n ∷ noise) = (a, n) ∷ zip_noise ids noise
  zip_noise ids noise = []

  -- The noise at the root before a full search.
  unfoldable pub perturb : Bool → Episode F E Cell C R → Exec (Episode F E Cell C R)
  perturb is_full_search s =
      if is_full_search && fl.lt f_zero g.dirichlet_epsilon
      then (do
        let (noise, r) = dirichlet_noise rand (length (lib.valid_actions s.game)) s.rng
        ids ← valid_ids lib s.game
        ok (record s {
          mcts = perturb_root_prior (zip_noise ids noise) g.dirichlet_epsilon s.mcts;
          rng = r;
        }))
      else ok s

  -- The traces of a move, kept for the calibration log.
  unfoldable pub trace : F → Episode F E Cell C R → Episode F E Cell C R
  trace q s =
      if is_some g.resignation_log_dir
      then record s {
        q_trace = s.q_trace ++ (q ∷ []);
        over_solver_trace = s.over_solver_trace ++ (fl.lt reference_depth (lib.depth s.game) ∷ []);
      }
      else s

  -- The streak of low values, and whether the agent resigns.
  unfoldable pub check_resign : F → Episode F E Cell C R → Episode F E Cell C R
  check_resign q s =
      if resignation_enabled
      then (let streak = if le q g.resign_value_threshold then s.low_value_streak + 1 else 0 in
          record s {
            low_value_streak = streak;
            resigned = resign_allowed && leb g.resign_consecutive_moves streak;
          })
      else s

  -- The policy target as counts, which only a full search records.
  unfoldable pub edge_visits_of : Node F → Mcts F → Exec (List (Action × ℕ))
  edge_visits_of root m = do
    target ← policy_target c_puct m
    ok (
        map
          (λ p.
            (p.0, fl.to_usize (fl.round (fl.mul p.1 (fl.of_usize (sum_usize root.edge_visits))))))
          (or_else [] target))

  unfoldable pub record_full :
      Bool
      → Node F
      → List (List Cell)
      → ℕ
      → List Action
      → Episode F E Cell C R
      → Exec (Episode F E Cell C R)
  record_full is_full_search root board num_ancillas ids s =
      if is_full_search
      then (do
        visits ← edge_visits_of root s.mcts
        ok (record s { temp_data = s.temp_data ++ ((board, num_ancillas, ids, visits) ∷ []) }))
      else ok s

  -- The move itself.
  unfoldable pub play : Action → Episode F E Cell C R → Exec (Episode F E Cell C R)
  play action s = do
    a ← expect (lib.decode s.game action)
    ok (record s { game = step_move lib a s.game })

  -- From the snapshot of the state to the move.
  unfoldable pub take_step :
      Bool → Node F → ℕ → Episode F E Cell C R → Exec (Action × Episode F E Cell C R)
  take_step is_full_search root step s = do
    let board = lib.board s.game g.lookahead
    let num_ancillas = lib.num_ancillas s.game
    ids ← valid_ids lib s.game
    t ← record_full is_full_search root board num_ancillas ids s
    (action, r) ← select_action rand lib g root t.game step t.rng
    u ← play action (record t {
      rng = r;
      all_steps_data =
          t.all_steps_data
          ++ ((board, num_ancillas, ids, action, lib.height s.game, lib.width s.game) ∷ []);
    })
    ok (action, u)

  -- A search, and what it says of the position.
  unfoldable pub search : Bool → Episode F E Cell C R → Exec (Node F × Episode F E Cell C R)
  search is_full_search s = do
    t ← perturb is_full_search s
    let steps = if is_full_search then g.mcts_steps else g.fast_steps
    (c, m, root) ←
        run env terminal_evaluator client t.game steps c_puct is_full_search t.client t.mcts
    ok (root, check_resign root.value (trace root.value (record t { client = c; mcts = m })))

  -- After the move, with the rounds that are left.
  unfoldable pub after_move :
      (Episode F E Cell C R → Exec (Episode F E Cell C R))
      → Action × Episode F E Cell C R
      → Exec (Episode F E Cell C R)
  after_move rest (action, s) =
      if lib.done s.game
      then ok s
      else (do m ← advance_root action s.mcts; rest (record s { mcts = m }))

  -- After the search.
  unfoldable pub after_search :
      (Episode F E Cell C R → Exec (Episode F E Cell C R))
      → ℕ
      → Bool
      → Node F × Episode F E Cell C R
      → Exec (Episode F E Cell C R)
  after_search rest step is_full_search (root, s) =
      if s.resigned then ok s else take_step is_full_search root step s >>= after_move rest

  -- One round of the loop; `rest` are the rounds after it.
  unfoldable pub round :
      (Episode F E Cell C R → Exec (Episode F E Cell C R))
      → ℕ
      → Episode F E Cell C R
      → Exec (Episode F E Cell C R)
  round rest step s =
      let (x, r) = rand.random s.rng in
      let is_full_search = fl.lt x g.p_full_search in
      search is_full_search (record s { rng = r }) >>= after_search rest step is_full_search

  -- The rounds from `step` on, `n` at most.
  unfoldable pub episode_loop : ℕ → ℕ → Episode F E Cell C R → Exec (Episode F E Cell C R)
  episode_loop step zero s = ok s
  episode_loop step (suc n) s = round (episode_loop (step + 1) n) step s
