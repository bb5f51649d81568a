-- ===== src/Evaluator.antt =====
-- mcts-tilers/src/evaluator.rs: an agent plays the environments of the holdout set, one game each,
-- and the results go to the table `solutions`. A database takes every row, and the time of an attempt
-- is left out; the primary key of the table is (agent_id, environment_id).
pub mod Certified
pub mod Resumes
use mcts.Prelude.{
  ℕ, zero, suc, ◌-◌, Bool, true, false, not, ◌&&◌, ◌||◌, Option, none, some, List, [], ◌∷◌, ◌++◌,
  length, any, ltb, ◌==◌, if◌then◌else◌, saturating_sub, get_or, Exec, ok, ◌>>=◌, expect,
}
use mcts.Float.{Float, f_one}
use mcts.Environment.{Environment, InferenceClient}
use mcts.Node.{Node, Action}
use mcts.Mcts.{Mcts, new_search}
use mcts.Advance.{advance_root}
use mcts.Run.{run}
use mcts.Gatherer.Game.{Library, valid_ids, step_move}

pub record Evaluator (F : Type 0) : Type 0 where
  pub mcts_steps : ℕ
  pub c_puct : F
  pub reward_saturation_temperature : F
  pub max_action_multiplier : F

pub record HoldoutEnvironment (J : Type 0) : Type 0 where
  pub environment_id : ℕ
  pub json : J
  pub num_objectives : ℕ
  pub difficulty_bin : ℕ
  pub action_count : ℕ

-- The variables of the loop of `evaluate_single`.
pub record Rollout (F E C : Type 0) : Type 0 where
  pub game : E
  pub mcts : Mcts F
  pub client : C
  pub actions_taken : List Action

-- What `evaluate_single` returns.
pub record Evaluation (F : Type 0) : Type 0 where
  pub actions : List Action
  pub solution_depth : Option F
  pub achieved_objectives : ℕ
  pub eval_reward : Option F
  pub heuristic_unsolvable : Bool
  pub factor_prog : Option (ℕ × ℕ)

-- A row of `solutions`. The column `actions` is none for the sentinel "heuristic_unsolvable".
pub record Solution (F : Type 0) : Type 0 where
  pub agent_id : ℕ
  pub environment_id : ℕ
  pub actions : Option (List Action)
  pub solution_depth : Option F
  pub achieved_objectives : ℕ
  pub eval_reward : Option F

-- `iter().max_by_key()`, the last of the maximal elements.
abbrev pub last_max : (Action → ℕ) → Action → List Action → Action
last_max key best [] = best
last_max key best (a ∷ actions) = last_max key (if ltb (key a) (key best) then best else a) actions

abbrev pub max_by_key : (Action → ℕ) → List Action → Option Action
max_by_key key [] = none
max_by_key key (a ∷ actions) = some (last_max key a actions)

abbrev pub is_empty {ℓ} : {A : Type ℓ} → List A → Bool
is_empty [] = true
is_empty (x ∷ xs) = false

module _ {F E Move Cell O C : Type 0} ⦃fl : Float F⦄ (lib : Library F E Move Cell)
    (env : Environment E O) (client : InferenceClient F O C) (v : Evaluator F) where
  -- The depth against the reference.
  unfoldable pub margin : F → F → F
  margin reference_depth d = fl.tanh (
      fl.div (fl.div (fl.sub reference_depth d) (fl.add reference_depth (fl.lit 1 6)))
        v.reward_saturation_temperature)

  unfoldable pub eval_terminal : F → E → F
  eval_terminal reference_depth e =
      if not (lib.done e) then fl.neg f_one else margin reference_depth (lib.depth e)

  unfoldable pub reference : E → Option F
  reference e = elim (lib.solve e).1 [ none ↦ none | some plan ↦ some (lib.depth (lib.solve e).0) ]

  unfoldable pub eval_budget : Option (List Move) → ℕ
  eval_budget none = 1000
  eval_budget (some plan) =
      fl.to_usize (fl.ceil (fl.mul (fl.of_usize (length plan)) v.max_action_multiplier))

  -- A search and the move with the most visits.
  unfoldable pub eval_move : F → Rollout F E C → Exec (Rollout F E C)
  eval_move reference_depth s = do
    (c, m, root) ←
        run env (eval_terminal reference_depth) client s.game v.mcts_steps v.c_puct false s.client
          s.mcts
    ids ← valid_ids lib s.game
    action ← expect (max_by_key (λ a. get_or root.edge_visits a 0) ids)
    a ← expect (lib.decode s.game action)
    m' ← advance_root action m
    ok (record {
      game = step_move lib a s.game;
      mcts = m';
      client = c;
      actions_taken = s.actions_taken ++ (action ∷ []);
    })

  -- One round of the loop; `rest` are the rounds after it.
  unfoldable pub eval_round :
      (Rollout F E C → Exec (Rollout F E C)) → F → Rollout F E C → Exec (Rollout F E C)
  eval_round rest reference_depth s =
      if lib.done s.game || is_empty (lib.valid_actions s.game)
      then ok s
      else eval_move reference_depth s >>= rest

  unfoldable pub eval_loop : F → ℕ → Rollout F E C → Exec (Rollout F E C)
  eval_loop reference_depth zero s = ok s
  eval_loop reference_depth (suc n) s = eval_round (eval_loop reference_depth n) reference_depth s

  -- The objectives reached, the reward and the progress of the factors.
  unfoldable pub eval_score : E → E → F → ℕ × Option F × Option (ℕ × ℕ)
  eval_score start final reference_depth =
      if lib.done final
      then (lib.num_objectives start, some (margin reference_depth (lib.depth final)), none)
      else (let (merged, total) = lib.factor_progress start final in
          let achieved = saturating_sub (lib.num_objectives start) (lib.num_objectives final) in
          if merged == 0 || total == 0
          then (achieved, some (fl.neg f_one), some (merged, total))
          else (
            achieved,
            some (fl.sub (fl.div (fl.of_usize merged) (fl.of_usize total)) f_one),
            some (merged, total),
          ))

  -- What the game comes to.
  unfoldable pub evaluation_of : E → F → Rollout F E C → Evaluation F
  evaluation_of start reference_depth s =
      let (achieved, reward, prog) = eval_score start s.game reference_depth in
      record {
        actions = s.actions_taken;
        solution_depth = if lib.done s.game then some (lib.depth s.game) else none;
        achieved_objectives = achieved;
        eval_reward = reward;
        heuristic_unsolvable = false;
        factor_prog = prog;
      }

  abbrev pub unsolvable : Evaluation F
  unsolvable = record {
    actions = [];
    solution_depth = none;
    achieved_objectives = 0;
    eval_reward = none;
    heuristic_unsolvable = true;
    factor_prog = none;
  }

  -- From the reference depth on.
  unfoldable pub evaluate_against : E → C → Option F → Exec (Evaluation F × C)
  evaluate_against start c none = ok (unsolvable, c)
  evaluate_against start c (some reference_depth) = do
    s ← eval_loop reference_depth (eval_budget (lib.solve_plainly start)) (record {
      game = lib.set_cultivation_time 10 start;
      mcts = new_search 8;
      client = c;
      actions_taken = [];
    })
    ok (evaluation_of start reference_depth s, s.client)

  unfoldable pub evaluate_single : E → C → Exec (Evaluation F × C)
  evaluate_single start c = evaluate_against start c (reference (lib.set_cultivation_time 10 start))

  -- The query for an earlier attempt.
  unfoldable pub attempted : ℕ → ℕ → List (Solution F) → Bool
  attempted agent environment =
      any (λ row. (row.agent_id == agent) && (row.environment_id == environment))

  unfoldable pub solution_of : ℕ → ℕ → Evaluation F → Solution F
  solution_of agent environment o = record {
    agent_id = agent;
    environment_id = environment;
    actions = if o.heuristic_unsolvable then none else some o.actions;
    solution_depth = o.solution_depth;
    achieved_objectives = o.achieved_objectives;
    eval_reward = o.eval_reward;
  }

  -- `INSERT OR IGNORE`
  unfoldable pub insert_or_ignore : Solution F → List (Solution F) → List (Solution F)
  insert_or_ignore row solutions =
      if attempted row.agent_id row.environment_id solutions
      then solutions
      else solutions ++ (row ∷ [])

  module _ {J : Type 0} (from_json : J → Option E) (agent : ℕ) where
    -- An environment that has not been attempted; none does not deserialise.
    unfoldable pub attempt : ℕ → Option E → C → List (Solution F) → Exec (List (Solution F) × C)
    attempt environment none c solutions = ok (solutions, c)
    attempt environment (some start) c solutions = do
      (o, c') ← evaluate_single start c
      ok (insert_or_ignore (solution_of agent environment o) solutions, c')

    unfoldable pub evaluate_holdout :
        HoldoutEnvironment J → C → List (Solution F) → Exec (List (Solution F) × C)
    evaluate_holdout holdout c solutions =
        if attempted agent holdout.environment_id solutions
        then ok (solutions, c)
        else attempt holdout.environment_id (from_json holdout.json) c solutions

    unfoldable pub evaluate_agent_with_client :
        List (HoldoutEnvironment J) → C → List (Solution F) → Exec (List (Solution F) × C)
    evaluate_agent_with_client [] c solutions = ok (solutions, c)
    evaluate_agent_with_client (holdout ∷ environments) c solutions = do
      (after, c') ← evaluate_holdout holdout c solutions
      evaluate_agent_with_client environments c' after
