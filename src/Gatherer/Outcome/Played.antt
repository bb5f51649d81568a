-- ===== src/Gatherer/Outcome/Played.antt =====
-- What an episode that was played records, how it ended and how it is scored.
use mcts.Prelude.{
  ℕ, ◌<◌, ◌≤◌, ◌≡◌, ◌⊎◌, ◌∙◌, refl, sym, ap, Bool, true, false, ◌&&◌, Option, List, [], ◌++◌, All,
  length, ltb, leb, ok, ok_injective, >>=-eq-ok, arith, inl, inr,
}
use mcts.Float.{Float, f_one, le}
use mcts.Environment.{Environment, InferenceClient}
use mcts.Gatherer.{Gatherer}
use mcts.Gatherer.Game.{Library, Random}
use mcts.Gatherer.Episode.{Episode, is_some, episode_loop}
use mcts.Gatherer.Episode.Resigns.{IsStreak, loop-Keeps}
use mcts.Gatherer.Episode.Ends.{loop-Ended}
use mcts.Gatherer.Curriculum.{EpisodeOutcome}
use mcts.Gatherer.Outcome.{
  terminal_evaluator, outcome_of, new_episode, allow_resign, enabled_for, play_episode,
  run_episode_from, reference_of, max_actions_of,
}
use mcts.Gatherer.Outcome.Scored.{IsScore, outcome_of-IsScore}

module _ {F E Move Cell O C R : Type 0} ⦃fl : Float F⦄ (lib : Library F E Move Cell)
    (rand : Random F R) (env : Environment E O) (client : InferenceClient F O C) (g : Gatherer F)
    (c_puct : F) where
  -- An outcome, and the loop that it is of.
  pub record Played (start_env : E) (o : EpisodeOutcome F Cell) : Type 0 where
    pub is_override : Bool
    pub reference : F × ℕ
    pub allowed : Bool
    pub budget : ℕ
    pub bounded : budget ≡ max_actions_of g g.max_actions o.reference_action_count
    pub first : Episode F E Cell C R
    pub blank :
        (first.q_trace ≡ [])
        × (first.low_value_streak ≡ 0)
        × (first.resigned ≡ false)
        × (first.all_steps_data ≡ [])
        × (first.temp_data ≡ [])
    pub last : Episode F E Cell C R
    pub looped :
        episode_loop lib rand env client
          (terminal_evaluator lib g reference.0)
          g
          c_puct
          reference.0
          allowed
          0
          budget
          first
        ≡ ok last
    pub outcome :
        o
        ≡ outcome_of lib g is_override
            (lib.set_cultivation_time 10 start_env)
            reference.0
            reference.1
            allowed
            (enabled_for lib rand env client g c_puct reference.0)
            last

  play_episode-Played :
      (is_override : Bool) (start_env : E) (c c' : C) (rng rng' : R) (d : F) (n : ℕ)
      (o : EpisodeOutcome F Cell)
      → play_episode lib rand env client g c_puct is_override
          (lib.set_cultivation_time 10 start_env)
          c
          rng
          (d, n)
          (max_actions_of g g.max_actions n)
        ≡ ok (o, c', rng')
      → Played start_env o
  unfolding play_episode outcome_of
  play_episode-Played is_override start_env c c' rng rng' d n o e =
      let game : E = lib.set_cultivation_time 10 start_env in
      let draw : Bool × R =
        allow_resign lib rand env client g c_puct (enabled_for lib rand env client g c_puct d)
          rng in
      let first : Episode F E Cell C R = new_episode lib g game c draw.1 in
      let (last, looped, end) =
        >>=-eq-ok
          (episode_loop lib rand env client (terminal_evaluator lib g d) g c_puct d draw.0 0
            (max_actions_of g g.max_actions n) first)
          _ e in
      let same : _ ≡ o = ap (λ p. p.0) (ok_injective end) in
      record {
        is_override = is_override;
        reference = (d, n);
        allowed = draw.0;
        budget = max_actions_of g g.max_actions n;
        bounded = rw (← same) refl;
        first = first;
        blank = (refl, refl, refl, refl, refl);
        last = last;
        looped = looped;
        outcome = sym same;
      }

  run_episode_from-Played :
      (start_env : E) (c c' : C) (rng rng' : R) (override : Option (F × ℕ))
      (o : EpisodeOutcome F Cell)
      → run_episode_from lib rand env client g c_puct start_env c rng override ≡ ok (o, c', rng')
      → Played start_env o
  unfolding run_episode_from
  run_episode_from-Played start_env c c' rng rng' override o e =
      let ((d, n), _, rest) =
        >>=-eq-ok (reference_of lib g override (lib.set_cultivation_time 10 start_env)) _ e in
      play_episode-Played _ start_env c c' rng rng' d n o rest

  -- If an episode returns, its reward is of the kind "done" just when its game is finished, and a
  -- reward of the kind "floor" is -1.
  pub run_episode_from-IsScore :
      (start_env : E) (c c' : C) (rng rng' : R) (override : Option (F × ℕ))
      (o : EpisodeOutcome F Cell)
      → run_episode_from lib rand env client g c_puct start_env c rng override ≡ ok (o, c', rng')
      → IsScore o.done o.score o.reward_kind
  run_episode_from-IsScore start_env c c' rng rng' override o e =
      let p : Played start_env o = run_episode_from-Played start_env c c' rng rng' override o e in
      rw p.outcome (
        outcome_of-IsScore lib g p.is_override (lib.set_cultivation_time 10 start_env) p.reference.0
          p.reference.1 p.allowed (enabled_for lib rand env client g c_puct p.reference.0) p.last)

  blank-IsStreak : (allowed : Bool) → 0 < g.resign_consecutive_moves → IsStreak g allowed [] 0 false
  blank-IsStreak allowed h = record {
    before = [];
    low = [];
    split = refl;
    lows = tt;
    counted = refl;
    decided = ground (arith, h);
  }

  -- The game that an episode ends with, and what it has spent.
  pub record IsSpent (o : EpisodeOutcome F Cell) : Type 0 where
    pub final : E
    pub done : o.done ≡ lib.done (lib.set_cultivation_time 10 final)
    pub solution_depth : o.solution_depth ≡ lib.depth (lib.set_cultivation_time 10 final)
    pub steps : length o.all_steps_data ≤ max_actions_of g g.max_actions o.reference_action_count
    pub temp : length o.temp_data ≤ length o.all_steps_data
    pub ended :
        (o.resigned ≡ true)
        ⊎ ((lib.done final ≡ true)
            ⊎ (length o.all_steps_data ≡ max_actions_of g g.max_actions o.reference_action_count))

  -- If an episode returns, it has made at most as many moves as its budget allows, and no more
  -- training records than moves. Its end and its depth are those of a final game, with the
  -- cultivation time set again; and unless the agent resigned or that game was over, it has spent
  -- the whole budget.
  pub run_episode_from-IsSpent :
      (start_env : E) (c c' : C) (rng rng' : R) (override : Option (F × ℕ))
      (o : EpisodeOutcome F Cell)
      → run_episode_from lib rand env client g c_puct start_env c rng override ≡ ok (o, c', rng')
      → IsSpent o
  unfolding outcome_of
  run_episode_from-IsSpent start_env c c' rng rng' override o e =
      let p : Played start_env o = run_episode_from-Played start_env c c' rng rng' override o e in
      let h =
        loop-Ended lib rand env client (terminal_evaluator lib g p.reference.0) g c_puct
          p.reference.0 p.allowed p.budget 0 p.first p.last p.looped in
      let (_, _, _, steps, temp) = p.blank in
      let no_steps : length p.first.all_steps_data ≡ 0 = ap length steps in
      let no_temp : length p.first.temp_data ≡ 0 = ap length temp in
      let all : o.all_steps_data ≡ p.last.all_steps_data =
        ap (λ (x : EpisodeOutcome F Cell). x.all_steps_data) p.outcome in
      let some_temp : o.temp_data ≡ p.last.temp_data =
        ap (λ (x : EpisodeOutcome F Cell). x.temp_data) p.outcome in
      let quit : o.resigned ≡ p.last.resigned =
        ap (λ (x : EpisodeOutcome F Cell). x.resigned) p.outcome in
      record {
        final = p.last.game;
        done = ap (λ (x : EpisodeOutcome F Cell). x.done) p.outcome;
        solution_depth = ap (λ (x : EpisodeOutcome F Cell). x.solution_depth) p.outcome;
        steps = omega (arith, h.steps, no_steps, ap length all, p.bounded);
        temp = omega (arith, h.temp, no_steps, no_temp, ap length all, ap length some_temp);
        ended = elim h.reason [
          | inl a ↦ inl (quit ∙ a)
          | inr (inl over) ↦ inr (inl over)
          | inr (inr d) ↦ inr (inr (omega (arith, d, no_steps, ap length all, p.bounded)))
        ];
      }

  -- If an episode returns, and resignation is on and traced, the agent has resigned only where that
  -- was allowed, and then the last values of its trace, at least as many as the settings ask for,
  -- are all at most the threshold.
  pub run_episode_from-Resigned :
      (start_env : E) (c c' : C) (rng rng' : R) (override : Option (F × ℕ))
      (o : EpisodeOutcome F Cell)
      → is_some g.resignation_log_dir ≡ true
      → 0 < g.resign_consecutive_moves
      → fl.lt g.resign_value_threshold f_one ≡ true
      → run_episode_from lib rand env client g c_puct start_env c rng override ≡ ok (o, c', rng')
      → o.resigned ≡ true
      → (o.resign_allowed ≡ true)
        × (before : List F) × (low : List F) × (o.q_trace ≡ before ++ low)
        × All (λ q. le q g.resign_value_threshold ≡ true) low
        × (g.resign_consecutive_moves ≤ length low)
  unfolding outcome_of
  run_episode_from-Resigned start_env c c' rng rng' override o traced some_moves low e quit =
      let p : Played start_env o = run_episode_from-Played start_env c c' rng rng' override o e in
      let positive : ltb 0 g.resign_consecutive_moves ≡ true = ground arith in
      let enabled : (ltb 0 g.resign_consecutive_moves && fl.lt g.resign_value_threshold f_one)
          ≡ true =
        rw positive low in
      let (q, streak, resigned, _, _) = p.blank in
      let start : IsStreak g p.allowed p.first.q_trace p.first.low_value_streak p.first.resigned =
        rw (q, streak, resigned) (blank-IsStreak p.allowed some_moves) in
      let v =
        loop-Keeps lib rand env client (terminal_evaluator lib g p.reference.0) g c_puct
          p.reference.0 p.allowed p.budget 0 p.first p.last traced enabled p.looped start in
      let stopped : p.last.resigned ≡ true =
        sym (ap (λ (x : EpisodeOutcome F Cell). x.resigned) p.outcome) ∙ quit in
      let decided : (p.allowed && leb g.resign_consecutive_moves p.last.low_value_streak) ≡ true =
        sym v.decided ∙ stopped in
      (
        ap (λ (x : EpisodeOutcome F Cell). x.resign_allowed) p.outcome ∙ ground (arith, decided),
        v.before,
        v.low,
        ap (λ (x : EpisodeOutcome F Cell). x.q_trace) p.outcome ∙ v.split,
        v.lows,
        ground (arith, decided, v.counted),
      )
