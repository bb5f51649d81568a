-- ===== src/Gatherer/Demos.antt =====
-- mcts-tilers/src/gatherer.rs, `write_demo_episode` and `gather`: a round of the gatherer, and the
-- heuristic's demonstration of a game that the agent has failed.
pub mod OneHot
use mcts.Prelude.{
  ℕ, zero, suc, ◌%◌, ◌^◌, Bool, true, false, not, ◌&&◌, Option, none, some, List, [], ◌∷◌, ◌++◌,
  length, any, ltb, leb, ◌==◌, if◌then◌else◌, Exec, ok, ◌>>=◌,
}
use mcts.Float.{Float, f_zero, f_one}
use mcts.Environment.{Environment, InferenceClient}
use mcts.Node.{Action}
use mcts.Gatherer.{Gatherer}
use mcts.Gatherer.Game.{Library, Random, valid_ids, step_move, heuristic_typed_plan}
use mcts.Gatherer.Curriculum.{EpisodeOutcome, gather_reverse_curriculum}
use mcts.Gatherer.Lines.{TrainingLine, weight, demo, Files}
use mcts.Gatherer.Corpus.{write_episode}
use mcts.Gatherer.Outcome.{run_episode_from}

module _ {F E Move Cell R : Type 0} ⦃fl : Float F⦄ (lib : Library F E Move Cell) (rand : Random F R)
    (g : Gatherer F) where
  -- A demo record of the state `tenv`, by the move `encoded`.
  unfoldable pub demo_line : E → ℕ → ℕ → List Action → Action → TrainingLine F Cell
  demo_line tenv height width valid_actions encoded = record {
    height = height;
    width = width;
    num_ancillas = lib.num_ancillas tenv;
    board = lib.board tenv g.lookahead;
    valid_actions = valid_actions;
    edge_visits = (encoded, weight f_one) ∷ [];
    reward = f_zero;
    reward_kind = demo;
    achieved_objectives = 0;
    reverse_curriculum = false;
    gold = false;
    is_demo = true;
  }

  -- Whether the state is sampled; the draw is made only for a valid move.
  unfoldable pub sampled : List Action → Action → R → Bool × R
  sampled valid_actions encoded rng =
      if any (λ a. a == encoded) valid_actions
      then (let (x, r) = rand.random rng in (fl.lt x g.demo_subsample, r))
      else (false, rng)

  -- The lines of one state, and the generator after it.
  unfoldable pub demo_lines : E → ℕ → ℕ → Action → R → List Action → List (TrainingLine F Cell) × R
  demo_lines tenv height width encoded rng valid_actions =
      let (keep, r) = sampled valid_actions encoded rng in
      (if keep then demo_line tenv height width valid_actions encoded ∷ [] else [], r)

  -- A state of the plan; a move that does not encode leaves no line.
  unfoldable pub demo_state : E → ℕ → ℕ → R → Option ℕ → Exec (List (TrainingLine F Cell) × R)
  demo_state tenv height width rng none = ok ([], rng)
  demo_state tenv height width rng (some id) = do
    valid_actions ← valid_ids lib tenv
    ok (demo_lines tenv height width (id % 2 ^ 16) rng valid_actions)

  unfoldable pub demo_from : ℕ → ℕ → List Move → E → R → Exec (List (TrainingLine F Cell) × R)
  demo_from height width [] tenv rng = ok ([], rng)
  demo_from height width (a ∷ plan) tenv rng = do
    (lines, r) ← demo_state tenv height width rng (lib.encode tenv a)
    (rest, r') ← demo_from height width plan (step_move lib a tenv) r
    ok (lines ++ rest, r')

  -- On an empty plan the source returns before it opens the file; it adds nothing either way.
  unfoldable pub write_demo_episode : E → R → Files F Cell → Exec (Files F Cell × R)
  write_demo_episode game rng files = do
    let tenv = lib.set_cultivation_time 10 game
    (lines, r) ←
        demo_from (lib.height tenv) (lib.width tenv) (heuristic_typed_plan lib game).1 tenv rng
    ok (record files { output = files.output ++ lines }, r)

  -- Whether a failed episode gets a demo; the draw is the last test.
  unfoldable pub wants_demo : E → Bool → R → Bool × R
  wants_demo game done rng =
      if fl.lt f_zero g.demo_fraction
        && not done
        && ltb g.demo_min_objectives (lib.num_objectives game)
      then (let (x, r) = rand.random rng in (fl.lt x g.demo_fraction, r))
      else (false, rng)

  unfoldable pub add_demo : E → Files F Cell → Bool × R → Exec (Files F Cell × R)
  add_demo game files (wanted, rng) =
      if wanted then write_demo_episode game rng files else ok (files, rng)

  -- Whether this round climbs the reverse curriculum, if the plan is long enough.
  unfoldable pub wants_reverse : R → Bool × R
  wants_reverse rng =
      if g.reverse_curriculum
      then (let (x, r) = rand.random rng in (fl.lt x g.reverse_curriculum_prob, r))
      else (false, rng)

module _ {F E Move Cell O C R : Type 0} ⦃fl : Float F⦄ (lib : Library F E Move Cell)
    (rand : Random F R) (env : Environment E O) (client : InferenceClient F O C) (g : Gatherer F)
    (c_puct : F) where
  -- The return value, and what the round leaves.
  abbrev pub Round : Type 0
  Round = (F × F × Bool) × Files F Cell × C × R

  -- An episode on the whole game, its lines, and a demo where it failed.
  unfoldable pub gather_full : E → C → R → Files F Cell → Exec Round
  gather_full game c rng files = do
    (o, c', r) ← run_episode_from lib rand env client g c_puct game c rng none
    let (ret, written) = write_episode g rand o false r files
    (after, r') ← add_demo lib rand g game written.0 (wants_demo lib rand g game o.done written.1)
    ok (ret, after, c', r')

  -- An episode of the climb, with the state of the client and of the random numbers as one.
  unfoldable pub play_tail : E → C × R → F × ℕ → Exec (EpisodeOutcome F Cell × (C × R))
  play_tail start (c, rng) reference = do
    (o, c', r) ← run_episode_from lib rand env client g c_puct start c rng (some reference)
    ok (o, (c', r))

  -- The episodes of the climb that are written, tagged as such.
  unfoldable pub write_climb : List (EpisodeOutcome F Cell) → R → Files F Cell → Files F Cell × R
  write_climb [] rng files = (files, rng)
  write_climb (o ∷ outcomes) rng files =
      let written = (write_episode g rand o true rng files).1 in
      write_climb outcomes written.1 written.0

  unfoldable pub gather_climb : E → F → List Move → C → R → Files F Cell → Exec Round
  gather_climb game d_full plan c rng files = do
    (ret, outcomes, (c', r)) ← gather_reverse_curriculum lib play_tail game d_full plan g (c, rng)
    let written = write_climb outcomes r files
    ok (ret, written.0, c', written.1)

  unfoldable pub gather_reverse : E → F × List Move → C → R → Files F Cell → Exec Round
  gather_reverse game (d_full, plan) c rng files =
      if leb g.reverse_curriculum_min_len (length plan)
      then gather_climb game d_full plan c rng files
      else gather_full game c rng files

  unfoldable pub gather : E → C → R → Files F Cell → Exec Round
  gather start_env c rng files =
      let game = lib.set_cultivation_time 10 start_env in
      let (reverse, r) = wants_reverse lib rand g rng in
      if reverse
      then gather_reverse game (heuristic_typed_plan lib game) c r files
      else gather_full game c r files
