-- ===== src/Tests/Records.antt =====
-- The lines that episodes of the small game write, and a choice of a move.
use mcts.Prelude.{
  ℕ, ◌+◌, ◌<◌, ◌≡◌, refl, true, false, some, List, [], ◌∷◌, ◌++◌, All, length, ok, arith, sum_usize,
  ◌≤◌, ap, get_elem?,
}
use mcts.Float.{sum_f32}
use mcts.Gatherer.{Gatherer, new_gatherer}
use mcts.Gatherer.Game.{encoded, valid_ids, step_move, heuristic_typed_plan, or_empty}
use mcts.Gatherer.Sampling.{
  gammas, dirichlet_noise, greedy, softmax, action_probabilities, mixed_with, noise_of,
  move_weights, select_action,
}
use mcts.Node.{new, Action}
use mcts.Gatherer.Lines.{Files, TrainingLine, weight, demo}
use mcts.Gatherer.Corpus.{write_episode}
use mcts.Gatherer.Corpus.Banked.{Banks, write_episode-Banks}
use mcts.Gatherer.Demos.{demo_line, sampled, demo_lines, demo_state, demo_from, write_demo_episode}
use mcts.Gatherer.Demos.OneHot.{IsDemo, write_demo_episode-IsDemo}
use mcts.Gatherer.Sampling.Valid.{IsSampler, select_action-Valid}
use mcts.Tests.Setup.{root_node, numbers}
use mcts.Tests.Episodes.{lib, rand, gatherer, outcome}

abbrev blank : Files ℕ ℕ
blank = record { resignations = []; trajectories = []; output = []; gold = [] }

write_episode-Banks_example :
    Banks gatherer rand outcome false blank (write_episode gatherer rand outcome false 6 blank).1.0
write_episode-Banks_example = write_episode-Banks gatherer rand outcome false 6 blank

abbrev demonstrator : Gatherer ℕ
demonstrator = record gatherer { demo_subsample = 2 }

-- The two states of the heuristic's plan.
abbrev demo_files : Files ℕ ℕ
demo_files = record {
  resignations = [];
  trajectories = [];
  output =
      record {
        height = 1;
        width = 1;
        num_ancillas = 1;
        board = (0 ∷ []) ∷ [];
        valid_actions = 0 ∷ 1 ∷ [];
        edge_visits = (0, weight 1) ∷ [];
        reward = 0;
        reward_kind = demo;
        achieved_objectives = 0;
        reverse_curriculum = false;
        gold = false;
        is_demo = true;
      }
      ∷ record {
        height = 1;
        width = 1;
        num_ancillas = 1;
        board = (1 ∷ []) ∷ [];
        valid_actions = 0 ∷ 1 ∷ [];
        edge_visits = (0, weight 1) ∷ [];
        reward = 0;
        reward_kind = demo;
        achieved_objectives = 0;
        reverse_curriculum = false;
        gold = false;
        is_demo = true;
      }
      ∷ [];
  gold = [];
}

demo_lem : write_demo_episode lib rand demonstrator 0 6 blank ≡ ok (demo_files, 8)
unfolding write_demo_episode demo_from demo_state demo_lines sampled demo_line valid_ids encoded
    step_move heuristic_typed_plan or_empty new_gatherer numbers
demo_lem = refl

write_demo_episode-IsDemo_example :
    (lines : List (TrainingLine ℕ ℕ)) × (demo_files
      ≡ record blank { output = blank.output ++ lines })
    × All IsDemo lines
    × (length lines ≤ length (heuristic_typed_plan lib 0).1)
write_demo_episode-IsDemo_example =
    write_demo_episode-IsDemo lib rand demonstrator 0 6 8 blank demo_files demo_lem

rand-IsSampler : IsSampler rand
rand-IsSampler = record { inside = first_inside }
  where
    first_inside :
        (weights : List ℕ) (rng rng' i : ℕ)
        → rand.weighted_index weights rng ≡ some (i, rng')
        → i < length weights
    first_inside [] rng rng' i e = cc
    first_inside (w ∷ ws) rng rng' i e =
        let f : ◌≡◌ {A = ℕ × ℕ} (0, rng + 1) (i, rng') = cc in omega (arith, ap (λ p. p.0) f)

moves_lem : valid_ids lib 0 ≡ ok (0 ∷ 1 ∷ [])
unfolding valid_ids encoded
moves_lem = refl

drawn_lem :
    rand.weighted_index
      (move_weights rand gatherer root_node (0 ∷ 1 ∷ []) 0 4).0
      (move_weights rand gatherer root_node (0 ∷ 1 ∷ []) 0 4).1
    ≡ some (0, 5)
unfolding move_weights action_probabilities greedy softmax mixed_with noise_of dirichlet_noise
    gammas numbers new_gatherer sum_f32 sum_usize new
drawn_lem = refl

select_action-Valid_example :
    (a : Action) × (select_action rand lib gatherer root_node 0 0 4 ≡ ok (a, 5))
    × (get_elem? (0 ∷ 1 ∷ []) 0 ≡ some a)
select_action-Valid_example =
    select_action-Valid rand lib gatherer root_node 0 0 4 5 (0 ∷ 1 ∷ []) 0 rand-IsSampler moves_lem
      drawn_lem
