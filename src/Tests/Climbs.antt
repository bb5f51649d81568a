-- ===== src/Tests/Climbs.antt =====
-- A climb of the reverse curriculum on a plan of five actions, of which the agent solves three.
use mcts.Prelude.{ℕ, ◌+◌, false, none, List, [], ◌∷◌, leb, ok, Exec}
use mcts.Gatherer.{Gatherer, new_gatherer}
use mcts.Gatherer.Curriculum.{EpisodeOutcome, kind_done}
use mcts.Tests.Setup.{numbers}

abbrev plan : List ℕ
plan = 10 ∷ 11 ∷ 12 ∷ 13 ∷ 14 ∷ []

-- The agent solves a tail of three actions; `r` counts the episodes.
abbrev episode : ℕ → ℕ → ℕ × ℕ → Exec (EpisodeOutcome ℕ ℕ × ℕ)
episode game r (d, k) = ok (
  record {
    reference_depth = d;
    solution_depth = k;
    done = leb k 3;
    score = 0;
    reward_kind = kind_done;
    achieved_objectives = 0;
    reference_action_count = k;
    temp_data = [];
    all_steps_data = [];
    q_trace = [];
    over_solver_trace = [];
    resigned = false;
    resign_allowed = false;
    resignation_enabled = false;
    height = 1;
    width = 1;
    num_ancillas = 1;
    num_objectives = 1;
  },
  r + 1,
)

abbrev gatherer : Gatherer ℕ
gatherer =
    record (new_gatherer 8 100 10 1 "out" 0 0 1 0 none none none none none none none none none
      none) { reverse_curriculum_max_probes = 5; reverse_curriculum_k_start_actions = 2 }
