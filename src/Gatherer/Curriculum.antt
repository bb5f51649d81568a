-- ===== src/Gatherer/Curriculum.antt =====
-- mcts-tilers/src/gatherer.rs, `gather_reverse_curriculum`: the climb to the agent's frontier.
use mcts.Prelude.{
  ℕ, zero, suc, ◌+◌, ◌-◌, Bool, false, ◌&&◌, Option, none, some, List, [], ◌∷◌, ◌++◌, length, min,
  max, leb, ◌==◌, if◌then◌else◌, Exec, ok, panic, ◌>>=◌,
}
use mcts.Float.{Float, f_zero}
use mcts.Node.{Action}
use mcts.Gatherer.{Gatherer, next_probe_k}
use mcts.Gatherer.Game.{Library, make_reverse_start}

-- The strings "done", "her", "cusp" and "floor".
pub data RewardKind : Type 0 where
  kind_done kind_her kind_cusp kind_floor : RewardKind

-- `struct EpisodeOutcome`; a board has cells of a type of the game's library.
pub record EpisodeOutcome (F Cell : Type 0) : Type 0 where
  pub reference_depth : F
  pub solution_depth : F
  pub done : Bool
  pub score : F
  pub reward_kind : RewardKind
  pub achieved_objectives : ℕ
  pub reference_action_count : ℕ
  pub temp_data : List (List (List Cell) × ℕ × List Action × List (Action × ℕ))
  pub all_steps_data : List (List (List Cell) × ℕ × List Action × Action × ℕ × ℕ)
  pub q_trace : List F
  pub over_solver_trace : List Bool
  pub resigned : Bool
  pub resign_allowed : Bool
  pub resignation_enabled : Bool
  pub height : ℕ
  pub width : ℕ
  pub num_ancillas : ℕ
  pub num_objectives : ℕ

-- The variables of the climb; `R` is the state of the random numbers and of the client.
pub record Climb (F Cell R : Type 0) : Type 0 where
  pub k : ℕ
  pub lo : ℕ
  pub hi : ℕ
  pub best : Option (EpisodeOutcome F Cell)
  pub failed : Option (EpisodeOutcome F Cell)
  pub ret : F × F × Bool
  pub rng : R

-- What is written at the end.
abbrev pub kept {ℓ} : {A : Type ℓ} → Option A → List A
kept none = []
kept (some o) = o ∷ []

-- `run_episode_from`, which Outcome models, is a parameter here; an episode that panics ends the climb.
module _ {F Cell R Game Move : Type 0} ⦃fl : Float F⦄ (lib : Library F Game Move Cell)
    (run_episode_from : Game → R → F × ℕ → Exec (EpisodeOutcome F Cell × R)) (game : Game)
    (d_full : F) (plan : List Move) where
  -- The brackets after an episode of tail length `k`.
  unfoldable pub record_probe : Climb F Cell R → EpisodeOutcome F Cell × R → Climb F Cell R
  record_probe c (o, r) =
      let ret : F × F × Bool = (o.solution_depth, o.reference_depth, o.done) in
      if o.done
      then record c { lo = c.k; best = some o; ret = ret; rng = r }
      else record c { hi = c.k; failed = some o; ret = ret; rng = r }

  unfoldable pub probe : Climb F Cell R → Exec (Climb F Cell R)
  probe c = do
    p ← run_episode_from (make_reverse_start lib game plan (length plan - c.k)) c.rng (d_full, c.k)
    ok (record_probe c p)

  -- The next tail length, if the climb goes on: not after the whole plan was solved.
  unfoldable pub next_of : Climb F Cell R → Option ℕ
  next_of c =
      if c.ret.2 && leb (length plan) c.k then none else next_probe_k c.k c.lo c.hi (length plan)

  -- The climb goes on with the next length, or ends; `rest` are the probes after this one.
  abbrev pub go_on :
      (Climb F Cell R → Exec (Climb F Cell R)) → Climb F Cell R → Option ℕ → Exec (Climb F Cell R)
  go_on rest d none = ok d
  go_on rest d (some k) = rest (record d { k = k })

  unfoldable pub climb : ℕ → Climb F Cell R → Exec (Climb F Cell R)
  climb zero c = ok c
  climb (suc n) c = do d ← probe c; go_on (climb n) d (next_of d)

  unfoldable pub start_climb : Gatherer F → R → Climb F Cell R
  start_climb g r = record {
    k = min (max g.reverse_curriculum_k_start_actions 1) (length plan);
    lo = 0;
    hi = length plan + 1;
    best = none;
    failed = none;
    ret = (f_zero, f_zero, false);
    rng = r;
  }

  -- The result, the episodes that are written, and the state after the last. `clamp(1, len)` panics on an empty plan.
  unfoldable pub gather_reverse_curriculum :
      Gatherer F → R → Exec ((F × F × Bool) × List (EpisodeOutcome F Cell) × R)
  gather_reverse_curriculum g r = if length plan == 0 then panic else (do
    c ← climb g.reverse_curriculum_max_probes (start_climb g r)
    ok (c.ret, kept c.best ++ kept c.failed, c.rng))
