-- ===== src/Gatherer/Frontier.antt =====
-- The climb of the reverse curriculum finds the frontier.
use mcts.Prelude.{
  Exec, ℕ, ◌+◌, ◌-◌, ◌<◌, ◌≤◌, ◌≡◌, true, false, Option, none, some, List, length, ok,
}
use mcts.Float.{Float}
use mcts.Gatherer.{Gatherer}
use mcts.Gatherer.Game.{Library, make_reverse_start}
use mcts.Gatherer.Curriculum.{EpisodeOutcome, Climb, next_of}

-- A next length lies strictly inside the bracket, and there is none only if the bracket is closed.
abbrev Splits : ℕ → ℕ → ℕ → Option ℕ → Type 0
Splits len lo hi none = hi ≡ lo + 1
Splits len lo hi (some k) = (lo < k) × (k < hi) × (k ≤ len)

module _ {F Cell R Game Move : Type 0} ⦃fl : Float F⦄ (lib : Library F Game Move Cell)
    (run_episode_from : Game → R → F × ℕ → Exec (EpisodeOutcome F Cell × R)) (game : Game)
    (d_full : F) (plan : List Move) where
  -- An episode that is played on the last `k` actions of the plan.
  IsTail : ℕ → EpisodeOutcome F Cell → Type 0
  IsTail k o =
      (r : R) × (r' : R) × (run_episode_from (make_reverse_start lib game plan (length plan - k)) r
          (d_full, k)
        ≡ ok (o, r'))

  -- What the tail lengths say of the episodes that are kept.
  pub Solved : ℕ → Option (EpisodeOutcome F Cell) → Type 0
  unfolding IsTail
  Solved lo none = lo ≡ 0
  Solved lo (some o) = (0 < lo) × (o.done ≡ true) × IsTail lo o

  pub Failed : ℕ → Option (EpisodeOutcome F Cell) → Type 0
  unfolding IsTail
  Failed hi none = hi ≡ length plan + 1
  Failed hi (some o) = (hi ≤ length plan) × (o.done ≡ false) × IsTail hi o

  -- Before a probe the tail length lies inside the bracket.
  record IsClimbing (c : Climb F Cell R) : Type 0 where
    above : c.lo < c.k
    below : c.k < c.hi
    within : c.k ≤ length plan
    top : c.hi ≤ length plan + 1
    solved : Solved c.lo c.best
    unsolved : Failed c.hi c.failed

  -- The frontier: the bracket is closed, the episode kept as best was played on the longest solved
  -- tail and solves it, and the one kept as failed was played on the next and does not.
  pub record IsFrontier (c : Climb F Cell R) : Type 0 where
    pub edge : c.hi ≡ c.lo + 1
    pub solved : Solved c.lo c.best
    pub unsolved : Failed c.hi c.failed

  abbrev next : Climb F Cell R → Option ℕ
  next d = next_of lib run_episode_from game d_full plan d

  -- One probe: the bracket shrinks, and the next length lies inside it.
  record Shrinks (c d : Climb F Cell R) : Type 0 where
    shrunk : d.hi - d.lo < c.hi - c.lo
    ordered : d.lo < d.hi
    top : d.hi ≤ length plan + 1
    solved : Solved d.lo d.best
    unsolved : Failed d.hi d.failed
    splits : Splits (length plan) d.lo d.hi (next d)

  won : Climb F Cell R → EpisodeOutcome F Cell → R → Climb F Cell R
  won c o r = record c {
    lo = c.k;
    best = some o;
    ret = (o.solution_depth, o.reference_depth, o.done);
    rng = r;
  }

  lost : Climb F Cell R → EpisodeOutcome F Cell → R → Climb F Cell R
  lost c o r = record c {
    hi = c.k;
    failed = some o;
    ret = (o.solution_depth, o.reference_depth, o.done);
    rng = r;
  }
