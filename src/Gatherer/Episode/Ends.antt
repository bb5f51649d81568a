-- ===== src/Gatherer/Episode/Ends.antt =====
-- How an episode ends, and how much it records.
use mcts.Prelude.{
  ℕ, zero, suc, ◌+◌, ◌≤◌, ◌≡◌, ap, Bool, true, length, ok, arith, Bool-cases, inl, inr, ◌⊎◌,
}
use mcts.Float.{Float}
use mcts.Environment.{Environment, InferenceClient}
use mcts.Gatherer.{Gatherer}
use mcts.Gatherer.Game.{Library, Random}
use mcts.Gatherer.Episode.{Episode, is_some, resignation_enabled, trace, check_resign, episode_loop}
use mcts.Gatherer.Episode.Records.{Searched, search-Searched, Stepped, take_step-Stepped}
use mcts.Gatherer.Episode.Rounds.{stops, moves, round-Rounded}

module _ {F E Move Cell O C R : Type 0} ⦃fl : Float F⦄ (lib : Library F E Move Cell)
    (rand : Random F R) (env : Environment E O) (client : InferenceClient F O C)
    (terminal_evaluator : E → F) (g : Gatherer F) (c_puct reference_depth : F)
    (resign_allowed : Bool) where
  -- How an episode ends, and how much it records.
  pub record Ended (n : ℕ) (s t : Episode F E Cell C R) : Type 0 where
    pub reason :
        (t.resigned ≡ true)
        ⊎ ((lib.done t.game ≡ true) ⊎ (length t.all_steps_data ≡ length s.all_steps_data + n))
    pub steps : length t.all_steps_data ≤ length s.all_steps_data + n
    pub temp :
        length t.temp_data + length s.all_steps_data ≤ length s.temp_data + length t.all_steps_data

  -- The judgement of a position records nothing.
  judged-records :
      (s t : Episode F E Cell C R) (q : F)
      → Searched lib rand env client terminal_evaluator g c_puct reference_depth resign_allowed s t
          q
      → (t.all_steps_data ≡ s.all_steps_data) × (t.temp_data ≡ s.temp_data)
  unfolding trace check_resign
  judged-records s t q found =
      let b : Episode F E Cell C R = found.before in
      rw found.judged (elim (Bool-cases (is_some g.resignation_log_dir)) [
        | inl traced ↦
            elim (Bool-cases (
              resignation_enabled lib rand env client terminal_evaluator g c_puct reference_depth
                resign_allowed)) [
                  | inl on ↦ rw (traced, on) (found.records.steps, found.records.temp)
                  | inr off ↦ rw (traced, off) (found.records.steps, found.records.temp)
                ]
        | inr untraced ↦
            elim (Bool-cases (
              resignation_enabled lib rand env client terminal_evaluator g c_puct reference_depth
                resign_allowed)) [
                  | inl on ↦ rw (untraced, on) (found.records.steps, found.records.temp)
                  | inr off ↦ rw (untraced, off) (found.records.steps, found.records.temp)
                ]
      ])

  later-Ended :
      (n : ℕ) (s u w t : Episode F E Cell C R)
      → u.all_steps_data ≡ s.all_steps_data
      → u.temp_data ≡ s.temp_data
      → length w.all_steps_data ≡ length u.all_steps_data + 1
      → length w.temp_data ≤ length u.temp_data + 1
      → Ended n w t
      → Ended (suc n) s t
  later-Ended n s u w t steps temp moved recorded h = record {
    reason = elim h.reason [
      | inl quit ↦ inl quit
      | inr (inl over) ↦ inr (inl over)
      | inr (inr spent) ↦ inr (inr (omega (arith, spent, moved, ap length steps)))
    ];
    steps = omega (arith, h.steps, moved, ap length steps);
    temp = omega (arith, h.temp, moved, recorded, ap length steps, ap length temp);
  }

  pub loop-Ended :
      (n step : ℕ) (s t : Episode F E Cell C R)
      → episode_loop lib rand env client terminal_evaluator g c_puct reference_depth resign_allowed
          step n s
        ≡ ok t
      → Ended n s t
  unfolding episode_loop
  loop-Ended zero step s t e =
      let same : s ≡ t = cc in
      rw (← same)
        (record { reason = inr (inr (omega arith)); steps = omega arith; temp = omega arith })
  loop-Ended (suc n) step s t e =
      elim (round-Rounded lib rand env client terminal_evaluator g c_puct reference_depth
        resign_allowed _ step s t e) [
          | stops full r root found quit ↦
              let (steps, temp) =
                judged-records (record s { rng = r }) t root.value
                  (search-Searched lib rand env client terminal_evaluator g c_puct reference_depth
                    resign_allowed full (record s { rng = r }) t root found) in
              record {
                reason = inl quit;
                steps = omega (arith, ap length steps);
                temp = omega (arith, ap length steps, ap length temp);
              }
          | moves full r root u w action found stepped end ↦
              let (steps, temp) =
                judged-records (record s { rng = r }) u root.value
                  (search-Searched lib rand env client terminal_evaluator g c_puct reference_depth
                    resign_allowed full (record s { rng = r }) u root found) in
              let move : Stepped lib rand env client terminal_evaluator g c_puct reference_depth
                  resign_allowed u w =
                take_step-Stepped lib rand env client terminal_evaluator g c_puct reference_depth
                  resign_allowed full root step u w action stepped in
              elim end [
                | inl (over, same) ↦ rw (← same) (record {
                  reason = inr (inl over);
                  steps = omega (arith, move.steps, ap length steps);
                  temp = omega (arith, move.steps, move.temp, ap length steps, ap length temp);
                })
                | inr (m, more) ↦
                    later-Ended n s u (record w { mcts = m }) t steps temp move.steps move.temp
                      (loop-Ended n (step + 1) (record w { mcts = m }) t more)
              ]
        ]
