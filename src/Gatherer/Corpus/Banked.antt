-- ===== src/Gatherer/Corpus/Banked.antt =====
-- What becomes of an episode's records.
use mcts.Prelude.{
  ◌≤◌, ◌≡◌, ◌⊎◌, refl, Bool, true, false, ◌&&◌, ◌++◌, map, arith, Bool-cases, inl, inr,
}
use mcts.Float.{Float, f_zero, le}
use mcts.Gatherer.{Gatherer}
use mcts.Gatherer.Game.{Random}
use mcts.Gatherer.Episode.{is_some}
use mcts.Gatherer.Curriculum.{EpisodeOutcome}
use mcts.Gatherer.Lines.{Files, is_her}
use mcts.Gatherer.Corpus.{
  log_resignation, write_trajectory, training_line, is_gold, bank, write_records,
  her_saturation_floor, keep_floor, write_kept, write_lines, write_episode,
}

module _ {F Cell R : Type 0} ⦃fl : Float F⦄ (g : Gatherer F) (rand : Random F R) where
  -- What an episode adds to the output and to the gold, if anything.
  pub record Banks (o : EpisodeOutcome F Cell) (is_reverse : Bool) (files after : Files F Cell)
      : Type 0 where
    pub output :
        (after.output ≡ files.output)
        ⊎ (after.output ≡ files.output ++ map (training_line g o is_reverse false) o.temp_data)
    pub gold :
        (after.gold ≡ files.gold)
        ⊎ ((after.gold ≡ files.gold ++ map (training_line g o is_reverse true) o.temp_data)
            × (after.output ≡ files.output ++ map (training_line g o is_reverse false) o.temp_data)
            × (o.done ≡ true)
            × (is_reverse ≡ false)
            × (le g.gold_min_reward o.score ≡ true)
            × (g.gold_min_len ≤ o.reference_action_count))

  SameCorpus : Files F Cell → Files F Cell → Type 0
  SameCorpus files after = (after.output ≡ files.output) × (after.gold ≡ files.gold)

  logged-SameCorpus :
      (o : EpisodeOutcome F Cell) (files : Files F Cell)
      → SameCorpus files (write_trajectory g o (log_resignation g o files))
  unfolding SameCorpus write_trajectory log_resignation
  logged-SameCorpus o files = elim (Bool-cases (is_some g.resignation_log_dir)) [
    | inl traced ↦ elim (Bool-cases (fl.lt f_zero o.score && is_some g.trajectory_dir)) [
      | inl win ↦ rw (traced, win) (refl, refl)
      | inr loss ↦ rw (traced, loss) (refl, refl)
    ]
    | inr untraced ↦ elim (Bool-cases (fl.lt f_zero o.score && is_some g.trajectory_dir)) [
      | inl win ↦ rw (untraced, win) (refl, refl)
      | inr loss ↦ rw (untraced, loss) (refl, refl)
    ]
  ]

  -- The records, where they are written at all.
  write_records-Banks :
      (o : EpisodeOutcome F Cell) (is_reverse : Bool) (files : Files F Cell)
      → Banks o is_reverse files (write_records g o is_reverse files)
  unfolding write_records bank is_gold
  write_records-Banks o is_reverse files = elim (Bool-cases (is_gold g o is_reverse)) [
    | inl win ↦ rw win (record {
      output = inr refl;
      gold = inr (
        refl,
        refl,
        ground (arith, win),
        ground (arith, win),
        ground (arith, win),
        ground (arith, win),
      );
    })
    | inr plain ↦ rw plain (record { output = inr refl; gold = inl refl })
  ]

  -- The corpus is told of, whatever else has been written before.
  SameCorpus-Banks :
      (o : EpisodeOutcome F Cell) (is_reverse : Bool) (files logged after : Files F Cell)
      → SameCorpus files logged
      → Banks o is_reverse logged after
      → Banks o is_reverse files after
  unfolding SameCorpus
  SameCorpus-Banks o is_reverse files logged after (output, gold) b = record {
    output = rw (← output) b.output;
    gold = rw (← output, ← gold) b.gold;
  }

  same-Banks :
      (o : EpisodeOutcome F Cell) (is_reverse : Bool) (files : Files F Cell)
      → Banks o is_reverse files files
  same-Banks o is_reverse files = record { output = inl refl; gold = inl refl }

  -- An episode adds its training records to the output or nothing, and nothing to the gold, or its
  -- records marked as gold. It adds gold only where it finished the whole game from its true start,
  -- with a score of at least `gold_min_reward` and a reference of at least `gold_min_len` actions;
  -- and then the same records stand in the output too.
  pub write_episode-Banks :
      (o : EpisodeOutcome F Cell) (is_reverse : Bool) (rng : R) (files : Files F Cell)
      → Banks o is_reverse files (write_episode g rand o is_reverse rng files).1.0
  unfolding write_episode write_lines write_kept
  write_episode-Banks o is_reverse rng files =
      let logged : Files F Cell = write_trajectory g o (log_resignation g o files) in
      SameCorpus-Banks o is_reverse files logged _ (logged-SameCorpus o files)
        (elim (Bool-cases (is_her o.reward_kind && le o.score her_saturation_floor)) [
          | inl saturated ↦ rw saturated (same-Banks o is_reverse logged)
          | inr graded ↦ elim (Bool-cases (keep_floor g rand o rng).0) [
            | inl keep ↦ rw (graded, keep) (write_records-Banks o is_reverse logged)
            | inr dropped ↦ rw (graded, dropped) (same-Banks o is_reverse logged)
          ]
        ])
