-- ===== src/Gatherer/Outcome/Scored.antt =====
-- What the outcome of an episode says of how it was played.
use mcts.Prelude.{
  ℕ, ◌≡◌, ◌↔◌, ◌∙◌, refl, sym, Bool, true, false, ◌&&◌, ◌||◌, Option, none, some, List, ltb, ◌==◌,
  saturating_sub, Bool-cases, inl, inr,
}
use mcts.Float.{Float, f_one}
use mcts.Gatherer.{Gatherer}
use mcts.Gatherer.Game.{Library}
use mcts.Gatherer.Episode.{Episode}
use mcts.Gatherer.Curriculum.{RewardKind, kind_done, kind_floor}
use mcts.Gatherer.Outcome.{
  reverse_score, cusp_score, solved_score, hindsight_score, score_episode, outcome_of,
}

-- Only a finished game is scored as done, and a floor is a score of -1.
pub record IsScore {F : Type 0} ⦃fl : Float F⦄ (done : Bool) (score : F) (kind : RewardKind)
    : Type 0 where
  pub finished : (done ≡ true) ↔ (kind ≡ kind_done)
  pub floor : kind ≡ kind_floor → score ≡ fl.neg f_one

module _ {F E Move Cell : Type 0} ⦃fl : Float F⦄ (lib : Library F E Move Cell)
    (g : Gatherer F) where
  -- The kinds of an unfinished game.
  abbrev Partial : F × RewardKind × ℕ → Type 0
  Partial (score, kind, k) = ((kind ≡ kind_done) → ⊥) × (kind ≡ kind_floor → score ≡ fl.neg f_one)

  reverse_score-Partial : (start remaining : ℕ) → Partial (reverse_score lib g start remaining)
  unfolding reverse_score
  reverse_score-Partial start remaining =
      elim (Bool-cases (saturating_sub start remaining == 0 || start == 0)) [
        | inl nothing ↦ rw nothing ((λ e. cc), λ e. refl)
        | inr some_done ↦ rw some_done ((λ e. cc), λ e. cc)
      ]

  cusp_score-Partial : (game final : E) → Partial (cusp_score lib g game final)
  unfolding cusp_score
  cusp_score-Partial game final = elim (Bool-cases ((lib.factor_progress game final).0 == 0)) [
    | inl nothing ↦ rw nothing ((λ e. cc), λ e. refl)
    | inr some_done ↦ rw some_done ((λ e. cc), λ e. cc)
  ]

  solved_score-Partial :
      (d : F) (k : ℕ) (r : E × Option (List Move)) → Partial (solved_score lib g d k r)
  unfolding solved_score
  solved_score-Partial d k (e, none) = ((λ e. cc), λ e. refl)
  solved_score-Partial d k (e, some plan) = ((λ e. cc), λ e. cc)

  hindsight_score-Partial : (d : F) (goal : Option E) → Partial (hindsight_score lib g d goal)
  unfolding hindsight_score
  hindsight_score-Partial d none = ((λ e. cc), λ e. refl)
  hindsight_score-Partial d (some her) =
      solved_score-Partial d (lib.num_objectives her) (lib.solve her)

  unfinished-IsScore :
      (done : Bool) (s : F × RewardKind × ℕ) → done ≡ false → Partial s → IsScore done s.0 s.1
  unfinished-IsScore done (score, kind, k) unfinished (p, q) = record {
    finished = ((λ e. absurd (clash done e unfinished)), λ e. absurd (p e));
    floor = q;
  }
    where
      clash : (b : Bool) → b ≡ true → b ≡ false → ⊥
      clash b e f = let c : true ≡ false = sym e ∙ f in cc

  score_episode-IsScore :
      (is_override : Bool) (game final : E) (reference_depth solution_depth : F)
      → IsScore
          (lib.done final)
          (score_episode lib g is_override game final reference_depth solution_depth).0
          (score_episode lib g is_override game final reference_depth solution_depth).1
  unfolding score_episode
  score_episode-IsScore is_override game final ref_d d = elim (Bool-cases (lib.done final)) [
    | inl over ↦ rw over (record { finished = ((λ e. refl), λ e. refl); floor = λ e. cc })
    | inr playing ↦ elim (Bool-cases is_override) [
      | inl reverse_start ↦
          rw (playing, reverse_start)
            (unfinished-IsScore false
              (reverse_score lib g (lib.num_objectives game) (lib.num_objectives final)) refl
              (reverse_score-Partial (lib.num_objectives game) (lib.num_objectives final)))
      | inr normal ↦
          elim (Bool-cases (g.cusp_reward && ltb g.cusp_frontier (lib.num_objectives game))) [
            | inl hard ↦
                rw (playing, normal, hard)
                  (unfinished-IsScore false (cusp_score lib g game final) refl
                    (cusp_score-Partial game final))
            | inr easy ↦
                rw (playing, normal, easy)
                  (unfinished-IsScore false
                    (hindsight_score lib g d (lib.achieved_goal_env game final)) refl
                    (hindsight_score-Partial d (lib.achieved_goal_env game final)))
          ]
    ]
  ]

  pub outcome_of-IsScore :
      {C R : Type 0} (is_override : Bool) (game : E) (reference_depth : F) (count : ℕ)
      (allowed enabled : Bool) (s : Episode F E Cell C R)
      → IsScore
          (outcome_of lib g is_override game reference_depth count allowed enabled s).done
          (outcome_of lib g is_override game reference_depth count allowed enabled s).score
          (outcome_of lib g is_override game reference_depth count allowed enabled s).reward_kind
  unfolding outcome_of
  outcome_of-IsScore is_override game reference_depth count allowed enabled s =
      let final : E = lib.set_cultivation_time 10 s.game in
      score_episode-IsScore is_override game final reference_depth (lib.depth final)
