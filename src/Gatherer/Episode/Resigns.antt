-- ===== src/Gatherer/Episode/Resigns.antt =====
-- When the agent resigns.
use mcts.Prelude.{
  ℕ, zero, suc, ◌+◌, ◌≡◌, ◌∙◌, refl, sym, ap, Bool, true, ◌&&◌, List, [], ◌∷◌, ◌++◌, append_assoc,
  append-nil, All, length, length-append, leb, ok, Bool-cases, inl, inr,
}
use mcts.Float.{Float, le}
use mcts.Environment.{Environment, InferenceClient}
use mcts.Node.{Node}
use mcts.Gatherer.{Gatherer}
use mcts.Gatherer.Game.{Library, Random}
use mcts.Gatherer.Episode.{
  Episode, is_some, resignation_enabled, trace, check_resign, search, episode_loop,
}
use mcts.Gatherer.Episode.Records.{SameTrace, Searched, search-Searched, take_step-Stepped}
use mcts.Gatherer.Episode.Rounds.{stops, moves, round-Rounded}

module _ {F : Type 0} ⦃fl : Float F⦄ (g : Gatherer F) (allowed : Bool) where
  -- The trace ends in as many low values as the streak counts. The agent has resigned just when it
  -- is allowed to and the streak is long enough.
  pub record IsStreak (q_trace : List F) (streak : ℕ) (resigned : Bool) : Type 0 where
    pub before : List F
    pub low : List F
    pub split : q_trace ≡ before ++ low
    pub lows : All (λ q. le q g.resign_value_threshold ≡ true) low
    pub counted : length low ≡ streak
    pub decided : resigned ≡ (allowed && leb g.resign_consecutive_moves streak)

  All-concat : (P : F → Type 0) (xs : List F) (x : F) → All P xs → P x → All P (xs ++ (x ∷ []))
  All-concat P [] x h p = (p, tt)
  All-concat P (y ∷ xs) x (q, h) p = (q, All-concat P xs x h p)

  -- One more value.
  IsStreak-low :
      (q : F) (q_trace : List F) (streak : ℕ) (resigned : Bool)
      → le q g.resign_value_threshold ≡ true
      → IsStreak q_trace streak resigned
      → IsStreak
          (q_trace ++ (q ∷ []))
          (streak + 1)
          (allowed && leb g.resign_consecutive_moves (streak + 1))
  IsStreak-low q q_trace streak resigned l v = record {
    before = v.before;
    low = v.low ++ (q ∷ []);
    split = ap (λ t. t ++ (q ∷ [])) v.split ∙ append_assoc v.before v.low (q ∷ []);
    lows = All-concat (λ x. le x g.resign_value_threshold ≡ true) v.low q v.lows l;
    counted = length-append v.low (q ∷ []) ∙ ap (λ n. n + 1) v.counted;
    decided = refl;
  }

  IsStreak-high :
      (q : F) (q_trace : List F)
      → IsStreak (q_trace ++ (q ∷ [])) 0 (allowed && leb g.resign_consecutive_moves 0)
  IsStreak-high q q_trace = record {
    before = q_trace ++ (q ∷ []);
    low = [];
    split = sym (append-nil (q_trace ++ (q ∷ [])));
    lows = tt;
    counted = refl;
    decided = refl;
  }

module _ {F E Move Cell O C R : Type 0} ⦃fl : Float F⦄ (lib : Library F E Move Cell)
    (rand : Random F R) (env : Environment E O) (client : InferenceClient F O C)
    (terminal_evaluator : E → F) (g : Gatherer F) (c_puct reference_depth : F)
    (resign_allowed : Bool) where
  abbrev Keeps : Episode F E Cell C R → Type 0
  Keeps s = IsStreak g resign_allowed s.q_trace s.low_value_streak s.resigned

  SameTrace-Keeps : (s t : Episode F E Cell C R) → SameTrace s t → Keeps s → Keeps t
  SameTrace-Keeps s t same v = rw (same.q_trace, same.streak, same.resigned) v

  -- A search, where the values are traced and resignation is on.
  search-Keeps :
      (full : Bool) (s t : Episode F E Cell C R) (root : Node F)
      → is_some g.resignation_log_dir ≡ true
      → resignation_enabled lib rand env client terminal_evaluator g c_puct reference_depth
          resign_allowed
        ≡ true
      → search lib rand env client terminal_evaluator g c_puct reference_depth resign_allowed full s
        ≡ ok (root, t)
      → Keeps s
      → Keeps t
  unfolding trace check_resign
  search-Keeps full s t root traced enabled e v =
      let found : Searched lib rand env client terminal_evaluator g c_puct reference_depth
          resign_allowed s t root.value =
        search-Searched lib rand env client terminal_evaluator g c_puct reference_depth
          resign_allowed full s t root e in
      let b : Episode F E Cell C R = found.before in
      let kept : Keeps b = SameTrace-Keeps s b found.traces v in
      rw found.judged (elim (Bool-cases (le root.value g.resign_value_threshold)) [
        | inl low ↦
            rw (traced, enabled, low)
              (IsStreak-low g resign_allowed root.value b.q_trace b.low_value_streak b.resigned low
                kept)
        | inr high ↦
            rw (traced, enabled, high) (IsStreak-high g resign_allowed root.value b.q_trace)
      ])

  pub loop-Keeps :
      (n step : ℕ) (s t : Episode F E Cell C R)
      → is_some g.resignation_log_dir ≡ true
      → resignation_enabled lib rand env client terminal_evaluator g c_puct reference_depth
          resign_allowed
        ≡ true
      → episode_loop lib rand env client terminal_evaluator g c_puct reference_depth resign_allowed
          step n s
        ≡ ok t
      → Keeps s
      → Keeps t
  unfolding episode_loop
  loop-Keeps zero step s t traced enabled e v = let same : s ≡ t = cc in rw (← same) v
  loop-Keeps (suc n) step s t traced enabled e v =
      elim (round-Rounded lib rand env client terminal_evaluator g c_puct reference_depth
        resign_allowed _ step s t e) [
          | stops full r root found quit ↦
              search-Keeps full (record s { rng = r }) t root traced enabled found v
          | moves full r root u w action found stepped end ↦
              let kept : Keeps u =
                search-Keeps full (record s { rng = r }) u root traced enabled found v in
              let after : Keeps w =
                SameTrace-Keeps u w
                  (take_step-Stepped lib rand env client terminal_evaluator g c_puct reference_depth
                    resign_allowed full root step u w action stepped).traces
                  kept in
              elim end [
                | inl (over, same) ↦ rw (← same) after
                | inr (m, more) ↦
                    loop-Keeps n (step + 1) (record w { mcts = m }) t traced enabled more after
              ]
        ]
