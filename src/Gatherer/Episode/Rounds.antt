-- ===== src/Gatherer/Episode/Rounds.antt =====
-- The ways in which a round of an episode comes to a result.
use mcts.Prelude.{
  ℕ, ◌≡◌, ◌∙◌, sym, ap, Bool, true, if_true, if_false, Exec, ok, >>=-eq-ok, Bool-cases, inl, inr,
  ◌⊎◌,
}
use mcts.Float.{Float}
use mcts.Environment.{Environment, InferenceClient}
use mcts.Node.{Node, Action}
use mcts.Advance.{advance_root}
use mcts.Mcts.{Mcts}
use mcts.Gatherer.{Gatherer}
use mcts.Gatherer.Game.{Library, Random}
use mcts.Gatherer.Episode.{Episode, take_step, search, after_move, after_search, round}

module _ {F E Move Cell O C R : Type 0} ⦃fl : Float F⦄ (lib : Library F E Move Cell)
    (rand : Random F R) (env : Environment E O) (client : InferenceClient F O C)
    (terminal_evaluator : E → F) (g : Gatherer F) (c_puct reference_depth : F)
    (resign_allowed : Bool) where
  -- How a round comes to a result.
  pub data Rounded (rest : Episode F E Cell C R → Exec (Episode F E Cell C R)) (step : ℕ)
      (s t : Episode F E Cell C R) : Type 0 where
    stops :
        (full : Bool) (r : R) (root : Node F)
        → search lib rand env client terminal_evaluator g c_puct reference_depth resign_allowed full
            (record s { rng = r })
          ≡ ok (root, t)
        → t.resigned ≡ true
        → Rounded rest step s t
    moves :
        (full : Bool) (r : R) (root : Node F) (u v : Episode F E Cell C R) (action : Action)
        → search lib rand env client terminal_evaluator g c_puct reference_depth resign_allowed full
            (record s { rng = r })
          ≡ ok (root, u)
        → take_step lib rand env client terminal_evaluator g c_puct reference_depth resign_allowed
            full root step u
          ≡ ok (action, v)
        → ((lib.done v.game ≡ true) × (v ≡ t))
          ⊎ ((m : Mcts F) × (rest (record v { mcts = m }) ≡ ok t))
        → Rounded rest step s t

  after_move-cases :
      (rest : Episode F E Cell C R → Exec (Episode F E Cell C R)) (action : Action)
      (v t : Episode F E Cell C R)
      → after_move lib rand env client terminal_evaluator g c_puct reference_depth resign_allowed
          rest
          (action, v)
        ≡ ok t
      → ((lib.done v.game ≡ true) × (v ≡ t))
        ⊎ ((m : Mcts F) × (rest (record v { mcts = m }) ≡ ok t))
  unfolding after_move
  after_move-cases rest action v t e = elim (Bool-cases (lib.done v.game)) [
    | inl over ↦ let f : ok v ≡ ok t = rw over at e in inl (over, cc)
    | inr playing ↦
        let f : _ ≡ ok t = rw playing at e in
        let (m, _, last) = >>=-eq-ok (advance_root action v.mcts) _ f in inr (m, last)
  ]

  after_search-Rounded :
      (rest : Episode F E Cell C R → Exec (Episode F E Cell C R)) (step : ℕ)
      (s t : Episode F E Cell C R) (full : Bool) (r : R) (root : Node F) (u : Episode F E Cell C R)
      → search lib rand env client terminal_evaluator g c_puct reference_depth resign_allowed full
          (record s { rng = r })
        ≡ ok (root, u)
      → after_search lib rand env client terminal_evaluator g c_puct reference_depth resign_allowed
          rest step full
          (root, u)
        ≡ ok t
      → Rounded rest step s t
  unfolding after_search
  after_search-Rounded rest step s t full r root u found e = elim (Bool-cases u.resigned) [
    | inl quit ↦
        let f : ok u ≡ ok t = sym (if_true u.resigned (ok u) _ quit) ∙ e in
        let same : u ≡ t = cc in
        stops full r root (rw same at found)
          (ap (λ (x : Episode F E Cell C R). x.resigned) (sym same) ∙ quit)
    | inr playing ↦
        let f : _ ≡ ok t = sym (if_false u.resigned (ok u) _ playing) ∙ e in
        let ((action, v), stepped, last) =
          >>=-eq-ok
            (take_step lib rand env client terminal_evaluator g c_puct reference_depth
              resign_allowed full root step u)
            _ f in
        moves full r root u v action found stepped (after_move-cases rest action v t last)
  ]

  pub round-Rounded :
      (rest : Episode F E Cell C R → Exec (Episode F E Cell C R)) (step : ℕ)
      (s t : Episode F E Cell C R)
      → round lib rand env client terminal_evaluator g c_puct reference_depth resign_allowed rest
          step s
        ≡ ok t
      → Rounded rest step s t
  unfolding round
  round-Rounded rest step s t e =
      let full : Bool = fl.lt (rand.random s.rng).0 g.p_full_search in
      let r : R = (rand.random s.rng).1 in
      let ((root, u), found, last) =
        >>=-eq-ok
          (search lib rand env client terminal_evaluator g c_puct reference_depth resign_allowed
            full (record s { rng = r }))
          _ e in
      after_search-Rounded rest step s t full r root u found last
