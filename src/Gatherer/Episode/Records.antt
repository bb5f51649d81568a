-- ===== src/Gatherer/Episode/Records.antt =====
-- What the parts of a round leave alone, and how many records an episode makes.
use mcts.Prelude.{
  ℕ, ◌+◌, ◌≤◌, ◌≡◌, ◌∙◌, refl, ap, Bool, true, false, ◌&&◌, List, [], ◌∷◌, ◌++◌, length,
  length-append, Exec, ok, ok_injective, >>=-eq-ok, expect, arith, Bool-cases, inl, inr,
}
use mcts.Float.{Float, f_zero}
use mcts.Environment.{Environment, InferenceClient}
use mcts.Node.{Node, Action}
use mcts.Mcts.{Mcts}
use mcts.Run.{run}
use mcts.Gatherer.{Gatherer}
use mcts.Gatherer.Game.{Library, Random, valid_ids}
use mcts.Gatherer.Sampling.{select_action}
use mcts.Gatherer.Episode.{
  Episode, StepData, TempData, perturb, trace, check_resign, edge_visits_of, record_full, play,
  take_step, search,
}

module _ {F E Cell C R : Type 0} where
  -- Nothing has changed that resignation looks at.
  pub record SameTrace (s t : Episode F E Cell C R) : Type 0 where
    pub q_trace : t.q_trace ≡ s.q_trace
    pub streak : t.low_value_streak ≡ s.low_value_streak
    pub resigned : t.resigned ≡ s.resigned

  -- Nothing has been recorded.
  pub record SameRecords (s t : Episode F E Cell C R) : Type 0 where
    pub temp : t.temp_data ≡ s.temp_data
    pub steps : t.all_steps_data ≡ s.all_steps_data

  SameTrace-refl : (s : Episode F E Cell C R) → SameTrace s s
  SameTrace-refl s = record { q_trace = refl; streak = refl; resigned = refl }

  SameRecords-refl : (s : Episode F E Cell C R) → SameRecords s s
  SameRecords-refl s = record { temp = refl; steps = refl }

  pub SameTrace-trans :
      (s t u : Episode F E Cell C R) → SameTrace s t → SameTrace t u → SameTrace s u
  SameTrace-trans s t u a b = record {
    q_trace = b.q_trace ∙ a.q_trace;
    streak = b.streak ∙ a.streak;
    resigned = b.resigned ∙ a.resigned;
  }

module _ {F E Move Cell O C R : Type 0} ⦃fl : Float F⦄ (lib : Library F E Move Cell)
    (rand : Random F R) (env : Environment E O) (client : InferenceClient F O C)
    (terminal_evaluator : E → F) (g : Gatherer F) (c_puct reference_depth : F)
    (resign_allowed : Bool) where
  perturb-Same :
      (full : Bool) (s t : Episode F E Cell C R)
      → perturb lib rand env client terminal_evaluator g c_puct reference_depth resign_allowed full
          s
        ≡ ok t
      → SameTrace s t × SameRecords s t
  unfolding perturb
  perturb-Same full s t e = elim (Bool-cases (full && fl.lt f_zero g.dirichlet_epsilon)) [
    | inl noisy ↦
        let f : _ ≡ ok t = rw noisy at e in
        let (ids, _, last) = >>=-eq-ok (valid_ids lib s.game) _ f in
        let same : _ ≡ t = ok_injective last in
        rw (← same) (
          record { q_trace = refl; streak = refl; resigned = refl },
          record { temp = refl; steps = refl },
        )
    | inr quiet ↦
        let f : ok s ≡ ok t = rw quiet at e in
        rw (← ok_injective f) (SameTrace-refl s, SameRecords-refl s)
  ]

  -- A search, as the position after it is judged.
  pub record Searched (s t : Episode F E Cell C R) (q : F) : Type 0 where
    pub before : Episode F E Cell C R
    pub judged :
        t
        ≡ check_resign lib rand env client terminal_evaluator g c_puct reference_depth
            resign_allowed q
            (trace lib rand env client terminal_evaluator g c_puct reference_depth resign_allowed q
              before)
    pub traces : SameTrace s before
    pub records : SameRecords s before

  -- The state that is judged, after the search.
  abbrev searched : C → Mcts F → Episode F E Cell C R → Episode F E Cell C R
  searched c m u = record u { client = c; mcts = m }

  judged-Searched :
      (s t u : Episode F E Cell C R) (c : C) (m : Mcts F) (node root : Node F)
      → SameTrace s u
      → SameRecords s u
      → ◌≡◌ {A = Exec (Node F × Episode F E Cell C R)}
          (ok (
            node,
            check_resign lib rand env client terminal_evaluator g c_puct reference_depth
                resign_allowed node.value
                (trace lib rand env client terminal_evaluator g c_puct reference_depth
                  resign_allowed node.value
                  (searched c m u)),
          ))
          (ok (root, t))
      → Searched s t root.value
  judged-Searched s t u c m node root traces records e =
      let pair : ◌≡◌ {A = Node F × Episode F E Cell C R} _ (root, t) = ok_injective e in
      rw (← ap (λ p. p.1) pair, ← ap (λ p. p.0) pair)
        (record {
          before = searched c m u;
          judged = refl;
          traces = record {
            q_trace = traces.q_trace;
            streak = traces.streak;
            resigned = traces.resigned;
          };
          records = record { temp = records.temp; steps = records.steps };
        })

  pub search-Searched :
      (full : Bool) (s t : Episode F E Cell C R) (root : Node F)
      → search lib rand env client terminal_evaluator g c_puct reference_depth resign_allowed full s
        ≡ ok (root, t)
      → Searched s t root.value
  unfolding search
  search-Searched full s t root e =
      let (u, perturbed, rest) =
        >>=-eq-ok
          (perturb lib rand env client terminal_evaluator g c_puct reference_depth resign_allowed
            full s)
          _ e in
      let (traces, records) = perturb-Same full s u perturbed in
      let ((c, m, node), _, last) =
        >>=-eq-ok (run env terminal_evaluator client u.game _ c_puct full u.client u.mcts) _ rest in
      judged-Searched s t u c m node root traces records last

  -- A move makes one record of the trajectory, and at most one for training.
  pub record Stepped (s t : Episode F E Cell C R) : Type 0 where
    pub traces : SameTrace s t
    pub steps : length t.all_steps_data ≡ length s.all_steps_data + 1
    pub temp : length t.temp_data ≤ length s.temp_data + 1

  record_full-Same :
      (full : Bool) (root : Node F) (board : List (List Cell)) (ancillas : ℕ) (ids : List Action)
      (s t : Episode F E Cell C R)
      → record_full lib rand env client terminal_evaluator g c_puct reference_depth resign_allowed
          full root board ancillas ids s
        ≡ ok t
      → SameTrace s t
        × (t.all_steps_data ≡ s.all_steps_data)
        × (length t.temp_data ≤ length s.temp_data + 1)
  unfolding record_full
  record_full-Same true root board ancillas ids s t e =
      let (visits, _, last) =
        >>=-eq-ok
          (edge_visits_of lib rand env client terminal_evaluator g c_puct reference_depth
            resign_allowed root s.mcts)
          _ e in
      let entry : TempData Cell = (board, ancillas, ids, visits) in
      rw (← ok_injective last) (
        record { q_trace = refl; streak = refl; resigned = refl },
        refl,
        omega (arith, length-append s.temp_data (entry ∷ [])),
      )
  record_full-Same false root board ancillas ids s t e =
      rw (← ok_injective e) (SameTrace-refl s, refl, omega arith)

  play-Same :
      (action : Action) (s t : Episode F E Cell C R)
      → play lib rand env client terminal_evaluator g c_puct reference_depth resign_allowed action s
        ≡ ok t
      → SameTrace s t × SameRecords s t
  unfolding play
  play-Same action s t e =
      let (a, _, last) = >>=-eq-ok (expect (lib.decode s.game action)) _ e in
      rw (← ok_injective last) (
        record { q_trace = refl; streak = refl; resigned = refl },
        record { temp = refl; steps = refl },
      )

  -- The record of a move, and the move.
  recorded-Stepped :
      (s t u : Episode F E Cell C R) (entry : StepData Cell) (r : R) (action : Action)
      → SameTrace s t
      → t.all_steps_data ≡ s.all_steps_data
      → length t.temp_data ≤ length s.temp_data + 1
      → play lib rand env client terminal_evaluator g c_puct reference_depth resign_allowed action
          (record t { rng = r; all_steps_data = t.all_steps_data ++ (entry ∷ []) })
        ≡ ok u
      → Stepped s u
  recorded-Stepped s t u entry r action traces steps temp e =
      let (same, records) =
        play-Same action (record t { rng = r; all_steps_data = t.all_steps_data ++ (entry ∷ []) }) u
          e in
      record {
        traces = record {
          q_trace = same.q_trace ∙ traces.q_trace;
          streak = same.streak ∙ traces.streak;
          resigned = same.resigned ∙ traces.resigned;
        };
        steps =
            ap length records.steps
            ∙ length-append t.all_steps_data (entry ∷ [])
            ∙ ap (λ (xs : List (StepData Cell)). length xs + 1) steps;
        temp = rw records.temp temp;
      }

  pub take_step-Stepped :
      (full : Bool) (root : Node F) (step : ℕ) (s u : Episode F E Cell C R) (action : Action)
      → take_step lib rand env client terminal_evaluator g c_puct reference_depth resign_allowed
          full root step s
        ≡ ok (action, u)
      → Stepped s u
  unfolding take_step
  take_step-Stepped full root step s u action e =
      let (ids, _, rest) = >>=-eq-ok (valid_ids lib s.game) _ e in
      let (t, recorded, rest') =
        >>=-eq-ok
          (record_full lib rand env client terminal_evaluator g c_puct reference_depth
            resign_allowed full root (lib.board s.game g.lookahead) (lib.num_ancillas s.game) ids s)
          _ rest in
      let ((a, r), _, rest'') =
        >>=-eq-ok (select_action rand lib g root t.game step t.rng) _ rest' in
      let (v, played, last) =
        >>=-eq-ok
          (play lib rand env client terminal_evaluator g c_puct reference_depth resign_allowed a _)
          _ rest'' in
      let same : v ≡ u = ap (λ p. p.1) (ok_injective last) in
      let (traces, steps, temp) =
        record_full-Same full root (lib.board s.game g.lookahead) (lib.num_ancillas s.game) ids s t
          recorded in
      rw (← same) (recorded-Stepped s t v _ r a traces steps temp played)
