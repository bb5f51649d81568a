-- ===== src/Evaluator/Certified.antt =====
-- What `evaluate_single` returns is a record of the game that the agent has played.
use mcts.Prelude.{
  ℕ, zero, suc, ◌≤◌, ◌≡◌, refl, sym, ap, ◌∙◌, true, false, ◌||◌, Option, none, some, List, [], ◌∷◌,
  ◌++◌, append-nil, append_assoc, length, if◌then◌else◌, ok, expect, ◌>>=◌, >>=-eq-ok, ok_injective,
  arith, Bool-cases, inl, inr, ◌⊎◌, get_or,
}
use mcts.Float.{Float}
use mcts.Environment.{Environment, InferenceClient}
use mcts.Node.{Action}
use mcts.Run.{run}
use mcts.Advance.{advance_root}
use mcts.Gatherer.Game.{Library, valid_ids, step_move}
use mcts.Evaluator.{
  Evaluator, Evaluation, Rollout, is_empty, max_by_key, reference, eval_terminal, eval_budget,
  eval_move, eval_round, eval_loop, evaluation_of, evaluate_against, evaluate_single,
}

expect-eq-ok : {A : Type 0} (found : Option A) {a : A} → expect found ≡ ok a → found ≡ some a
expect-eq-ok none e = cc
expect-eq-ok (some b) e = cc

module _ {F E Move Cell O C : Type 0} ⦃fl : Float F⦄ (lib : Library F E Move Cell)
    (env : Environment E O) (client : InferenceClient F O C) (v : Evaluator F) where
  -- A list of recorded actions, decoded and played out; none where one does not decode.
  unfoldable pub played : E → List Action → Option E
  played e [] = some e
  played e (id ∷ ids) = elim (lib.decode e id) [
    | none ↦ none
    | some a ↦ played (step_move lib a e) ids
  ]

  played-cons :
      (e : E) (id : Action) (ids : List Action) (a : Move)
      → lib.decode e id ≡ some a
      → played e (id ∷ ids) ≡ played (step_move lib a e) ids
  unfolding played
  played-cons e id ids a decoded =
      ap (λ (d : Option Move). elim d [ none ↦ none | some b ↦ played (step_move lib b e) ids ])
        decoded

  -- A move of the agent.
  eval_move-Moved :
      (reference_depth : F) (s u : Rollout F E C)
      → eval_move lib env client v reference_depth s ≡ ok u
      → (action : Action) × (a : Move) × (lib.decode s.game action ≡ some a)
        × (u.game ≡ step_move lib a s.game)
        × (u.actions_taken ≡ s.actions_taken ++ (action ∷ []))
  unfolding eval_move
  eval_move-Moved reference_depth s u e =
      let ((c, m, root), searched, e₁) =
        >>=-eq-ok
          (run env (eval_terminal lib env client v reference_depth) client s.game v.mcts_steps
            v.c_puct false s.client s.mcts)
          _ e in
      let (ids, valid, e₂) = >>=-eq-ok (valid_ids lib s.game) _ e₁ in
      let (action, chosen, e₃) =
        >>=-eq-ok (expect (max_by_key (λ a. get_or root.edge_visits a 0) ids)) _ e₂ in
      let (a, decoded, e₄) = >>=-eq-ok (expect (lib.decode s.game action)) _ e₃ in
      let (m', advanced, last) = >>=-eq-ok (advance_root action m) _ e₄ in
      (
        action,
        a,
        expect-eq-ok (lib.decode s.game action) decoded,
        ap (λ r. r.game) (sym (ok_injective last)),
        ap (λ r. r.actions_taken) (sym (ok_injective last)),
      )

  -- The rounds from `s` to `t`.
  record Rolls (n : ℕ) (s t : Rollout F E C) : Type 0 where
    pub moves : List Action
    pub taken : t.actions_taken ≡ s.actions_taken ++ moves
    pub replays : played s.game moves ≡ some t.game
    pub steps : length moves ≤ n
    pub ended :
        ((lib.done t.game || is_empty (lib.valid_actions t.game)) ≡ true) ⊎ (length moves ≡ n)

  still-Rolls :
      (n : ℕ) (s t : Rollout F E C)
      → s ≡ t
      → (((lib.done t.game || is_empty (lib.valid_actions t.game)) ≡ true) ⊎ (0 ≡ n))
      → Rolls n s t
  unfolding played
  still-Rolls n s t same ended = record {
    moves = [];
    taken = ap (λ r. r.actions_taken) (sym same) ∙ sym (append-nil s.actions_taken);
    replays = ap (λ r. some r.game) same;
    steps = omega arith;
    ended = ended;
  }

  move-Rolls :
      (n : ℕ) (s u t : Rollout F E C) (action : Action) (a : Move)
      → lib.decode s.game action ≡ some a
      → u.game ≡ step_move lib a s.game
      → u.actions_taken ≡ s.actions_taken ++ (action ∷ [])
      → Rolls n u t
      → Rolls (suc n) s t
  move-Rolls n s u t action a decoded moved taken h = record {
    moves = action ∷ h.moves;
    taken = rw (h.taken, taken) (append_assoc s.actions_taken (action ∷ []) h.moves);
    replays =
        played-cons s.game action h.moves a decoded
        ∙ ap (λ e. played e h.moves) (sym moved)
        ∙ h.replays;
    steps = omega (arith, h.steps);
    ended = elim h.ended [ inl over ↦ inl over | inr spent ↦ inr (ap suc spent) ];
  }

  eval_loop-Rolls :
      (reference_depth : F) (n : ℕ) (s t : Rollout F E C)
      → eval_loop lib env client v reference_depth n s ≡ ok t
      → Rolls n s t
  unfolding eval_loop eval_round
  eval_loop-Rolls reference_depth zero s t e = still-Rolls zero s t (ok_injective e) (inr refl)
  eval_loop-Rolls reference_depth (suc n) s t e =
      elim (Bool-cases (lib.done s.game || is_empty (lib.valid_actions s.game))) [
        | inl over ↦
            let same : s ≡ t = ok_injective (rw over at e) in
            still-Rolls (suc n) s t same (inl (rw (← same) over))
        | inr on ↦
            let e' : (eval_move lib env client v reference_depth s
                  >>= eval_loop lib env client v reference_depth n)
                ≡ ok t =
              rw on at e in
            let (u, moved, rest) = >>=-eq-ok (eval_move lib env client v reference_depth s) _ e' in
            let (action, a, decoded, game, taken) = eval_move-Moved reference_depth s u moved in
            move-Rolls n s u t action a decoded game taken
              (eval_loop-Rolls reference_depth n u t rest)
      ]

  -- The record of a game that has been played out: its end, the depth that is reported, the budget,
  -- and why it ended.
  pub record IsPlayed (start : E) (o : Evaluation F) : Type 0 where
    pub final : E
    pub replays : played (lib.set_cultivation_time 10 start) o.actions ≡ some final
    pub depth : o.solution_depth ≡ (if lib.done final then some (lib.depth final) else none)
    pub steps : length o.actions ≤ eval_budget lib env client v (lib.solve_plainly start)
    pub ended :
        ((lib.done final || is_empty (lib.valid_actions final)) ≡ true)
        ⊎ (length o.actions ≡ eval_budget lib env client v (lib.solve_plainly start))

  -- From the reference on.
  evaluate_against-IsPlayed :
      (start : E) (c c' : C) (found : Option F) (o : Evaluation F)
      → evaluate_against lib env client v start c found ≡ ok (o, c')
      → ((found ≡ none) × (o.heuristic_unsolvable ≡ true) × (o.solution_depth ≡ none))
        ⊎ ((o.heuristic_unsolvable ≡ false) × IsPlayed start o)
  unfolding evaluate_against evaluation_of
  evaluate_against-IsPlayed start c c' none o e =
      let same : _ ≡ o = ap (λ p. p.0) (ok_injective e) in
      inl (refl, rw (← same) refl, rw (← same) refl)
  evaluate_against-IsPlayed start c c' (some reference_depth) o e =
      let (s, rolled, last) =
        >>=-eq-ok
          (eval_loop lib env client v reference_depth
            (eval_budget lib env client v (lib.solve_plainly start)) _)
          _ e in
      let h = eval_loop-Rolls reference_depth _ _ s rolled in
      let same : evaluation_of lib env client v start reference_depth s ≡ o =
        ap (λ p. p.0) (ok_injective last) in
      let moves : s.actions_taken ≡ h.moves = h.taken in
      rw (← same) (
        inr (
          refl,
          record {
            final = s.game;
            replays = rw moves h.replays;
            depth = refl;
            steps = rw moves h.steps;
            ended = rw moves h.ended;
          },
        ))

  -- If the evaluation of an environment returns, then either the heuristic found no solution and
  -- the result says so, or the actions that it reports are a game from the environment's start:
  -- each decodes, and played out they give a state whose depth is the reported one just when it
  -- is done. They are at most as many as the budget, and fewer only where the state is done or
  -- has no valid move.
  pub evaluate_single-IsPlayed :
      (start : E) (c c' : C) (o : Evaluation F)
      → evaluate_single lib env client v start c ≡ ok (o, c')
      → ((reference lib env client v (lib.set_cultivation_time 10 start) ≡ none)
          × (o.heuristic_unsolvable ≡ true)
          × (o.solution_depth ≡ none))
        ⊎ ((o.heuristic_unsolvable ≡ false) × IsPlayed start o)
  unfolding evaluate_single
  evaluate_single-IsPlayed start c c' o e = evaluate_against-IsPlayed start c c' _ o e
