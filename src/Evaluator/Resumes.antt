-- ===== src/Evaluator/Resumes.antt =====
-- An evaluation that is run again, as after a crash.
use mcts.Prelude.{
  ℕ, ◌≡◌, refl, sym, ap, ◌∙◌, subst, Bool, true, ◌&&◌, ◌||◌, Option, none, some, List, [], ◌∷◌,
  ◌++◌, append-nil, append_assoc, any, ◌==◌, ok, >>=-eq-ok, ok_injective, arith, Bool-cases, inl,
  inr, ◌⊎◌, All,
}
use mcts.Float.{Float}
use mcts.Environment.{Environment, InferenceClient}
use mcts.Gatherer.Game.{Library}
use mcts.Evaluator.{
  Evaluator, HoldoutEnvironment, Solution, evaluate_single, attempted, solution_of,
  insert_or_ignore, attempt, evaluate_holdout, evaluate_agent_with_client,
}

any-append :
    {A : Type 0} (p : A → Bool) (xs ys : List A) → any p (xs ++ ys) ≡ (any p xs || any p ys)
any-append p [] ys = refl
any-append p (x ∷ xs) ys = elim (Bool-cases (p x)) [
  | inl hit ↦ rw hit refl
  | inr miss ↦ rw miss (any-append p xs ys)
]

module _ {F E Move Cell O C J : Type 0} ⦃fl : Float F⦄ (lib : Library F E Move Cell)
    (env : Environment E O) (client : InferenceClient F O C) (v : Evaluator F)
    (from_json : J → Option E) (agent : ℕ) where
  -- An environment that the agent is done with: it has been attempted, or does not deserialise.
  IsSettled : List (Solution F) → HoldoutEnvironment J → Type 0
  IsSettled solutions holdout =
      (attempted lib env client v agent holdout.environment_id solutions ≡ true)
      ⊎ (from_json holdout.json ≡ none)

  append-IsSettled :
      (holdout : HoldoutEnvironment J) (solutions new : List (Solution F))
      → IsSettled solutions holdout
      → IsSettled (solutions ++ new) holdout
  unfolding IsSettled attempted
  append-IsSettled holdout solutions new (inr broken) = inr broken
  append-IsSettled holdout solutions new (inl found) =
      inl (rw (any-append _ solutions new, found) refl)

  -- A settled environment is skipped.
  settled-skips :
      (holdout : HoldoutEnvironment J) (c : C) (solutions : List (Solution F))
      → IsSettled solutions holdout
      → evaluate_holdout lib env client v from_json agent holdout c solutions ≡ ok (solutions, c)
  unfolding IsSettled evaluate_holdout attempt
  settled-skips holdout c solutions (inl found) = rw found refl
  settled-skips holdout c solutions (inr broken) =
      elim (Bool-cases (attempted lib env client v agent holdout.environment_id solutions)) [
        | inl found ↦ rw found refl
        | inr new ↦ rw (new, broken) refl
      ]

  -- An environment that is not settled is evaluated, and its row is added; either way it is settled.
  record Grows (holdout : HoldoutEnvironment J) (solutions after : List (Solution F)) : Type 0 where
    pub new : List (Solution F)
    pub added : after ≡ solutions ++ new
    pub settled : IsSettled after holdout

  own-attempted :
      (solutions : List (Solution F)) (row : Solution F)
      → attempted lib env client v row.agent_id row.environment_id (solutions ++ (row ∷ [])) ≡ true
  unfolding attempted
  own-attempted solutions row =
      any-append (λ r. (r.agent_id == row.agent_id) && (r.environment_id == row.environment_id))
        solutions (row ∷ [])
      ∙ ground arith

  insert-Grows :
      (holdout : HoldoutEnvironment J) (solutions : List (Solution F)) (row : Solution F)
      → row.agent_id ≡ agent
      → row.environment_id ≡ holdout.environment_id
      → Grows holdout solutions (insert_or_ignore lib env client v row solutions)
  unfolding insert_or_ignore IsSettled
  insert-Grows holdout solutions row mine its =
      elim (Bool-cases (attempted lib env client v row.agent_id row.environment_id solutions)) [
        | inl found ↦ rw found (record {
          new = [];
          added = sym (append-nil solutions);
          settled = inl (rw (← mine, ← its) found);
        })
        | inr fresh ↦ rw fresh (record {
          new = row ∷ [];
          added = refl;
          settled = inl (rw (← mine, ← its) (own-attempted solutions row));
        })
      ]

  attempt-Grows :
      (holdout : HoldoutEnvironment J) (start : Option E) (c c' : C)
      (solutions after : List (Solution F))
      → from_json holdout.json ≡ start
      → attempt lib env client v from_json agent holdout.environment_id start c solutions
        ≡ ok (after, c')
      → Grows holdout solutions after
  unfolding attempt solution_of IsSettled
  attempt-Grows holdout none c c' solutions after broken e = record {
    new = [];
    added = ap (λ p. p.0) (sym (ok_injective e)) ∙ sym (append-nil solutions);
    settled = inr broken;
  }
  attempt-Grows holdout (some start) c c' solutions after valid e =
      let ((o, c₁), evaluated, last) = >>=-eq-ok (evaluate_single lib env client v start c) _ e in
      subst (Grows holdout solutions) (ap (λ p. p.0) (ok_injective last)) (
        insert-Grows holdout solutions (solution_of lib env client v agent holdout.environment_id o)
          refl refl)

  evaluate_holdout-Grows :
      (holdout : HoldoutEnvironment J) (c c' : C) (solutions after : List (Solution F))
      → evaluate_holdout lib env client v from_json agent holdout c solutions ≡ ok (after, c')
      → Grows holdout solutions after
  unfolding evaluate_holdout IsSettled
  evaluate_holdout-Grows holdout c c' solutions after e =
      elim (Bool-cases (attempted lib env client v agent holdout.environment_id solutions)) [
        | inl found ↦
            let same : ok (solutions, c) ≡ ok (after, c') = rw found at e in
            record {
              new = [];
              added = ap (λ p. p.0) (sym (ok_injective same)) ∙ sym (append-nil solutions);
              settled = inl (rw (← ap (λ p. p.0) (ok_injective same)) found);
            }
        | inr fresh ↦
            attempt-Grows holdout (from_json holdout.json) c c' solutions after refl (rw fresh at e)
      ]

  -- All of the environments are settled at the end, and the table has only grown.
  record Done (environments : List (HoldoutEnvironment J)) (solutions after : List (Solution F))
      : Type 0 where
    pub new : List (Solution F)
    pub added : after ≡ solutions ++ new
    pub settled : All (IsSettled after) environments

  evaluate-Done :
      (environments : List (HoldoutEnvironment J)) (c c' : C) (solutions after : List (Solution F))
      → evaluate_agent_with_client lib env client v from_json agent environments c solutions
        ≡ ok (after, c')
      → Done environments solutions after
  unfolding evaluate_agent_with_client
  evaluate-Done [] c c' solutions after e = record {
    new = [];
    added = ap (λ p. p.0) (sym (ok_injective e)) ∙ sym (append-nil solutions);
    settled = tt;
  }
  evaluate-Done (holdout ∷ environments) c c' solutions after e =
      let ((middle, c₁), here, rest) =
        >>=-eq-ok (evaluate_holdout lib env client v from_json agent holdout c solutions) _ e in
      let h = evaluate_holdout-Grows holdout c c₁ solutions middle here in
      let t = evaluate-Done environments c₁ c' middle after rest in
      record {
        new = h.new ++ t.new;
        added = t.added ∙ ap (λ ys. ys ++ t.new) h.added ∙ append_assoc solutions h.new t.new;
        settled = (rw t.added (append-IsSettled holdout middle t.new h.settled), t.settled);
      }

  settled-evaluate :
      (environments : List (HoldoutEnvironment J)) (c : C) (solutions : List (Solution F))
      → All (IsSettled solutions) environments
      → evaluate_agent_with_client lib env client v from_json agent environments c solutions
        ≡ ok (solutions, c)
  unfolding evaluate_agent_with_client
  settled-evaluate [] c solutions done = refl
  settled-evaluate (holdout ∷ environments) c solutions (here, rest) =
      rw (settled-skips holdout c solutions here) (settled-evaluate environments c solutions rest)

  -- If an evaluation of an agent returns, it has kept the rows of the table and added its own after
  -- them; and the same evaluation on the table that it leaves, with any client, returns at once:
  -- it adds no row and asks the client nothing.
  pub evaluate_agent_with_client_resumes :
      (environments : List (HoldoutEnvironment J)) (c c' later : C)
      (solutions after : List (Solution F))
      → evaluate_agent_with_client lib env client v from_json agent environments c solutions
        ≡ ok (after, c')
      → ((new : List (Solution F)) × (after ≡ solutions ++ new))
        × (evaluate_agent_with_client lib env client v from_json agent environments later after
            ≡ ok (after, later))
  evaluate_agent_with_client_resumes environments c c' later solutions after e =
      let d = evaluate-Done environments c c' solutions after e in
      ((d.new, d.added), settled-evaluate environments later after d.settled)
