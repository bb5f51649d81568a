-- ===== src/Gatherer/Demos/OneHot.antt =====
-- The demo records.
use mcts.Prelude.{
  ℕ, ◌%◌, ◌^◌, ◌≤◌, ◌≡◌, refl, sym, ap, true, false, Option, none, some, List, [], ◌∷◌, ◌++◌, All,
  length, length-append, any, ◌==◌, ok, ok_injective, >>=-eq-ok, arith, Bool-cases, inl, inr,
}
use mcts.Float.{Float, f_zero, f_one}
use mcts.Node.{Action}
use mcts.Gatherer.{Gatherer}
use mcts.Gatherer.Game.{Library, Random, valid_ids, step_move, heuristic_typed_plan}
use mcts.Gatherer.Lines.{TrainingLine, weight, demo, Files}
use mcts.Gatherer.Demos.{demo_line, sampled, demo_lines, demo_state, demo_from, write_demo_episode}

-- A demo: all the weight on one valid move, and a reward of 0; it is never gold.
pub record IsDemo {F Cell : Type 0} ⦃fl : Float F⦄ (line : TrainingLine F Cell) : Type 0 where
  pub move : Action
  pub one_hot : line.edge_visits ≡ (move, weight f_one) ∷ []
  pub valid : any (λ a. a == move) line.valid_actions ≡ true
  pub reward : line.reward ≡ f_zero
  pub kind : line.reward_kind ≡ demo
  pub marked : line.is_demo ≡ true
  pub no_gold : line.gold ≡ false

All-append {ℓ κ} :
    {A : Type ℓ} (P : A → Type κ) (xs ys : List A) → All P xs → All P ys → All P (xs ++ ys)
All-append P [] ys h k = k
All-append P (x ∷ xs) ys (p, h) k = (p, All-append P xs ys h k)

module _ {F E Move Cell R : Type 0} ⦃fl : Float F⦄ (lib : Library F E Move Cell) (rand : Random F R)
    (g : Gatherer F) where
  Demos : List (TrainingLine F Cell) → ℕ → Type 0
  Demos lines n = All IsDemo lines × (length lines ≤ n)

  demo_lines-Demos :
      (tenv : E) (h w : ℕ) (encoded : Action) (rng : R) (valid_actions : List Action)
      → Demos (demo_lines lib rand g tenv h w encoded rng valid_actions).0 1
  unfolding Demos demo_lines sampled demo_line
  demo_lines-Demos tenv h w encoded rng valid_actions =
      elim (Bool-cases (any (λ a. a == encoded) valid_actions)) [
        | inr invalid ↦ rw invalid (tt, omega arith)
        | inl valid ↦ elim (Bool-cases (fl.lt (rand.random rng).0 g.demo_subsample)) [
          | inr dropped ↦ rw (valid, dropped) (tt, omega arith)
          | inl kept ↦
              rw (valid, kept)
                (
                  (
                    record {
                      move = encoded;
                      one_hot = refl;
                      valid = valid;
                      reward = refl;
                      kind = refl;
                      marked = refl;
                      no_gold = refl;
                    },
                    tt,
                  ),
                  omega arith,
                )
        ]
      ]

  demo_state-Demos :
      (tenv : E) (h w : ℕ) (rng rng' : R) (id : Option ℕ) (lines : List (TrainingLine F Cell))
      → demo_state lib rand g tenv h w rng id ≡ ok (lines, rng')
      → Demos lines 1
  unfolding demo_state Demos
  demo_state-Demos tenv h w rng rng' none lines e =
      rw (← ap (λ p. p.0) (ok_injective e)) (tt, omega arith)
  demo_state-Demos tenv h w rng rng' (some id) lines e =
      let (ids, _, last) = >>=-eq-ok (valid_ids lib tenv) _ e in
      rw (← ap (λ p. p.0) (ok_injective last)) (demo_lines-Demos tenv h w (id % 2 ^ 16) rng ids)

  demo_from-Demos :
      (h w : ℕ) (plan : List Move) (tenv : E) (rng rng' : R) (lines : List (TrainingLine F Cell))
      → demo_from lib rand g h w plan tenv rng ≡ ok (lines, rng')
      → Demos lines (length plan)
  unfolding demo_from Demos
  demo_from-Demos h w [] tenv rng rng' lines e =
      rw (← ap (λ p. p.0) (ok_injective e)) (tt, omega arith)
  demo_from-Demos h w (a ∷ plan) tenv rng rng' lines e =
      let ((some_lines, r), first, rest) =
        >>=-eq-ok (demo_state lib rand g tenv h w rng (lib.encode tenv a)) _ e in
      let ((others, r'), more, last) =
        >>=-eq-ok (demo_from lib rand g h w plan (step_move lib a tenv) r) _ rest in
      let (p, k) = demo_state-Demos tenv h w rng r (lib.encode tenv a) some_lines first in
      let (q, l) = demo_from-Demos h w plan (step_move lib a tenv) r r' others more in
      rw (← ap (λ p. p.0) (ok_injective last)) (
        All-append IsDemo some_lines others p q,
        omega (arith, length-append some_lines others, k, l),
      )

  -- If a demo is written, it leaves the gold, the trajectories and the resignation log alone, and
  -- adds to the output at most one line for each move of the heuristic's plan. Each puts all the
  -- weight on one move, which is valid in the line's state, and has the reward 0.
  pub write_demo_episode-IsDemo :
      (game : E) (rng rng' : R) (files after : Files F Cell)
      → write_demo_episode lib rand g game rng files ≡ ok (after, rng')
      → (lines : List (TrainingLine F Cell)) × (after
          ≡ record files { output = files.output ++ lines })
        × All IsDemo lines
        × (length lines ≤ length (heuristic_typed_plan lib game).1)
  unfolding write_demo_episode Demos
  write_demo_episode-IsDemo game rng rng' files after e =
      let tenv : E = lib.set_cultivation_time 10 game in
      let ((lines, r), made, last) =
        >>=-eq-ok
          (demo_from lib rand g (lib.height tenv) (lib.width tenv) (heuristic_typed_plan lib game).1
            tenv rng)
          _ e in
      let (p, k) =
        demo_from-Demos (lib.height tenv) (lib.width tenv) (heuristic_typed_plan lib game).1 tenv
          rng r lines made in
      (lines, ap (λ p. p.0) (sym (ok_injective last)), p, k)
