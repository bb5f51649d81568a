-- ===== src/Priors.antt =====
-- mcts-core/src/mcts.rs, `normalize_prior`: the prior over the valid actions.
pub mod Lookup
use mcts.Prelude.{ℕ, Option, none, some, List, [], ◌∷◌, length, lookup, insert, if◌then◌else◌}
use mcts.Float.{Float, f_zero, f_one}
use mcts.Node.{Action}

module _ {F : Type 0} ⦃fl : Float F⦄ where
  -- The loop that sums the priors of the valid actions.
  pub total_from : List (Action × F) → F → List Action → F
  total_from priors total [] = total
  total_from priors total (a ∷ actions) =
      total_from priors (elim (lookup a priors) [ none ↦ total | some p ↦ fl.add total p ]) actions

  -- The two loops that fill the result.
  pub insert_uniform : F → List Action → List (Action × F) → List (Action × F)
  insert_uniform p [] normalized = normalized
  insert_uniform p (a ∷ actions) normalized = insert_uniform p actions (insert a p normalized)

  pub insert_scaled : List (Action × F) → F → List Action → List (Action × F) → List (Action × F)
  insert_scaled priors total [] normalized = normalized
  insert_scaled priors total (a ∷ actions) normalized =
      insert_scaled priors total actions (elim (lookup a priors) [
        | none ↦ normalized
        | some p ↦ insert a (fl.div p total) normalized
      ])

  unfoldable pub normalize_prior : List (Action × F) → List Action → List (Action × F)
  unfolding total_from insert_uniform insert_scaled
  normalize_prior priors actions =
      let total = total_from priors f_zero actions in
      if fl.eq total f_zero
      then insert_uniform (fl.div f_one (fl.of_usize (length actions))) actions []
      else insert_scaled priors total actions []
