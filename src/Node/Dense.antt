-- ===== src/Node/Dense.antt =====
-- The dense vectors of a node: their lengths, and what the edge operations do to them.
use mcts.Prelude.{
  ℕ, zero, suc, ◌+◌, ◌<◌, ◌^◌, ◌≡◌, ◌∙◌, refl, ap, Option, List, [], ◌∷◌, length, get_or, modify,
  All, arith, length-modify, modify-modify, add_usize, saturating_sub,
}
use Prim.Native.String.{String}
use mcts.Float.{Float}
use mcts.Node.{
  Node, Action, add_virtual_loss, revert_virtual_loss, apply_penalty, revert_penalty, new_terminal,
}

-- Every per-edge vector has `num_actions` slots, and every valid action has a slot.
pub record IsDense {F : Type 0} (n : Node F) : Type 0 where
  pub priors : length n.prior_probs ≡ n.num_actions
  pub slots : length n.children ≡ n.num_actions
  pub visits : length n.edge_visits ≡ n.num_actions
  pub losses : length n.virtual_losses ≡ n.num_actions
  pub penalties : length n.edge_penalties ≡ n.num_actions
  pub valid : All (λ a. a < n.num_actions) n.valid_actions

undo_add :
    (xs : List ℕ) (i : ℕ)
    → get_or xs i 0 + 1 < 2 ^ 64
    → modify xs i (λ v. saturating_sub (add_usize v 1) 1) ≡ xs
undo_add [] i h = refl
undo_add (x ∷ xs) zero h = ap (λ t. t ∷ xs) (omega arith)
undo_add (x ∷ xs) (suc i) h = ap (λ t. x ∷ t) (undo_add xs i h)

module _ {F : Type 0} where
  pub add_virtual_loss-IsDense :
      (a : Action) {n : Node F} → IsDense n → IsDense (add_virtual_loss a n)
  unfolding add_virtual_loss
  add_virtual_loss-IsDense a {n} d = record {
    priors = d.priors;
    slots = d.slots;
    visits = d.visits;
    losses = length-modify n.virtual_losses a _ ∙ d.losses;
    penalties = d.penalties;
    valid = d.valid;
  }

  pub revert_virtual_loss-IsDense :
      (a : Action) {n : Node F} → IsDense n → IsDense (revert_virtual_loss a n)
  unfolding revert_virtual_loss
  revert_virtual_loss-IsDense a {n} d = record {
    priors = d.priors;
    slots = d.slots;
    visits = d.visits;
    losses = length-modify n.virtual_losses a _ ∙ d.losses;
    penalties = d.penalties;
    valid = d.valid;
  }

  pub new_terminal-IsDense : (id : ℕ) (v : F) (r : Option String) → IsDense (new_terminal id v r)
  unfolding new_terminal
  new_terminal-IsDense id v r = record {
    priors = refl;
    slots = refl;
    visits = refl;
    losses = refl;
    penalties = refl;
    valid = tt;
  }

  -- Reverting a virtual loss undoes adding it, as long as the counter does not wrap.
  pub revert-add_virtual_loss :
      (a : Action) (n : Node F)
      → get_or n.virtual_losses a 0 + 1 < 2 ^ 64
      → revert_virtual_loss a (add_virtual_loss a n) ≡ n
  unfolding add_virtual_loss revert_virtual_loss
  revert-add_virtual_loss a n h =
      ap (λ t. record n { virtual_losses = t })
        (modify-modify n.virtual_losses a _ _ ∙ undo_add n.virtual_losses a h)

module _ {F : Type 0} ⦃fl : Float F⦄ where
  pub apply_penalty-IsDense : (a : Action) {n : Node F} → IsDense n → IsDense (apply_penalty a n)
  unfolding apply_penalty
  apply_penalty-IsDense a {n} d = record {
    priors = d.priors;
    slots = d.slots;
    visits = d.visits;
    losses = d.losses;
    penalties = length-modify n.edge_penalties a _ ∙ d.penalties;
    valid = d.valid;
  }

  pub revert_penalty-IsDense : (a : Action) {n : Node F} → IsDense n → IsDense (revert_penalty a n)
  unfolding revert_penalty
  revert_penalty-IsDense a {n} d = record {
    priors = d.priors;
    slots = d.slots;
    visits = d.visits;
    losses = d.losses;
    penalties = length-modify n.edge_penalties a _ ∙ d.penalties;
    valid = d.valid;
  }
