-- ===== src/Node/Build.antt =====
-- `Node::new`: the slots that it fills, and the order of its actions.
use Prim.Native.String.{String}
use mcts.Prelude.{
  ℕ, ◌<◌, ◌≡◌, ◌∙◌, refl, ap, Option, none, List, [], ◌∷◌, ◌++◌, append_assoc, length, get_or, set,
  replicate, All, arith, length-set, length-replicate, keys, get_or-set_self, get_or-set_ne,
  get_or-replicate, ltb, if◌then◌else◌, sym, subst, append-nil, Distinct, lookup_or,
  lookup_or-default,
}
use mcts.Float.{Float, f_zero}
use mcts.Node.{NodeId, Action, fill_priors, new}
use mcts.Node.Dense.{IsDense}

module _ {F : Type 0} where
  valid-fill_priors :
      (n : ℕ) (m : List (Action × F)) (probs : List F) (valid : List Action)
      → (fill_priors n m probs valid).1 ≡ valid ++ keys m
  unfolding fill_priors
  valid-fill_priors n [] probs valid = sym (append-nil valid)
  valid-fill_priors n ((a, p) ∷ m) probs valid =
      valid-fill_priors n m _ (valid ++ (a ∷ [])) ∙ append_assoc valid (a ∷ []) (keys m)

  length-fill_priors :
      (n : ℕ) (m : List (Action × F)) (probs : List F) (valid : List Action)
      → length (fill_priors n m probs valid).0 ≡ length probs
  unfolding fill_priors
  length-fill_priors n [] probs valid = refl
  length-fill_priors n ((a, p) ∷ m) probs valid = ground (
    arith,
    length-set probs a p,
    length-fill_priors n m (if ltb a n then set probs a p else probs) (valid ++ (a ∷ [])),
  )

  probs-fill_priors :
      (n : ℕ) (m : List (Action × F)) (probs : List F) (valid : List Action) (j : ℕ) (d : F)
      → length probs ≡ n
      → Distinct (keys m)
      → j < n
      → get_or (fill_priors n m probs valid).0 j d ≡ lookup_or j m (get_or probs j d)
  unfolding fill_priors
  probs-fill_priors n [] probs valid j d e u h = refl
  probs-fill_priors n ((a, p) ∷ m) probs valid j d e u h = ground (
    arith,
    probs-fill_priors n m (if ltb a n then set probs a p else probs) (valid ++ (a ∷ [])) j d,
    length-set probs a p,
    get_or-set_self probs a p d,
    get_or-set_ne probs a j p d,
    lookup_or-default j m p,
  )

module _ {F : Type 0} ⦃fl : Float F⦄ where
  -- On a prior whose actions are distinct, `Node::new` lists the actions in the map's order, gives
  -- each slot the prior of its action, or zero, and starts every edge at no visit, no virtual loss
  -- and no child.
  pub new_lem :
      (n : ℕ) (m : List (Action × F)) (v : F) (id : NodeId) (r : Option String)
      → Distinct (keys m)
      → ((new n m v id r).valid_actions ≡ keys m)
        × ((j : ℕ) → j < n → get_or (new n m v id r).prior_probs j f_zero ≡ lookup_or j m f_zero)
        × ((j : ℕ) → get_or (new n m v id r).edge_visits j 0 ≡ 0)
        × ((j : ℕ) → get_or (new n m v id r).virtual_losses j 0 ≡ 0)
        × ((j : ℕ) → get_or (new n m v id r).children j none ≡ none)
  unfolding new
  new_lem n m v id r u = (
    valid-fill_priors n m (replicate n f_zero) [],
    λ j h.
        probs-fill_priors n m (replicate n f_zero) [] j f_zero (length-replicate n f_zero) u h
        ∙ ap (lookup_or j m) (get_or-replicate n j f_zero),
    λ j. get_or-replicate n j 0,
    λ j. get_or-replicate n j 0,
    λ j. get_or-replicate n j none,
  )

  -- A node whose actions all have a slot is dense.
  pub new-IsDense :
      (n : ℕ) (m : List (Action × F)) (v : F) (id : NodeId) (r : Option String)
      → All (λ a. a < n) (keys m)
      → IsDense (new n m v id r)
  unfolding new
  new-IsDense n m v id r h = record {
    priors = length-fill_priors n m (replicate n f_zero) [] ∙ length-replicate n f_zero;
    slots = length-replicate n none;
    visits = length-replicate n 0;
    losses = length-replicate n 0;
    penalties = length-replicate n f_zero;
    valid = subst (All (λ a. a < n)) (sym (valid-fill_priors n m (replicate n f_zero) [])) h;
  }
