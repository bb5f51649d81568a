-- ===== src/Puct/Bounds.antt =====
-- The loops over a node's slots return when every index has a slot.
use mcts.Prelude.{
  ℕ, zero, suc, ◌<◌, ◌≡◌, ◌∙◌, refl, sym, subst, List, [], ◌∷◌, length, set, length-set, lt→ltb,
  Exec, ok, index, arith, All,
}
use mcts.Node.{Action}
use mcts.Puct.{assign, gather, write_each, update_each}

abbrev pub Below : ℕ → List Action → Type 0
Below n actions = All (λ a. a < n) actions

pub index-ok {ℓ} :
    {A : Type ℓ} (xs : List A) (i : ℕ) → i < length xs → (x : A) × (index xs i ≡ ok x)
index-ok [] i h = absurd (omega arith)
index-ok (x ∷ xs) zero h = (x, refl)
index-ok (x ∷ xs) (suc i) h = index-ok xs i (omega arith)

module _ {A : Type 0} where
  pub gather-ok :
      (xs : List A) (actions : List Action)
      → Below (length xs) actions
      → (ys : List A) × (gather xs actions ≡ ok ys)
  unfolding gather
  gather-ok xs [] h = ([], refl)
  gather-ok xs (a ∷ actions) h =
      let (x, e) = index-ok xs a h.0 in
      let (ys, es) = gather-ok xs actions h.1 in (x ∷ ys, rw (e, es))

  pub assign-ok : (xs : List A) (i : ℕ) (x : A) → i < length xs → assign xs i x ≡ ok (set xs i x)
  assign-ok xs i x h = rw (lt→ltb i (length xs) h)

  pub write_each-ok :
      (f : Action → Exec A) (actions : List Action) (xs : List A)
      → All (λ a. (x : A) × (f a ≡ ok x)) actions
      → Below (length xs) actions
      → (ys : List A) × (write_each f actions xs ≡ ok ys) × (length ys ≡ length xs)
  unfolding write_each
  write_each-ok f [] xs g h = (xs, refl, refl)
  write_each-ok f (a ∷ actions) xs g h =
      let (x, e) = g.0 in
      let n = length-set xs a x in
      let (ys, es, l) =
        write_each-ok f actions (set xs a x) g.1 (subst (λ k. Below k actions) (sym n) h.1) in
      (ys, rw (e, assign-ok xs a x h.0, es), l ∙ n)

  pub update_each-ok :
      (f : A → A) (actions : List Action) (xs : List A)
      → Below (length xs) actions
      → (ys : List A) × (update_each f actions xs ≡ ok ys) × (length ys ≡ length xs)
  unfolding update_each
  update_each-ok f [] xs h = (xs, refl, refl)
  update_each-ok f (a ∷ actions) xs h =
      let (x, e) = index-ok xs a h.0 in
      let n = length-set xs a (f x) in
      let (ys, es, l) =
        update_each-ok f actions (set xs a (f x)) (subst (λ k. Below k actions) (sym n) h.1) in
      (ys, rw (e, assign-ok xs a (f x) h.0, es), l ∙ n)
