-- ===== src/Tests/Setup.antt =====
-- A game on numbers, whose states are the nodes of a binary tree of depth 3, and a client that
-- answers it. The floats are natural numbers.
use Prim.Native.Nat.{compare}
use mcts.Prelude.{
  ℕ, ◌+◌, ◌-◌, ◌*◌, ◌/◌, ◌^◌, ◌≡◌, refl, ap, min, max, false, none, some, List, [], ◌∷◌, map,
  length-map, ltb, leb, ◌==◌, arith, inr,
}
use mcts.Float.{Float}
use mcts.Environment.{Environment, InferenceClient}
use mcts.Node.{new, Node, Action}
use mcts.Mcts.{Mcts, get_node, node_exists, new_search, create_node, clamp}
use mcts.Tree.{IsLawful, IsSound}
use mcts.Tree.Expansion.{create_node-IsSound, expand-IsSound}
use mcts.Expand.{expand, set_child}
use mcts.Run.Total.{Answers}

-- Numbers in place of floats.
instance unfoldable pub numbers : Float ℕ
numbers = record {
  lit = λ m k. m / 10 ^ k;
  neg = λ x. x;
  add = ◌+◌;
  sub = ◌-◌;
  mul = ◌*◌;
  div = λ x y. x / max y 1;
  sqrt = λ x. x;
  powf = λ x y. x ^ y;
  abs = λ x. x;
  floor = λ x. x;
  ceil = λ x. x;
  round = λ x. x;
  exp = λ x. x;
  ln = λ x. x;
  tanh = λ x. x;
  powi = λ x n. x ^ n;
  max_of = max;
  min_of = min;
  infinity = 10 ^ 9;
  lt = ltb;
  eq = ◌==◌;
  partial_cmp = λ x y. some (compare x y);
  of_usize = λ n. n;
  to_usize = λ x. x;
}

-- Every state has the moves 0 and 1; a state from 7 on is over.
abbrev pub game : Environment ℕ ℕ
game = record {
  step = λ a s. 2 * s + a + 1;
  done = λ s. leb 7 s;
  observation = λ s. s;
  valid_actions = λ s. 0 ∷ 1 ∷ [];
  num_actions = λ s. 2;
  hash = λ s. s;
  render = λ s. "state";
}

abbrev pub evaluator : ℕ → ℕ
evaluator s = s

abbrev pub answer : ℕ → List (Action × ℕ)
answer o = (0, 3) ∷ (1, 1) ∷ []

-- Its state counts the calls.
abbrev pub client : InferenceClient ℕ ℕ ℕ
client = record { infer = λ calls batch. (calls + 1, some (map answer batch, batch)) }

pub game-IsLawful : IsLawful game
game-IsLawful = record {
  in_bounds = λ s. ground arith;
  hash_step = λ a s t h. ap (λ x. 2 * x + a + 1) h;
}

pub client-Answers : Answers client
client-Answers = record {
  answers = λ c batch. (c + 1, map answer batch, batch, refl, length-map batch answer, refl);
}

-- An empty search that was told its root.
abbrev pub blank : Mcts ℕ
blank = record (new_search 2) { root_id = some 0 }

pub blank-IsSound : IsSound game blank
unfolding new_search get_node node_exists
blank-IsSound = record {
  consistent = record {
    indexed = λ id i h. absurd (ground arith);
    owned = λ i n h. absurd (ground arith);
  };
  dense = λ id n h. absurd (ground arith);
  closed = λ id c a n h. absurd (ground arith);
  linked = λ id c a n s h. absurd (ground arith);
}

-- The root's node, and then that of its first move.
abbrev pub rooted : Mcts ℕ
rooted = create_node game 0 (answer 0) 1 blank

abbrev pub grown : Mcts ℕ
grown = expand game 0 0 1 (answer 1) 1 rooted

pub rooted-IsSound : IsSound game rooted
unfolding node_exists new_search
rooted-IsSound =
    (create_node-IsSound game blank blank-IsSound 0 (answer 0) 1 refl
      (inr (omega arith, (omega arith, tt)))).0

pub grown-IsSound : IsSound game grown
grown-IsSound =
    expand-IsSound game rooted rooted-IsSound 0 0 1 0 (answer 1) 1 game-IsLawful refl refl

abbrev pub root_node : Node ℕ
root_node = record {
  id = 0;
  num_actions = 2;
  valid_actions = 0 ∷ 1 ∷ [];
  prior_probs = 3 ∷ 1 ∷ [];
  value_estimate = 1;
  node_visits = 0;
  children = some 1 ∷ none ∷ [];
  edge_visits = 0 ∷ 0 ∷ [];
  virtual_losses = 0 ∷ 0 ∷ [];
  edge_penalties = 0 ∷ 0 ∷ [];
  value = 1;
  terminal_state = false;
  repr = none;
}

pub root-at : get_node grown 0 ≡ some root_node
unfolding get_node expand new_search create_node set_child new clamp numbers
root-at = refl
