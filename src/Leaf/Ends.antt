-- ===== src/Leaf/Ends.antt =====
-- `select_leaf` ends, and what it hands to its caller.
use mcts.Prelude.{
  ℕ, zero, suc, ◌<◌, ◌≡◌, refl, subst, ◌⊎◌, Bool, true, false, ◌||◌, [], length, ◌==◌, arith,
  Bool-cases, Option-cases, inl, inr, Exec, ok,
}
use mcts.Float.{Float}
use mcts.Environment.{Environment}
use mcts.Node.{Node, NodeId}
use mcts.Mcts.{Mcts, node_exists}
use mcts.Mcts.Table.{get_node-exists}
use mcts.Puct.Best.{select_action_puct-Chosen}
use mcts.Leaf.{
  Walk, Next, again, stop, check_state_repeat, descend_by, choose, round, leaf_loop, start,
  select_leaf,
}
use mcts.Leaf.Steps.{FromTree, mark, Goes, room, descend-Goes}
use mcts.Tree.{IsSound}
use mcts.Tree.Measure.{weight-le}

Next-cases : (next : Next) → (next ≡ again) ⊎ (next ≡ stop)
Next-cases again = inl refl
Next-cases stop = inr refl

module _ {F S O : Type 0} ⦃fl : Float F⦄ (env : Environment S O) (m : Mcts F) (root_id : NodeId)
    (c_puct : F) (forced : Bool) where
  -- A round, and what it leaves.
  abbrev RoundGoes : Walk F S → Exec (Walk F S × Next) → Type 0
  RoundGoes w r =
      (v : Walk F S) × (next : Next) × (r ≡ ok (v, next)) × FromTree env m v × Goes env m w next v

  choose-Goes :
      (w : Walk F S)
      → FromTree env m w
      → env.hash w.game ≡ w.node_id
      → node_exists w.tree w.node_id ≡ true
      → check_state_repeat w.node_id w.path ≡ false
      → RoundGoes w (choose env root_id c_puct forced w)
  unfolding choose descend_by
  choose-Goes w f here there new =
      let (n, at) = get_node-exists f.sound.consistent w.node_id there in
      let (r, e, chosen) =
        select_action_puct-Chosen w.tree w.node_id n c_puct (w.node_id == root_id) forced at
          (f.sound.dense w.node_id n at) in
      elim (Option-cases r) [
        | inl gone ↦ (w, stop, rw (e, gone), f, tt)
        | inr (a, some_action) ↦
            let (v, next, e', f', g) = descend-Goes env m w a n f here at new in
            (v, next, rw (e, some_action, e'), f', g)
      ]

  round-Goes :
      (w : Walk F S)
      → FromTree env m w
      → env.hash w.game ≡ w.node_id
      → RoundGoes w (round env root_id c_puct forced w)
  unfolding round
  round-Goes w f here = elim (Bool-cases (node_exists w.tree w.node_id)) [
    | inr missing ↦ (w, stop, rw missing, f, tt)
    | inl there ↦ elim (Bool-cases (check_state_repeat (env.hash w.game) w.path)) [
      | inl seen ↦ (
        record w { repeat_detected = true },
        stop,
        rw (there, seen),
        record { sound = f.sound; exists = f.exists; came = f.came; marked = f.marked },
        tt,
      )
      | inr new ↦
          let (v, next, e, f', g) = choose-Goes w f here there (rw here at new) in
          (v, next, rw (there, new, e), f', g)
    ]
  ]

  leaf_loop-returns :
      (fuel : ℕ) (w : Walk F S)
      → FromTree env m w
      → env.hash w.game ≡ w.node_id
      → room w < fuel
      → (v : Walk F S) × (leaf_loop env root_id c_puct forced fuel w ≡ ok v) × FromTree env m v
  unfolding leaf_loop
  leaf_loop-returns zero w f here h = absurd (omega arith)
  leaf_loop-returns (suc fuel) w f here h =
      elim (Bool-cases (env.done w.game || w.repeat_detected)) [
        | inl over ↦ (w, rw over, f)
        | inr live ↦
            let (v, next, e, f', g) = round-Goes w f here in
            elim (Next-cases next) [
              | inl on ↦
                  let (here', less) = subst (λ k. Goes env m w k v) on g in
                  let (u, e', f₂) = leaf_loop-returns fuel v f' here' (omega arith) in
                  (u, rw (live, e, on, e'), f₂)
              | inr off ↦ (v, rw (live, e, off), f')
            ]
      ]

-- `select_leaf` ends within its fuel and without a panic, on a sound tree and from a root whose
-- id is the hash of the game: it leaves a sound tree, the one before with a virtual loss on each
-- edge of the path, and its last move leads from a state of the parent to the leaf's game.
pub select_leaf-returns :
    {F S O : Type 0} ⦃fl : Float F⦄ (env : Environment S O) (m : Mcts F) (root_id : NodeId) (s : S)
    (c_puct : F) (forced : Bool)
    → IsSound env m
    → env.hash s ≡ root_id
    → (w : Walk F S) × (select_leaf env m root_id s c_puct forced ≡ ok w) × FromTree env m w
unfolding select_leaf mark
select_leaf-returns {F} env m root_id s c_puct forced t here =
    leaf_loop-returns env m root_id c_puct forced (suc (suc (length m.nodes)))
      (start env m root_id s) (record { sound = t; exists = λ j. refl; came = tt; marked = refl })
      here
      (omega (
        arith,
        weight-le (λ j. check_state_repeat j []) (λ (n : Node F). 1) length m.nodes
            (λ n ns. omega arith),
      ))
