-- ===== src/Slot/RoundTrip.antt =====
-- mcts-tilers/src/slot.rs: a batch that is packed into a slot and unpacked again.
use mcts.Prelude.{
  Bool-cases, inr, ok, panic, if◌then◌else◌, none, ℕ, zero, suc, ◌+◌, ◌*◌, ◌%◌, ◌^◌, ◌<◌, ◌≤◌, ◌≡◌,
  ◌≢◌, ◌∙◌, refl, ap, ap₂, false, ◌||◌, List, [], ◌∷◌, All, length, length-set, length-replicate,
  get_or, get_or-set_self, get_or-set_ne, take, min, replicate, ltb, ◌==◌, some, arith, inl,
}
use mcts.Tilers.{num_actions, TilersObs}
use mcts.Slot.{
  BoardCell, TilersSlot, grid_max, lookahead_max, max_batch, board_max, copy_at, pack_layers,
  pack_mask, pack_one, pack_from, pack_observations, unpack_layers, unpack_mask, unpack_one,
  unpack_from, unpack_observations,
}
use mcts.Slot.Cells.{length-copy_at, get_or-copy_at_outside, take-all, unpack_layers-pack_layers}
use mcts.Slot.Masks.{
  length-pack_mask, get_or-pack_mask_outside, unpack_mask-pack_mask, unpack_mask-eq,
}

-- The arrays of a slot have the lengths that their types give.
pub record IsSized {F : Type 0} (slot : TilersSlot F) : Type 0 where
  pub h : length slot.h ≡ max_batch
  pub w : length slot.w ≡ max_batch
  pub num_ancillas : length slot.num_ancillas ≡ max_batch
  pub num_layers : length slot.num_layers ≡ max_batch
  pub board : length slot.board ≡ max_batch
  pub action_mask : length slot.action_mask ≡ max_batch * num_actions

-- An observation that the slot has room for: a whole grid in each layer.
pub record Fits (obs : TilersObs BoardCell) : Type 0 where
  pub height : obs.height < 2 ^ 8
  pub width : obs.width < 2 ^ 8
  pub num_ancillas : obs.num_ancillas < 2 ^ 8
  pub counted : obs.num_layers ≡ length obs.board
  pub layers : length obs.board ≤ lookahead_max
  pub grid : obs.height * obs.width ≤ grid_max
  pub cells : All (λ layer. length layer ≡ obs.height * obs.width) obs.board
  pub mask : length obs.action_mask ≡ num_actions

-- The layers, on a board of zeros.
board_back :
    (obs : TilersObs BoardCell) (blank : List ℕ)
    → length blank ≡ board_max
    → Fits obs
    → unpack_layers
        (min (obs.height * obs.width) grid_max)
        0
        obs.num_layers
        (pack_layers 0 (take (min (length obs.board) lookahead_max) obs.board) blank)
      ≡ obs.board
board_back obs blank full f =
    let nl : min (length obs.board) lookahead_max ≡ length obs.board = omega (arith, f.layers) in
    let wide : min (obs.height * obs.width) grid_max ≡ obs.height * obs.width =
      omega (arith, f.grid) in
    let whole : take (length obs.board) obs.board ≡ obs.board =
      take-all (length obs.board) obs.board (omega arith) in
    rw (nl, wide, whole, f.counted)
      (unpack_layers-pack_layers (obs.height * obs.width) 0 obs.board blank f.grid f.cells
        (omega (arith, f.layers)))

module _ {F : Type 0} where
  pack_one-IsSized :
      (i : ℕ) (obs : TilersObs BoardCell) (s : TilersSlot F)
      → IsSized s
      → IsSized (pack_one i obs s)
  unfolding pack_one
  pack_one-IsSized i obs s z = record {
    h = length-set s.h i (obs.height % 2 ^ 8) ∙ z.h;
    w = length-set s.w i (obs.width % 2 ^ 8) ∙ z.w;
    num_ancillas = length-set s.num_ancillas i (obs.num_ancillas % 2 ^ 8) ∙ z.num_ancillas;
    num_layers =
        length-set s.num_layers i (min (length obs.board) lookahead_max % 2 ^ 8) ∙ z.num_layers;
    board =
        length-set s.board i (
          pack_layers 0 (take (min (length obs.board) lookahead_max) obs.board)
            (replicate board_max 0))
        ∙ z.board;
    action_mask =
        length-pack_mask (i * num_actions) 0 obs.action_mask
          (copy_at (i * num_actions) (replicate num_actions 0) s.action_mask)
        ∙ length-copy_at (i * num_actions) (replicate num_actions 0) s.action_mask
        ∙ z.action_mask;
  }

  -- The observation at an index depends on the slot's entries for the index.
  view :
      (i : ℕ) (s : TilersSlot F) (obs : TilersObs BoardCell)
      → get_or s.h i 0 ≡ obs.height
      → get_or s.w i 0 ≡ obs.width
      → get_or s.num_ancillas i 0 ≡ obs.num_ancillas
      → min (get_or s.num_layers i 0) lookahead_max ≡ obs.num_layers
      → unpack_layers (min (obs.height * obs.width) grid_max) 0 obs.num_layers (get_or s.board i [])
        ≡ obs.board
      → unpack_mask (i * num_actions) s.action_mask ≡ obs.action_mask
      → unpack_one i s ≡ obs
  unfolding unpack_one
  view i s obs h w n l b m = rw (h, w, n, l, b, m) refl

  unpack_one-pack_one :
      (i : ℕ) (obs : TilersObs BoardCell) (s : TilersSlot F)
      → i < max_batch
      → IsSized s
      → Fits obs
      → unpack_one i (pack_one i obs s) ≡ obs
  unfolding pack_one
  unpack_one-pack_one i obs s lt z f =
      let nl : ℕ = min (length obs.board) lookahead_max in
      let board : List ℕ = pack_layers 0 (take nl obs.board) (replicate board_max 0) in
      view i (pack_one i obs s) obs
        (get_or-set_self s.h i (obs.height % 2 ^ 8) 0 (omega (arith, z.h))
          ∙ omega (arith, f.height))
        (get_or-set_self s.w i (obs.width % 2 ^ 8) 0 (omega (arith, z.w)) ∙ omega (arith, f.width))
        (get_or-set_self s.num_ancillas i (obs.num_ancillas % 2 ^ 8) 0
            (omega (arith, z.num_ancillas))
          ∙ omega (arith, f.num_ancillas))
        (ap (λ n. min n lookahead_max)
            (get_or-set_self s.num_layers i (nl % 2 ^ 8) 0 (omega (arith, z.num_layers)))
          ∙ omega (arith, f.layers, f.counted))
        (ap (unpack_layers (min (obs.height * obs.width) grid_max) 0 obs.num_layers)
            (get_or-set_self s.board i board [] (omega (arith, z.board)))
          ∙ board_back obs (replicate board_max 0) (length-replicate {A = ℕ} board_max 0) f)
        (unpack_mask-pack_mask (i * num_actions) obs.action_mask s.action_mask f.mask
          (omega (arith, z.action_mask)))

  -- An observation leaves the entries of those before it alone.
  unpack_one-pack_one_before :
      (j i : ℕ) (obs : TilersObs BoardCell) (s : TilersSlot F)
      → j < i
      → i < max_batch
      → IsSized s
      → unpack_one j (pack_one i obs s) ≡ unpack_one j s
  unfolding pack_one unpack_one
  unpack_one-pack_one_before j i obs s before lt z =
      let ne : i ≢ j = λ e. omega arith in
      let nl : ℕ = min (length obs.board) lookahead_max in
      let board : List ℕ = pack_layers 0 (take nl obs.board) (replicate board_max 0) in
      let off : ℕ = i * num_actions in
      let cleared : List ℕ = copy_at off (replicate num_actions 0) s.action_mask in
      let k : length cleared ≡ length s.action_mask =
        length-copy_at off (replicate num_actions 0) s.action_mask in
      let l : length (pack_mask off 0 obs.action_mask cleared) ≡ length cleared =
        length-pack_mask off 0 obs.action_mask cleared in
      view j (pack_one i obs s) (unpack_one j s) (get_or-set_ne s.h i j (obs.height % 2 ^ 8) 0 ne)
        (get_or-set_ne s.w i j (obs.width % 2 ^ 8) 0 ne)
        (get_or-set_ne s.num_ancillas i j (obs.num_ancillas % 2 ^ 8) 0 ne)
        (ap (λ n. min n lookahead_max) (get_or-set_ne s.num_layers i j (nl % 2 ^ 8) 0 ne))
        (ap
          (unpack_layers (min (get_or s.h j 0 * get_or s.w j 0) grid_max) 0
            (min (get_or s.num_layers j 0) lookahead_max))
          (get_or-set_ne s.board i j board [] ne))
        (unpack_mask-eq (j * num_actions) (pack_mask off 0 obs.action_mask cleared) s.action_mask
          (omega (arith, k, l, z.action_mask)) (l ∙ k)
          (λ p q r.
            get_or-pack_mask_outside off 0 p obs.action_mask cleared (inl (omega arith))
            ∙ get_or-copy_at_outside off (replicate num_actions 0) s.action_mask p 0
                (inl (omega arith))))

  pack_from-IsSized :
      (i : ℕ) (observations : List (TilersObs BoardCell)) (s : TilersSlot F)
      → IsSized s
      → IsSized (pack_from i observations s)
  unfolding pack_from
  pack_from-IsSized i [] s z = z
  pack_from-IsSized i (obs ∷ observations) s z =
      pack_from-IsSized (i + 1) observations (pack_one i obs s) (pack_one-IsSized i obs s z)

  unpack_one-pack_from :
      (j i : ℕ) (observations : List (TilersObs BoardCell)) (s : TilersSlot F)
      → j < i
      → i + length observations ≤ max_batch
      → IsSized s
      → unpack_one j (pack_from i observations s) ≡ unpack_one j s
  unfolding pack_from
  unpack_one-pack_from j i [] s before room z = refl
  unpack_one-pack_from j i (obs ∷ observations) s before room z =
      unpack_one-pack_from j (i + 1) observations (pack_one i obs s) (omega arith) (omega arith)
        (pack_one-IsSized i obs s z)
      ∙ unpack_one-pack_one_before j i obs s before (omega arith) z

  unpack_from-pack_from :
      (i : ℕ) (observations : List (TilersObs BoardCell)) (s : TilersSlot F)
      → i + length observations ≤ max_batch
      → IsSized s
      → All Fits observations
      → unpack_from i (length observations) (pack_from i observations s) ≡ observations
  unfolding pack_from unpack_from
  unpack_from-pack_from i [] s room z fits = refl
  unpack_from-pack_from i (obs ∷ observations) s room z (fit, fits) =
      let next : IsSized (pack_one i obs s) = pack_one-IsSized i obs s z in
      ap₂ (λ x xs. x ∷ xs)
        (unpack_one-pack_from i (i + 1) observations (pack_one i obs s) (omega arith) (omega arith)
            next
          ∙ unpack_one-pack_one i obs s (omega arith) z fit)
        (unpack_from-pack_from (i + 1) observations (pack_one i obs s) (omega arith) next fits)

  pack_from-b :
      (i : ℕ) (observations : List (TilersObs BoardCell)) (s : TilersSlot F)
      → (pack_from i observations s).b ≡ s.b
  unfolding pack_from pack_one
  pack_from-b i [] s = refl
  pack_from-b i (obs ∷ observations) s = pack_from-b (i + 1) observations (pack_one i obs s)

  pack_from-header :
      (i : ℕ) (observations : List (TilersObs BoardCell)) (s : TilersSlot F)
      → ((pack_from i observations s).owner_id ≡ s.owner_id)
        × ((pack_from i observations s).req_id ≡ s.req_id)
  unfolding pack_from pack_one
  pack_from-header i [] s = (refl, refl)
  pack_from-header i (obs ∷ observations) s =
      pack_from-header (i + 1) observations (pack_one i obs s)

  pub pack_observations-header :
      (observations : List (TilersObs BoardCell)) (s packed : TilersSlot F)
      → pack_observations observations s ≡ some packed
      → (packed.owner_id ≡ s.owner_id) × (packed.req_id ≡ s.req_id)
  unfolding pack_observations
  pack_observations-header observations s packed e =
      elim (Bool-cases (length observations == 0 || ltb max_batch (length observations))) [
        | inl bad ↦ let f : none ≡ some packed = rw bad at e in cc
        | inr good ↦
            let start : TilersSlot F = record s { b = length observations % 2 ^ 32 } in
            let f : some (pack_from 0 observations start) ≡ some packed = rw good at e in
            let same : pack_from 0 observations start ≡ packed = cc in
            rw (← same) (pack_from-header 0 observations start)
      ]

  unpack_from-state :
      (i n state : ℕ) (s : TilersSlot F)
      → unpack_from i n (record s { state = state }) ≡ unpack_from i n s
  unfolding unpack_from unpack_one
  unpack_from-state i zero state s = refl
  unpack_from-state i (suc n) state s =
      ap (λ t. unpack_one i s ∷ t) (unpack_from-state (i + 1) n state s)

  -- The state of a slot says nothing of its observations.
  pub unpack_observations-state :
      (state : ℕ) (s : TilersSlot F)
      → unpack_observations (record s { state = state }) ≡ unpack_observations s
  unfolding unpack_observations
  unpack_observations-state state s =
      ap (λ out. if ltb max_batch s.b then panic else ok out) (unpack_from-state 0 s.b state s)

  -- A batch of one to eight observations that fit is accepted by every slot whose arrays have their
  -- lengths, whatever the slot held before; the arrays keep their lengths, and what is unpacked is
  -- the batch.
  pub unpack_observations-pack_observations :
      (observations : List (TilersObs BoardCell)) (s : TilersSlot F)
      → IsSized s
      → All Fits observations
      → 0 < length observations
      → length observations ≤ max_batch
      → (packed : TilersSlot F) × (pack_observations observations s ≡ some packed)
        × IsSized packed
        × (unpack_observations packed ≡ ok observations)
  unfolding pack_observations unpack_observations
  unpack_observations-pack_observations observations s z fits some_batch small =
      let accepted : (length observations == 0 || ltb max_batch (length observations)) ≡ false =
        ground arith in
      let inside : ltb max_batch (length observations) ≡ false = ground (arith, small) in
      let n : length observations % 2 ^ 32 ≡ length observations = omega arith in
      let start : TilersSlot F = record s { b = length observations } in
      let sized : IsSized start = record {
        h = z.h;
        w = z.w;
        num_ancillas = z.num_ancillas;
        num_layers = z.num_layers;
        board = z.board;
        action_mask = z.action_mask;
      } in
      (
        pack_from 0 observations start,
        rw (accepted, n) refl,
        pack_from-IsSized 0 observations start sized,
        ap
              (λ b.
                if ltb max_batch b
                then panic
                else ok (unpack_from 0 b (pack_from 0 observations start)))
              (pack_from-b 0 observations start)
            ∙ rw inside
                (ap ok (unpack_from-pack_from 0 observations start (omega arith) sized fits)),
      )
