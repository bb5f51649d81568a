-- ===== src/Slot.antt =====
-- mcts-tilers/src/slot.rs: the slot of shared memory that carries a batch of observations to a
-- handler and its answer back. An i16 is the word that stores it. A write past the end of an array
-- changes nothing here; the constants keep every write of the slot inside its array.
pub mod Cells
pub mod Masks
pub mod RoundTrip
use mcts.Prelude.{
  ℕ, zero, suc, ◌+◌, ◌*◌, ◌%◌, ◌^◌, Bool, true, false, not, ◌&&◌, ◌||◌, Option, none, some, List,
  [], ◌∷◌, length, set, get_or, take, drop, replicate, map, min, ltb, ◌==◌, if◌then◌else◌, Exec, ok,
  panic,
}
use mcts.Float.{Float, f_zero}
use mcts.Ipc.Arena.{SlotInit, slot_free}
use mcts.Tilers.{num_actions, TilersObs}

abbrev pub grid_max : ℕ
grid_max = 400

abbrev pub lookahead_max : ℕ
lookahead_max = 3

abbrev pub max_batch : ℕ
max_batch = 8

abbrev pub cell_fields : ℕ
cell_fields = 10

abbrev pub board_layer_max : ℕ
board_layer_max = 4000

abbrev pub board_max : ℕ
board_max = 12000

-- `BoardCell`, as `cell_to_array` reads it.
pub record BoardCell : Type 0 where
  pub qubit_role : ℕ
  pub factor_kind : ℕ
  pub resource_kind : ℕ
  pub pp_group_row : ℕ
  pub pp_group_col : ℕ
  pub ancilla_idx : ℕ
  pub last_move_dir : ℕ
  pub weight_in_pp : ℕ
  pub is_hub_for_pp : ℕ
  pub is_y_ready : ℕ

-- `struct TilersSlot`
pub record TilersSlot (F : Type 0) : Type 0 where
  pub state : ℕ
  pub b : ℕ
  pub owner_id : ℕ
  pub req_id : ℕ
  pub h : List ℕ
  pub w : List ℕ
  pub num_ancillas : List ℕ
  pub num_layers : List ℕ
  pub board : List (List ℕ)
  pub action_mask : List ℕ
  pub priors : List F
  pub values : List F
  pub request_time_ns : ℕ
  pub handler_start_time_ns : ℕ
  pub response_time_ns : ℕ

-- `TilersSlot::default`
unfoldable pub default_slot : {F : Type 0} ⦃fl : Float F⦄ → TilersSlot F
default_slot ⦃fl⦄ = record {
  state = slot_free;
  b = 0;
  owner_id = 0;
  req_id = 0;
  h = replicate max_batch 0;
  w = replicate max_batch 0;
  num_ancillas = replicate max_batch 0;
  num_layers = replicate max_batch 0;
  board = replicate max_batch (replicate board_max 0);
  action_mask = replicate (max_batch * num_actions) 0;
  priors = replicate (max_batch * num_actions) f_zero;
  values = replicate max_batch f_zero;
  request_time_ns = 0;
  handler_start_time_ns = 0;
  response_time_ns = 0;
}

-- `SlotInit::init_free`
unfoldable pub init_free : {F : Type 0} → TilersSlot F → TilersSlot F
init_free slot = record slot { state = slot_free }

instance unfoldable pub slot_type : {F : Type 0} ⦃fl : Float F⦄ → SlotInit (TilersSlot F)
slot_type = record {
  init_free = init_free;
  state = λ slot. slot.state;
  store = λ state slot. record slot { state = state };
  zeroed = default_slot;
}

-- `xs[off..off + vs.len()].copy_from_slice(vs)`
unfoldable pub copy_at {ℓ} : {A : Type ℓ} → ℕ → List A → List A → List A
copy_at off vs [] = []
copy_at zero [] (x ∷ xs) = x ∷ xs
copy_at zero (v ∷ vs) (x ∷ xs) = v ∷ copy_at zero vs xs
copy_at (suc off) vs (x ∷ xs) = x ∷ copy_at off vs xs

unfoldable pub cell_to_array : BoardCell → List ℕ
cell_to_array c =
    c.qubit_role ∷ c.factor_kind ∷ c.resource_kind ∷ c.pp_group_row ∷ c.pp_group_col ∷ c.ancilla_idx
    ∷ c.last_move_dir ∷ c.weight_in_pp ∷ c.is_hub_for_pp ∷ c.is_y_ready ∷ []

unfoldable pub cell_from_slice : List ℕ → BoardCell
cell_from_slice s = record {
  qubit_role = get_or s 0 0;
  factor_kind = get_or s 1 0;
  resource_kind = get_or s 2 0;
  pp_group_row = get_or s 3 0;
  pp_group_col = get_or s 4 0;
  ancilla_idx = get_or s 5 0;
  last_move_dir = get_or s 6 0;
  weight_in_pp = get_or s 7 0;
  is_hub_for_pp = get_or s 8 0;
  is_y_ready = get_or s 9 0;
}

-- The loop over the cells of a layer, from cell `c` on.
unfoldable pub pack_cells : ℕ → ℕ → List BoardCell → List ℕ → List ℕ
pack_cells layer_off c [] board = board
pack_cells layer_off c (cell ∷ cells) board =
    pack_cells layer_off (c + 1) cells
      (copy_at (layer_off + c * cell_fields) (cell_to_array cell) board)

-- The loop over the layers, from layer `l` on.
unfoldable pub pack_layers : ℕ → List (List BoardCell) → List ℕ → List ℕ
pack_layers l [] board = board
pack_layers l (layer ∷ layers) board =
    pack_layers (l + 1) layers (pack_cells (l * board_layer_max) 0 (take grid_max layer) board)

-- The loop over the mask, from action `a` on, for the mask's part at `mask_offset`.
unfoldable pub pack_mask : ℕ → ℕ → List Bool → List ℕ → List ℕ
pack_mask mask_offset a [] action_mask = action_mask
pack_mask mask_offset a (m ∷ mask) action_mask =
    pack_mask mask_offset (a + 1) mask
      (if ltb a num_actions && m then set action_mask (mask_offset + a) 1 else action_mask)

-- The body of the loop over the observations.
unfoldable pub pack_one : {F : Type 0} → ℕ → TilersObs BoardCell → TilersSlot F → TilersSlot F
pack_one i obs slot =
    let nl = min (length obs.board) lookahead_max in
    let mask_offset = i * num_actions in
    record slot {
      h = set slot.h i (obs.height % 2 ^ 8);
      w = set slot.w i (obs.width % 2 ^ 8);
      num_ancillas = set slot.num_ancillas i (obs.num_ancillas % 2 ^ 8);
      num_layers = set slot.num_layers i (nl % 2 ^ 8);
      board = set slot.board i (pack_layers 0 (take nl obs.board) (replicate board_max 0));
      action_mask =
          pack_mask mask_offset 0 obs.action_mask
            (copy_at mask_offset (replicate num_actions 0) slot.action_mask);
    }

unfoldable pub pack_from :
    {F : Type 0} → ℕ → List (TilersObs BoardCell) → TilersSlot F → TilersSlot F
pack_from i [] slot = slot
pack_from i (obs ∷ observations) slot = pack_from (i + 1) observations (pack_one i obs slot)

-- None for the error.
unfoldable pub pack_observations :
    {F : Type 0} → List (TilersObs BoardCell) → TilersSlot F → Option (TilersSlot F)
pack_observations observations slot =
    let b = length observations in
    if b == 0 || ltb max_batch b
    then none
    else some (pack_from 0 observations (record slot { b = b % 2 ^ 32 }))

-- `&xs[off..off + len]`
abbrev pub slice {ℓ} : {A : Type ℓ} → ℕ → ℕ → List A → List A
slice off len xs = take len (drop off xs)

-- The loop over the cells of a layer, `n` of them from cell `c` on.
unfoldable pub unpack_cells : ℕ → ℕ → ℕ → List ℕ → List BoardCell
unpack_cells layer_off c zero board = []
unpack_cells layer_off c (suc n) board =
    cell_from_slice (slice (layer_off + c * cell_fields) cell_fields board)
    ∷ unpack_cells layer_off (c + 1) n board

unfoldable pub unpack_layers : ℕ → ℕ → ℕ → List ℕ → List (List BoardCell)
unpack_layers hw l zero board = []
unpack_layers hw l (suc n) board =
    unpack_cells (l * board_layer_max) 0 hw board ∷ unpack_layers hw (l + 1) n board

unfoldable pub unpack_mask : ℕ → List ℕ → List Bool
unpack_mask mask_offset action_mask =
    map (λ m. not (m == 0)) (slice mask_offset num_actions action_mask)

-- The body of the loop of `unpack_observations`.
unfoldable pub unpack_one : {F : Type 0} → ℕ → TilersSlot F → TilersObs BoardCell
unpack_one i slot =
    let height = get_or slot.h i 0 in
    let width = get_or slot.w i 0 in
    let nl = min (get_or slot.num_layers i 0) lookahead_max in
    let hw = min (height * width) grid_max in
    record {
      height = height;
      width = width;
      num_ancillas = get_or slot.num_ancillas i 0;
      num_layers = nl;
      board = unpack_layers hw 0 nl (get_or slot.board i []);
      action_mask = unpack_mask (i * num_actions) slot.action_mask;
    }

unfoldable pub unpack_from : {F : Type 0} → ℕ → ℕ → TilersSlot F → List (TilersObs BoardCell)
unpack_from i zero slot = []
unpack_from i (suc n) slot = unpack_one i slot ∷ unpack_from (i + 1) n slot

-- The arrays have `max_batch` entries: a larger `b` indexes out of bounds.
unfoldable pub unpack_observations : {F : Type 0} → TilersSlot F → Exec (List (TilersObs BoardCell))
unpack_observations slot = if ltb max_batch slot.b then panic else ok (unpack_from 0 slot.b slot)
