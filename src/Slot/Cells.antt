-- ===== src/Slot/Cells.antt =====
-- mcts-tilers/src/slot.rs: cells written to a board and read back.
use mcts.Prelude.{
  ℕ, zero, suc, ◌+◌, ◌*◌, ◌<◌, ◌≤◌, ◌≡◌, ◌∙◌, refl, sym, ap, ap₂, List, [], ◌∷◌, length, get_or,
  take, arith, ◌⊎◌, inl, inr, All,
}
use mcts.Slot.{
  BoardCell, cell_fields, board_layer_max, copy_at, cell_to_array, cell_from_slice, pack_cells,
  pack_layers, slice, unpack_cells, unpack_layers, grid_max,
}

module _ {ℓ} {A : Type ℓ} where
  pub length-copy_at : (off : ℕ) (vs xs : List A) → length (copy_at off vs xs) ≡ length xs
  unfolding copy_at
  length-copy_at off vs [] = refl
  length-copy_at zero [] (x ∷ xs) = refl
  length-copy_at zero (v ∷ vs) (x ∷ xs) = ap suc (length-copy_at zero vs xs)
  length-copy_at (suc off) vs (x ∷ xs) = ap suc (length-copy_at off vs xs)

  -- What is read at a place that the copy covers.
  pub get_or-copy_at_inside :
      (off : ℕ) (vs xs : List A) (k j : ℕ) (d : A)
      → j ≡ off + k
      → k < length vs
      → j < length xs
      → get_or (copy_at off vs xs) j d ≡ get_or vs k d
  unfolding copy_at
  get_or-copy_at_inside off vs [] k j d e p q = absurd (omega arith)
  get_or-copy_at_inside zero [] (x ∷ xs) k j d e p q = absurd (omega arith)
  get_or-copy_at_inside zero (v ∷ vs) (x ∷ xs) zero zero d e p q = refl
  get_or-copy_at_inside zero (v ∷ vs) (x ∷ xs) zero (suc j) d e p q = absurd (omega arith)
  get_or-copy_at_inside zero (v ∷ vs) (x ∷ xs) (suc k) zero d e p q = absurd (omega arith)
  get_or-copy_at_inside zero (v ∷ vs) (x ∷ xs) (suc k) (suc j) d e p q =
      get_or-copy_at_inside zero vs xs k j d (omega arith) (omega arith) (omega arith)
  get_or-copy_at_inside (suc off) vs (x ∷ xs) k zero d e p q = absurd (omega arith)
  get_or-copy_at_inside (suc off) vs (x ∷ xs) k (suc j) d e p q =
      get_or-copy_at_inside off vs xs k j d (omega arith) p (omega arith)

  pub get_or-copy_at_outside :
      (off : ℕ) (vs xs : List A) (j : ℕ) (d : A)
      → (j < off) ⊎ (off + length vs ≤ j)
      → get_or (copy_at off vs xs) j d ≡ get_or xs j d
  unfolding copy_at
  get_or-copy_at_outside off vs [] j d p = refl
  get_or-copy_at_outside zero [] (x ∷ xs) j d p = refl
  get_or-copy_at_outside zero (v ∷ vs) (x ∷ xs) zero d (inl p) = absurd (omega arith)
  get_or-copy_at_outside zero (v ∷ vs) (x ∷ xs) zero d (inr p) = absurd (omega arith)
  get_or-copy_at_outside zero (v ∷ vs) (x ∷ xs) (suc j) d (inl p) = absurd (omega arith)
  get_or-copy_at_outside zero (v ∷ vs) (x ∷ xs) (suc j) d (inr p) =
      get_or-copy_at_outside zero vs xs j d (inr (omega arith))
  get_or-copy_at_outside (suc off) vs (x ∷ xs) zero d p = refl
  get_or-copy_at_outside (suc off) vs (x ∷ xs) (suc j) d (inl p) =
      get_or-copy_at_outside off vs xs j d (inl (omega arith))
  get_or-copy_at_outside (suc off) vs (x ∷ xs) (suc j) d (inr p) =
      get_or-copy_at_outside off vs xs j d (inr (omega arith))

  pub get_or-slice :
      (off len : ℕ) (xs : List A) (k j : ℕ) (d : A)
      → j ≡ off + k
      → k < len
      → get_or (slice off len xs) k d ≡ get_or xs j d
  get_or-slice zero zero xs k j d e p = absurd (omega arith)
  get_or-slice zero (suc len) [] k j d e p = refl
  get_or-slice zero (suc len) (x ∷ xs) zero zero d e p = refl
  get_or-slice zero (suc len) (x ∷ xs) zero (suc j) d e p = absurd (omega arith)
  get_or-slice zero (suc len) (x ∷ xs) (suc k) zero d e p = absurd (omega arith)
  get_or-slice zero (suc len) (x ∷ xs) (suc k) (suc j) d e p =
      get_or-slice zero len xs k j d (omega arith) (omega arith)
  get_or-slice (suc off) zero xs k j d e p = absurd (omega arith)
  get_or-slice (suc off) (suc len) [] k j d e p = refl
  get_or-slice (suc off) (suc len) (x ∷ xs) k zero d e p = absurd (omega arith)
  get_or-slice (suc off) (suc len) (x ∷ xs) k (suc j) d e p =
      get_or-slice off (suc len) xs k j d (omega arith) p

abbrev pub read_cell : ℕ → List ℕ → BoardCell
read_cell off board = cell_from_slice (slice off cell_fields board)

cell_from_slice-eq :
    (s t : List ℕ)
    → ((k : ℕ) → k < cell_fields → get_or s k 0 ≡ get_or t k 0)
    → cell_from_slice s ≡ cell_from_slice t
unfolding cell_from_slice
cell_from_slice-eq s t h =
    rw
      (
        h 0 (omega arith),
        h 1 (omega arith),
        h 2 (omega arith),
        h 3 (omega arith),
        h 4 (omega arith),
        h 5 (omega arith),
        h 6 (omega arith),
        h 7 (omega arith),
        h 8 (omega arith),
        h 9 (omega arith),
      )
      refl

-- A cell depends on its ten words only.
read_cell-eq :
    (off : ℕ) (xs ys : List ℕ)
    → ((j : ℕ) → off ≤ j → j < off + cell_fields → get_or xs j 0 ≡ get_or ys j 0)
    → read_cell off xs ≡ read_cell off ys
read_cell-eq off xs ys h =
    cell_from_slice-eq (slice off cell_fields xs) (slice off cell_fields ys) (λ k p.
      get_or-slice off cell_fields xs k (off + k) 0 refl p
      ∙ h (off + k) (omega arith) (omega arith)
      ∙ sym (get_or-slice off cell_fields ys k (off + k) 0 refl p))

length-cell_to_array : (cell : BoardCell) → length (cell_to_array cell) ≡ cell_fields
unfolding cell_to_array
length-cell_to_array cell = refl

cell_from_slice-cell_to_array : (cell : BoardCell) → cell_from_slice (cell_to_array cell) ≡ cell
unfolding cell_from_slice cell_to_array
cell_from_slice-cell_to_array cell = refl

read_cell-copy_at :
    (off : ℕ) (cell : BoardCell) (board : List ℕ)
    → off + cell_fields ≤ length board
    → read_cell off (copy_at off (cell_to_array cell) board) ≡ cell
read_cell-copy_at off cell board h =
    let l : length (cell_to_array cell) ≡ cell_fields = length-cell_to_array cell in
    cell_from_slice-eq (slice off cell_fields (copy_at off (cell_to_array cell) board))
      (cell_to_array cell)
      (λ k p.
        get_or-slice off cell_fields (copy_at off (cell_to_array cell) board) k (off + k) 0 refl p
        ∙ get_or-copy_at_inside off (cell_to_array cell) board k (off + k) 0 refl (omega (arith, l))
            (omega arith))
    ∙ cell_from_slice-cell_to_array cell

read_cell-copy_at_before :
    (off at : ℕ) (cell : BoardCell) (board : List ℕ)
    → off + cell_fields ≤ at
    → read_cell off (copy_at at (cell_to_array cell) board) ≡ read_cell off board
read_cell-copy_at_before off at cell board h =
    read_cell-eq off (copy_at at (cell_to_array cell) board) board
      (λ j p q. get_or-copy_at_outside at (cell_to_array cell) board j 0 (inl (omega arith)))

module _ (layer_off : ℕ) where
  pub length-pack_cells :
      (c : ℕ) (cells : List BoardCell) (board : List ℕ)
      → length (pack_cells layer_off c cells board) ≡ length board
  unfolding pack_cells
  length-pack_cells c [] board = refl
  length-pack_cells c (cell ∷ cells) board =
      length-pack_cells (c + 1) cells
        (copy_at (layer_off + c * cell_fields) (cell_to_array cell) board)
      ∙ length-copy_at (layer_off + c * cell_fields) (cell_to_array cell) board

  -- Later cells leave a cell before them alone.
  pub read_cell-pack_cells :
      (off c : ℕ) (cells : List BoardCell) (board : List ℕ)
      → off + cell_fields ≤ layer_off + c * cell_fields
      → read_cell off (pack_cells layer_off c cells board) ≡ read_cell off board
  unfolding pack_cells
  read_cell-pack_cells off c [] board h = refl
  read_cell-pack_cells off c (cell ∷ cells) board h =
      read_cell-pack_cells off (c + 1) cells
        (copy_at (layer_off + c * cell_fields) (cell_to_array cell) board) (omega arith)
      ∙ read_cell-copy_at_before off (layer_off + c * cell_fields) cell board h

  pub unpack_cells-pack_cells :
      (c : ℕ) (cells : List BoardCell) (board : List ℕ)
      → layer_off + (c + length cells) * cell_fields ≤ length board
      → unpack_cells layer_off c (length cells) (pack_cells layer_off c cells board) ≡ cells
  unfolding pack_cells unpack_cells
  unpack_cells-pack_cells c [] board h = refl
  unpack_cells-pack_cells c (cell ∷ cells) board h =
      let off : ℕ = layer_off + c * cell_fields in
      let next : List ℕ = copy_at off (cell_to_array cell) board in
      let l : length next ≡ length board = length-copy_at off (cell_to_array cell) board in
      ap₂ (λ x xs. x ∷ xs)
        (read_cell-pack_cells off (c + 1) cells next (omega arith)
          ∙ read_cell-copy_at off cell board (omega arith))
        (unpack_cells-pack_cells (c + 1) cells next (omega (arith, l)))

  -- What is read of a layer depends on its cells only.
  pub unpack_cells-eq :
      (c n : ℕ) (xs ys : List ℕ)
      → ((off : ℕ)
          → off + cell_fields ≤ layer_off + (c + n) * cell_fields
          → read_cell off xs ≡ read_cell off ys)
      → unpack_cells layer_off c n xs ≡ unpack_cells layer_off c n ys
  unfolding unpack_cells
  unpack_cells-eq c zero xs ys h = refl
  unpack_cells-eq c (suc n) xs ys h =
      ap₂ (λ t ts. t ∷ ts) (h (layer_off + c * cell_fields) (omega arith))
        (unpack_cells-eq (c + 1) n xs ys (λ off p. h off (omega arith)))

pub length-pack_layers :
    (l : ℕ) (layers : List (List BoardCell)) (board : List ℕ)
    → length (pack_layers l layers board) ≡ length board
unfolding pack_layers
length-pack_layers l [] board = refl
length-pack_layers l (layer ∷ layers) board =
    length-pack_layers (l + 1) layers
      (pack_cells (l * board_layer_max) 0 (take grid_max layer) board)
    ∙ length-pack_cells (l * board_layer_max) 0 (take grid_max layer) board

read_cell-pack_layers :
    (off l : ℕ) (layers : List (List BoardCell)) (board : List ℕ)
    → off + cell_fields ≤ l * board_layer_max
    → read_cell off (pack_layers l layers board) ≡ read_cell off board
unfolding pack_layers
read_cell-pack_layers off l [] board h = refl
read_cell-pack_layers off l (layer ∷ layers) board h =
    read_cell-pack_layers off (l + 1) layers
      (pack_cells (l * board_layer_max) 0 (take grid_max layer) board) (omega arith)
    ∙ read_cell-pack_cells (l * board_layer_max) off 0 (take grid_max layer) board (omega arith)

pub take-all {ℓ} : {A : Type ℓ} (n : ℕ) (xs : List A) → length xs ≤ n → take n xs ≡ xs
take-all zero [] h = refl
take-all zero (x ∷ xs) h = absurd (omega arith)
take-all (suc n) [] h = refl
take-all (suc n) (x ∷ xs) h = ap (λ t. x ∷ t) (take-all n xs (omega arith))

-- Layers of `hw` cells each, packed into a board and read back.
pub unpack_layers-pack_layers :
    (hw l : ℕ) (layers : List (List BoardCell)) (board : List ℕ)
    → hw ≤ grid_max
    → All (λ layer. length layer ≡ hw) layers
    → (l + length layers) * board_layer_max ≤ length board
    → unpack_layers hw l (length layers) (pack_layers l layers board) ≡ layers
unfolding pack_layers unpack_layers
unpack_layers-pack_layers hw l [] board h fits room = refl
unpack_layers-pack_layers hw l (layer ∷ layers) board h (fit, fits) room =
    let whole : take grid_max layer ≡ layer = take-all grid_max layer (omega (arith, fit)) in
    let off : ℕ = l * board_layer_max in
    let next : List ℕ = pack_cells off 0 layer board in
    let s : length next ≡ length board = length-pack_cells off 0 layer board in
    rw whole (
      ap₂ (λ x xs. x ∷ xs)
        (unpack_cells-eq off 0 hw (pack_layers (l + 1) layers next) next
            (λ o p. read_cell-pack_layers o (l + 1) layers next (omega arith))
          ∙ ap (λ n. unpack_cells off 0 n next) (sym fit)
          ∙ unpack_cells-pack_cells off 0 layer board (omega (arith, fit)))
        (unpack_layers-pack_layers hw (l + 1) layers next h fits (omega (arith, s))))
