-- ===== src/Slot/Masks.antt =====
-- mcts-tilers/src/slot.rs: an action mask written to its part of the slot and read back.
use mcts.Prelude.{
  ℕ, zero, suc, ◌+◌, ◌-◌, ◌<◌, ◌≤◌, ◌≡◌, ◌∙◌, refl, sym, ap, ap₂, Bool, true, false, not, ◌&&◌,
  List, [], ◌∷◌, length, length-map, length-set, length-replicate, get_or, get_or-set_self,
  get_or-set_ne, get_or-replicate, set, map, replicate, ltb, ◌==◌, if◌then◌else◌, Bool-cases, arith,
  ◌⊎◌, inl, inr,
}
use mcts.Tilers.{num_actions}
use mcts.Slot.{copy_at, pack_mask, slice, unpack_mask}
use mcts.Slot.Cells.{length-copy_at, get_or-copy_at_inside, get_or-slice}

-- Lists of one length that agree at every index are equal.
list-eq {ℓ} :
    {A : Type ℓ} (xs ys : List A) (d : A)
    → length xs ≡ length ys
    → ((k : ℕ) → k < length ys → get_or xs k d ≡ get_or ys k d)
    → xs ≡ ys
list-eq [] [] d l h = refl
list-eq [] (y ∷ ys) d l h = absurd (omega arith)
list-eq (x ∷ xs) [] d l h = absurd (omega arith)
list-eq (x ∷ xs) (y ∷ ys) d l h =
    ap₂ (λ t ts. t ∷ ts) (h 0 (omega arith))
      (list-eq xs ys d (omega arith) (λ k p. h (suc k) (omega arith)))

length-slice {ℓ} :
    {A : Type ℓ} (off len : ℕ) (xs : List A)
    → off + len ≤ length xs
    → length (slice off len xs) ≡ len
length-slice zero zero xs h = refl
length-slice zero (suc len) [] h = absurd (omega arith)
length-slice zero (suc len) (x ∷ xs) h = ap suc (length-slice zero len xs (omega arith))
length-slice (suc off) len [] h = absurd (omega arith)
length-slice (suc off) len (x ∷ xs) h = length-slice off len xs (omega arith)

get_or-map {ℓ κ} :
    {A : Type ℓ} {B : Type κ} (f : A → B) (xs : List A) (k : ℕ) (d : A) (e : B)
    → k < length xs
    → get_or (map f xs) k e ≡ f (get_or xs k d)
get_or-map f [] k d e h = absurd (omega arith)
get_or-map f (x ∷ xs) zero d e h = refl
get_or-map f (x ∷ xs) (suc k) d e h = get_or-map f xs k d e (omega arith)

abbrev bit : ℕ → Bool
bit m = not (m == 0)

module _ (off : ℕ) where
  -- One round of the loop.
  marked : ℕ → Bool → List ℕ → List ℕ
  marked a m xs = if ltb a num_actions && m then set xs (off + a) 1 else xs

  length-marked : (a : ℕ) (m : Bool) (xs : List ℕ) → length (marked a m xs) ≡ length xs
  unfolding marked
  length-marked a m xs = elim (Bool-cases (ltb a num_actions && m)) [
    | inl write ↦ rw write (length-set xs (off + a) 1)
    | inr skip ↦ rw skip refl
  ]

  get_or-marked_ne :
      (a j : ℕ) (m : Bool) (xs : List ℕ)
      → (j < off + a) ⊎ ((off + a < j) ⊎ (off + num_actions ≤ j))
      → get_or (marked a m xs) j 0 ≡ get_or xs j 0
  unfolding marked
  get_or-marked_ne a j m xs h = elim (Bool-cases (ltb a num_actions && m)) [
    | inl write ↦ rw write (
        get_or-set_ne xs (off + a) j 1 0 (λ e. elim h [
          | inl before ↦ omega arith
          | inr (inl after) ↦ omega arith
          | inr (inr beyond) ↦ ground (arith, write)
        ]))
    | inr skip ↦ rw skip refl
  ]

  get_or-marked_self :
      (a : ℕ) (m : Bool) (xs : List ℕ)
      → a < num_actions
      → off + a < length xs
      → get_or xs (off + a) 0 ≡ 0
      → bit (get_or (marked a m xs) (off + a) 0) ≡ m
  unfolding marked
  get_or-marked_self a true xs h room blank =
      let within : ltb a num_actions ≡ true = ground arith in
      rw (within, get_or-set_self xs (off + a) 1 0 room) refl
  get_or-marked_self a false xs h room blank =
      let within : ltb a num_actions ≡ true = ground arith in rw (within, blank) refl

  pub length-pack_mask :
      (a : ℕ) (mask : List Bool) (xs : List ℕ) → length (pack_mask off a mask xs) ≡ length xs
  unfolding pack_mask marked
  length-pack_mask a [] xs = refl
  length-pack_mask a (m ∷ mask) xs =
      length-pack_mask (a + 1) mask (marked a m xs) ∙ length-marked a m xs

  pub get_or-pack_mask_outside :
      (a j : ℕ) (mask : List Bool) (xs : List ℕ)
      → (j < off + a) ⊎ (off + num_actions ≤ j)
      → get_or (pack_mask off a mask xs) j 0 ≡ get_or xs j 0
  unfolding pack_mask marked
  get_or-pack_mask_outside a j [] xs h = refl
  get_or-pack_mask_outside a j (m ∷ mask) xs (inl h) =
      get_or-pack_mask_outside (a + 1) j mask (marked a m xs) (inl (omega arith))
      ∙ get_or-marked_ne a j m xs (inl h)
  get_or-pack_mask_outside a j (m ∷ mask) xs (inr h) =
      get_or-pack_mask_outside (a + 1) j mask (marked a m xs) (inr h)
      ∙ get_or-marked_ne a j m xs (inr (inr h))

  get_or-pack_mask :
      (a k j : ℕ) (mask : List Bool) (xs : List ℕ)
      → j ≡ off + (a + k)
      → k < length mask
      → a + length mask ≤ num_actions
      → off + num_actions ≤ length xs
      → ((i : ℕ) → off + a ≤ i → i < off + num_actions → get_or xs i 0 ≡ 0)
      → bit (get_or (pack_mask off a mask xs) j 0) ≡ get_or mask k false
  unfolding pack_mask marked
  get_or-pack_mask a k j [] xs e p fits room blank = absurd (omega arith)
  get_or-pack_mask a zero j (m ∷ mask) xs e p fits room blank =
      let here : j ≡ off + a = omega arith in
      rw here (
        ap bit (get_or-pack_mask_outside (a + 1) (off + a) mask (marked a m xs) (inl (omega arith)))
        ∙ get_or-marked_self a m xs (omega arith) (omega arith)
            (blank (off + a) (omega arith) (omega arith)))
  get_or-pack_mask a (suc k) j (m ∷ mask) xs e p fits room blank =
      get_or-pack_mask (a + 1) k j mask (marked a m xs) (omega arith) (omega arith) (omega arith)
        (omega (arith, length-marked a m xs))
        (λ i q r.
          get_or-marked_ne a i m xs (inr (inl (omega arith))) ∙ blank i (omega arith) (omega arith))

cleared :
    (off : ℕ) (xs : List ℕ) (i : ℕ)
    → off + num_actions ≤ length xs
    → off ≤ i
    → i < off + num_actions
    → get_or (copy_at off (replicate num_actions 0) xs) i 0 ≡ 0
cleared off xs i room q r =
    let z : length (replicate {A = ℕ} num_actions 0) ≡ num_actions =
      length-replicate {A = ℕ} num_actions 0 in
    get_or-copy_at_inside off (replicate num_actions 0) xs (i - off) i 0 (omega arith)
      (omega (arith, z)) (omega arith)
    ∙ get_or-replicate num_actions (i - off) 0

-- A mask of the right length, packed over whatever was there and read back.
pub unpack_mask-pack_mask :
    (off : ℕ) (mask : List Bool) (xs : List ℕ)
    → length mask ≡ num_actions
    → off + num_actions ≤ length xs
    → unpack_mask off (pack_mask off 0 mask (copy_at off (replicate num_actions 0) xs)) ≡ mask
unfolding unpack_mask
unpack_mask-pack_mask off mask xs full room =
    let zeros : List ℕ = replicate num_actions 0 in
    let base : List ℕ = copy_at off zeros xs in
    let packed : List ℕ = pack_mask off 0 mask base in
    let l : length base ≡ length xs = length-copy_at off zeros xs in
    let s : length packed ≡ length base = length-pack_mask off 0 mask base in
    let z : length zeros ≡ num_actions = length-replicate {A = ℕ} num_actions 0 in
    let t : length (slice off num_actions packed) ≡ num_actions =
      length-slice off num_actions packed (omega (arith, l, s)) in
    list-eq (map bit (slice off num_actions packed)) mask false
      (length-map (slice off num_actions packed) bit ∙ t ∙ sym full)
      (λ k p.
        get_or-map bit (slice off num_actions packed) k 0 false (omega (arith, t, full))
        ∙ ap bit (get_or-slice off num_actions packed k (off + k) 0 refl (omega (arith, full)))
        ∙ get_or-pack_mask off 0 k (off + k) mask base (omega arith) p (omega (arith, full))
            (omega (arith, l)) (λ i q r. cleared off xs i room (omega arith) r))

-- What is read of a mask depends on its words only.
pub unpack_mask-eq :
    (off : ℕ) (xs ys : List ℕ)
    → off + num_actions ≤ length xs
    → length xs ≡ length ys
    → ((j : ℕ) → off ≤ j → j < off + num_actions → get_or xs j 0 ≡ get_or ys j 0)
    → unpack_mask off xs ≡ unpack_mask off ys
unfolding unpack_mask
unpack_mask-eq off xs ys room same h =
    let t : length (slice off num_actions ys) ≡ num_actions =
      length-slice off num_actions ys (omega (arith, same)) in
    ap (map bit) (
      list-eq (slice off num_actions xs) (slice off num_actions ys) 0
        (length-slice off num_actions xs room ∙ sym t)
        (λ k p.
          get_or-slice off num_actions xs k (off + k) 0 refl (omega (arith, t))
          ∙ h (off + k) (omega arith) (omega (arith, t))
          ∙ sym (get_or-slice off num_actions ys k (off + k) 0 refl (omega (arith, t)))))
