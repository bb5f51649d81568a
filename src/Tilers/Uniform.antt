-- ===== src/Tilers/Uniform.antt =====
-- The mask of an observation, and what the uniform client answers.
use mcts.Prelude.{
  ℕ, suc, ◌+◌, ◌-◌, ◌<◌, ◌≡◌, ◌∙◌, refl, ap, Bool, true, false, ◌&&◌, ◌||◌, List, [], ◌∷◌, length,
  length-set, get_or, get_or-set_self, get_or-set_ne, set, replicate, length-replicate,
  get_or-replicate, ltb, leb, ◌==◌, if◌then◌else◌, Bool-cases, inl, inr, arith,
}
use mcts.Float.{Float}
use mcts.Tilers.{num_actions, pad_from, build_obs}

-- One round of the loop, as a reader of the slot `j` sees it.
marked : ℕ → Bool → List Bool → List Bool
marked id on acc = if on && ltb id num_actions then set acc id true else acc

length-marked : (id : ℕ) (on : Bool) (acc : List Bool) → length (marked id on acc) ≡ length acc
unfolding marked
length-marked id on acc = elim (Bool-cases (on && ltb id num_actions)) [
  | inl write ↦ rw write (length-set acc id true)
  | inr skip ↦ rw skip refl
]

get_or-marked :
    (id j : ℕ) (on : Bool) (acc : List Bool)
    → j < num_actions
    → length acc ≡ num_actions
    → get_or (marked id on acc) j false ≡ (get_or acc j false || (id == j && on))
unfolding marked
get_or-marked id j on acc h l = elim (Bool-cases (id == j)) [
  | inl same ↦
      let e : id ≡ j = ground (arith, same) in
      rw e (ground (arith, get_or-set_self acc j true false))
  | inr other ↦ ground (arith, other, get_or-set_ne acc id j true false)
]

-- The slots before `id` are not written any more.
later :
    (id j : ℕ) (on : Bool) (mask : List Bool)
    → ((id == j && on) || (leb (id + 1) j && get_or mask (j - (id + 1)) false))
      ≡ (leb id j && get_or (on ∷ mask) (j - id) false)
later id j on mask = elim (Bool-cases (leb (id + 1) j)) [
  | inl after ↦
      let e : j - id ≡ suc (j - (id + 1)) = ground (arith, after) in rw e (ground (arith, after))
  | inr upto ↦ elim (Bool-cases (id == j)) [
    | inl same ↦ let e : j - id ≡ 0 = ground (arith, same) in rw e (ground (arith, same))
    | inr other ↦ ground (arith, other, upto)
  ]
]

or_assoc : (a b c : Bool) → ((a || b) || c) ≡ (a || (b || c))
or_assoc true b c = refl
or_assoc false b c = refl

or_nothing : (a b : Bool) → a ≡ (a || (b && false))
or_nothing true b = refl
or_nothing false true = refl
or_nothing false false = refl

pad_from-get :
    (id j : ℕ) (mask acc : List Bool)
    → j < num_actions
    → length acc ≡ num_actions
    → get_or (pad_from id mask acc) j false
      ≡ (get_or acc j false || (leb id j && get_or mask (j - id) false))
unfolding pad_from marked
pad_from-get id j [] acc h l = or_nothing (get_or acc j false) (leb id j)
pad_from-get id j (on ∷ mask) acc h l =
    pad_from-get (id + 1) j mask (marked id on acc) h (length-marked id on acc ∙ l)
    ∙ ap (λ b. b || (leb (id + 1) j && get_or mask (j - (id + 1)) false))
        (get_or-marked id j on acc h l)
    ∙ or_assoc (get_or acc j false) (id == j && on)
        (leb (id + 1) j && get_or mask (j - (id + 1)) false)
    ∙ ap (λ b. get_or acc j false || b) (later id j on mask)

length-pad_from : (id : ℕ) (mask acc : List Bool) → length (pad_from id mask acc) ≡ length acc
unfolding pad_from marked
length-pad_from id [] acc = refl
length-pad_from id (on ∷ mask) acc =
    length-pad_from (id + 1) mask (marked id on acc) ∙ length-marked id on acc

from_start :
    (b : Bool) (mask : List Bool) (j : ℕ)
    → b ≡ false
    → (b || (leb 0 j && get_or mask (j - 0) false)) ≡ get_or mask j false
from_start b mask j h =
    let e : j - 0 ≡ j = omega arith in
    let first : leb 0 j ≡ true = ground arith in rw (h, e, first) refl

-- The mask of an observation has a slot for each action of the action space, and agrees there with
-- the mask of the game, which it cuts or pads.
pub build_obs-mask :
    {Cell : Type 0} (height width ancillas : ℕ) (board : List (List Cell)) (mask : List Bool)
    (j : ℕ)
    → j < num_actions
    → (length (build_obs height width ancillas board mask).action_mask ≡ num_actions)
      × (get_or (build_obs height width ancillas board mask).action_mask j false
          ≡ get_or mask j false)
unfolding build_obs
build_obs-mask height width ancillas board mask j h =
    let l : length (replicate num_actions false) ≡ num_actions =
      length-replicate num_actions false in
    let blank : get_or (replicate num_actions false) j false ≡ false =
      get_or-replicate num_actions j false in
    (
      length-pad_from 0 mask (replicate num_actions false) ∙ l,
      pad_from-get 0 j mask (replicate num_actions false) h l
          ∙ from_start (get_or (replicate num_actions false) j false) mask j blank,
    )
