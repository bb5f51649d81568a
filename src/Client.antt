-- ===== src/Client.antt =====
-- mcts-tilers/src/client.rs, `TilersIpcClient`: inference by a handler that shares an arena. The
-- handler is a parameter, and so is the clock; what the client prints of the timing is left out.
-- A call that still waits (for a free slot, for room in a queue, for the handler) is out_of_fuel.
pub mod Requests
pub mod Answers
use mcts.Prelude.{
  ℕ, zero, suc, ◌+◌, ◌*◌, ◌%◌, ◌^◌, Bool, true, false, not, ◌&&◌, ◌||◌, Option, none, some, List,
  [], ◌∷◌, length, modify, get_elem?, take, add_usize, ltb, ◌==◌, if◌then◌else◌, Exec, ok, panic,
  out_of_fuel, ◌>>=◌, expect, index,
}
use mcts.Float.{Float}
use mcts.Node.{Action}
use mcts.Tilers.{num_actions, TilersObs}
use mcts.Slot.{BoardCell, TilersSlot, max_batch, pack_observations, slot_type}
use mcts.Ipc.Arena.{
  Arena, slot_ready, acquire_slot, submit_to_handler, store_state, is_done, release_slot,
}

-- `struct IpcClient`, without the arena, which is passed on by itself.
pub record TilersIpcClient : Type 0 where
  pub owner_id : ℕ
  pub next_req_id : ℕ
  pub print_timing : Bool

-- `TilersIpcClient::new`
unfoldable pub new_client : ℕ → TilersIpcClient
new_client owner_id = record { owner_id = owner_id; next_req_id = 0; print_timing = false }

unfoldable pub with_timing : Bool → TilersIpcClient → TilersIpcClient
with_timing enabled client = record client { print_timing = enabled }

-- An attempt that does not come through.
abbrev pub await {ℓ} : {A : Type ℓ} → Option A → Exec A
await none = out_of_fuel
await (some a) = ok a

-- What a request comes to: the arena, and the priors and values or an error.
abbrev pub Answered : Type 0 → Type 0
Answered F = Arena (TilersSlot F) × Option (List (List (Action × F)) × List F)

module _ {F : Type 0} where
  -- The prior of one observation, from action `a` of its mask on.
  unfoldable pub prior_from : List F → ℕ → ℕ → List Bool → Exec (List (Action × F))
  prior_from priors offset a [] = ok []
  prior_from priors offset a (valid ∷ mask) =
      let rest = prior_from priors offset (a + 1) mask in
      if valid then (do p ← index priors (offset + a); r ← rest; ok ((a % 2 ^ 16, p) ∷ r)) else rest

  -- The priors of the batch, from observation `i` on.
  unfoldable pub priors_from :
      List F → ℕ → List (TilersObs BoardCell) → Exec (List (List (Action × F)))
  priors_from priors i [] = ok []
  priors_from priors i (obs ∷ observations) = do
    prior ← prior_from priors (i * num_actions) 0 obs.action_mask
    rest ← priors_from priors (i + 1) observations
    ok (prior ∷ rest)

  -- The header of a request.
  unfoldable pub write_header : ℕ → ℕ → ℕ → ℕ → TilersSlot F → TilersSlot F
  write_header now b owner_id req_id slot = record slot {
    request_time_ns = now;
    b = b % 2 ^ 32;
    owner_id = owner_id;
    req_id = req_id;
  }

  -- `slot_mut` and `slot`, with their assertion.
  unfoldable pub slot_at : ℕ → Arena (TilersSlot F) → Exec (TilersSlot F)
  slot_at i arena = if ltb i arena.num_slots then expect (get_elem? arena.slots i) else panic

  unfoldable pub put_slot : ℕ → TilersSlot F → Arena (TilersSlot F) → Arena (TilersSlot F)
  put_slot i slot arena = record arena { slots = modify arena.slots i (λ _. slot) }

module _ {F : Type 0} ⦃fl : Float F⦄ where
  unfoldable pub give_back :
      ℕ → Arena (TilersSlot F) → Option (List (List (Action × F)) × List F) → Exec (Answered F)
  give_back i arena answer = do
    attempt ← release_slot i arena
    released ← await attempt
    ok (released, answer)

  -- The answer that a slot holds, and the slot's release.
  unfoldable pub read_slot :
      ℕ
      → ℕ
      → ℕ
      → List (TilersObs BoardCell)
      → Arena (TilersSlot F)
      → TilersSlot F
      → Exec (Answered F)
  read_slot owner_id req_id i observations arena slot =
      if not (slot.owner_id == owner_id) || not (slot.req_id == req_id)
      then give_back i arena none
      else (do
        priors ← priors_from slot.priors 0 observations
        give_back i arena (some (priors, take (length observations) slot.values)))

  unfoldable pub read_response :
      ℕ → ℕ → ℕ → List (TilersObs BoardCell) → Arena (TilersSlot F) → Exec (Answered F)
  read_response owner_id req_id i observations arena = do
    slot ← slot_at i arena
    read_slot owner_id req_id i observations arena slot

  -- `wait_done`, and the rest.
  unfoldable pub await_response :
      ℕ → ℕ → ℕ → List (TilersObs BoardCell) → Arena (TilersSlot F) → Exec (Answered F)
  await_response owner_id req_id i observations arena = is_done i arena >>= λ finished.
      if finished then read_response owner_id req_id i observations arena else out_of_fuel

  module _ (serve : Arena (TilersSlot F) → Arena (TilersSlot F)) where
    -- From the slot that a client has acquired on.
    unfoldable pub request :
        ℕ
        → ℕ
        → ℕ
        → List (TilersObs BoardCell)
        → Arena (TilersSlot F)
        → TilersSlot F
        → Exec (Answered F)
    request owner_id req_id i observations arena headed =
        elim (pack_observations observations headed) [
          | none ↦ ok (put_slot i headed arena, none)
          | some packed ↦ do
            submitted ←
                await (submit_to_handler i (store_state i slot_ready (put_slot i packed arena)))
            await_response owner_id req_id i observations (serve submitted)
        ]

    -- None is an error. A batch that `pack_observations` refuses would leave its slot acquired.
    unfoldable pub infer :
        ℕ
        → TilersIpcClient × Arena (TilersSlot F)
        → List (TilersObs BoardCell)
        → Exec
            ((TilersIpcClient × Arena (TilersSlot F)) × Option (List (List (Action × F)) × List F))
    infer now (client, arena) observations =
        let b = length observations in
        if b == 0 || ltb max_batch b then ok ((client, arena), none) else (do
          (i, acquired) ← await (acquire_slot arena)
          slot ← slot_at i acquired
          (released, answer) ←
              request client.owner_id client.next_req_id i observations acquired
                (write_header now b client.owner_id client.next_req_id slot)
          ok ((record client { next_req_id = add_usize client.next_req_id 1 }, released), answer))
