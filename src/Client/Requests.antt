-- ===== src/Client/Requests.antt =====
-- mcts-tilers/src/client.rs: what a request to a handler comes to.
use mcts.Prelude.{
  contains, ℕ, zero, suc, ◌+◌, ◌*◌, ◌%◌, ◌^◌, ◌<◌, ◌≤◌, ◌≡◌, ◌∙◌, refl, sym, ap, subst, Bool, true,
  false, not, ◌||◌, Option, none, some, List, [], ◌∷◌, ◌++◌, All, length, get_elem?, modify,
  map_some, take, drop, ltb, ◌==◌, if◌then◌else◌, ok, arith, Option-cases, inl, inr,
}
use mcts.Float.{Float}
use mcts.Node.{Action}
use mcts.Tilers.{num_actions, TilersObs}
use mcts.Slot.{BoardCell, TilersSlot, max_batch, unpack_observations, slot_type}
use mcts.Slot.RoundTrip.{IsSized}
use mcts.Ipc.Ring.{RingQueue, q_cap, try_pop}
use mcts.Ipc.Ring.Fifo.{IsRing, StaysRing, contents, popped, fifo_pop, try_pop_refines}
use mcts.Ipc.Arena.{
  Arena, slot_free, slot_ready, slot_done, submit_to_handler, store_state, is_done, release_slot,
}
use mcts.Ipc.Arena.Reset.{push-room}
use mcts.Client.{
  prior_from, priors_from, slot_at, give_back, read_slot, read_response, await_response,
}

-- The entries that a mask leaves of a block of priors, each with its action.
pub select : {F : Type 0} → ℕ → List Bool → List F → List (Action × F)
select a [] ps = []
select a (valid ∷ mask) [] = []
select a (valid ∷ mask) (p ∷ ps) =
    let rest = select (a + 1) mask ps in if valid then (a, p) ∷ rest else rest

-- For each observation its block of `NUM_ACTIONS` priors, under its mask.
pub blocks : {F : Type 0} → ℕ → List (TilersObs BoardCell) → List F → List (List (Action × F))
blocks i [] ps = []
blocks i (obs ∷ observations) ps =
    select 0 obs.action_mask (drop (i * num_actions) ps) ∷ blocks (i + 1) observations ps

drop-step {ℓ} :
    {A : Type ℓ} (n : ℕ) (xs : List A)
    → n < length xs
    → (x : A) × (get_elem? xs n ≡ some x) × (drop n xs ≡ x ∷ drop (n + 1) xs)
drop-step n [] h = absurd (omega arith)
drop-step zero (x ∷ xs) h = (x, refl, refl)
drop-step (suc n) (x ∷ xs) h =
    let (y, e, f) = drop-step n xs (omega arith) in
    let s : suc n + 1 ≡ suc (n + 1) = omega arith in (y, e, rw s f)

module _ {F : Type 0} where
  prior_from-eq :
      (priors : List F) (offset a : ℕ) (mask : List Bool)
      → offset + a + length mask ≤ length priors
      → a + length mask ≤ 2 ^ 16
      → prior_from priors offset a mask ≡ ok (select a mask (drop (offset + a) priors))
  unfolding prior_from select
  prior_from-eq priors offset a [] h w = refl
  prior_from-eq priors offset a (false ∷ mask) h w =
      let (p, e, f) = drop-step (offset + a) priors (omega arith) in
      let next : offset + a + 1 ≡ offset + (a + 1) = omega arith in
      rw (f, next) (prior_from-eq priors offset (a + 1) mask (omega arith) (omega arith))
  prior_from-eq priors offset a (true ∷ mask) h w =
      let (p, e, f) = drop-step (offset + a) priors (omega arith) in
      let next : offset + a + 1 ≡ offset + (a + 1) = omega arith in
      let small : a % 2 ^ 16 ≡ a = omega arith in
      rw (f, e, small, prior_from-eq priors offset (a + 1) mask (omega arith) (omega arith), next)
        refl

  priors_from-eq :
      (priors : List F) (i : ℕ) (observations : List (TilersObs BoardCell))
      → All (λ (obs : TilersObs BoardCell). length obs.action_mask ≡ num_actions) observations
      → (i + length observations) * num_actions ≤ length priors
      → priors_from priors i observations ≡ ok (blocks i observations priors)
  unfolding priors_from blocks
  priors_from-eq priors i [] masks h = refl
  priors_from-eq priors i (obs ∷ observations) (mask, masks) h =
      let at : i * num_actions + 0 ≡ i * num_actions = omega arith in
      rw
        (
          prior_from-eq priors (i * num_actions) 0 obs.action_mask (omega (arith, mask))
              (omega (arith, mask)),
          priors_from-eq priors (i + 1) observations masks (omega arith),
          at,
        )
        refl

-- What a handler does with the requests in the queue when it runs, for an answer `net` to the
-- observations of a slot: of each slot whose index stands in the ready queue, and which is marked as
-- ready, it leaves the header alone, writes the answer and then marks the slot as done. It does not
-- take slots from the free queue.
pub record IsHandler {F : Type 0} ⦃fl : Float F⦄
    (net : List (TilersObs BoardCell) → List F × List F)
    (serve : Arena (TilersSlot F) → Arena (TilersSlot F)) : Type 0 where
  pub answers :
      (a : Arena (TilersSlot F)) (i : ℕ) (s : TilersSlot F)
      (observations : List (TilersObs BoardCell))
      → contains i (contents a.ready_q) ≡ true
      → get_elem? a.slots i ≡ some s
      → s.state ≡ slot_ready
      → unpack_observations s ≡ ok observations
      → (t : TilersSlot F) × (get_elem? (serve a).slots i ≡ some t)
        × (t.state ≡ slot_done)
        × (t.owner_id ≡ s.owner_id)
        × (t.req_id ≡ s.req_id)
        × (t.priors ≡ (net observations).0)
        × (t.values ≡ (net observations).1)
  pub free : (a : Arena (TilersSlot F)) → (serve a).free_q ≡ a.free_q
  pub size : (a : Arena (TilersSlot F)) → (serve a).num_slots ≡ a.num_slots
  pub full :
      (observations : List (TilersObs BoardCell))
      → length (net observations).0 ≡ max_batch * num_actions

-- An arena with a free slot and room in both queues.
pub record IsIdle {F : Type 0} (i : ℕ) (rest : List ℕ) (s : TilersSlot F) (a : Arena (TilersSlot F))
    : Type 0 where
  pub free_ring : IsRing a.free_q
  pub ready_ring : IsRing a.ready_q
  pub free : contents a.free_q ≡ i ∷ rest
  pub room : length (contents a.ready_q) + 1 < q_cap
  pub few : length rest + 2 < q_cap
  pub within : i < a.num_slots
  pub there : get_elem? a.slots i ≡ some s
  pub sized : IsSized s

pub pop-first :
    (q : RingQueue) (x : ℕ) (rest : List ℕ)
    → IsRing q
    → contents q ≡ x ∷ rest
    → (q' : RingQueue) × (try_pop q ≡ some (x, q')) × (contents q' ≡ rest) × IsRing q'
pop-first q x rest v e =
    let (refines, stays) = try_pop_refines q v in
    elim (Option-cases (try_pop q)) [
      | inl nothing ↦
          let f : none ≡ some (x, rest) = sym (ap popped nothing) ∙ refines ∙ ap fifo_pop e in cc
      | inr ((y, q'), there) ↦
          let f : some (y, contents q') ≡ some (x, rest) =
            sym (ap popped there) ∙ refines ∙ ap fifo_pop e in
          let g : ◌≡◌ {A = ℕ × List ℕ} (y, contents q') (x, rest) = cc in
          let first : y ≡ x = ap (λ p. p.0) g in
          (
            q',
            there ∙ ap (λ z. some (z, q')) first,
            ap (λ p. p.1) g,
            subst (λ o. StaysRing (map_some (λ r. r.1) o)) there stays,
          )
    ]

contains-last : (x : ℕ) (xs : List ℕ) → contains x (xs ++ (x ∷ [])) ≡ true
contains-last x [] = ground arith
contains-last x (y ∷ xs) = ground (arith, contains-last x xs)

module _ {F : Type 0} ⦃fl : Float F⦄ where
  pub slot_at-eq :
      (i : ℕ) (a : Arena (TilersSlot F)) (s : TilersSlot F)
      → i < a.num_slots
      → get_elem? a.slots i ≡ some s
      → slot_at i a ≡ ok s
  unfolding slot_at
  slot_at-eq i a s within there =
      let inside : ltb i a.num_slots ≡ true = ground (arith, within) in rw (inside, there) refl

  pub submit-eq :
      (i : ℕ) (a : Arena (TilersSlot F))
      → IsRing a.ready_q
      → length (contents a.ready_q) + 1 < q_cap
      → (q : RingQueue) × (submit_to_handler i a ≡ some (record a { ready_q = q }))
        × (contains i (contents q) ≡ true)
  unfolding submit_to_handler
  submit-eq i a v room =
      let (q, pushed, more, _) = push-room a.ready_q i v room in
      (
        q,
        rw (pushed, submit_to_handler) refl,
        ap (contains i) more ∙ contains-last i (contents a.ready_q),
      )

  pub give_back-eq :
      (i : ℕ) (a : Arena (TilersSlot F)) (answer : Option (List (List (Action × F)) × List F))
      → i < a.num_slots
      → IsRing a.free_q
      → length (contents a.free_q) + 1 < q_cap
      → (b : Arena (TilersSlot F)) × (give_back i a answer ≡ ok (b, answer))
        × (contents b.free_q ≡ contents a.free_q ++ (i ∷ []))
        × IsRing b.free_q
  unfolding give_back release_slot store_state
  give_back-eq i a answer within v room =
      let inside : ltb i a.num_slots ≡ true = ground (arith, within) in
      let (q, pushed, more, w) = push-room a.free_q i v room in
      (
        record a { slots = modify a.slots i (slot_type.store slot_free); free_q = q },
        rw (inside, pushed, give_back, release_slot, store_state) refl,
        more,
        w,
      )

  -- The part of a request that reads the answer.
  pub read_response-eq :
      (owner_id req_id i : ℕ) (observations : List (TilersObs BoardCell)) (a : Arena (TilersSlot F))
      (t : TilersSlot F)
      → i < a.num_slots
      → get_elem? a.slots i ≡ some t
      → t.state ≡ slot_done
      → t.owner_id ≡ owner_id
      → t.req_id ≡ req_id
      → All (λ (obs : TilersObs BoardCell). length obs.action_mask ≡ num_actions) observations
      → length observations * num_actions ≤ length t.priors
      → IsRing a.free_q
      → length (contents a.free_q) + 1 < q_cap
      → (b : Arena (TilersSlot F)) × (await_response owner_id req_id i observations a
          ≡ ok (b, some (blocks 0 observations t.priors, take (length observations) t.values)))
        × (contents b.free_q ≡ contents a.free_q ++ (i ∷ []))
        × IsRing b.free_q
  unfolding await_response read_response read_slot is_done slot_type
  read_response-eq owner_id req_id i observations a t within there done owner req masks room v few =
      let answer : Option (List (List (Action × F)) × List F) =
        some (blocks 0 observations t.priors, take (length observations) t.values) in
      let (b, given, more, w) = give_back-eq i a answer within v few in
      let matches : (not (t.owner_id == owner_id) || not (t.req_id == req_id)) ≡ false =
        ground (arith, owner, req) in
      let read : read_response owner_id req_id i observations a ≡ ok (b, answer) =
        rw
          (
            slot_at-eq i a t within there,
            matches,
            priors_from-eq t.priors 0 observations masks (omega arith),
          )
          given in
      let inside : ltb i a.num_slots ≡ true = ground (arith, within) in
      let finished : is_done i a ≡ ok true = rw (inside, there, done) refl in
      (b, rw finished read, more, w)
