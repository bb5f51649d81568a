-- ===== src/Client/Answers.antt =====
-- mcts-tilers/src/client.rs: a batch that a handler answers, from the free slot to the answer.
use mcts.Prelude.{
  ℕ, ◌+◌, ◌*◌, ◌<◌, ◌≤◌, ◌≡◌, ◌∙◌, refl, ap, ap₂, false, ◌||◌, some, List, [], ◌∷◌, ◌++◌, All,
  length, get_elem?, modify, get_elem?-modify_self, map_some, take, add_usize, ltb, ◌==◌, ok, arith,
}
use mcts.Float.{Float}
use mcts.Tilers.{num_actions, TilersObs}
use mcts.Slot.{BoardCell, TilersSlot, max_batch, pack_observations, unpack_observations, slot_type}
use mcts.Slot.RoundTrip.{
  IsSized, Fits, unpack_observations-pack_observations, pack_observations-header,
  unpack_observations-state,
}
use mcts.Ipc.Ring.{RingQueue, q_cap}
use mcts.Ipc.Ring.Fifo.{IsRing, contents}
use mcts.Ipc.Arena.{Arena, slot_ready, acquire_slot, submit_to_handler, store_state}
use mcts.Client.{TilersIpcClient, write_header, put_slot, await_response, request, infer}
use mcts.Client.Requests.{
  blocks, IsHandler, IsIdle, pop-first, slot_at-eq, submit-eq, read_response-eq,
}

masks_of :
    (observations : List (TilersObs BoardCell))
    → All Fits observations
    → All (λ (obs : TilersObs BoardCell). length obs.action_mask ≡ num_actions) observations
masks_of [] fits = tt
masks_of (obs ∷ observations) (fit, fits) = (fit.mask, masks_of observations fits)

module _ {F : Type 0} ⦃fl : Float F⦄ where
  -- A slot that the client has packed and marked, as the handler finds it.
  ready-slot :
      (i : ℕ) (a : Arena (TilersSlot F)) (s packed : TilersSlot F)
      → get_elem? a.slots i ≡ some s
      → get_elem? (store_state i slot_ready (put_slot i packed a)).slots i
        ≡ some (record packed { state = slot_ready })
  unfolding store_state put_slot slot_type
  ready-slot i a s packed there =
      get_elem?-modify_self (modify a.slots i (λ _. packed)) i (slot_type.store slot_ready)
      ∙ ap (map_some (slot_type.store slot_ready))
          (get_elem?-modify_self a.slots i (λ _. packed) ∙ ap (map_some (λ _. packed)) there)

  headed-IsSized :
      (now b : ℕ) (client : TilersIpcClient) (s : TilersSlot F)
      → IsSized s
      → IsSized (write_header now b client.owner_id client.next_req_id s)
  unfolding write_header
  headed-IsSized now b client s z = record {
    h = z.h;
    w = z.w;
    num_ancillas = z.num_ancillas;
    num_layers = z.num_layers;
    board = z.board;
    action_mask = z.action_mask;
  }

  request-sent :
      (serve : Arena (TilersSlot F) → Arena (TilersSlot F)) (owner_id req_id i : ℕ)
      (observations : List (TilersObs BoardCell)) (a submitted : Arena (TilersSlot F))
      (headed packed : TilersSlot F)
      → pack_observations observations headed ≡ some packed
      → submit_to_handler i (store_state i slot_ready (put_slot i packed a)) ≡ some submitted
      → request serve owner_id req_id i observations a headed
        ≡ await_response owner_id req_id i observations (serve submitted)
  unfolding request
  request-sent serve owner_id req_id i observations a submitted headed packed pack submit =
      rw (pack, request, submit) refl

  request-eq :
      (serve : Arena (TilersSlot F) → Arena (TilersSlot F))
      (net : List (TilersObs BoardCell) → List F × List F) (owner_id req_id i : ℕ)
      (observations : List (TilersObs BoardCell)) (a : Arena (TilersSlot F))
      (s headed packed : TilersSlot F)
      → IsHandler net serve
      → length observations ≤ max_batch
      → All Fits observations
      → pack_observations observations headed ≡ some packed
      → unpack_observations packed ≡ ok observations
      → packed.owner_id ≡ owner_id
      → packed.req_id ≡ req_id
      → IsRing a.free_q
      → length (contents a.free_q) + 1 < q_cap
      → IsRing a.ready_q
      → length (contents a.ready_q) + 1 < q_cap
      → i < a.num_slots
      → get_elem? a.slots i ≡ some s
      → (b : Arena (TilersSlot F)) × (request serve owner_id req_id i observations a headed
          ≡ ok (
            b,
            some (
              blocks 0 observations (net observations).0,
              take (length observations) (net observations).1,
            ),
          ))
        × (contents b.free_q ≡ contents a.free_q ++ (i ∷ []))
        × IsRing b.free_q
  unfolding store_state put_slot
  request-eq serve net owner_id req_id i observations a s headed packed handler small fits pack
        unpack owner req v few w room within there =
      let marked : Arena (TilersSlot F) = store_state i slot_ready (put_slot i packed a) in
      let (r, submit, queued) = submit-eq i marked w room in
      let submitted : Arena (TilersSlot F) = record marked { ready_q = r } in
      let free : (serve submitted).free_q ≡ a.free_q = handler.free submitted in
      let size : (serve submitted).num_slots ≡ a.num_slots = handler.size submitted in
      let (t, found, done, owner', req', priors, values) =
        handler.answers submitted i (record packed { state = slot_ready }) observations queued
          (ready-slot i a s packed there) refl
          (unpack_observations-state slot_ready packed ∙ unpack) in
      let full : length t.priors ≡ max_batch * num_actions =
        ap length priors ∙ handler.full observations in
      let (b, response, more, x) =
        read_response-eq owner_id req_id i observations (serve submitted) t
          (omega (arith, size, within)) found done (owner' ∙ owner) (req' ∙ req)
          (masks_of observations fits) (omega (arith, full)) (rw free v) (rw free few) in
      (
        b,
        request-sent serve owner_id req_id i observations a submitted headed packed pack submit
            ∙ response
            ∙ ap₂ (λ p q. ok (b, some (blocks 0 observations p, take (length observations) q)))
                priors values,
        more ∙ ap (λ (q : RingQueue). contents q ++ (i ∷ [])) free,
        x,
      )

  -- With a handler that answers by `net` the slots that stand in the ready queue, a free slot and room in the queues,
  -- a batch of one to eight observations that fit a slot is answered: each observation has the
  -- entries of its block of the priors that `net` gives for exactly this batch, those that its mask
  -- selects, and the values are the first ones of `net`. The client's request number goes up, and the
  -- slot is back in the free queue, at its end.
  pub infer-Answers :
      (now : ℕ) (serve : Arena (TilersSlot F) → Arena (TilersSlot F))
      (net : List (TilersObs BoardCell) → List F × List F) (client : TilersIpcClient)
      (a : Arena (TilersSlot F)) (i : ℕ) (rest : List ℕ) (s : TilersSlot F)
      (observations : List (TilersObs BoardCell))
      → IsHandler net serve
      → IsIdle i rest s a
      → 0 < length observations
      → length observations ≤ max_batch
      → All Fits observations
      → (b : Arena (TilersSlot F)) × (infer serve now (client, a) observations
          ≡ ok (
            (record client { next_req_id = add_usize client.next_req_id 1 }, b),
            some (
              blocks 0 observations (net observations).0,
              take (length observations) (net observations).1,
            ),
          ))
        × (contents b.free_q ≡ rest ++ (i ∷ []))
        × IsRing b.free_q
  unfolding infer acquire_slot write_header
  infer-Answers now serve net client a i rest s observations handler idle some_batch small fits =
      let accepted : (length observations == 0 || ltb max_batch (length observations)) ≡ false =
        ground arith in
      let (q, first, left, v) = pop-first a.free_q i rest idle.free_ring idle.free in
      let acquired : Arena (TilersSlot F) = record a { free_q = q } in
      let headed : TilersSlot F =
        write_header now (length observations) client.owner_id client.next_req_id s in
      let (packed, pack, _, unpack) =
        unpack_observations-pack_observations observations headed
          (headed-IsSized now (length observations) client s idle.sized) fits some_batch small in
      let (owner, req) = pack_observations-header observations headed packed pack in
      let (b, response, more, w) =
        request-eq serve net client.owner_id client.next_req_id i observations acquired s headed
          packed handler small fits pack unpack owner req v
          (omega (arith, ap length left, idle.few)) idle.ready_ring idle.room idle.within
          idle.there in
      (
        b,
        rw (accepted, first, acquire_slot, slot_at-eq i acquired s idle.within idle.there, response)
            refl,
        more ∙ ap (λ xs. xs ++ (i ∷ [])) left,
        w,
      )
