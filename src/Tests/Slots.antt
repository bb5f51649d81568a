-- ===== src/Tests/Slots.antt =====
-- A batch of one observation: packed into a slot, and answered by a handler.
use mcts.Prelude.{
  Exec, ℕ, ◌*◌, ◌≡◌, ◌∙◌, refl, ap, true, some, List, [], ◌∷◌, All, length-replicate, get_elem?-map,
  map_some, map, replicate, take, add_usize, ◌==◌, if◌then◌else◌, ok, arith,
}
use mcts.Tilers.{num_actions, TilersObs}
use mcts.Slot.{
  BoardCell, TilersSlot, max_batch, default_slot, pack_observations, unpack_observations, slot_type,
}
use mcts.Slot.RoundTrip.{IsSized, Fits, unpack_observations-pack_observations}
use mcts.Ipc.Ring.Fifo.{IsRing, contents, entries}
use mcts.Ipc.Arena.{Arena, slot_ready, slot_done}
use mcts.Client.{TilersIpcClient, new_client, infer}
use mcts.Client.Requests.{blocks, IsHandler, IsIdle}
use mcts.Client.Answers.{infer-Answers}
use mcts.Tests.Setup.{numbers}
use mcts.Tests.Queues.{buffer, buffer-length}

abbrev cell : BoardCell
cell = record {
  qubit_role = 1;
  factor_kind = 2;
  resource_kind = 3;
  pp_group_row = 4;
  pp_group_col = 5;
  ancilla_idx = 6;
  last_move_dir = 7;
  weight_in_pp = 8;
  is_hub_for_pp = 9;
  is_y_ready = 10;
}

-- A grid of one row and two cells.
abbrev obs : TilersObs BoardCell
obs = record {
  height = 1;
  width = 2;
  num_ancillas = 1;
  num_layers = 1;
  board = (cell ∷ cell ∷ []) ∷ [];
  action_mask = replicate num_actions true;
}

batch-Fits : All Fits (obs ∷ [])
batch-Fits = (
  record {
    height = omega arith;
    width = omega arith;
    num_ancillas = omega arith;
    counted = refl;
    layers = omega arith;
    grid = omega arith;
    cells = (refl, tt);
    mask = length-replicate num_actions true;
  },
  tt,
)

abbrev slot : TilersSlot ℕ
slot = default_slot

slot-IsSized : IsSized slot
unfolding default_slot
slot-IsSized =
    let zero_word : ℕ = 0 in
    record {
      h = refl;
      w = refl;
      num_ancillas = refl;
      num_layers = refl;
      board = refl;
      action_mask = length-replicate (max_batch * num_actions) zero_word;
    }

unpack_observations-pack_observations_example :
    (packed : TilersSlot ℕ) × (pack_observations (obs ∷ []) slot ≡ some packed)
    × IsSized packed
    × (unpack_observations packed ≡ ok (obs ∷ []))
unpack_observations-pack_observations_example =
    unpack_observations-pack_observations (obs ∷ []) slot slot-IsSized batch-Fits (omega arith)
      (omega arith)

-- A network that says the same of every batch.
net : List (TilersObs BoardCell) → List ℕ × List ℕ
net observations = (replicate (max_batch * num_actions) 5, replicate max_batch 7)

answered : TilersSlot ℕ → Exec (List (TilersObs BoardCell)) → TilersSlot ℕ
answered s (ok observations) = record s {
  state = slot_done;
  priors = (net observations).0;
  values = (net observations).1;
}
answered s _ = s

complete : TilersSlot ℕ → TilersSlot ℕ
complete s = if s.state == slot_ready then answered s (unpack_observations s) else s

serve : Arena (TilersSlot ℕ) → Arena (TilersSlot ℕ)
serve a = record a { slots = map complete a.slots }

serve-IsHandler : IsHandler net serve
unfolding serve complete answered net
serve-IsHandler = record {
  answers = λ a i s observations queued there ready seen.
      let is_ready : (s.state == slot_ready) ≡ true = ground (arith, ready) in
      (
        complete s,
        get_elem?-map complete a.slots i ∙ ap (map_some complete) there,
        rw (is_ready, seen) refl,
        rw (is_ready, seen) refl,
        rw (is_ready, seen) refl,
        rw (is_ready, seen) refl,
        rw (is_ready, seen) refl,
      );
  free = λ a. refl;
  size = λ a. refl;
  full = λ observations. let five : ℕ = 5 in length-replicate (max_batch * num_actions) five;
}

-- One slot, which is free.
abbrev arena : Arena (TilersSlot ℕ)
arena = record {
  magic = 0;
  version = 0;
  num_slots = 1;
  num_handlers = 1;
  free_q = record { head = 0; tail = 1; slots = buffer };
  ready_q = record { head = 0; tail = 0; slots = buffer };
  init_lock = 0;
  init_done = 1;
  slots = slot ∷ [];
}

arena-IsIdle : IsIdle 0 [] slot arena
unfolding entries
arena-IsIdle = record {
  free_ring = record { head_in = omega arith; tail_in = omega arith; buffer = buffer-length };
  ready_ring = record { head_in = omega arith; tail_in = omega arith; buffer = buffer-length };
  free = refl;
  room = omega arith;
  few = omega arith;
  within = omega arith;
  there = refl;
  sized = slot-IsSized;
}

abbrev client : TilersIpcClient
client = new_client 3

infer-Answers_example :
    (b : Arena (TilersSlot ℕ)) × (infer serve 9 (client, arena) (obs ∷ [])
      ≡ ok (
        (record client { next_req_id = add_usize client.next_req_id 1 }, b),
        some (blocks 0 (obs ∷ []) (net (obs ∷ [])).0, take 1 (net (obs ∷ [])).1),
      ))
    × (contents b.free_q ≡ 0 ∷ [])
    × IsRing b.free_q
infer-Answers_example =
    infer-Answers 9 serve net client arena 0 [] slot (obs ∷ []) serve-IsHandler arena-IsIdle
      (omega arith) (omega arith) batch-Fits
