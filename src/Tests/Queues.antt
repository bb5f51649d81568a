-- ===== src/Tests/Queues.antt =====
-- The rings and the arena of the shared memory.
use mcts.Prelude.{
  ℕ, ◌≡◌, ◌<◌, replicate, List, [], ◌∷◌, length, get_elem?, map_some, ok, arith, length-replicate,
}
use mcts.Ipc.Ring.{RingQueue, q_cap, try_push, try_pop}
use mcts.Ipc.Ring.Fifo.{
  IsRing, StaysRing, contents, popped, fifo_push, fifo_pop, try_push_refines, try_pop_refines,
}
use mcts.Ipc.Ring.Calls.{Op, push, pop, run, fifo_run, run_refines}
use mcts.Ipc.Arena.{SlotInit, Arena, force_reset, slot_free}
use mcts.Ipc.Arena.Reset.{count_up, force_reset_lem}

abbrev pub buffer : List ℕ
buffer = replicate q_cap 0

pub buffer-length : length buffer ≡ q_cap
buffer-length = let z : ℕ = 0 in length-replicate q_cap z

-- Two entries, round the end of the buffer.
abbrev pub wrapped : RingQueue
wrapped = record { head = 4095; tail = 1; slots = buffer }

pub wrapped-IsRing : IsRing wrapped
wrapped-IsRing = record { head_in = omega arith; tail_in = omega arith; buffer = buffer-length }

try_push_refines_example :
    (map_some contents (try_push wrapped 7) ≡ fifo_push (contents wrapped) 7)
    × StaysRing (try_push wrapped 7)
try_push_refines_example = try_push_refines wrapped 7 wrapped-IsRing

try_pop_refines_example :
    (popped (try_pop wrapped) ≡ fifo_pop (contents wrapped))
    × StaysRing (map_some (λ r. r.1) (try_pop wrapped))
try_pop_refines_example = try_pop_refines wrapped wrapped-IsRing

abbrev calls : List Op
calls = pop ∷ push 3 ∷ pop ∷ pop ∷ pop ∷ []

run_refines_example : run wrapped calls ≡ fifo_run (contents wrapped) calls
run_refines_example = run_refines calls wrapped wrapped-IsRing

-- Slots that are their state.
instance pub bare : SlotInit ℕ
bare = record { init_free = λ s. slot_free; state = λ s. s; store = λ n s. n; zeroed = 0 }

-- Two slots that are in use.
abbrev busy : Arena ℕ
busy = record {
  magic = 0;
  version = 0;
  num_slots = 2;
  num_handlers = 1;
  free_q = wrapped;
  ready_q = wrapped;
  init_lock = 0;
  init_done = 1;
  slots = 2 ∷ 3 ∷ [];
}

force_reset_lem_example :
    (b : Arena ℕ) × (force_reset busy ≡ ok b)
    × (contents b.free_q ≡ count_up 0 2)
    × (contents b.ready_q ≡ [])
    × ((j : ℕ) → j < 2 → get_elem? b.slots j ≡ map_some bare.init_free (get_elem? busy.slots j))
force_reset_lem_example = force_reset_lem busy buffer-length buffer-length (omega arith)
