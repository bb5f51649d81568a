-- ===== src/Tests/Threads.antt =====
-- Two threads on one ring, and the opening of an arena.
use mcts.Prelude.{ℕ, ◌<◌, ◌≡◌, refl, true, [], ok, arith, get_elem?, map_some}
use mcts.Ipc.SpinLock.{lock_round}
use mcts.Ipc.Ring.Fifo.{contents}
use mcts.Ipc.Ring.Calls.{push, pop, fifo_run, after}
use mcts.Ipc.Ring.Threads.{
  System, Reach, here, later, pick, call, enter, spin, fresh, spinning, critical,
}
use mcts.Ipc.Ring.Serial.{mutual_exclusion, calls_refine}
use mcts.Ipc.Arena.{Arena, create_or_open, opened, resize}
use mcts.Ipc.Arena.Reset.{count_up}
use mcts.Ipc.Arena.Opening.{IsOpen, create_or_open-IsOpen, create_or_open-fresh}
use mcts.Tests.Queues.{bare, buffer, buffer-length, wrapped, wrapped-IsRing}

-- Thread 0 holds the lock for a push, thread 1 spins for a pop.
record Contended : Type 0 where
  state : System
  reach : Reach (fresh wrapped) state
  holder : critical (state.pc 0) ≡ true
  spins : state.pc 1 ≡ spinning pop

contended : Contended
unfolding lock_round
contended = record {
  state = _;
  reach =
      later
        (later (later (later here (pick 0 (call {op = push 7}))) (pick 0 (enter refl)))
          (pick 1 (call {op = pop})))
        (pick 1 (spin refl));
  holder = refl;
  spins = refl;
}

mutual_exclusion_example : ◌≡◌ {A = ℕ} 0 0
mutual_exclusion_example =
    mutual_exclusion wrapped contended.reach 0 0 contended.holder contended.holder

calls_refine_example :
    (contended.state.mem.replies ≡ fifo_run (contents wrapped) contended.state.mem.ops)
    × (contended.state.mem.lock.flag ≡ 0
        → contended.state.mem.ring ≡ after wrapped contended.state.mem.ops)
calls_refine_example = calls_refine wrapped wrapped-IsRing contended.reach

-- A file of zeros.
abbrev blank_file : Arena ℕ
blank_file = record {
  magic = 0;
  version = 0;
  num_slots = 0;
  num_handlers = 0;
  free_q = record { head = 0; tail = 0; slots = buffer };
  ready_q = record { head = 0; tail = 0; slots = buffer };
  init_lock = 0;
  init_done = 0;
  slots = [];
}

create_or_open-fresh_example :
    (b : Arena ℕ) × (create_or_open blank_file 2 1 ≡ ok (opened b))
    × (contents b.free_q ≡ count_up 0 2)
    × (contents b.ready_q ≡ [])
    × (b.init_done ≡ 1)
    × (b.init_lock ≡ 0)
    × ((j : ℕ)
        → j < 2
        → get_elem? b.slots j ≡ map_some (bare.init_free) (get_elem? (resize 2 blank_file).slots j))
create_or_open-fresh_example =
    create_or_open-fresh blank_file 2 1 refl refl buffer-length buffer-length (omega arith)
      (omega arith) (omega arith) (omega arith)

blank_opens : (b : Arena ℕ) × (create_or_open blank_file 2 1 ≡ ok (opened b))
blank_opens =
    let (b, e, _, _, _, _, _) =
      create_or_open-fresh blank_file 2 1 refl refl buffer-length buffer-length (omega arith)
        (omega arith) (omega arith) (omega arith) in
    (b, e)

create_or_open-IsOpen_example : IsOpen blank_file 2 1 blank_opens.0
create_or_open-IsOpen_example = create_or_open-IsOpen blank_file 2 1 blank_opens.0 blank_opens.1
