-- ===== src/Ipc/Ring.antt =====
-- mcts-core/src/ipc_core.rs, `RingQueue`: a ring of slot indices. Every operation runs under the
-- queue's lock, so it is one step.
pub mod Fifo
pub mod Calls
pub mod Threads
pub mod Moves
pub mod Serial
pub mod Progress
use mcts.Prelude.{ℕ, ◌+◌, ◌%◌, ◌^◌, Option, none, some, List, get_or, set, ◌==◌, if◌then◌else◌}

abbrev pub q_cap : ℕ
q_cap = 4096

pub record RingQueue : Type 0 where
  pub head : ℕ
  pub tail : ℕ
  pub slots : List ℕ

-- `init` leaves the buffer as it is.
unfoldable pub init : RingQueue → RingQueue
init q = record q { head = 0; tail = 0 }

-- `(i + 1) % (QCAP as u32)`, in `u32` arithmetic.
abbrev pub step_index : ℕ → ℕ
step_index i = (i + 1) % 2 ^ 32 % q_cap

-- None is `Err(())`: the queue is full.
unfoldable pub try_push : RingQueue → ℕ → Option RingQueue
try_push q x =
    if step_index q.tail == q.head
    then none
    else some (record q { slots = set q.slots q.tail x; tail = step_index q.tail })

unfoldable pub try_pop : RingQueue → Option (ℕ × RingQueue)
try_pop q =
    if q.head == q.tail
    then none
    else some (get_or q.slots q.head 0, record q { head = step_index q.head })
