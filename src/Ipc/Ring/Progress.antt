-- ===== src/Ipc/Ring/Progress.antt =====
-- mcts-core/src/ipc_core.rs: the lock does not dead-lock.
use mcts.Prelude.{ℕ, ◌≡◌, ◌≢◌}
use mcts.Ipc.Ring.Threads.{System, Reach}

-- A state with a free lock, which moves of the thread `i` alone lead to.
Frees : ℕ → System → Type 0
Frees i s = (t : System) × Reach s t × (t.mem.lock.flag ≡ 0) × ((j : ℕ) → i ≢ j → t.pc j ≡ s.pc j)
