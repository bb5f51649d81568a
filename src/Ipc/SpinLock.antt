-- ===== src/Ipc/SpinLock.antt =====
-- mcts-core/src/ipc_core.rs, `SpinLock`. The backoff of `lock` between two attempts, which changes
-- nothing that is shared, is left out.
use mcts.Prelude.{ℕ, Bool, ◌==◌}

pub record SpinLock : Type 0 where
  pub flag : ℕ

-- `SpinLock::init`
pub init_lock : SpinLock → SpinLock
init_lock l = record l { flag = 0 }

-- One `swap` of the loop of `lock`, and whether the loop goes on.
unfoldable pub lock_round : SpinLock → Bool × SpinLock
lock_round l = (l.flag == 1, record l { flag = 1 })

unfoldable pub unlock : SpinLock → SpinLock
unlock l = record l { flag = 0 }
