-- ===== src/Ipc/Ring/Threads.antt =====
-- mcts-core/src/ipc_core.rs: any number of threads that call `try_push` and `try_pop` on one ring,
-- their loads and stores interleaved in any order. Memory is sequentially consistent here.
use mcts.Prelude.{
  ℕ, ◌≡◌, Bool, true, false, none, some, List, [], ◌∷◌, ◌++◌, get_or, set, ◌==◌, if◌then◌else◌,
}
use mcts.Ipc.SpinLock.{SpinLock, lock_round, unlock}
use mcts.Ipc.Ring.{RingQueue, step_index}
use mcts.Ipc.Ring.Calls.{Op, push, pop, Reply, pushed, got}

-- The ring with its lock; `ops` and `replies` are the calls that have given the lock back, in that
-- order, with their answers.
pub record Shared : Type 0 where
  pub lock : SpinLock
  pub ring : RingQueue
  pub ops : List Op
  pub replies : List Reply

-- Where a thread stands, with the local variables that are live there.
pub data Pc : Type 0 where
  idle : Pc
  spinning : (op : Op) → Pc  -- in the loop of `lock`
  push_tail : (x : ℕ) → Pc  -- before the load of `tail` in `try_push`
  push_head : (x tail : ℕ) → Pc
  push_write : (x tail : ℕ) → Pc
  push_store : (x tail : ℕ) → Pc
  pop_head : Pc  -- before the load of `head` in `try_pop`
  pop_tail : (head : ℕ) → Pc
  pop_read : (head : ℕ) → Pc
  pop_store : (head x : ℕ) → Pc
  leaving : (op : Op) (reply : Reply) → Pc  -- before `unlock`

abbrev pub entry : Op → Pc
entry (push x) = push_tail x
entry pop = pop_head

-- A load, a store or a test of one thread.
pub data Move (m : Shared) : Pc → Shared → Pc → Type 0 where
  call : {op : Op} → Move m idle m (spinning op)
  spin :
      {op : Op}
      → (lock_round m.lock).0 ≡ true
      → Move m (spinning op) (record m { lock = (lock_round m.lock).1 }) (spinning op)
  enter :
      {op : Op}
      → (lock_round m.lock).0 ≡ false
      → Move m (spinning op) (record m { lock = (lock_round m.lock).1 }) (entry op)
  load_tail : {x : ℕ} → Move m (push_tail x) m (push_head x m.ring.tail)
  full :
      {x tail : ℕ}
      → (step_index tail == m.ring.head) ≡ true
      → Move m (push_head x tail) m (leaving (push x) (pushed false))
  room :
      {x tail : ℕ}
      → (step_index tail == m.ring.head) ≡ false
      → Move m (push_head x tail) m (push_write x tail)
  write :
      {x tail : ℕ}
      → Move m
          (push_write x tail)
          (record m { ring = record m.ring { slots = set m.ring.slots tail x } })
          (push_store x tail)
  store_tail :
      {x tail : ℕ}
      → Move m
          (push_store x tail)
          (record m { ring = record m.ring { tail = step_index tail } })
          (leaving (push x) (pushed true))
  load_head : Move m pop_head m (pop_tail m.ring.head)
  empty :
      {head : ℕ} → (head == m.ring.tail) ≡ true → Move m (pop_tail head) m (leaving pop (got none))
  occupied : {head : ℕ} → (head == m.ring.tail) ≡ false → Move m (pop_tail head) m (pop_read head)
  read : {head : ℕ} → Move m (pop_read head) m (pop_store head (get_or m.ring.slots head 0))
  store_head :
      {head x : ℕ}
      → Move m
          (pop_store head x)
          (record m { ring = record m.ring { head = step_index head } })
          (leaving pop (got (some x)))
  leave :
      {op : Op} {reply : Reply}
      → Move m
          (leaving op reply)
          (record m {
            lock = unlock m.lock;
            ops = m.ops ++ (op ∷ []);
            replies = m.replies ++ (reply ∷ []);
          })
          idle

-- A family with one entry changed.
abbrev pub update {ℓ} : {A : Type ℓ} → (ℕ → A) → ℕ → A → ℕ → A
update f i a j = if i == j then a else f j

pub record System : Type 0 where
  pub mem : Shared
  pub pc : ℕ → Pc

pub data Step (s : System) : System → Type 0 where
  pick :
      (i : ℕ) {m : Shared} {p : Pc}
      → Move s.mem (s.pc i) m p
      → Step s (record { mem = m; pc = update s.pc i p })

-- No thread has called anything yet.
abbrev pub fresh : RingQueue → System
fresh q = record {
  mem = record { lock = record { flag = 0 }; ring = q; ops = []; replies = [] };
  pc = λ _. idle;
}

-- What can be reached from a state.
pub data Reach (s : System) : System → Type 0 where
  here : Reach s s
  later : {t u : System} → Reach s t → Step t u → Reach s u

-- Between the swap that takes the lock and the store that gives it back.
abbrev pub critical : Pc → Bool
critical idle = false
critical (spinning op) = false
critical _ = true
