-- ===== src/Ipc/Ring/Moves.antt =====
-- mcts-core/src/ipc_core.rs: what each load and store does to the lock and to the ring.
use mcts.Prelude.{
  ℕ, ◌<◌, ◌≡◌, ◌∙◌, refl, sym, ap, ap₂, true, false, none, some, [], ◌∷◌, ◌++◌, get_or, set, ◌==◌,
  arith,
}
use mcts.Ipc.SpinLock.{lock_round, unlock}
use mcts.Ipc.Ring.{RingQueue, step_index, try_push, try_pop}
use mcts.Ipc.Ring.Calls.{Op, push, pop, pushed, got, answer, next}
use mcts.Ipc.Ring.Threads.{
  Shared, Pc, idle, spinning, push_tail, push_head, push_write, push_store, pop_head, pop_tail,
  pop_read, pop_store, leaving, entry, Move, call, spin, enter, load_tail, full, room, write,
  store_tail, load_head, empty, occupied, read, store_head, leave, critical,
}

-- What a thread that took the lock on the ring `q` has made of it.
abbrev pub Mid : RingQueue → Pc → RingQueue → Type 0
Mid q idle r = Unit
Mid q (spinning op) r = Unit
Mid q (push_tail x) r = r ≡ q
Mid q (push_head x tail) r = (r ≡ q) × (tail ≡ q.tail)
Mid q (push_write x tail) r = (r ≡ q) × (tail ≡ q.tail) × ((step_index q.tail == q.head) ≡ false)
Mid q (push_store x tail) r =
    (r ≡ record q { slots = set q.slots q.tail x })
    × (tail ≡ q.tail)
    × ((step_index q.tail == q.head) ≡ false)
Mid q pop_head r = r ≡ q
Mid q (pop_tail head) r = (r ≡ q) × (head ≡ q.head)
Mid q (pop_read head) r = (r ≡ q) × (head ≡ q.head) × ((q.head == q.tail) ≡ false)
Mid q (pop_store head x) r =
    (r ≡ q) × (head ≡ q.head) × (x ≡ get_or q.slots q.head 0) × ((q.head == q.tail) ≡ false)
Mid q (leaving op reply) r = (reply ≡ answer op q) × (r ≡ next op q)

Mid-entry : (op : Op) (q r : RingQueue) → r ≡ q → Mid q (entry op) r
Mid-entry (push x) q r e = e
Mid-entry pop q r e = e

critical-entry : (op : Op) → critical (entry op) ≡ true
critical-entry (push x) = refl
critical-entry pop = refl

-- The tests of `try_push` and `try_pop`, on what the thread has loaded.
full_test :
    (q r : RingQueue) (tail : ℕ)
    → r ≡ q
    → tail ≡ q.tail
    → (step_index q.tail == q.head) ≡ (step_index tail == r.head)
full_test q r tail e t = ap₂ (λ a (c : RingQueue). step_index a == c.head) (sym t) (sym e)

empty_test :
    (q r : RingQueue) (head : ℕ) → r ≡ q → head ≡ q.head → (q.head == q.tail) ≡ (head == r.tail)
empty_test q r head e t = ap₂ (λ a (c : RingQueue). a == c.tail) (sym t) (sym e)

-- The steps that end a call.
Mid-full :
    (q r : RingQueue) (x : ℕ)
    → r ≡ q
    → (step_index q.tail == q.head) ≡ true
    → Mid q (leaving (push x) (pushed false)) r
unfolding try_push
Mid-full q r x e h = rw h (refl, e)

Mid-stored :
    (q r : RingQueue) (x tail : ℕ)
    → r ≡ record q { slots = set q.slots q.tail x }
    → tail ≡ q.tail
    → (step_index q.tail == q.head) ≡ false
    → Mid q (leaving (push x) (pushed true)) (record r { tail = step_index tail })
unfolding try_push
Mid-stored q r x tail e t h =
    rw h (refl, ap₂ (λ (c : RingQueue) a. record c { tail = step_index a }) e t)

Mid-empty : (q r : RingQueue) → r ≡ q → (q.head == q.tail) ≡ true → Mid q (leaving pop (got none)) r
unfolding try_pop
Mid-empty q r e h = rw h (refl, e)

Mid-popped :
    (q r : RingQueue) (head x : ℕ)
    → r ≡ q
    → head ≡ q.head
    → x ≡ get_or q.slots q.head 0
    → (q.head == q.tail) ≡ false
    → Mid q (leaving pop (got (some x))) (record r { head = step_index head })
unfolding try_pop
Mid-popped q r head x e t v h =
    rw h (ap (λ y. got (some y)) v, ap₂ (λ (c : RingQueue) a. record c { head = step_index a }) e t)

-- The four kinds of move, by what they do to the lock.
pub data Kind (m : Shared) (p : Pc) (n : Shared) (p' : Pc) : Type 0 where
  outside : critical p ≡ false → critical p' ≡ false → n ≡ m → Kind m p n p'
  entering :
      critical p' ≡ true
      → m.lock.flag ≡ 0
      → n ≡ record m { lock = record { flag = 1 } }
      → ((q : RingQueue) → m.ring ≡ q → Mid q p' m.ring)
      → Kind m p n p'
  inside :
      critical p ≡ true
      → critical p' ≡ true
      → n ≡ record m { ring = n.ring }
      → ((q : RingQueue) → Mid q p m.ring → Mid q p' n.ring)
      → Kind m p n p'
  leaves :
      critical p ≡ true
      → critical p' ≡ false
      → (op : Op) → n.lock.flag ≡ 0
      → n.ops ≡ m.ops ++ (op ∷ [])
      → ((q : RingQueue)
          → Mid q p m.ring
          → (n.ring ≡ next op q) × (n.replies ≡ m.replies ++ (answer op q ∷ [])))
      → Kind m p n p'

pub Move-Kind : {m n : Shared} {p p' : Pc} → m.lock.flag < 2 → Move m p n p' → Kind m p n p'
unfolding lock_round unlock
Move-Kind bit call = outside refl refl refl
Move-Kind {m} bit (spin held) =
    outside refl refl (ap (λ f. record m { lock = record { flag = f } }) (ground (arith, held)))
Move-Kind {m} bit (enter {op} won) =
    entering (critical-entry op) (ground (arith, won)) refl (λ q e. Mid-entry op q m.ring e)
Move-Kind bit load_tail = inside refl refl refl (λ q e. (e, ap (λ r. r.tail) e))
Move-Kind {m} bit (full {x} {tail} h) =
    inside refl refl refl (λ q (e, t). Mid-full q m.ring x e (full_test q m.ring tail e t ∙ h))
Move-Kind {m} bit (room {tail} h) =
    inside refl refl refl (λ q (e, t). (e, t, full_test q m.ring tail e t ∙ h))
Move-Kind bit (write {x}) =
    inside refl refl refl
      (λ q (e, t, f). (ap₂ (λ (c : RingQueue) a. record c { slots = set c.slots a x }) e t, t, f))
Move-Kind {m} bit (store_tail {x} {tail}) =
    inside refl refl refl (λ q (e, t, f). Mid-stored q m.ring x tail e t f)
Move-Kind bit load_head = inside refl refl refl (λ q e. (e, ap (λ r. r.head) e))
Move-Kind {m} bit (empty {head} h) =
    inside refl refl refl (λ q (e, t). Mid-empty q m.ring e (empty_test q m.ring head e t ∙ h))
Move-Kind {m} bit (occupied {head} h) =
    inside refl refl refl (λ q (e, t). (e, t, empty_test q m.ring head e t ∙ h))
Move-Kind bit read =
    inside refl refl refl
      (λ q (e, t, f). (e, t, ap₂ (λ (c : RingQueue) a. get_or c.slots a 0) e t, f))
Move-Kind {m} bit (store_head {head} {x}) =
    inside refl refl refl (λ q (e, t, v, f). Mid-popped q m.ring head x e t v f)
Move-Kind {m} bit (leave {op} {reply}) =
    leaves refl refl op refl refl (λ q (a, e). (e, ap (λ r. m.replies ++ (r ∷ [])) a))
