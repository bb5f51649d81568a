-- ===== src/Ipc/Ring/Calls.antt =====
-- Sequences of calls on a ring, as the lock orders them.
use mcts.Prelude.{
  ℕ, ◌≡◌, ◌∙◌, refl, sym, ap, ap₂, Bool, true, false, Option, none, some, List, [], ◌∷◌, ◌++◌,
  map_some,
}
use mcts.Ipc.Ring.{RingQueue, try_push, try_pop}
use mcts.Ipc.Ring.Fifo.{
  IsRing, StaysRing, contents, popped, fifo_push, fifo_pop, try_push_refines, try_pop_refines,
}

-- A client's calls, in the order in which the lock admits them.
pub data Op : Type 0 where
  push : ℕ → Op
  pop : Op

-- Each call's answer: whether a push was taken, or what was popped.
pub data Reply : Type 0 where
  pushed : Bool → Reply
  got : Option ℕ → Reply

abbrev pub taken {ℓ} : {A : Type ℓ} → Option A → Reply
taken none = pushed false
taken (some q) = pushed true

abbrev pub got_of {ℓ} : {A : Type ℓ} → Option (ℕ × A) → Reply
got_of none = got none
got_of (some (x, q)) = got (some x)

abbrev pub or_same {ℓ} : {A : Type ℓ} → A → Option A → A
or_same q none = q
or_same q (some q') = q'

abbrev pub or_rest {ℓ} : {A : Type ℓ} → A → Option (ℕ × A) → A
or_rest q none = q
or_rest q (some (x, q')) = q'

unfoldable pub run : RingQueue → List Op → List Reply
run q [] = []
run q (push x ∷ ops) = taken (try_push q x) ∷ run (or_same q (try_push q x)) ops
run q (pop ∷ ops) = got_of (try_pop q) ∷ run (or_rest q (try_pop q)) ops

pub fifo_run : List ℕ → List Op → List Reply
fifo_run xs [] = []
fifo_run xs (push x ∷ ops) = taken (fifo_push xs x) ∷ fifo_run (or_same xs (fifo_push xs x)) ops
fifo_run xs (pop ∷ ops) = got_of (fifo_pop xs) ∷ fifo_run (or_rest xs (fifo_pop xs)) ops

push-step :
    (q : RingQueue) (o : Option RingQueue)
    → IsRing q
    → StaysRing o
    → (taken (map_some contents o) ≡ taken o)
      × (or_same (contents q) (map_some contents o) ≡ contents (or_same q o))
      × IsRing (or_same q o)
push-step q none v s = (refl, refl, v)
push-step q (some q') v s = (refl, refl, s)

pop-step :
    (q : RingQueue) (o : Option (ℕ × RingQueue))
    → IsRing q
    → StaysRing (map_some (λ r. r.1) o)
    → (got_of (popped o) ≡ got_of o)
      × (or_rest (contents q) (popped o) ≡ contents (or_rest q o))
      × IsRing (or_rest q o)
pop-step q none v s = (refl, refl, v)
pop-step q (some (x, q')) v s = (refl, refl, s)

-- No sequence of calls on a ring, whose ends lie in its buffer of `QCAP` entries, tells it from
-- the bounded queue of its contents.
pub run_refines : (ops : List Op) (q : RingQueue) → IsRing q → run q ops ≡ fifo_run (contents q) ops
unfolding run fifo_run
run_refines [] q v = refl
run_refines (push x ∷ ops) q v =
    let (e, s) = try_push_refines q x v in
    let (a, b, v') = push-step q (try_push q x) v s in
    ap₂ ◌∷◌ (sym a ∙ ap taken e) (
      run_refines ops (or_same q (try_push q x)) v'
      ∙ ap (λ xs. fifo_run xs ops) (sym b ∙ ap (or_same (contents q)) e))
run_refines (pop ∷ ops) q v =
    let (e, s) = try_pop_refines q v in
    let (a, b, v') = pop-step q (try_pop q) v s in
    ap₂ ◌∷◌ (sym a ∙ ap got_of e) (
      run_refines ops (or_rest q (try_pop q)) v'
      ∙ ap (λ xs. fifo_run xs ops) (sym b ∙ ap (or_rest (contents q)) e))

-- One call that runs alone.
abbrev pub answer : Op → RingQueue → Reply
answer (push x) q = taken (try_push q x)
answer pop q = got_of (try_pop q)

abbrev pub next : Op → RingQueue → RingQueue
next (push x) q = or_same q (try_push q x)
next pop q = or_rest q (try_pop q)

-- The ring after a sequence of calls.
abbrev pub after : RingQueue → List Op → RingQueue
after q [] = q
after q (op ∷ ops) = after (next op q) ops

pub after-append :
    (q : RingQueue) (ops : List Op) (op : Op) → after q (ops ++ (op ∷ [])) ≡ next op (after q ops)
after-append q [] op = refl
after-append q (o ∷ ops) op = after-append (next o q) ops op

pub run-append :
    (q : RingQueue) (ops : List Op) (op : Op)
    → run q (ops ++ (op ∷ [])) ≡ run q ops ++ (answer op (after q ops) ∷ [])
unfolding run
run-append q [] (push x) = refl
run-append q [] pop = refl
run-append q (push x ∷ ops) op =
    ap (λ t. taken (try_push q x) ∷ t) (run-append (or_same q (try_push q x)) ops op)
run-append q (pop ∷ ops) op =
    ap (λ t. got_of (try_pop q) ∷ t) (run-append (or_rest q (try_pop q)) ops op)
