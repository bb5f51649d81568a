-- ===== src/Ipc/Arena/Reset.antt =====
-- A reset arena has every slot free, once.
use mcts.Prelude.{
  ℕ, zero, suc, ◌+◌, ◌<◌, ◌≤◌, ◌≡◌, ◌∙◌, refl, sym, ap, some, List, [], ◌∷◌, ◌++◌, append-nil,
  append_assoc, length, length-append, get_elem?, modify, map_some, get_elem?-modify_self,
  get_elem?-modify_ne, ◌==◌, arith, Bool-cases, Option-cases, inl, inr, ok, subst,
}
use mcts.Ipc.Ring.{RingQueue, q_cap, init, try_push}
use mcts.Ipc.Ring.Fifo.{IsRing, StaysRing, contents, try_push_refines, init-IsRing}
use mcts.Ipc.Arena.{SlotInit, Arena, free_from, force_reset}

-- `i`, `i + 1`, …: `n` numbers.
pub count_up : ℕ → ℕ → List ℕ
count_up i zero = []
count_up i (suc n) = i ∷ count_up (i + 1) n

length-count_up : (i n : ℕ) → length (count_up i n) ≡ n
unfolding count_up
length-count_up i zero = refl
length-count_up i (suc n) = ap suc (length-count_up (i + 1) n)

-- What freeing the slots from `i` on leaves.
pub record Freed {S : Type 0} ⦃slot_type : SlotInit S⦄ (i n : ℕ) (a b : Arena S) : Type 0 where
  pub free : contents b.free_q ≡ contents a.free_q ++ count_up i n
  pub free_ring : IsRing b.free_q
  pub ready : b.ready_q ≡ a.ready_q
  pub slots :
      (j : ℕ)
      → i ≤ j
      → j < i + n
      → get_elem? b.slots j ≡ map_some slot_type.init_free (get_elem? a.slots j)
  pub before : (j : ℕ) → j < i → get_elem? b.slots j ≡ get_elem? a.slots j
  pub size : b.num_slots ≡ a.num_slots

pub push-room :
    (q : RingQueue) (x : ℕ)
    → IsRing q
    → length (contents q) + 1 < q_cap
    → (q' : RingQueue) × (try_push q x ≡ some q')
      × (contents q' ≡ contents q ++ (x ∷ []))
      × IsRing q'
push-room q x v h =
    let (e, s) = try_push_refines q x v in
    elim (Option-cases (try_push q x)) [
      | inl full ↦ absurd (ground arith)
      | inr (q', there) ↦ (q', there, ground arith, subst StaysRing there s)
    ]

-- One round of the loop before the rounds that `r` tells of.
step-Freed :
    {S : Type 0} ⦃slot_type : SlotInit S⦄ (i n : ℕ) (a : Arena S) (q : RingQueue) (b : Arena S)
    → contents q ≡ contents a.free_q ++ (i ∷ [])
    → Freed (i + 1) n (record a { slots = modify a.slots i slot_type.init_free; free_q = q }) b
    → Freed i (suc n) a b
unfolding count_up
step-Freed ⦃slot_type⦄ i n a q b more r = record {
  free =
      r.free
      ∙ ap (λ xs. xs ++ count_up (i + 1) n) more
      ∙ append_assoc (contents a.free_q) (i ∷ []) (count_up (i + 1) n);
  free_ring = r.free_ring;
  ready = r.ready;
  slots = λ j p h. elim (Bool-cases (j == i)) [
    | inl same ↦
        let e : j ≡ i = ground (arith, same) in
        rw e (r.before i (omega arith) ∙ get_elem?-modify_self a.slots i slot_type.init_free)
    | inr other ↦
        r.slots j (ground (arith, other)) (omega arith)
        ∙ ap (map_some slot_type.init_free)
            (get_elem?-modify_ne a.slots i j slot_type.init_free (ground (arith, other)))
  ];
  before = λ j p.
      r.before j (omega arith) ∙ get_elem?-modify_ne a.slots i j slot_type.init_free (omega arith);
  size = r.size;
}

pub freed :
    {S : Type 0} ⦃slot_type : SlotInit S⦄ (i n : ℕ) (a : Arena S)
    → IsRing a.free_q
    → length (contents a.free_q) + n < q_cap
    → (b : Arena S) × (free_from i n a ≡ ok b) × Freed i n a b
unfolding free_from count_up
freed ⦃slot_type⦄ i zero a v h = (
  a,
  refl,
  record {
    free = sym (append-nil (contents a.free_q));
    free_ring = v;
    ready = refl;
    slots = λ j p q. absurd (omega arith);
    before = λ j p. refl;
    size = refl;
  },
)
freed ⦃slot_type⦄ i (suc n) a v h =
    let (q, pushed, more, w) = push-room a.free_q i v (omega arith) in
    let size : length (contents q) ≡ length (contents a.free_q) + 1 =
      ap length more ∙ length-append (contents a.free_q) (i ∷ []) in
    let (b, e, r) =
      freed (i + 1) n (record a { slots = modify a.slots i slot_type.init_free; free_q = q }) w
        (omega arith) in
    (b, rw (pushed, free_from) e, step-Freed i n a q b more r)

-- On an arena whose queues have their full length and which has fewer than `QCAP` slots,
-- `force_reset` returns; then every slot is the old one freed by its type's `init_free` and is in
-- the free queue once, in order, and no request is left.
pub force_reset_lem :
    {S : Type 0} ⦃slot_type : SlotInit S⦄ (a : Arena S)
    → length a.free_q.slots ≡ q_cap
    → length a.ready_q.slots ≡ q_cap
    → a.num_slots < q_cap
    → (b : Arena S) × (force_reset a ≡ ok b)
      × (contents b.free_q ≡ count_up 0 a.num_slots)
      × (contents b.ready_q ≡ [])
      × ((j : ℕ)
          → j < a.num_slots
          → get_elem? b.slots j ≡ map_some slot_type.init_free (get_elem? a.slots j))
unfolding force_reset
force_reset_lem ⦃slot_type⦄ a lf lr h =
    let (v, none_free) = init-IsRing a.free_q lf in
    let (w, none_ready) = init-IsRing a.ready_q lr in
    let (b, e, r) =
      freed 0 a.num_slots (record a { free_q = init a.free_q; ready_q = init a.ready_q }) v
        (ground (arith, none_free)) in
    (
      b,
      e,
      r.free ∙ ap (λ xs. xs ++ count_up 0 a.num_slots) none_free,
      ap contents r.ready ∙ none_ready,
      λ j p. r.slots j (omega arith) (omega arith),
    )
