-- ===== src/Ipc/Ring/Serial.antt =====
-- mcts-core/src/ipc_core.rs: the lock makes every interleaving of the calls a sequence of calls.
use mcts.Prelude.{
  ℕ, ◌<◌, ◌≡◌, ◌≢◌, ◌∙◌, ◌⊎◌, inl, inr, refl, sym, ap, true, false, [], ◌∷◌, ◌++◌, ◌==◌, Bool-cases,
  arith,
}
use mcts.Ipc.Ring.{RingQueue}
use mcts.Ipc.Ring.Fifo.{IsRing, contents}
use mcts.Ipc.Ring.Calls.{
  Op, answer, next, after, run, fifo_run, run_refines, after-append, run-append,
}
use mcts.Ipc.Ring.Threads.{
  Shared, Pc, System, update, Step, pick, Reach, here, later, fresh, critical,
}
use mcts.Ipc.Ring.Moves.{Mid, outside, entering, inside, leaves, Move-Kind}

-- At most one thread holds the lock, and then the flag says so. The ring is the one that the
-- calls so far make of the first ring, but for what the holder has done to it.
pub record IsSerial (q : RingQueue) (s : System) : Type 0 where
  pub bit : s.mem.lock.flag < 2
  pub free : s.mem.lock.flag ≡ 0 → s.mem.ring ≡ after q s.mem.ops
  pub locked : (i : ℕ) → critical (s.pc i) ≡ true → s.mem.lock.flag ≡ 1
  pub unique : (i j : ℕ) → critical (s.pc i) ≡ true → critical (s.pc j) ≡ true → i ≡ j
  pub mid : (i : ℕ) → critical (s.pc i) ≡ true → Mid (after q s.mem.ops) (s.pc i) s.mem.ring
  pub held : s.mem.lock.flag ≡ 1 → (i : ℕ) × (critical (s.pc i) ≡ true)
  pub replies : s.mem.replies ≡ run q s.mem.ops

fresh-IsSerial : (q : RingQueue) → IsSerial q (fresh q)
unfolding run
fresh-IsSerial q = record {
  bit = omega arith;
  free = λ e. refl;
  locked = λ i e. cc;
  unique = λ i j e f. cc;
  mid = λ i e. tt;
  held = λ e. absurd (omega arith);
  replies = refl;
}

-- An entry of a family with the entry `i` changed.
pub update-cases {ℓ} :
    {A : Type ℓ} (f : ℕ → A) (i : ℕ) (a : A) (j : ℕ)
    → ((i ≡ j) × (update f i a j ≡ a)) ⊎ ((i ≢ j) × (update f i a j ≡ f j))
update-cases f i a j = elim (Bool-cases (i == j)) [
  | inl same ↦ inl (ground (arith, same), rw same refl)
  | inr other ↦ inr ((λ e. ground (arith, other)), rw other refl)
]

module _ (q : RingQueue) (s : System) (v : IsSerial q s) (i : ℕ) (n : Shared) (p : Pc) where
  abbrev moved : System
  moved = record { mem = n; pc = update s.pc i p }

  -- A thread that the move takes or leaves outside is not the holder.
  others :
      critical p ≡ false → (j : ℕ) → critical (moved.pc j) ≡ true → (i ≢ j) × (moved.pc j ≡ s.pc j)
  others out j e = elim (update-cases s.pc i p j) [
    | inl (same, now) ↦ absurd (cc (sym now, e, out))
    | inr kept ↦ kept
  ]

  -- A thread that the move leaves in the critical section is the holder.
  holder :
      (j : ℕ)
      → critical (moved.pc j) ≡ true
      → ((i ≡ j) × (moved.pc j ≡ p))
        ⊎ ((i ≢ j) × (critical (s.pc j) ≡ true) × (moved.pc j ≡ s.pc j))
  holder j e = elim (update-cases s.pc i p j) [
    | inl here_ ↦ inl here_
    | inr (ne, kept) ↦ inr (ne, ap critical (sym kept) ∙ e, kept)
  ]

  still : (j : ℕ) → i ≢ j → critical (s.pc j) ≡ true → critical (moved.pc j) ≡ true
  still j ne e = elim (update-cases s.pc i p j) [
    | inl (same, now) ↦ absurd (ne same)
    | inr (_, kept) ↦ ap critical kept ∙ e
  ]

  itself : critical p ≡ true → critical (moved.pc i) ≡ true
  itself e = elim (update-cases s.pc i p i) [
    | inl (same, now) ↦ ap critical now ∙ e
    | inr (ne, kept) ↦ absurd (ne refl)
  ]

  outside-IsSerial : critical (s.pc i) ≡ false → critical p ≡ false → n ≡ s.mem → IsSerial q moved
  outside-IsSerial before out same = record {
    bit = rw same v.bit;
    free = rw same v.free;
    locked = λ j e. rw same (v.locked j (was j e));
    unique = λ j k e f. v.unique j k (was j e) (was k f);
    mid = λ j e. let (ne, kept) = others out j e in rw (kept, same) (v.mid j (was j e));
    held =
        λ e. let (j, f) = v.held (rw⁻¹ same e) in (j, still j (λ w. absurd (cc (w, f, before))) f);
    replies = rw same v.replies;
  }
    where
      was : (j : ℕ) → critical (moved.pc j) ≡ true → critical (s.pc j) ≡ true
      was j e = let (ne, kept) = others out j e in ap critical (sym kept) ∙ e

  entering-IsSerial :
      critical p ≡ true
      → s.mem.lock.flag ≡ 0
      → n ≡ record s.mem { lock = record { flag = 1 } }
      → ((r : RingQueue) → s.mem.ring ≡ r → Mid r p s.mem.ring)
      → IsSerial q moved
  entering-IsSerial inner unlocked same enters =
      let flag : n.lock.flag ≡ 1 = ap (λ (m : Shared). m.lock.flag) same in
      record {
        bit = omega (arith, flag);
        free = λ e. absurd (omega (arith, flag, e));
        locked = λ j e. flag;
        unique = λ j k e f. sym (only j e) ∙ only k f;
        mid = λ j e. rw (same, now j e) (enters (after q s.mem.ops) (v.free unlocked));
        held = λ e. (i, itself inner);
        replies = rw same v.replies;
      }
    where
      none_yet : (j : ℕ) → critical (s.pc j) ≡ true → ⊥
      none_yet j f = omega (arith, v.locked j f, unlocked)

      only : (j : ℕ) → critical (moved.pc j) ≡ true → i ≡ j
      only j e = elim (holder j e) [
        | inl (same_thread, _) ↦ same_thread
        | inr (_, f, _) ↦ absurd (none_yet j f)
      ]

      now : (j : ℕ) → critical (moved.pc j) ≡ true → moved.pc j ≡ p
      now j e = elim (holder j e) [ inl (_, at) ↦ at | inr (_, f, _) ↦ absurd (none_yet j f) ]

  -- While a thread holds the lock, it is the only one to be in the critical section after its move.
  alone :
      critical (s.pc i) ≡ true → (j : ℕ) → critical (moved.pc j) ≡ true → (i ≡ j) × (moved.pc j ≡ p)
  alone before j e = elim (holder j e) [
    | inl here_now ↦ here_now
    | inr (ne, f, _) ↦ absurd (ne (v.unique i j before f))
  ]

  inside-IsSerial :
      critical (s.pc i) ≡ true
      → critical p ≡ true
      → n ≡ record s.mem { ring = n.ring }
      → ((r : RingQueue) → Mid r (s.pc i) s.mem.ring → Mid r p n.ring)
      → IsSerial q moved
  inside-IsSerial before inner same works =
      let flag : n.lock.flag ≡ 1 = ap (λ (m : Shared). m.lock.flag) same ∙ v.locked i before in
      let ops : n.ops ≡ s.mem.ops = ap (λ (m : Shared). m.ops) same in
      let replies : n.replies ≡ s.mem.replies = ap (λ (m : Shared). m.replies) same in
      record {
        bit = omega (arith, flag);
        free = λ e. absurd (omega (arith, flag, e));
        locked = λ j e. flag;
        unique = λ j k e f. sym (alone before j e).0 ∙ (alone before k f).0;
        mid = λ j e. rw ((alone before j e).1, ops) (works (after q s.mem.ops) (v.mid i before));
        held = λ e. (i, itself inner);
        replies = rw (ops, replies) v.replies;
      }

  leaves-IsSerial :
      critical (s.pc i) ≡ true
      → critical p ≡ false
      → (op : Op) → n.lock.flag ≡ 0
      → n.ops ≡ s.mem.ops ++ (op ∷ [])
      → ((r : RingQueue)
          → Mid r (s.pc i) s.mem.ring
          → (n.ring ≡ next op r) × (n.replies ≡ s.mem.replies ++ (answer op r ∷ [])))
      → IsSerial q moved
  leaves-IsSerial before out op flag ops done =
      let (ring, replies) = done (after q s.mem.ops) (v.mid i before) in
      record {
        bit = omega (arith, flag);
        free = λ e. rw (ring, ops) (sym (after-append q s.mem.ops op));
        locked = λ j e. absurd (gone j e);
        unique = λ j k e f. absurd (gone j e);
        mid = λ j e. absurd (gone j e);
        held = λ e. absurd (omega (arith, flag, e));
        replies =
            rw (replies, ops)
              (ap (λ t. t ++ (answer op (after q s.mem.ops) ∷ [])) v.replies
                ∙ sym (run-append q s.mem.ops op));
      }
    where
      gone : (j : ℕ) → critical (moved.pc j) ≡ true → ⊥
      gone j e =
          let (_, at) = alone before j e in
          let f : true ≡ false = sym e ∙ ap critical at ∙ out in cc

Step-IsSerial : (q : RingQueue) {s t : System} → Step s t → IsSerial q s → IsSerial q t
Step-IsSerial q {s} (pick i {m} {p} move) v = elim (Move-Kind v.bit move) [
  | outside before out same ↦ outside-IsSerial q s v i m p before out same
  | entering inner unlocked same enters ↦ entering-IsSerial q s v i m p inner unlocked same enters
  | inside before inner same works ↦ inside-IsSerial q s v i m p before inner same works
  | leaves before out op flag ops done ↦ leaves-IsSerial q s v i m p before out op flag ops done
]

pub Reach-IsSerial : (q : RingQueue) {s : System} → Reach (fresh q) s → IsSerial q s
Reach-IsSerial q here = fresh-IsSerial q
Reach-IsSerial q (later r step) = Step-IsSerial q step (Reach-IsSerial q r)

-- In every state that threads can reach by calling `try_push` and `try_pop` on a ring, in whatever
-- order their loads and stores fall, at most one thread is between its `lock` and its `unlock`.
pub mutual_exclusion :
    (q : RingQueue) {s : System}
    → Reach (fresh q) s
    → (i j : ℕ) → critical (s.pc i) ≡ true
    → critical (s.pc j) ≡ true
    → i ≡ j
mutual_exclusion q r = (Reach-IsSerial q r).unique

-- In every state that threads can reach by calling `try_push` and `try_pop` on a ring, whose ends
-- lie in its buffer of `QCAP` entries, in whatever order their loads and stores fall, the calls that
-- have given the lock back have the answers of the bounded queue of the ring's contents, taken in
-- the order in which they gave it back; and while the lock is free, the ring is the one that the
-- same calls leave behind when they run one after the other.
pub calls_refine :
    (q : RingQueue) {s : System}
    → IsRing q
    → Reach (fresh q) s
    → (s.mem.replies ≡ fifo_run (contents q) s.mem.ops)
      × (s.mem.lock.flag ≡ 0 → s.mem.ring ≡ after q s.mem.ops)
calls_refine q {s} ring r =
    let v : IsSerial q s = Reach-IsSerial q r in (v.replies ∙ run_refines s.mem.ops q ring, v.free)
