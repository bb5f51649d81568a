-- ===== src/Ipc/Ring/Fifo.antt =====
-- The ring behaves as a bounded first-in first-out queue.
use mcts.Prelude.{
  ℕ, zero, suc, ◌+◌, ◌-◌, ◌%◌, ◌<◌, ◌≡◌, ◌∙◌, refl, sym, ap, ap₂, true, false, Option, none, some,
  List, [], ◌∷◌, ◌++◌, length, get_or, set, map_some, length-set, get_or-set_self, get_or-set_ne,
  ◌==◌, if◌then◌else◌, arith, Bool-cases, inl, inr,
}
use mcts.Ipc.Ring.{RingQueue, q_cap, init, step_index, try_push, try_pop}

pub record IsRing (q : RingQueue) : Type 0 where
  pub head_in : q.head < q_cap
  pub tail_in : q.tail < q_cap
  pub buffer : length q.slots ≡ q_cap

-- `n` entries of a buffer, round the ring from index `h` on.
unfoldable pub entries : List ℕ → ℕ → ℕ → List ℕ
entries slots h zero = []
entries slots h (suc n) = get_or slots h 0 ∷ entries slots ((h + 1) % q_cap) n

-- How many entries lie between the head and the tail.
abbrev pub count : RingQueue → ℕ
count q = (q.tail + q_cap - q.head) % q_cap

abbrev pub contents : RingQueue → List ℕ
contents q = entries q.slots q.head (count q)

pub length-entries : (slots : List ℕ) (h n : ℕ) → length (entries slots h n) ≡ n
unfolding entries
length-entries slots h zero = refl
length-entries slots h (suc n) = ap suc (length-entries slots ((h + 1) % q_cap) n)

-- A write just past the entries adds one at their end.
entries-set :
    (slots : List ℕ) (h n i x : ℕ)
    → length slots ≡ q_cap
    → h < q_cap
    → n + 1 < q_cap
    → i ≡ (h + n) % q_cap
    → entries (set slots i x) h (suc n) ≡ entries slots h n ++ (x ∷ [])
unfolding entries
entries-set slots h zero i x l hh hn e =
    let here : i ≡ h = omega arith in
    rw here (ap (λ y. y ∷ []) (get_or-set_self slots h x 0 (omega arith)))
entries-set slots h (suc n) i x l hh hn e =
    ap₂ ◌∷◌ (get_or-set_ne slots i h x 0 (omega arith))
      (entries-set slots ((h + 1) % q_cap) n i x l (omega arith) (omega arith) (omega arith))

entries_zero : (slots : List ℕ) (h : ℕ) → entries slots h 0 ≡ []
unfolding entries
entries_zero slots h = refl

entries_pos :
    (slots : List ℕ) (h n : ℕ)
    → 0 < n
    → entries slots h n ≡ get_or slots h 0 ∷ entries slots ((h + 1) % q_cap) (n - 1)
unfolding entries
entries_pos slots h zero p = absurd (omega arith)
entries_pos slots h (suc n) p =
    ap (λ k. get_or slots h 0 ∷ entries slots ((h + 1) % q_cap) k) (omega arith)

-- The specification: a list that takes one entry less than the ring has slots.
abbrev pub fifo_push : List ℕ → ℕ → Option (List ℕ)
fifo_push xs x = if length xs == q_cap - 1 then none else some (xs ++ (x ∷ []))

abbrev pub fifo_pop : List ℕ → Option (ℕ × List ℕ)
fifo_pop [] = none
fifo_pop (x ∷ xs) = some (x, xs)

-- What a caller of `try_pop` sees.
abbrev pub popped : Option (ℕ × RingQueue) → Option (ℕ × List ℕ)
popped none = none
popped (some (x, q)) = some (x, contents q)

abbrev pub StaysRing : Option RingQueue → Type 0
StaysRing none = Unit
StaysRing (some q) = IsRing q

-- `init` empties a ring.
pub init-IsRing :
    (q : RingQueue) → length q.slots ≡ q_cap → IsRing (init q) × (contents (init q) ≡ [])
unfolding init entries
init-IsRing q l = (record { head_in = omega arith; tail_in = omega arith; buffer = l }, refl)

-- On a ring `try_push` is refused exactly if there are `QCAP - 1` entries; otherwise the entry
-- goes behind the others. Either way it stays a ring.
pub try_push_refines :
    (q : RingQueue) (x : ℕ)
    → IsRing q
    → (map_some contents (try_push q x) ≡ fifo_push (contents q) x) × StaysRing (try_push q x)
unfolding try_push
try_push_refines q x v =
    let size = length-entries q.slots q.head (count q) in
    elim (Bool-cases (step_index q.tail == q.head)) [
      | inl full ↦
          let e : (length (contents q) == q_cap - 1) ≡ true =
            ground (arith, size, v.head_in, v.tail_in) in
          (rw (full, e), rw full tt)
      | inr room ↦
          let e : (length (contents q) == q_cap - 1) ≡ false =
            ground (arith, size, v.head_in, v.tail_in) in
          let more : (step_index q.tail + q_cap - q.head) % q_cap ≡ suc (count q) =
            ground (arith, v.head_in, v.tail_in) in
          let added =
            entries-set q.slots q.head (count q) q.tail x v.buffer v.head_in
              (ground (arith, v.head_in, v.tail_in)) (omega (arith, v.head_in, v.tail_in)) in
          (
            rw (room, e) (ap some (ap (entries (set q.slots q.tail x) q.head) more ∙ added)),
            rw room (record {
              head_in = v.head_in;
              tail_in = omega arith;
              buffer = length-set q.slots q.tail x ∙ v.buffer;
            }),
          )
    ]

-- On a ring `try_pop` takes the oldest entry, and fails exactly if there is none. Either way it
-- stays a ring.
pub try_pop_refines :
    (q : RingQueue)
    → IsRing q
    → (popped (try_pop q) ≡ fifo_pop (contents q)) × StaysRing (map_some (λ r. r.1) (try_pop q))
unfolding try_pop
try_pop_refines q v = elim (Bool-cases (q.head == q.tail)) [
  | inl empty ↦
      let zero_count : count q ≡ 0 = ground (arith, v.head_in, v.tail_in) in
      (
        rw empty (
            sym
              (ap fifo_pop (ap (entries q.slots q.head) zero_count ∙ entries_zero q.slots q.head))),
        rw empty tt,
      )
  | inr some_entry ↦
      let pos : 0 < count q = ground (arith, v.head_in, v.tail_in) in
      let less : (q.tail + q_cap - step_index q.head) % q_cap ≡ count q - 1 =
        ground (arith, v.head_in, v.tail_in) in
      let next : step_index q.head ≡ (q.head + 1) % q_cap = omega (arith, v.head_in) in
      (
        rw some_entry (
            ap₂ (λ h n. some (get_or q.slots q.head 0, entries q.slots h n)) next less
            ∙ sym (ap fifo_pop (entries_pos q.slots q.head (count q) pos))),
        rw some_entry (record { head_in = omega arith; tail_in = v.tail_in; buffer = v.buffer }),
      )
]
