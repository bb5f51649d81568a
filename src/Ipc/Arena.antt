-- ===== src/Ipc/Arena.antt =====
-- mcts-core/src/ipc_core.rs, `Arena`: slots in shared memory, a queue of free ones and a queue of
-- requests, over any type of slots. A blocking call is one attempt: none means that the caller still
-- waits.
pub mod Reset
pub mod Opening
use mcts.Prelude.{
  ℕ, zero, suc, ◌+◌, ◌^◌, Bool, true, false, ◌||◌, Option, none, some, List, [], ◌∷◌, ◌++◌, length,
  get_or, modify, take, replicate, ltb, leb, ◌==◌, not, if◌then◌else◌, Exec, ok, panic, ◌>>=◌,
  index,
}
use mcts.Ipc.Ring.{RingQueue, q_cap, init, try_push, try_pop}

abbrev pub max_handlers : ℕ
max_handlers = 16

abbrev pub arena_magic : ℕ
arena_magic = 0x4D435453495043

abbrev pub arena_version : ℕ
arena_version = 2

abbrev pub slot_free : ℕ
slot_free = 0

abbrev pub slot_ready : ℕ
slot_ready = 1

abbrev pub slot_waiting : ℕ
slot_waiting = 2

abbrev pub slot_done : ℕ
slot_done = 3

-- `trait SlotInit`: `state` is an atomic that is loaded and stored. `zeroed` is the slot that a file
-- holds where it was extended.
pub record SlotInit (S : Type 0) : Type 0 where
  pub init_free : S → S
  pub state : S → ℕ
  pub store : ℕ → S → S
  pub zeroed : S

-- `ArenaHeader` and the slots behind it.
pub record Arena (S : Type 0) : Type 0 where
  pub magic : ℕ
  pub version : ℕ
  pub num_slots : ℕ
  pub num_handlers : ℕ
  pub free_q : RingQueue
  pub ready_q : RingQueue
  pub init_lock : ℕ
  pub init_done : ℕ
  pub slots : List S

pub data OpenError : Type 0 where
  no_slots too_many_slots bad_handlers : OpenError
  magic_mismatch version_mismatch slots_mismatch handlers_mismatch : OpenError

pub data Opened (S : Type 0) : Type 0 where
  opened : Arena S → Opened S
  refused : OpenError → Opened S
  -- Another process holds the initialisation lock.
  waiting : Opened S

module _ {S : Type 0} ⦃slot_type : SlotInit S⦄ where
  -- The loop that frees the slots `i`, `i + 1`, … and pushes them; a full queue is a panic.
  pub free_from : ℕ → ℕ → Arena S → Exec (Arena S)
  free_from i zero a = ok a
  free_from i (suc n) a =
      let next = λ (q : RingQueue).
        free_from (i + 1) n
          (record a { slots = modify a.slots i slot_type.init_free; free_q = q }) in
      elim (try_push a.free_q i) [ none ↦ panic | some q ↦ next q ]

  -- `force_reset`, by the slots that the opener was given.
  unfoldable pub force_reset : Arena S → Exec (Arena S)
  force_reset a =
      free_from 0 a.num_slots (record a { free_q = init a.free_q; ready_q = init a.ready_q })

  -- The file is cut or extended with zeros.
  abbrev pub resize : ℕ → Arena S → Arena S
  resize n a = record a { slots = take n (a.slots ++ replicate n slot_type.zeroed) }

  pub needs_init : Arena S → Bool
  needs_init a =
      a.init_done == 0 || not (a.magic == arena_magic) || not (a.version == arena_version)

  pub initialise : ℕ → ℕ → Arena S → Exec (Arena S)
  initialise num_slots num_handlers a = do
    b ← free_from 0 num_slots (record a {
      magic = arena_magic;
      version = arena_version;
      num_slots = num_slots;
      num_handlers = num_handlers;
      free_q = init a.free_q;
      ready_q = init a.ready_q;
    })
    ok (record b { init_done = 1; init_lock = 0 })

  pub sanity : ℕ → ℕ → Arena S → Opened S
  sanity num_slots num_handlers a =
      if not (a.magic == arena_magic)
      then refused magic_mismatch
      else if not (a.version == arena_version)
      then refused version_mismatch
      else if not (a.num_slots == num_slots)
      then refused slots_mismatch
      else if not (a.num_handlers == num_handlers)
      then refused handlers_mismatch
      else opened a

  pub open_file : ℕ → ℕ → Arena S → Exec (Opened S)
  open_file num_slots num_handlers a =
      if needs_init a
      then (if a.init_lock == 0
          then (do b ← initialise num_slots num_handlers a; ok (sanity num_slots num_handlers b))
          else if a.init_done == 0
          then ok waiting
          else ok (sanity num_slots num_handlers a))
      else ok (sanity num_slots num_handlers a)

  -- `create_or_open`, on what the file holds already.
  unfoldable pub create_or_open : Arena S → ℕ → ℕ → Exec (Opened S)
  create_or_open file num_slots num_handlers =
      if num_slots == 0
      then ok (refused no_slots)
      else if leb q_cap num_slots
      then ok (refused too_many_slots)
      else if num_handlers == 0 || ltb max_handlers num_handlers
      then ok (refused bad_handlers)
      else open_file num_slots num_handlers (resize num_slots file)

  -- One attempt of `acquire_slot`.
  unfoldable pub acquire_slot : Arena S → Option (ℕ × Arena S)
  acquire_slot a = elim (try_pop a.free_q) [
    | none ↦ none
    | some (x, q) ↦ some (x, record a { free_q = q })
  ]

  -- One attempt of `submit_to_handler`.
  unfoldable pub submit_to_handler : ℕ → Arena S → Option (Arena S)
  submit_to_handler slot a = elim (try_push a.ready_q slot) [
    | none ↦ none
    | some q ↦ some (record a { ready_q = q })
  ]

  -- A store to a slot's state.
  unfoldable pub store_state : ℕ → ℕ → Arena S → Arena S
  store_state slot state a = record a { slots = modify a.slots slot (slot_type.store state) }

  -- The test of `wait_done`, with the assertion of `slot_ptr`.
  unfoldable pub is_done : ℕ → Arena S → Exec Bool
  is_done slot a =
      if ltb slot a.num_slots
      then (do s ← index a.slots slot; ok (slot_type.state s == slot_done))
      else panic

  -- `release_slot`: the assertion of `slot_ptr`, the store, and one attempt of the push.
  unfoldable pub release_slot : ℕ → Arena S → Exec (Option (Arena S))
  release_slot slot a =
      let b = store_state slot slot_free a in
      if ltb slot a.num_slots
      then ok
          (elim (try_push b.free_q slot) [ none ↦ none | some q ↦ some (record b { free_q = q }) ])
      else panic

  unfoldable pub mark_done : ℕ → Arena S → Exec (Arena S)
  mark_done slot a = if ltb slot a.num_slots then ok (store_state slot slot_done a) else panic

  -- `try_pop_ready`, and one attempt of `pop_ready`.
  unfoldable pub try_pop_ready : Arena S → Option (ℕ × Arena S)
  try_pop_ready a = elim (try_pop a.ready_q) [
    | none ↦ none
    | some (x, q) ↦ some (x, record a { ready_q = q })
  ]
