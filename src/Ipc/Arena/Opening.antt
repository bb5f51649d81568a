-- ===== src/Ipc/Arena/Opening.antt =====
-- mcts-core/src/ipc_core.rs, `create_or_open`: what an opener gets, and when it is refused.
use mcts.Prelude.{
  ℕ, zero, suc, ◌+◌, ◌<◌, ◌≤◌, ◌≡◌, ◌∙◌, refl, sym, ap, true, false, not, Bool, ◌&&◌, ◌⊎◌,
  ok_injective, ◌||◌, List, [], ◌∷◌, ◌++◌, length, length-append, length-replicate, get_elem?,
  map_some, modify, length-modify, take, replicate, ltb, leb, ◌==◌, arith, Bool-cases, Option-cases,
  inl, inr, ok, ◌>>=◌, >>=-eq-ok,
}
use mcts.Ipc.Ring.{q_cap, init, try_push}
use mcts.Ipc.Ring.Fifo.{contents, init-IsRing}
use mcts.Ipc.Arena.{
  SlotInit, Arena, opened, waiting, max_handlers, arena_magic, arena_version, free_from, resize,
  needs_init, initialise, sanity, open_file, create_or_open,
}
use mcts.Ipc.Arena.Reset.{count_up, freed}

-- The header of an arena that is in use.
pub is_used : {S : Type 0} → Arena S → Bool
is_used a = not (a.init_done == 0) && (a.magic == arena_magic) && (a.version == arena_version)

-- The sizes that an opener may ask for, and an arena that has them. A file in use agrees with the
-- request and is opened as it is, but for its length; one that is not in use is initialised, by the
-- process that takes its lock.
pub record IsOpen {S : Type 0} ⦃slot_type : SlotInit S⦄ (file : Arena S)
    (num_slots num_handlers : ℕ) (a : Arena S) : Type 0 where
  pub origin :
      ((is_used file ≡ true)
        × (file.num_slots ≡ num_slots)
        × (file.num_handlers ≡ num_handlers)
        × (a ≡ resize num_slots file))
      ⊎ ((is_used file ≡ false) × (file.init_lock ≡ 0) × (a.init_done ≡ 1) × (a.init_lock ≡ 0))
  pub some_slots : 0 < num_slots
  pub indexed : num_slots < q_cap
  pub some_handlers : 0 < num_handlers
  pub few_handlers : num_handlers ≤ max_handlers
  pub magic : a.magic ≡ arena_magic
  pub version : a.version ≡ arena_version
  pub slots : a.num_slots ≡ num_slots
  pub handlers : a.num_handlers ≡ num_handlers
  pub room : length a.slots ≡ num_slots

length-take {ℓ} : {A : Type ℓ} (n : ℕ) (xs : List A) → n ≤ length xs → length (take n xs) ≡ n
length-take zero xs h = refl
length-take (suc n) [] h = absurd (omega arith)
length-take (suc n) (x ∷ xs) h = ap suc (length-take n xs (omega arith))

module _ {S : Type 0} ⦃slot_type : SlotInit S⦄ where
  length-resize : (n : ℕ) (a : Arena S) → length (resize n a).slots ≡ n
  length-resize n a = length-take n (a.slots ++ replicate n slot_type.zeroed) (
      omega (
        arith,
        length-append a.slots (replicate n slot_type.zeroed),
        length-replicate n slot_type.zeroed,
      ))

  length-free_from :
      (i n : ℕ) (a b : Arena S) → free_from i n a ≡ ok b → length b.slots ≡ length a.slots
  unfolding free_from
  length-free_from i zero a b e = let same : a ≡ b = cc in ap (λ c. length c.slots) (sym same)
  length-free_from i (suc n) a b e = elim (Option-cases (try_push a.free_q i)) [
    | inl full ↦ ground arith
    | inr (q, room) ↦
        let next : Arena S = record a {
          slots = modify a.slots i slot_type.init_free;
          free_q = q;
        } in
        let f : free_from (i + 1) n next ≡ ok b = rw (room, free_from) at e in
        length-free_from (i + 1) n next b f ∙ length-modify a.slots i slot_type.init_free
  ]

  -- Freeing slots leaves the header's numbers alone.
  abbrev SameHeader : Arena S → Arena S → Type 0
  SameHeader a b =
      (b.magic ≡ a.magic)
      × (b.version ≡ a.version)
      × (b.num_slots ≡ a.num_slots)
      × (b.num_handlers ≡ a.num_handlers)

  free_from-SameHeader : (i n : ℕ) (a b : Arena S) → free_from i n a ≡ ok b → SameHeader a b
  unfolding free_from
  free_from-SameHeader i zero a b e = let same : a ≡ b = cc in rw (← same) (refl, refl, refl, refl)
  free_from-SameHeader i (suc n) a b e = elim (Option-cases (try_push a.free_q i)) [
    | inl full ↦ ground arith
    | inr (q, room) ↦
        free_from-SameHeader (i + 1) n
          (record a { slots = modify a.slots i slot_type.init_free; free_q = q }) b
          (rw (room, free_from) at e)
  ]

  sanity-passes :
      (n h : ℕ) (a : Arena S)
      → a.magic ≡ arena_magic
      → a.version ≡ arena_version
      → a.num_slots ≡ n
      → a.num_handlers ≡ h
      → sanity n h a ≡ opened a
  unfolding sanity
  sanity-passes n h a magic version slots handlers = ground (arith, magic, version, slots, handlers)

  length-initialise :
      (n h : ℕ) (a b : Arena S) → initialise n h a ≡ ok b → length b.slots ≡ length a.slots
  unfolding initialise
  length-initialise n h a b e =
      let (c, freeing, last) = >>=-eq-ok (free_from 0 n _) _ e in
      let same : record c { init_done = 1; init_lock = 0 } ≡ b = cc in
      ap (λ d. length d.slots) (sym same) ∙ length-free_from 0 n _ c freeing

  uninitialised : (n : ℕ) (a : Arena S) → a.init_done ≡ 0 → needs_init (resize n a) ≡ true
  unfolding needs_init
  uninitialised n a new = ground (arith, new)

  -- The sanity checks pass an arena on unchanged, and only one that agrees with the request.
  sanity-opened :
      (n h : ℕ) (a b : Arena S)
      → sanity n h a ≡ opened b
      → (a ≡ b)
        × (a.magic ≡ arena_magic)
        × (a.version ≡ arena_version)
        × (a.num_slots ≡ n)
        × (a.num_handlers ≡ h)
  unfolding sanity
  sanity-opened n h a b e = ground arith

  init_flags :
      (n h : ℕ) (a b : Arena S) → initialise n h a ≡ ok b → (b.init_done ≡ 1) × (b.init_lock ≡ 0)
  unfolding initialise
  init_flags n h a b e =
      let (c, freeing, last) = >>=-eq-ok (free_from 0 n _) _ e in
      let same : record c { init_done = 1; init_lock = 0 } ≡ b = cc in
      (ap (λ d. d.init_done) (sym same), ap (λ d. d.init_lock) (sym same))

  -- Where the arena that is opened comes from.
  Origin : ℕ → ℕ → Arena S → Arena S → Type 0
  Origin n h a b =
      ((is_used a ≡ true) × (a.num_slots ≡ n) × (a.num_handlers ≡ h) × (b ≡ a))
      ⊎ ((is_used a ≡ false) × (a.init_lock ≡ 0) × (b.init_done ≡ 1) × (b.init_lock ≡ 0))

  open_file-Origin : (n h : ℕ) (a b : Arena S) → open_file n h a ≡ ok (opened b) → Origin n h a b
  unfolding open_file needs_init is_used Origin
  open_file-Origin n h a b e = elim (Bool-cases (needs_init a)) [
    | inr ready ↦
        let f : ok (sanity n h a) ≡ ok (opened b) = rw ready at e in
        let (same, _, _, slots, handlers) = sanity-opened n h a b (ok_injective f) in
        inl (ground (arith, ready), slots, handlers, sym same)
    | inl stale ↦ elim (Bool-cases (a.init_lock == 0)) [
      | inl taken ↦
          let f : (initialise n h a >>= λ c. ok (sanity n h c)) ≡ ok (opened b) =
            rw (stale, taken) at e in
          let (c, made, last) = >>=-eq-ok (initialise n h a) (λ c. ok (sanity n h c)) f in
          let (same, _, _, _, _) = sanity-opened n h c b (ok_injective last) in
          let (finished, given) = init_flags n h a c made in
          inr (
            ground (arith, stale),
            ground (arith, taken),
            ap (λ d. d.init_done) (sym same) ∙ finished,
            ap (λ d. d.init_lock) (sym same) ∙ given,
          )
      | inr held ↦ elim (Bool-cases (a.init_done == 0)) [
        | inl undone ↦ let f : ok waiting ≡ ok (opened b) = rw (stale, held, undone) at e in cc
        | inr finished ↦
            let f : ok (sanity n h a) ≡ ok (opened b) = rw (stale, held, finished) at e in
            let (_, magic, version, _, _) = sanity-opened n h a b (ok_injective f) in
            absurd (ground (arith, stale, finished, magic, version))
      ]
    ]
  ]

  -- What an opener of valid sizes gets.
  open_file-opened :
      (n h : ℕ) (a b : Arena S)
      → open_file n h a ≡ ok (opened b)
      → (length b.slots ≡ length a.slots)
        × (b.magic ≡ arena_magic)
        × (b.version ≡ arena_version)
        × (b.num_slots ≡ n)
        × (b.num_handlers ≡ h)
  unfolding open_file
  open_file-opened n h a b e = elim (Bool-cases (needs_init a)) [
    | inr ready ↦ checked a refl (ground (arith, ready))
    | inl stale ↦ elim (Bool-cases (a.init_lock == 0)) [
      | inl taken ↦
          let f : (initialise n h a >>= λ c. ok (sanity n h c)) ≡ ok (opened b) =
            rw (stale, taken) at e in
          let (c, made, last) = >>=-eq-ok (initialise n h a) (λ c. ok (sanity n h c)) f in
          checked c (length-initialise n h a c made) cc
      | inr held ↦ checked a refl (ground (arith, stale, held))
    ]
  ]
    where
      checked :
          (c : Arena S)
          → length c.slots ≡ length a.slots
          → sanity n h c ≡ opened b
          → (length b.slots ≡ length a.slots)
            × (b.magic ≡ arena_magic)
            × (b.version ≡ arena_version)
            × (b.num_slots ≡ n)
            × (b.num_handlers ≡ h)
      checked c l f =
          let (same, magic, version, slots, handlers) = sanity-opened n h c b f in
          rw (← same) (l, magic, version, slots, handlers)

  -- Whatever the file holds, an arena that `create_or_open` opens has the asked number of slots and
  -- of handlers, both in the range that the program allows, and the file has room for its slots. If
  -- the file was in use it already had these numbers, and nothing of it changes but its length;
  -- otherwise nobody held its lock, and it is marked as initialised. So a request out of range, or
  -- one that differs from a file in use, is never opened.
  pub create_or_open-IsOpen :
      (file : Arena S) (n h : ℕ) (b : Arena S)
      → create_or_open file n h ≡ ok (opened b)
      → IsOpen file n h b
  unfolding create_or_open Origin is_used
  create_or_open-IsOpen file n h b e = elim (Bool-cases (n == 0)) [
    | inl none_asked ↦ absurd (ground (arith, none_asked))
    | inr some_slots ↦ elim (Bool-cases (leb q_cap n)) [
      | inl too_many ↦ absurd (ground (arith, some_slots, too_many))
      | inr indexed ↦ elim (Bool-cases (h == 0 || ltb max_handlers h)) [
        | inl bad ↦ absurd (ground (arith, some_slots, indexed, bad))
        | inr good ↦
            let f : open_file n h (resize n file) ≡ ok (opened b) =
              rw (some_slots, indexed, good) at e in
            let (room, magic, version, slots, handlers) =
              open_file-opened n h (resize n file) b f in
            record {
              origin = open_file-Origin n h (resize n file) b f;
              some_slots = ground (arith, some_slots);
              indexed = ground (arith, indexed);
              some_handlers = ground (arith, good);
              few_handlers = ground (arith, good);
              magic = magic;
              version = version;
              slots = slots;
              handlers = handlers;
              room = room ∙ length-resize n file;
            }
      ]
    ]
  ]

  -- A file that nobody has initialised is opened for any valid request, if its queues have their
  -- full length and nobody holds the initialisation lock: every slot then is the file's slot freed
  -- by its type's `init_free`, and stands in the free queue once, in order; no request is waiting;
  -- the file is marked as initialised and its lock is given back.
  pub create_or_open-fresh :
      (file : Arena S) (n h : ℕ)
      → file.init_done ≡ 0
      → file.init_lock ≡ 0
      → length file.free_q.slots ≡ q_cap
      → length file.ready_q.slots ≡ q_cap
      → 0 < n
      → n < q_cap
      → 0 < h
      → h ≤ max_handlers
      → (b : Arena S) × (create_or_open file n h ≡ ok (opened b))
        × (contents b.free_q ≡ count_up 0 n)
        × (contents b.ready_q ≡ [])
        × (b.init_done ≡ 1)
        × (b.init_lock ≡ 0)
        × ((j : ℕ)
            → j < n
            → get_elem? b.slots j
              ≡ map_some slot_type.init_free (get_elem? (resize n file).slots j))
  unfolding create_or_open open_file initialise
  create_or_open-fresh file n h new unlocked lf lr p q r t =
      let some_slots : (n == 0) ≡ false = ground arith in
      let indexed : leb q_cap n ≡ false = ground arith in
      let good : (h == 0 || ltb max_handlers h) ≡ false = ground arith in
      let stale : needs_init (resize n file) ≡ true = uninitialised n file new in
      let free_lock : (file.init_lock == 0) ≡ true = ground (arith, unlocked) in
      let (v, none_free) = init-IsRing file.free_q lf in
      let (w, none_ready) = init-IsRing file.ready_q lr in
      let start : Arena S = record (resize n file) {
        magic = arena_magic;
        version = arena_version;
        num_slots = n;
        num_handlers = h;
        free_q = init file.free_q;
        ready_q = init file.ready_q;
      } in
      let (b, made, f) = freed 0 n start v (ground (arith, none_free)) in
      let (magic, version, slots, handlers) = free_from-SameHeader 0 n start b made in
      (
        record b { init_done = 1; init_lock = 0 },
        rw (some_slots, indexed, good, stale, free_lock, made)
            (ap ok (
              sanity-passes n h (record b { init_done = 1; init_lock = 0 }) magic version slots
                handlers)),
        f.free ∙ ap (λ xs. xs ++ count_up 0 n) none_free,
        ap contents f.ready ∙ none_ready,
        refl,
        refl,
        λ j k. f.slots j (omega arith) (omega arith),
      )
