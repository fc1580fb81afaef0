-- ===== src/Cas/Store/Eviction.antt =====
-- When the loop that makes room in the cache ends.
use landropic.Prelude.{
  ℕ, zero, suc, ◌+◌, ◌≤◌, ◌<◌, [], ◌∷◌, ◌++◌, none, some, true, false, length, length-append, ltb,
  ◌≡◌, refl, ◌∙◌, ap, ◌⊎◌, inl, inr, arith, Option-cases, Bool-cases, ltb→lt,
}
use landropic.Prelude.Dict.{Dict}
use landropic.Prelude.Word.{u64_mod, wrapping_add}
use landropic.Cas.Store.{LruCache, CachedChunk, ChunkCache}
use landropic.Cas.Store.Cache.{evict_one, make_room, turns}

-- The sizes of the entries together
unfoldable pub held : Dict CachedChunk → ℕ
held [] = 0
held ((hash, chunk) ∷ entries) = chunk.size + held entries

held-append : (xs ys : Dict CachedChunk) → held (xs ++ ys) ≡ held xs + held ys
unfolding held
held-append [] ys = omega arith
held-append ((hash, chunk) ∷ xs) ys = omega (arith, held-append xs ys)

held-empty : (xs : Dict CachedChunk) → length xs ≤ 0 → held xs ≡ 0
unfolding held
held-empty [] h = refl
held-empty (x ∷ xs) h = absurd (omega arith)

module _ {C : Type 0} (lru : LruCache C) where
  -- The total counts what the entries hold, and perhaps more.
  abbrev pub Accounts : ℕ → ChunkCache C → Type 0
  Accounts excess cache = cache.total_size ≡ held (lru.iter cache.chunks) + excess

  -- A turn on an empty cache changes nothing; on another it takes an entry.
  evict_one-Accounts :
      (excess : ℕ) (cache : ChunkCache C)
      → cache.total_size < u64_mod
      → Accounts excess cache
      → ((evict_one lru cache ≡ cache) × (lru.iter cache.chunks ≡ []))
        ⊎ (Accounts excess (evict_one lru cache)
            × ((turns lru cache ≡ turns lru (evict_one lru cache) + 1)
                × ((evict_one lru cache).total_size ≤ cache.total_size)))
  unfolding evict_one turns held
  evict_one-Accounts excess cache small h = elim (Option-cases (lru.pop_lru cache.chunks)) [
    | inl e ↦ inl (rw (e, evict_one) refl, lru.pop_none cache.chunks e)
    | inr ((entry, chunks'), e) ↦
        let split = lru.pop_some cache.chunks entry chunks' e in
        let sizes : held (lru.iter cache.chunks) ≡ held (lru.iter chunks') + (entry.1.size + 0) =
          ap held split ∙ held-append (lru.iter chunks') (entry ∷ []) in
        let counts : length (lru.iter cache.chunks) ≡ length (lru.iter chunks') + 1 =
          ap length split ∙ length-append (lru.iter chunks') (entry ∷ []) in
        inr (rw (e, evict_one) (omega arith, (counts, omega arith)))
  ]

  -- Where the excess leaves room for the chunk, the loop ends on a turn for each entry, with the room made and
  -- the excess as it was.
  pub make_room-Ends :
      (fuel excess max_size size : ℕ) (cache : ChunkCache C)
      → cache.total_size + size < u64_mod
      → Accounts excess cache
      → excess + size ≤ max_size
      → turns lru cache ≤ fuel
      → (roomy : ChunkCache C) × ((make_room lru fuel max_size size cache ≡ some roomy)
          × ((roomy.total_size + size ≤ max_size) × Accounts excess roomy))
  unfolding make_room turns held
  make_room-Ends zero excess max_size size cache small h room enough =
      let none_held : held (lru.iter cache.chunks) ≡ 0 =
        held-empty (lru.iter cache.chunks) enough in
      let fits : ltb max_size (wrapping_add cache.total_size size) ≡ false = ground arith in
      (cache, (rw (fits, make_room) refl, (omega arith, h)))
  make_room-Ends (suc fuel) excess max_size size cache small h room enough =
      elim (Bool-cases (ltb max_size (wrapping_add cache.total_size size))) [
        | inr fits ↦ (cache, (rw (fits, make_room) refl, (ground (arith, fits), h)))
        | inl over ↦ elim (evict_one-Accounts excess cache (omega arith) h) [
          | inl (same, empty) ↦
              let none_held : held (lru.iter cache.chunks) ≡ 0 = ap held empty in
              absurd (ground (arith, over))
          | inr (h', (counts, less)) ↦
              let (roomy, (e, ends)) =
                make_room-Ends fuel excess max_size size (evict_one lru cache) (omega arith) h' room
                  (omega arith) in
              (roomy, (rw (over, make_room) e, ends))
        ]
      ]

  -- Where the excess leaves no room for the chunk, the loop ends on no number of turns.
  make_room-never :
      (fuel excess max_size size : ℕ) (cache : ChunkCache C)
      → cache.total_size + size < u64_mod
      → Accounts excess cache
      → max_size < excess + size
      → make_room lru fuel max_size size cache ≡ none
  unfolding make_room
  make_room-never zero excess max_size size cache small h full =
      let over : ltb max_size (wrapping_add cache.total_size size) ≡ true = ground arith in
      rw (over, make_room) refl
  make_room-never (suc fuel) excess max_size size cache small h full =
      let over : ltb max_size (wrapping_add cache.total_size size) ≡ true = ground arith in
      rw (over, make_room)
        (elim (evict_one-Accounts excess cache (omega arith) h) [
          | inl (same, empty) ↦
              rw same (make_room-never fuel excess max_size size cache small h full)
          | inr (h', (counts, less)) ↦
              make_room-never fuel excess max_size size (evict_one lru cache) (omega arith) h' full
        ])

  -- Where the total counts what the entries hold and an excess, and sizes stay below 2 ^ 64, the loop that makes room either ends
  -- on a turn for each entry, with the room made and the excess as it was, or it ends on no number of turns. Which one
  -- it is, the excess and the chunk together decide.
  pub make_room-Settles :
      (excess max_size size : ℕ) (cache : ChunkCache C)
      → cache.total_size + size < u64_mod
      → Accounts excess cache
      → ((excess + size ≤ max_size)
          × ((roomy : ChunkCache C) × ((make_room lru (turns lru cache) max_size size cache
                  ≡ some roomy)
                × ((roomy.total_size + size ≤ max_size) × Accounts excess roomy))))
        ⊎ ((max_size < excess + size)
            × ((fuel : ℕ) → make_room lru fuel max_size size cache ≡ none))
  make_room-Settles excess max_size size cache small h =
      elim (Bool-cases (ltb max_size (excess + size))) [
        | inl full ↦
            let over : max_size < excess + size = ltb→lt max_size (excess + size) full in
            inr (over, λ fuel. make_room-never fuel excess max_size size cache small h over)
        | inr fits ↦
            let room : excess + size ≤ max_size = ground (arith, fits) in
            inl (
              room,
              make_room-Ends (turns lru cache) excess max_size size cache small h room
                  (omega arith),
            )
      ]
