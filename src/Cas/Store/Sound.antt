-- ===== src/Cas/Store/Sound.antt =====
-- What the files, the cache and the deduplication index of a store say of each other.
use landropic.Prelude.{
  ℕ, zero, suc, ◌<◌, List, [], ◌∷◌, Option, none, some, false, Str, length, ltb, ◌≡◌, refl, sym,
  ◌∙◌, inl, inr, Option-cases, All, All-take, All-append_left, All-mono, by_test,
}
use mathlib.Core.Path.{subst}
use mathlib.Core.Option
use landropic.Prelude.Dict.{
  Dict, lookup, insert, remove, All-remove, All-lookup, lookup-insert_absent,
}
use landropic.Prelude.Word.{wrapping_add}
use landropic.Cas.Store.{LruCache, CachedChunk, ChunkCache, ContentStore, ObjectRef}
use landropic.Cas.Store.Cache.{
  evict_one, make_room, turns, chunk_of, put_chunk, cache_chunk, touch_chunk,
}
use landropic.Cas.Store.Operations.{reference}

-- Each object has content, with the hash that it is filed under.
abbrev pub IsIntact : (List ℕ → Str) → Str × List ℕ → Type 0
IsIntact blake3 object = (blake3 object.1 ≡ object.0) × (0 < length object.1)

abbrev pub IsGenuine : (List ℕ → Str) → Str × CachedChunk → Type 0
IsGenuine blake3 entry = blake3 entry.1.bytes ≡ entry.0

-- An entry of the deduplication index describes an object that is stored.
abbrev pub IsBacked : Dict (List ℕ) → Str × ObjectRef → Type 0
IsBacked objects entry =
    (bytes : List ℕ) × ((lookup entry.0 objects ≡ some bytes) × (entry.1 ≡ reference entry.0 bytes))

module _ {C : Type 0} (lru : LruCache C) (blake3 : List ℕ → Str) where
  abbrev pub Genuine : ChunkCache C → Type 0
  Genuine cache = All (IsGenuine blake3) (lru.iter cache.chunks)

  -- The store without packfiles, its objects intact, its cache genuine and its index backed.
  abbrev pub Sound : ContentStore C → Type 0
  Sound s =
      (s.config.enable_packfiles ≡ false)
      × (All (IsIntact blake3) s.files.objects
          × (Genuine s.cache × All (IsBacked s.files.objects) s.dedup_index))

  evict_one-Genuine : (cache : ChunkCache C) → Genuine cache → Genuine (evict_one lru cache)
  unfolding evict_one
  evict_one-Genuine cache h = elim (Option-cases (lru.pop_lru cache.chunks)) [
    | inl e ↦ rw (e, evict_one) h
    | inr ((entry, chunks'), e) ↦
        rw (e, evict_one)
          (All-append_left (IsGenuine blake3) (lru.iter chunks') (entry ∷ [])
            (subst (All (IsGenuine blake3)) (lru.pop_some cache.chunks entry chunks' e) h))
  ]

  make_room-Genuine :
      (fuel max_size size : ℕ) (cache roomy : ChunkCache C)
      → Genuine cache
      → make_room lru fuel max_size size cache ≡ some roomy
      → Genuine roomy
  unfolding make_room
  make_room-Genuine zero max_size size cache roomy h =
      by_test (λ (r : Option (ChunkCache C)). r ≡ some roomy → Genuine roomy)
        (ltb max_size (wrapping_add cache.total_size size)) (λ over e. absurd cc)
        (λ fits e. subst Genuine (Option.some_inj.0 e) h)
  make_room-Genuine (suc fuel) max_size size cache roomy h =
      by_test (λ (r : Option (ChunkCache C)). r ≡ some roomy → Genuine roomy)
        (ltb max_size (wrapping_add cache.total_size size))
        (λ over e.
          make_room-Genuine fuel max_size size (evict_one lru cache) roomy
            (evict_one-Genuine cache h) e)
        (λ fits e. subst Genuine (Option.some_inj.0 e) h)

  put_chunk-Genuine :
      (hash : Str) (chunk : CachedChunk) (cache : ChunkCache C)
      → blake3 chunk.bytes ≡ hash
      → Genuine cache
      → Genuine (put_chunk lru hash chunk cache)
  unfolding put_chunk
  put_chunk-Genuine hash chunk cache e h =
      subst (All (IsGenuine blake3)) (sym (lru.iter_put hash chunk cache.chunks)) (
        All-take (IsGenuine blake3) (lru.capacity cache.chunks)
          ((hash, chunk) ∷ remove hash (lru.iter cache.chunks))
          (e, All-remove (IsGenuine blake3) hash (lru.iter cache.chunks) h))

  pub cache_chunk-Genuine :
      (max_size now : ℕ) (hash : Str) (bytes : List ℕ) (cache cache' : ChunkCache C)
      → blake3 bytes ≡ hash
      → Genuine cache
      → cache_chunk lru max_size now hash bytes cache ≡ some cache'
      → Genuine cache'
  unfolding cache_chunk chunk_of
  cache_chunk-Genuine max_size now hash bytes cache cache' e h there =
      elim (Option-cases (make_room lru (turns lru cache) max_size (length bytes) cache)) [
        | inl ends ↦
            let stuck : cache_chunk lru max_size now hash bytes cache ≡ none =
              rw (ends, cache_chunk) refl in
            let absurdity : none ≡ some cache' = sym stuck ∙ there in absurd cc
        | inr (roomy, ends) ↦
            let filled : cache_chunk lru max_size now hash bytes cache
                ≡ some (put_chunk lru hash (chunk_of now bytes) roomy) =
              rw (ends, cache_chunk) refl in
            subst Genuine (Option.some_inj.0 (sym filled ∙ there)) (
              put_chunk-Genuine hash (chunk_of now bytes) roomy e
                (make_room-Genuine (turns lru cache) max_size (length bytes) cache roomy h ends))
      ]

  pub touch_chunk-Genuine :
      (now : ℕ) (hash : Str) (chunk : CachedChunk) (cache : ChunkCache C)
      → lru.peek hash cache.chunks ≡ some chunk
      → Genuine cache
      → (blake3 chunk.bytes ≡ hash) × Genuine (touch_chunk lru now hash chunk cache)
  unfolding touch_chunk
  touch_chunk-Genuine now hash chunk cache e h =
      let genuine : blake3 chunk.bytes ≡ hash =
        All-lookup (IsGenuine blake3) hash chunk (lru.iter cache.chunks) h
          (sym (lru.peek_iter hash cache.chunks) ∙ e) in
      (
        genuine,
        subst (All (IsGenuine blake3)) (sym (lru.iter_touch hash _ chunk cache.chunks e))
            (genuine, All-remove (IsGenuine blake3) hash (lru.iter cache.chunks) h),
      )

-- A new object leaves what the index describes.
pub insert-IsBacked :
    (hash : Str) (bytes : List ℕ) (objects : Dict (List ℕ)) (index : Dict ObjectRef)
    → lookup hash objects ≡ none
    → All (IsBacked objects) index
    → All (IsBacked (insert hash bytes objects)) index
insert-IsBacked hash bytes objects index absent h =
    All-mono index
      (λ entry backed.
        let (found, (there, described)) = backed in
        (found, (lookup-insert_absent hash entry.0 bytes found objects absent there, described)))
      h
