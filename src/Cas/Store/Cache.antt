-- ===== src/Cas/Store/Cache.antt =====
-- landro-cas/src/storage.rs: the cache of the store. `none` is a loop that has not ended on its fuel.
use landropic.Prelude.{
  ℕ, zero, suc, ◌+◌, ◌%◌, ◌^◌, List, Option, none, some, Str, length, ltb, if◌then◌else◌,
}
use landropic.Prelude.Word.{wrapping_add, wrapping_sub}
use landropic.Cas.Store.{LruCache, CachedChunk, ChunkCache, fetch_add}

unfoldable pub chunk_of : ℕ → List ℕ → CachedChunk
chunk_of now bytes = record {
  bytes = bytes;
  size = length bytes;
  last_accessed = now;
  access_count = 1;
}

module _ {C : Type 0} (lru : LruCache C) where
  -- ChunkCache::new, whose unwrap refuses a capacity of 0.
  unfoldable pub new : ℕ → Option (ChunkCache C)
  new zero = none
  new (suc n) = some (record {
    chunks = lru.with_capacity (suc n);
    total_size = 0;
    hit_count = 0;
    miss_count = 0;
    eviction_count = 0;
  })

  -- What `if let Some((_, evicted)) = cache.chunks.pop_lru()` leaves of the cache
  unfoldable pub evict_one : ChunkCache C → ChunkCache C
  unfolding fetch_add
  evict_one cache = elim (lru.pop_lru cache.chunks) [
    | none ↦ cache
    | some popped ↦ record cache {
      chunks = popped.1;
      total_size = wrapping_sub cache.total_size popped.0.1.size;
      eviction_count = fetch_add 1 cache.eviction_count;
    }
  ]

  -- while cache.total_size + size > max_size_bytes
  unfoldable pub make_room : ℕ → ℕ → ℕ → ChunkCache C → Option (ChunkCache C)
  unfolding evict_one
  make_room zero max_size size cache =
      if ltb max_size (wrapping_add cache.total_size size) then none else some cache
  make_room (suc fuel) max_size size cache =
      let rest = make_room fuel max_size size (evict_one cache) in
      if ltb max_size (wrapping_add cache.total_size size) then rest else some cache

  -- One turn for each entry, which is enough where any number of turns is.
  unfoldable pub turns : ChunkCache C → ℕ
  turns cache = length (lru.iter cache.chunks)

  unfoldable pub put_chunk : Str → CachedChunk → ChunkCache C → ChunkCache C
  put_chunk hash chunk cache = record cache {
    chunks = lru.put hash chunk cache.chunks;
    total_size = wrapping_add cache.total_size chunk.size;
  }

  -- The cache after a chunk was written or read from its file
  unfoldable pub cache_chunk : ℕ → ℕ → Str → List ℕ → ChunkCache C → Option (ChunkCache C)
  unfolding make_room turns chunk_of put_chunk
  cache_chunk max_size now hash bytes cache =
      elim (make_room (turns cache) max_size (length bytes) cache) [
        | none ↦ none
        | some roomy ↦ some (put_chunk hash (chunk_of now bytes) roomy)
      ]

  -- The chunk in the cache, as it is when it was read once more.
  unfoldable pub touch_chunk : ℕ → Str → CachedChunk → ChunkCache C → ChunkCache C
  unfolding fetch_add
  touch_chunk now hash chunk cache = record cache {
    chunks =
        lru.touch hash
          (record chunk { last_accessed = now; access_count = (chunk.access_count + 1) % 2 ^ 32 })
          cache.chunks;
    hit_count = fetch_add 1 cache.hit_count;
  }

  unfoldable pub clear_cache : ChunkCache C → ChunkCache C
  clear_cache cache = record cache { chunks = lru.clear cache.chunks; total_size = 0 }
