-- ===== src/Cas/Store/Reads.antt =====
-- What a read gives of a sound store.
use landropic.Prelude.{
  ℕ, ◌+◌, ◌≤◌, ◌<◌, List, Option, some, true, false, Str, length, str_eq, str_eq_iff, ◌==◌, ◌≡◌,
  refl, ap, inl, inr, arith, Option-cases,
}
use landropic.Prelude.Dict.{lookup, All-lookup}
use landropic.Prelude.Word.{u64_mod}
use landropic.Cas.Packfile.{Result, ok}
use landropic.Cas.Store.{LruCache, CachedChunk, ChunkCache, ContentStore, Files}
use landropic.Cas.Store.Cache.{cache_chunk, turns, put_chunk, chunk_of}
use landropic.Cas.Store.Disk.{read_individual}
use landropic.Cas.Store.Eviction.{Accounts, make_room-Ends}
use landropic.Cas.Store.Operations.{
  Environment, validate_content_hash, count_miss, read, read_hit, read_file, read_missed,
  count_read,
}
use landropic.Cas.Store.Sound.{IsIntact, Sound, cache_chunk-Genuine, touch_chunk-Genuine}
use landropic.Cas.Store.Writes.{Unique, nothing_packed}

module _ {C : Type 0} (env : Environment) (lru : LruCache C) where
  read_individual-stored :
      (hash : Str) (bytes : List ℕ) (f : Files)
      → lookup hash f.objects ≡ some bytes
      → IsIntact env.blake3 (hash, bytes)
      → read_individual env.blake3 hash f ≡ ok bytes
  unfolding read_individual
  read_individual-stored hash bytes f there (genuine, some_bytes) =
      let filled : (length bytes == 0) ≡ false = ground (arith, some_bytes) in
      let matches : str_eq (env.blake3 bytes) hash ≡ true =
        (str_eq_iff (env.blake3 bytes) hash).1 genuine in
      rw (there, filled, matches, read_individual) refl

  -- The cache has room for the bytes, and the sizes stay below 2 ^ 64.
  abbrev pub HasRoom : List ℕ → ContentStore C → ℕ → Type 0
  HasRoom bytes s excess =
      Accounts lru excess s.cache
      × ((s.cache.total_size + length bytes < u64_mod)
          × (excess + length bytes ≤ s.config.cache_config.max_size_bytes))

  cache_chunk-Returns :
      (now excess : ℕ) (hash : Str) (bytes : List ℕ) (s : ContentStore C)
      → HasRoom bytes s excess
      → (cache : ChunkCache C) × (cache_chunk lru s.config.cache_config.max_size_bytes now hash
            bytes s.cache
          ≡ some cache)
  unfolding cache_chunk
  cache_chunk-Returns now excess hash bytes s (accounts, (small, room)) =
      let max_size = s.config.cache_config.max_size_bytes in
      let (roomy, (ends, rest)) =
        make_room-Ends lru (turns lru s.cache) excess max_size (length bytes) s.cache small accounts
          room (omega arith) in
      (put_chunk lru hash (chunk_of now bytes) roomy, rw (ends, cache_chunk) refl)

  -- The read returns these bytes, and leaves the store sound.
  abbrev pub Gives : List ℕ → Option (Result (List ℕ) × ContentStore C) → Type 0
  Gives bytes r = (s' : ContentStore C) × ((r ≡ some (ok bytes, s')) × Sound lru env.blake3 s')

  read_file-Gives :
      (now excess : ℕ) (hash : Str) (bytes : List ℕ) (s : ContentStore C)
      → Sound lru env.blake3 s
      → lookup hash s.files.objects ≡ some bytes
      → HasRoom bytes s excess
      → Gives bytes (read_file env lru now hash s)
  unfolding read_file count_read
  read_file-Gives now excess hash bytes s sound there room =
      let (plain, (intact, (genuine, backed))) = sound in
      let object = All-lookup (IsIntact env.blake3) hash bytes s.files.objects intact there in
      let (cache, ends) = cache_chunk-Returns now excess hash bytes s room in
      let max_size = s.config.cache_config.max_size_bytes in
      (
        count_read (length bytes) (record s { cache = cache }),
        (
          rw (read_individual-stored hash bytes s.files there object, ends, read_file) refl,
          (
            plain,
            (
              intact,
              (
                cache_chunk-Genuine lru env.blake3 max_size now hash bytes s.cache cache object.0
                    genuine ends,
                backed,
              ),
            ),
          ),
        ),
      )

  read_hit-Gives :
      (now : ℕ) (bytes : List ℕ) (chunk : CachedChunk) (s : ContentStore C)
      → Unique env lru bytes
      → Sound lru env.blake3 s
      → lru.peek (env.blake3 bytes) s.cache.chunks ≡ some chunk
      → Gives bytes (some (ok chunk.bytes, read_hit env lru now (env.blake3 bytes) chunk s))
  unfolding read_hit count_read
  read_hit-Gives now bytes chunk s unique (plain, (intact, (genuine, backed))) there =
      let hash = env.blake3 bytes in
      let (same, genuine') =
        touch_chunk-Genuine lru env.blake3 now hash chunk s.cache there genuine in
      (
        read_hit env lru now hash chunk s,
        (
          ap (λ b. some (ok b, read_hit env lru now hash chunk s)) (unique chunk.bytes same),
          (plain, (intact, (genuine', backed))),
        ),
      )

  -- Bytes that are stored are read.
  pub read-Gives :
      (now excess : ℕ) (bytes : List ℕ) (s : ContentStore C)
      → validate_content_hash (env.blake3 bytes) ≡ true
      → Unique env lru bytes
      → Sound lru env.blake3 s
      → lookup (env.blake3 bytes) s.files.objects ≡ some bytes
      → HasRoom bytes s excess
      → Gives bytes (read env lru now (env.blake3 bytes) s)
  unfolding read read_missed count_miss
  read-Gives now excess bytes s valid unique sound there room =
      let hash = env.blake3 bytes in
      elim (Option-cases (lru.peek hash s.cache.chunks)) [
        | inr (chunk, hit) ↦
            rw (valid, hit, read) (read_hit-Gives now bytes chunk s unique sound hit)
        | inl miss ↦
            let missed =
              read_file-Gives now excess hash bytes (count_miss env lru s) sound there room in
            rw
              (
                valid,
                miss,
                nothing_packed env lru hash (count_miss env lru s) sound.0,
                read,
                read_missed,
              )
              missed
      ]
