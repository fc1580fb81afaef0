-- ===== src/Cas/Store/Operations.antt =====
-- landro-cas/src/storage.rs: reading, writing and checking objects, and landro-cas/src/validation.rs
-- where it is called. An operation gives its result and the store; `none` is a loop that never ends.
use landropic.Prelude.{
  ℕ, ◌*◌, List, [], ◌∷◌, Option, none, some, Bool, true, false, ◌&&◌, ◌||◌, not, Str, length, leb,
  ltb, ◌==◌, if◌then◌else◌,
}
use landropic.Prelude.Dict.{Dict, lookup, insert}
use landropic.Cas.Packfile.{Result, ok, err, invalid_operation, PackfileReader}
use landropic.Cas.Manager.{read_packed, should_pack}
use landropic.Cas.Store.{ObjectRef, LruCache, CachedChunk, fetch_add, ContentStore}
use landropic.Cas.Store.Disk.{file_exists, write_atomic, read_individual}
use landropic.Cas.Store.Cache.{cache_chunk, touch_chunk}

abbrev pub max_object_size : ℕ
max_object_size = 100 * 1024 * 1024

unfoldable pub validate_object_size : ℕ → Bool
validate_object_size size = not (ltb max_object_size size)

-- char::is_ascii_hexdigit
unfoldable pub is_ascii_hexdigit : ℕ → Bool
is_ascii_hexdigit b = (leb 48 b && leb b 57) || (leb 65 b && leb b 70) || (leb 97 b && leb b 102)

unfoldable pub all_hexdigits : Str → Bool
unfolding is_ascii_hexdigit
all_hexdigits [] = true
all_hexdigits (b ∷ bs) = is_ascii_hexdigit b && all_hexdigits bs

unfoldable pub validate_content_hash : Str → Bool
unfolding all_hexdigits
validate_content_hash hash = (length hash == 64) && all_hexdigits hash

-- What the store calls outside landro-cas, and the printing and walking of its packfiles.
pub record Environment : Type 0 where
  pub blake3 : List ℕ → Str
  pub read_back : List ℕ → Option (List ℕ)
  pub pack_name : ℕ → Str
  pub visit : Dict PackfileReader → List (Str × PackfileReader)
  pub compress_lz4 : List ℕ → List ℕ
  pub compress_zstd : (level : ℕ) → List ℕ → Option (List ℕ)
  pub compress_snappy : List ℕ → Option (List ℕ)

unfoldable pub reference : Str → List ℕ → ObjectRef
reference hash bytes = record { hash = hash; size = length bytes }

module _ {C : Type 0} where
  unfoldable pub count_dedup_hit : ContentStore C → ContentStore C
  unfolding fetch_add
  count_dedup_hit s = record s {
    stats = record s.stats { dedup_hits = fetch_add 1 s.stats.dedup_hits };
  }

  unfoldable pub add_to_dedup : Str → ObjectRef → ContentStore C → ContentStore C
  add_to_dedup hash r s = record s { dedup_index = insert hash r s.dedup_index }

  unfoldable pub count_write : ℕ → ContentStore C → ContentStore C
  unfolding fetch_add
  count_write size s = record s {
    stats = record s.stats {
      writes = fetch_add 1 s.stats.writes;
      bytes_written = fetch_add size s.stats.bytes_written;
    };
  }

  unfoldable pub count_read : ℕ → ContentStore C → ContentStore C
  unfolding fetch_add
  count_read size s = record s {
    stats = record s.stats {
      reads = fetch_add 1 s.stats.reads;
      bytes_read = fetch_add size s.stats.bytes_read;
    };
  }

  unfoldable pub write_individual :
      List ℕ → Str → ContentStore C → Result ObjectRef × ContentStore C
  unfolding write_atomic reference
  write_individual bytes hash s = (ok (reference hash bytes), write_atomic hash bytes s)

  -- Both of its branches store an individual file.
  unfoldable pub write_with_packing :
      List ℕ → Str → ContentStore C → Result ObjectRef × ContentStore C
  unfolding write_individual
  write_with_packing bytes hash s = elim s.packs [
    | some manager ↦ write_individual bytes hash s
    | none ↦ write_individual bytes hash s
  ]

module _ {C : Type 0} (env : Environment) where
  -- Ok(Some(data)) from the manager of the packfiles, where they are enabled; an error counts as nothing.
  unfoldable pub find_packed : Str → ContentStore C → Option (List ℕ)
  unfolding read_packed
  find_packed hash s =
      if s.config.enable_packfiles
      then elim s.packs [
        | none ↦ none
        | some manager ↦
            elim (read_packed env.blake3 env.read_back env.pack_name env.visit hash manager) [
              | ok found ↦ found
              | err e ↦ none
            ]
      ]
      else none

  unfoldable pub exists : Str → ContentStore C → Bool
  unfolding file_exists find_packed
  exists hash s =
      file_exists hash s.files.objects
      || elim (find_packed hash s) [ none ↦ false | some bytes ↦ true ]

  -- The object is stored as a file, packed or not.
  unfoldable pub write_new : List ℕ → Str → ContentStore C → Result ObjectRef × ContentStore C
  unfolding write_individual write_with_packing should_pack
  write_new bytes hash s =
      if s.config.enable_packfiles
      then elim s.packs [
        | some manager ↦
            if should_pack (length bytes) manager
            then write_with_packing bytes hash s
            else write_individual bytes hash s
        | none ↦ write_individual bytes hash s
      ]
      else write_individual bytes hash s

  unfoldable pub write : List ℕ → ContentStore C → Result ObjectRef × ContentStore C
  unfolding validate_object_size count_dedup_hit exists add_to_dedup reference write_new
  write bytes s =
      let hash = env.blake3 bytes in
      if validate_object_size (length bytes)
      then elim (lookup hash s.dedup_index) [
        | some r ↦ (ok r, count_dedup_hit s)
        | none ↦
            if exists hash s
            then (ok (reference hash bytes), add_to_dedup hash (reference hash bytes) s)
            else write_new bytes hash s
      ]
      else (err invalid_operation, s)

  module _ (lru : LruCache C) where
    unfoldable pub read_hit : ℕ → Str → CachedChunk → ContentStore C → ContentStore C
    unfolding touch_chunk count_read fetch_add
    read_hit now hash chunk s = count_read chunk.size (record s {
      cache = touch_chunk lru now hash chunk s.cache;
      stats = record s.stats { cache_hits = fetch_add 1 s.stats.cache_hits };
    })

    unfoldable pub count_miss : ContentStore C → ContentStore C
    unfolding fetch_add
    count_miss s = record s {
      cache = record s.cache { miss_count = fetch_add 1 s.cache.miss_count };
      stats = record s.stats { cache_misses = fetch_add 1 s.stats.cache_misses };
    }

    -- The read of a file, whose bytes go into the cache.
    unfoldable pub read_file : ℕ → Str → ContentStore C → Option (Result (List ℕ) × ContentStore C)
    unfolding read_individual cache_chunk count_read
    read_file now hash s = elim (read_individual env.blake3 hash s.files) [
      | err e ↦ some (err e, s)
      | ok bytes ↦
          elim (cache_chunk lru s.config.cache_config.max_size_bytes now hash bytes s.cache) [
            | none ↦ none
            | some cache ↦ some (ok bytes, count_read (length bytes) (record s { cache = cache }))
          ]
    ]

    unfoldable pub read_missed :
        ℕ → Str → ContentStore C → Option (Result (List ℕ) × ContentStore C)
    unfolding find_packed read_file
    read_missed now hash s = elim (find_packed hash s) [
      | some bytes ↦ some (ok bytes, s)
      | none ↦ read_file now hash s
    ]

    unfoldable pub read : ℕ → Str → ContentStore C → Option (Result (List ℕ) × ContentStore C)
    unfolding validate_content_hash read_hit count_miss read_missed
    read now hash s =
        if validate_content_hash hash
        then elim (lru.peek hash s.cache.chunks) [
          | some chunk ↦ some (ok chunk.bytes, read_hit now hash chunk s)
          | none ↦ read_missed now hash (count_miss s)
        ]
        else some (err invalid_operation, s)
