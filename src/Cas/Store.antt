-- ===== src/Cas/Store.antt =====
-- landro-cas/src/storage.rs: the state of ContentStore. A hash is its hex text. The LRU cache of the
-- crate lru is an interface, with the laws that its documentation gives.
pub mod Disk
mod Toy
mod Tests
pub mod Lasting
pub mod Crash
pub mod Cache
pub mod Eviction
pub mod Operations
pub mod Sound
pub mod Writes
pub mod Reads
pub mod RoundTrip
pub mod Deletion
pub mod Checks
pub mod Batch
pub mod Partial
use landropic.Prelude.{
  ℕ, ◌+◌, ◌%◌, ◌≤◌, List, [], ◌∷◌, ◌++◌, Option, none, some, Bool, true, false, Str, take, ◌≡◌,
}
use landropic.Prelude.Dict.{Dict, lookup, remove}
use landropic.Prelude.Word.{u64_mod}
use landropic.Cas.Manager.{PackfileManager}

pub data FsyncPolicy : Type 0 where
  always : FsyncPolicy
  batch : ℕ → FsyncPolicy
  async : FsyncPolicy
  never : FsyncPolicy

-- The level of zstd is an i32, as its 32 bits.
pub data CompressionType : Type 0 where
  uncompressed : CompressionType
  lz4 : CompressionType
  zstd : (level : ℕ) → CompressionType
  snappy : CompressionType

-- CacheConfig, of which the store reads these fields; the others are read nowhere.
pub record CacheConfig : Type 0 where
  pub max_chunks : ℕ
  pub max_size_bytes : ℕ
  pub prefetch_enabled : Bool

-- ContentStoreConfig, without what only the start and the tasks read.
pub record ContentStoreConfig : Type 0 where
  pub fsync_policy : FsyncPolicy
  pub compression : CompressionType
  pub enable_packfiles : Bool
  pub cache_config : CacheConfig

pub record ObjectRef : Type 0 where
  pub hash : Str
  pub size : ℕ

-- CachedChunk, with the instant of the last access in milliseconds.
pub record CachedChunk : Type 0 where
  pub bytes : List ℕ
  pub size : ℕ
  pub last_accessed : ℕ
  pub access_count : ℕ

-- LruCache<ContentHash, CachedChunk>. `iter` visits the entries from the most recently used one on;
-- `touch` is get_mut and the write through the reference that it gives.
pub record LruCache (C : Type 0) : Type 0 where
  pub with_capacity : ℕ → C
  pub capacity : C → ℕ
  pub iter : C → Dict CachedChunk
  pub peek : Str → C → Option CachedChunk
  pub touch : Str → CachedChunk → C → C
  pub put : Str → CachedChunk → C → C
  pub pop_lru : C → Option ((Str × CachedChunk) × C)
  pub clear : C → C
  pub iter_new : (n : ℕ) → iter (with_capacity n) ≡ []
  pub iter_clear : (c : C) → iter (clear c) ≡ []
  pub peek_iter : (hash : Str) (c : C) → peek hash c ≡ lookup hash (iter c)
  pub iter_touch :
      (hash : Str) (chunk old : CachedChunk) (c : C)
      → peek hash c ≡ some old
      → iter (touch hash chunk c) ≡ (hash, chunk) ∷ remove hash (iter c)
  pub iter_put :
      (hash : Str) (chunk : CachedChunk) (c : C)
      → iter (put hash chunk c) ≡ take (capacity c) ((hash, chunk) ∷ remove hash (iter c))
  pub pop_none : (c : C) → pop_lru c ≡ none → iter c ≡ []
  pub pop_some :
      (c : C) (entry : Str × CachedChunk) (c' : C)
      → pop_lru c ≡ some (entry, c')
      → iter c ≡ iter c' ++ entry ∷ []

pub record ChunkCache (C : Type 0) : Type 0 where
  pub chunks : C
  pub total_size : ℕ
  pub hit_count : ℕ
  pub miss_count : ℕ
  pub eviction_count : ℕ

pub record BatchWriter : Type 0 where
  pub pending : List (Str × List ℕ)
  pub total_size : ℕ
  pub last_flush : ℕ

-- The counters of ContentStoreRuntimeStats that some operation moves.
pub record ContentStoreRuntimeStats : Type 0 where
  pub writes : ℕ
  pub reads : ℕ
  pub bytes_written : ℕ
  pub bytes_read : ℕ
  pub cache_hits : ℕ
  pub cache_misses : ℕ
  pub batch_flushes : ℕ
  pub dedup_hits : ℕ

-- AtomicU64::fetch_add wraps around.
unfoldable pub fetch_add : ℕ → ℕ → ℕ
fetch_add n counter = (counter + n) % u64_mod

-- The files below the root: objects by their hashes, the temporary file of an object by the hash of
-- the object, and the partial transfers by their names.
pub record Files : Type 0 where
  pub objects : Dict (List ℕ)
  pub temps : Dict (List ℕ)
  pub partials : Dict (List ℕ)

pub record ContentStore (C : Type 0) : Type 0 where
  pub config : ContentStoreConfig
  pub files : Files
  pub pending_syncs : ℕ
  pub packs : Option PackfileManager
  pub cache : ChunkCache C
  pub batch_writer : BatchWriter
  pub dedup_index : Dict ObjectRef
  pub stats : ContentStoreRuntimeStats
