-- ===== src/Cas/Store/Toy.antt =====
-- A cache as a list, a toy hash of 64 hexadecimal digits, and a small store, for the runs.
use landropic.Prelude.{
  ℕ, List, [], ◌∷◌, ◌++◌, Option, none, some, true, false, Str, str_eq, take, replicate,
  if◌then◌else◌, ◌≡◌, refl, ap,
}
use mathlib.Core.Path.{subst}
use mathlib.Core.Option
use landropic.Prelude.Dict.{Dict, lookup, remove}
use landropic.Cas.Store.{
  always, uncompressed, ContentStoreConfig, CachedChunk, LruCache, ChunkCache, Files, ContentStore,
}
use landropic.Cas.Store.Operations.{Environment}

abbrev pub ListCache : Type 0
ListCache = ℕ × Dict CachedChunk

-- The last entry, and those before it
unfoldable pub split_last :
    Str × CachedChunk → Dict CachedChunk → (Str × CachedChunk) × Dict CachedChunk
split_last x [] = (x, [])
split_last x (y ∷ ys) = let split = split_last y ys in (split.0, x ∷ split.1)

split_last_lem :
    (x : Str × CachedChunk) (xs : Dict CachedChunk)
    → x ∷ xs ≡ (split_last x xs).1 ++ (split_last x xs).0 ∷ []
unfolding split_last
split_last_lem x [] = refl
split_last_lem x (y ∷ ys) = ap (◌∷◌ x) (split_last_lem y ys)

unfoldable pub pop_last : ListCache → Option ((Str × CachedChunk) × ListCache)
unfolding split_last
pop_last (n, []) = none
pop_last (n, x ∷ xs) = let split = split_last x xs in some (split.0, (n, split.1))

pub pop_last-none : (c : ListCache) → pop_last c ≡ none → c.1 ≡ []
unfolding pop_last
pop_last-none (n, []) e = refl
pop_last-none (n, x ∷ xs) e = absurd cc

pub pop_last-some :
    (c : ListCache) (entry : Str × CachedChunk) (c' : ListCache)
    → pop_last c ≡ some (entry, c')
    → c.1 ≡ c'.1 ++ entry ∷ []
unfolding pop_last
pop_last-some (n, []) entry c' e = absurd cc
pop_last-some (n, x ∷ xs) entry c' e =
    subst (λ (p : (Str × CachedChunk) × ListCache). x ∷ xs ≡ p.1.1 ++ p.0 ∷ [])
      (Option.some_inj.0 e) (split_last_lem x xs)

abbrev pub list_cache : LruCache ListCache
list_cache = record {
  with_capacity = λ n. (n, []);
  capacity = λ c. c.0;
  iter = λ c. c.1;
  peek = λ hash c. lookup hash c.1;
  touch = λ hash chunk c. (c.0, (hash, chunk) ∷ remove hash c.1);
  put = λ hash chunk c. (c.0, take c.0 ((hash, chunk) ∷ remove hash c.1));
  pop_lru = pop_last;
  clear = λ c. (c.0, []);
  iter_new = λ n. refl;
  iter_clear = λ c. refl;
  peek_iter = λ hash c. refl;
  iter_touch = λ hash chunk old c e. refl;
  iter_put = λ hash chunk c. refl;
  pop_none = pop_last-none;
  pop_some = pop_last-some;
}

abbrev pub bytes : List ℕ
bytes = 1 ∷ 2 ∷ 3 ∷ []

unfoldable pub toy_hash : List ℕ → Str
toy_hash other = if str_eq other bytes then replicate 64 97 else replicate 64 98

abbrev pub toy_environment : Environment
toy_environment = record {
  blake3 = toy_hash;
  read_back = λ written. some written;
  pack_name = λ now. now ∷ [];
  visit = λ readers. readers;
  compress_lz4 = λ plain. plain;
  compress_zstd = λ level plain. some plain;
  compress_snappy = λ plain. some plain;
}

abbrev pub config : ContentStoreConfig
config = record {
  fsync_policy = always;
  compression = uncompressed;
  enable_packfiles = false;
  cache_config = record { max_chunks = 2; max_size_bytes = 10; prefetch_enabled = true };
}

abbrev pub files : Files
files = record { objects = (replicate 64 98, 9 ∷ []) ∷ []; temps = []; partials = [] }

abbrev pub chunk : CachedChunk
chunk = record { bytes = 8 ∷ 9 ∷ []; size = 2; last_accessed = 0; access_count = 1 }

abbrev pub cache : ChunkCache ListCache
cache = record {
  chunks = (2, (replicate 64 98, chunk) ∷ []);
  total_size = 2;
  hit_count = 0;
  miss_count = 0;
  eviction_count = 0;
}

abbrev pub store : ContentStore ListCache
store = record {
  config = config;
  files = files;
  pending_syncs = 0;
  packs = none;
  cache = cache;
  batch_writer = record { pending = []; total_size = 0; last_flush = 0 };
  dedup_index = [];
  stats = record {
    writes = 0;
    reads = 0;
    bytes_written = 0;
    bytes_read = 0;
    cache_hits = 0;
    cache_misses = 0;
    batch_flushes = 0;
    dedup_hits = 0;
  };
}
