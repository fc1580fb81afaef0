-- ===== src/Cas/Store/Batch.antt =====
-- landro-cas/src/storage.rs: the batched writes and the compression of what they store. A task of a
-- flush is given its turn in the order of the batch; instants are in milliseconds.
pub mod Queue
use landropic.Prelude.{
  ℕ, ◌+◌, ◌-◌, ◌*◌, List, [], ◌∷◌, ◌++◌, Option, none, some, Bool, ◌||◌, Str, length, leb,
  if◌then◌else◌,
}
use landropic.Prelude.Dict.{lookup}
use landropic.Cas.Packfile.{Result, ok, err, CasError, invalid_operation, internal}
use landropic.Cas.Store.{
  CompressionType, uncompressed, lz4, zstd, snappy, LruCache, ContentStore, ObjectRef, BatchWriter,
  fetch_add,
}
use landropic.Cas.Store.Disk.{file_exists, write_atomic}
use landropic.Cas.Store.Cache.{cache_chunk}
use landropic.Cas.Store.Operations.{
  Environment, reference, validate_object_size, count_dedup_hit, add_to_dedup, count_write,
}

unfoldable pub should_flush : ℕ → BatchWriter → Bool
should_flush now batch =
    leb 100 (length batch.pending)
    || leb (10 * 1024 * 1024) batch.total_size
    || leb 100 (now - batch.last_flush)

module _ {C : Type 0} where
  unfoldable pub push_pending : Str → List ℕ → ContentStore C → ContentStore C
  push_pending hash bytes s = record s {
    batch_writer = record s.batch_writer {
      pending = s.batch_writer.pending ++ (hash, bytes) ∷ [];
      total_size = s.batch_writer.total_size + length bytes;
    };
  }

  unfoldable pub drain_pending : ContentStore C → ContentStore C
  unfolding fetch_add
  drain_pending s = record s {
    batch_writer = record s.batch_writer { pending = [] };
    stats = record s.stats { batch_flushes = fetch_add 1 s.stats.batch_flushes };
  }

  unfoldable pub reset_batch : ℕ → ContentStore C → ContentStore C
  reset_batch now s = record s {
    batch_writer = record s.batch_writer { total_size = 0; last_flush = now };
  }

module _ {C : Type 0} (env : Environment) (lru : LruCache C) where
  -- compress_data, and the data where nothing was compressed
  unfoldable pub data_to_write : CompressionType → List ℕ → Result (List ℕ)
  data_to_write uncompressed bytes = ok bytes
  data_to_write lz4 bytes = ok (env.compress_lz4 bytes)
  data_to_write (zstd level) bytes = elim (env.compress_zstd level bytes) [
    | none ↦ err internal
    | some packed ↦ ok packed
  ]
  data_to_write snappy bytes = elim (env.compress_snappy bytes) [
    | none ↦ err internal
    | some packed ↦ ok packed
  ]

  -- What follows the write of the file: the cache, the index and the counters.
  unfoldable pub record_written :
      ℕ → List ℕ → Str → ContentStore C → Option (Result ObjectRef × ContentStore C)
  unfolding cache_chunk add_to_dedup count_write reference
  record_written now bytes hash s =
      elim (cache_chunk lru s.config.cache_config.max_size_bytes now hash bytes s.cache) [
        | none ↦ none
        | some cache ↦ some (
          ok (reference hash bytes),
          count_write (length bytes)
              (add_to_dedup hash (reference hash bytes) (record s { cache = cache })),
        )
      ]

  unfoldable pub write_individual_optimized :
      ℕ → List ℕ → Str → ContentStore C → Option (Result ObjectRef × ContentStore C)
  unfolding file_exists data_to_write write_atomic record_written reference
  write_individual_optimized now bytes hash s =
      if file_exists hash s.files.objects
      then some (ok (reference hash bytes), s)
      else elim (data_to_write s.config.compression bytes) [
        | err e ↦ some (err e, s)
        | ok packed ↦ record_written now bytes hash (write_atomic hash packed s)
      ]

  -- A task works on a clone, whose counters are its own.
  unfoldable pub write_pending :
      ℕ → List ℕ → Str → ContentStore C → Option (Result ObjectRef × ContentStore C)
  unfolding write_individual_optimized
  write_pending now bytes hash s = elim (write_individual_optimized now bytes hash s) [
    | none ↦ none
    | some written ↦ some (written.0, record written.1 { stats = s.stats })
  ]

  -- The first error, after all tasks
  unfoldable pub write_all :
      ℕ → List (Str × List ℕ) → ContentStore C → Option (Option CasError × ContentStore C)
  unfolding write_pending
  write_all now [] s = some (none, s)
  write_all now ((hash, bytes) ∷ chunks) s = elim (write_pending now bytes hash s) [
    | none ↦ none
    | some written ↦ elim (write_all now chunks written.1) [
      | none ↦ none
      | some others ↦ elim written.0 [ ok r ↦ some others | err e ↦ some (some e, others.1) ]
    ]
  ]

  unfoldable pub flush_batch_internal :
      ℕ → ContentStore C → Option (Option CasError × ContentStore C)
  unfolding drain_pending write_all reset_batch
  flush_batch_internal now s = elim s.batch_writer.pending [
    | [] ↦ some (none, s)
    | chunk ∷ chunks ↦ elim (write_all now (chunk ∷ chunks) (drain_pending s)) [
      | none ↦ none
      | some flushed ↦ elim flushed.0 [
        | some e ↦ some (some e, flushed.1)
        | none ↦ some (none, reset_batch now flushed.1)
      ]
    ]
  ]

  unfoldable pub flush_batch : ℕ → ContentStore C → Option (Option CasError × ContentStore C)
  unfolding flush_batch_internal
  flush_batch now s = elim s.batch_writer.pending [
    | [] ↦ some (none, s)
    | chunk ∷ chunks ↦ flush_batch_internal now s
  ]

  -- The hash that came with the chunk, or its own
  unfoldable pub hash_of : List ℕ → Option Str → Str
  hash_of bytes none = env.blake3 bytes
  hash_of bytes (some hash) = hash

  -- The loop over the chunks, with the references so far
  unfoldable pub push_all :
      List (List ℕ × Option Str)
      → List ObjectRef
      → ContentStore C
      → Result (List ObjectRef) × ContentStore C
  unfolding validate_object_size hash_of count_dedup_hit push_pending reference
  push_all [] results s = (ok results, s)
  push_all ((bytes, expected) ∷ chunks) results s =
      let hash = hash_of bytes expected in
      if validate_object_size (length bytes)
      then elim (lookup hash s.dedup_index) [
        | some r ↦ push_all chunks (results ++ r ∷ []) (count_dedup_hit s)
        | none ↦ push_all chunks (results ++ reference hash bytes ∷ []) (push_pending hash bytes s)
      ]
      else (err invalid_operation, s)

  -- if batch.should_flush() { self.flush_batch_internal(&mut batch).await?; }
  unfoldable pub flush_if_due :
      ℕ → List ObjectRef → ContentStore C → Option (Result (List ObjectRef) × ContentStore C)
  unfolding should_flush flush_batch_internal
  flush_if_due now results s =
      if should_flush now s.batch_writer
      then elim (flush_batch_internal now s) [
        | none ↦ none
        | some flushed ↦ elim flushed.0 [
          | some e ↦ some (err e, flushed.1)
          | none ↦ some (ok results, flushed.1)
        ]
      ]
      else some (ok results, s)

  unfoldable pub write_batch :
      ℕ
      → List (List ℕ × Option Str)
      → ContentStore C
      → Option (Result (List ObjectRef) × ContentStore C)
  unfolding push_all flush_if_due
  write_batch now chunks s =
      let (pushed, s') = push_all chunks [] s in
      elim pushed [ err e ↦ some (err e, s') | ok results ↦ flush_if_due now results s' ]
