-- ===== src/Chunker/Tests.antt =====
-- The chunker's theorems at concrete inputs, and runs of its code.
use landropic.Prelude.{
  ℕ, ◌≡◌, refl, List, [], ◌∷◌, ◌++◌, map, arith, length, replicate, min, ◌==◌, false,
}
use landropic.Prelude.Outcome.{ok, Returns}
use landropic.Chunker.Config.{
  ChunkerConfig, Chunker, Result, validate, new, generate_gear_table, default_config,
}
use landropic.Chunker.Config
use landropic.Chunker.Boundary.{find_chunk_boundary, push_byte, roll}
use landropic.Chunker.Split.{
  Chunk, Read, bytes_read, io_error, chunked, chunk_bytes, chunk_stream, chunk_end, slice,
}
use landropic.Chunker.Cover.{HasSizes, IsChunking}
use landropic.Chunker.Stream.{chunk_stream-eq-chunk_bytes}
use landropic.Chunker.Locality.{move_chunk, chunk_bytes-resync}
use landropic.Chunker.Match.{FirstMatch, hash_of, rolled, find_chunk_boundary-FirstMatch}
use landropic.Chunker.Setup.{made, chunk_bytes-new}

-- A hash of one number, in place of the crate's.
abbrev toy_hash : List ℕ → List ℕ
toy_hash bytes = length bytes ∷ []

abbrev small_config : ChunkerConfig
small_config = record { min_size = 256; avg_size = 512; max_size = 1024; mask_bits = 8 }

abbrev small : Chunker
small = made small_config

small_made : new small_config ≡ Config.ok small
unfolding new
small_made = refl

small-HasSizes : HasSizes small
small-HasSizes = record { min_pos = omega arith; min_lt_max = omega arith }

abbrev zeros : List ℕ
zeros = replicate 700 0

chunk_bytes-new_example :
    Returns (IsChunking toy_hash small zeros 0) (chunk_bytes toy_hash small zeros)
chunk_bytes-new_example = chunk_bytes-new toy_hash small_config small zeros small_made

-- Two reads, the end of the stream, and a read that is not made.
abbrev reads : List Read
reads = bytes_read (1 ∷ 2 ∷ []) ∷ bytes_read (3 ∷ []) ∷ bytes_read [] ∷ io_error ∷ []

chunk_stream-eq-chunk_bytes_example :
    chunk_stream toy_hash small reads ≡ chunked (chunk_bytes toy_hash small (1 ∷ 2 ∷ 3 ∷ []))
chunk_stream-eq-chunk_bytes_example =
    chunk_stream-eq-chunk_bytes toy_hash small reads small-HasSizes

find_chunk_boundary-FirstMatch_example :
    Returns
      (FirstMatch small zeros 256 (min 1024 (length zeros)))
      (find_chunk_boundary small zeros 256 1024)
find_chunk_boundary-FirstMatch_example = find_chunk_boundary-FirstMatch small zeros 256 1024

-- Sizes below what `new` accepts, so that a short input has two chunks.
abbrev tiny : Chunker
tiny = record {
  config = record { min_size = 1; avg_size = 2; max_size = 3; mask_bits = 1 };
  mask = 1;
  gear_table = [];
}

abbrev head_chunk : Chunk
head_chunk = record { bytes = 7 ∷ 8 ∷ 9 ∷ []; hash = 3 ∷ []; offset = 0 }

abbrev tail_chunk : Chunk
tail_chunk = record { bytes = 1 ∷ 2 ∷ []; hash = 2 ∷ []; offset = 3 }

tiny_run :
    chunk_bytes toy_hash tiny ((7 ∷ 8 ∷ 9 ∷ []) ++ 1 ∷ 2 ∷ [])
    ≡ ok ((head_chunk ∷ []) ++ tail_chunk ∷ [])
unfolding chunk_bytes chunk_end slice find_chunk_boundary
tiny_run = refl

chunk_bytes-resync_example :
    Returns
      (λ ls. tail_chunk ∷ [] ≡ map (move_chunk toy_hash 3) ls)
      (chunk_bytes toy_hash tiny (1 ∷ 2 ∷ []))
chunk_bytes-resync_example =
    chunk_bytes-resync toy_hash tiny (7 ∷ 8 ∷ 9 ∷ []) (1 ∷ 2 ∷ []) (head_chunk ∷ [])
      (tail_chunk ∷ []) (record { min_pos = omega arith; min_lt_max = omega arith }) tiny_run refl

abbrev ramp : List ℕ
ramp = replicate 20 1 ++ replicate 20 2 ++ replicate 9 3

-- After one step the rolling hash is not the hash of the window's bytes: the oldest byte was turned
-- 47 times when it is taken out as if turned 48 times.
rolled_drift :
    (rolled generate_gear_table ramp 0 1 == hash_of generate_gear_table ramp 1 48) ≡ false
unfolding generate_gear_table rolled hash_of push_byte roll
rolled_drift = refl

out_of_order :
    new (record { min_size = 1000; avg_size = 500; max_size = 2000; mask_bits = 18 })
    ≡ Config.err Config.min_not_below_avg
unfolding new
out_of_order = refl
