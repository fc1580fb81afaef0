-- ===== src/Chunker/Setup.antt =====
-- What `ChunkerConfig::validate` accepts, and what `Chunker::new` hands to the chunking.
use landropic.Prelude.{ℕ, ◌-◌, ◌^◌, ◌≤◌, ◌<◌, ◌≡◌, ◌↔◌, List, arith}
use landropic.Prelude.Outcome.{Returns}
use landropic.Chunker.Config.{
  ChunkerConfig, Chunker, ok, validate, new, generate_gear_table, min_chunk_size, max_chunk_size,
}
use landropic.Chunker.Split.{chunk_bytes}
use landropic.Chunker.Cover.{HasSizes, IsChunking, chunk_bytes-IsChunking}

-- The documented limits of a configuration.
pub record IsSane (c : ChunkerConfig) : Type 0 where
  pub min_lt_avg : c.min_size < c.avg_size
  pub avg_lt_max : c.avg_size < c.max_size
  pub min_large : min_chunk_size ≤ c.min_size
  pub max_small : c.max_size ≤ max_chunk_size
  pub some_bits : 1 ≤ c.mask_bits
  pub few_bits : c.mask_bits ≤ 32

validate_iff : (config : ChunkerConfig) → (validate config ≡ ok tt) ↔ IsSane config
unfolding validate
validate_iff config = (λ e. ground arith, λ sane. ground arith)

-- The chunker that `Chunker::new` makes of a configuration that it accepts.
abbrev pub made : ChunkerConfig → Chunker
made config = record {
  config = config;
  mask = 2 ^ config.mask_bits - 1;
  gear_table = generate_gear_table;
}

-- `Chunker::new` succeeds exactly on the configurations within the limits: sizes in strict order,
-- from 256 bytes to 16 MB, and 1 to 32 mask bits. What it makes then keeps the configuration and
-- has the mask of the low `mask_bits` bits.
pub new-IsSane :
    (config : ChunkerConfig) (c : Chunker)
    → (new config ≡ ok c) ↔ (IsSane config × (c ≡ made config))
unfolding new
new-IsSane config c = (
  λ e. ((validate_iff config).0 (ground arith), ground arith),
  λ (sane, e). ground (arith, (validate_iff config).1 sane),
)

-- So its sizes are fit for chunking.
pub new-HasSizes : (config : ChunkerConfig) (c : Chunker) → new config ≡ ok c → HasSizes c
new-HasSizes config c e =
    let (sane, same) = (new-IsSane config c).0 e in
    ground (arith, sane.min_large, sane.min_lt_avg, sane.avg_lt_max)

module _ (blake3 : List ℕ → List ℕ) where
  -- With a chunker that `Chunker::new` made, `chunk_bytes` returns on every input: it neither reads
  -- out of bounds nor runs on. Its chunks, put together, are the input; each begins where the one
  -- before it ends; none is empty or above the maximum, and none but the last below the minimum;
  -- each carries the hash of its own bytes.
  pub chunk_bytes-new :
      (config : ChunkerConfig) (c : Chunker) (bytes : List ℕ)
      → new config ≡ ok c
      → Returns (IsChunking blake3 c bytes 0) (chunk_bytes blake3 c bytes)
  chunk_bytes-new config c bytes e = chunk_bytes-IsChunking blake3 c bytes (new-HasSizes config c e)
