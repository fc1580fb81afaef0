-- ===== src/Chunker/Split.antt =====
-- landro-chunker/src/chunker.rs: `chunk_bytes` and `chunk_stream`.
-- `blake3` is the hash of the crate blake3. Sizes and offsets stay far below 2 ^ 64, so usize and
-- u64 are plain numbers here. The `while` loops take fuel: a chunk is never empty, so the length
-- of the buffer and one more round suffice.
use landropic.Prelude.{
  ℕ, zero, suc, ◌+◌, ◌-◌, min, ◌&&◌, true, false, List, [], ◌∷◌, ◌++◌, ltb, leb, if◌then◌else◌,
  length, take, drop,
}
use landropic.Prelude.Outcome.{Outcome, ok, panicked, exhausted, ◌>>=◌}
use landropic.Chunker.Config.{Chunker}
use landropic.Chunker.Boundary.{find_chunk_boundary}

pub record Chunk : Type 0 where
  pub bytes : List ℕ
  pub hash : List ℕ
  pub offset : ℕ

-- &data[from..to]
unfoldable pub slice : List ℕ → ℕ → ℕ → Outcome (List ℕ)
slice bytes from to =
    if leb from to && leb to (length bytes)
    then ok (take (to - from) (drop from bytes))
    else panicked

-- The end of the chunk that begins at `start`.
unfoldable pub chunk_end : Chunker → List ℕ → ℕ → Outcome ℕ
chunk_end c bytes start =
    let len : ℕ = length bytes in
    let remaining : ℕ = len - start in
    let first : ℕ = start + min c.config.min_size remaining in
    if ltb first len && ltb c.config.min_size remaining
    then find_chunk_boundary c bytes first (min (start + c.config.max_size) len)
    else ok first

module _ (blake3 : List ℕ → List ℕ) where
  unfoldable pub chunks_from : ℕ → Chunker → List ℕ → ℕ → Outcome (List Chunk)
  chunks_from zero c bytes offset = exhausted
  chunks_from (suc fuel) c bytes offset = elim (ltb offset (length bytes)) [
    | true ↦ do
      to ← chunk_end c bytes offset
      chunk_data ← slice bytes offset to
      rest ← chunks_from fuel c bytes to
      ok (record { bytes = chunk_data; hash = blake3 chunk_data; offset = offset } ∷ rest)
    | false ↦ ok []
  ]

  unfoldable pub chunk_bytes : Chunker → List ℕ → Outcome (List Chunk)
  unfolding chunks_from
  chunk_bytes c bytes = chunks_from (suc (length bytes)) c bytes 0

  -- The loop of `chunk_stream`: the same, but for a clamp on the chunk's end.
  unfoldable pub stream_chunks_from : ℕ → Chunker → List ℕ → ℕ → Outcome (List Chunk)
  stream_chunks_from zero c buffer offset = exhausted
  stream_chunks_from (suc fuel) c buffer offset = elim (ltb offset (length buffer)) [
    | true ↦ do
      cut ← chunk_end c buffer offset
      let to = min cut (length buffer)
      chunk_data ← slice buffer offset to
      rest ← stream_chunks_from fuel c buffer to
      ok (record { bytes = chunk_data; hash = blake3 chunk_data; offset = 0 + offset } ∷ rest)
    | false ↦ ok []
  ]

-- What the reader gives, one item for each call of `read`.
pub data Read : Type 0 where
  bytes_read : List ℕ → Read
  io_error : Read

pub data StreamResult {ℓ} (A : Type ℓ) : Type ℓ where
  chunked : A → StreamResult A
  failed : StreamResult A

-- The reading loop: it stops at a read of no bytes, and at an error. A reader whose list of calls
-- has run out is at its end.
unfoldable pub read_all : List ℕ → List Read → StreamResult (List ℕ)
read_all buffer [] = chunked buffer
read_all buffer (bytes_read [] ∷ reads) = chunked buffer
read_all buffer (bytes_read (b ∷ bs) ∷ reads) = read_all (buffer ++ b ∷ bs) reads
read_all buffer (io_error ∷ reads) = failed

module _ (blake3 : List ℕ → List ℕ) where
  unfoldable pub chunk_buffer : Chunker → List ℕ → Outcome (List Chunk)
  unfolding stream_chunks_from
  chunk_buffer c [] = ok []
  chunk_buffer c (b ∷ bs) = stream_chunks_from blake3 (suc (length (b ∷ bs))) c (b ∷ bs) 0

  unfoldable pub chunk_stream : Chunker → List Read → StreamResult (Outcome (List Chunk))
  unfolding read_all chunk_buffer
  chunk_stream c reads = elim (read_all [] reads) [
    | chunked buffer ↦ chunked (chunk_buffer c buffer)
    | failed ↦ failed
  ]
