-- ===== src/Chunker/Stream.antt =====
-- Streaming makes no difference: `chunk_stream` gives what `chunk_bytes` gives on the bytes read.
use landropic.Prelude.{
  ℕ, zero, suc, min, ◌≡◌, refl, sym, ap, ◌∙◌, List, [], ◌∷◌, ◌++◌, arith, ltb, length, Bool-cases,
  inl, inr,
}
use landropic.Prelude.Outcome.{Outcome}
use mathlib.Core.List.{append-nil, append_assoc}
use landropic.Chunker.Config.{Chunker}
use landropic.Chunker.Split.{
  Chunk, Read, bytes_read, io_error, StreamResult, chunked, failed, chunks_from, chunk_bytes,
  stream_chunks_from, read_all, chunk_buffer, chunk_stream,
}
use landropic.Chunker.Cover.{HasSizes, chunk_end_total, slice_total}

module _ (blake3 : List ℕ → List ℕ) where
  -- The clamp of the stream's loop changes nothing.
  stream_chunks_from-eq :
      (fuel : ℕ) (c : Chunker) (bytes : List ℕ) (offset : ℕ)
      → HasSizes c
      → stream_chunks_from blake3 fuel c bytes offset ≡ chunks_from blake3 fuel c bytes offset
  unfolding stream_chunks_from chunks_from
  stream_chunks_from-eq zero c bytes offset sizes = refl
  stream_chunks_from-eq (suc fuel) c bytes offset sizes =
      elim (Bool-cases (ltb offset (length bytes))) [
        | inl more ↦
            let (to, cut_e, cut) = chunk_end_total c bytes offset sizes (ground arith) in
            let clamp : min to (length bytes) ≡ to = omega arith in
            ground (
              arith,
              cut_e,
              clamp,
              stream_chunks_from-eq fuel c bytes to sizes,
              slice_total bytes offset to,
            )
        | inr end ↦ ground arith
      ]

  -- The bytes that the reads before the end of the stream give, or an error if one comes first.
  abbrev pub delivered : List Read → StreamResult (List ℕ)
  delivered [] = chunked []
  delivered (bytes_read [] ∷ reads) = chunked []
  delivered (bytes_read (b ∷ bs) ∷ reads) = elim (delivered reads) [
    | chunked rest ↦ chunked ((b ∷ bs) ++ rest)
    | failed ↦ failed
  ]
  delivered (io_error ∷ reads) = failed

  -- Behind what is already in the buffer.
  abbrev prepended : List ℕ → StreamResult (List ℕ) → StreamResult (List ℕ)
  prepended buffer (chunked rest) = chunked (buffer ++ rest)
  prepended buffer failed = failed

  prepended-prepended :
      (xs ys : List ℕ) (r : StreamResult (List ℕ))
      → prepended (xs ++ ys) r ≡ prepended xs (prepended ys r)
  prepended-prepended xs ys (chunked rest) = ap chunked (append_assoc xs ys rest)
  prepended-prepended xs ys failed = refl

  prepended-nil : (buffer : List ℕ) → prepended buffer (chunked []) ≡ chunked buffer
  prepended-nil buffer = ap chunked (append-nil buffer)

  -- The reading loop gathers what is delivered.
  read_all-delivered :
      (buffer : List ℕ) (reads : List Read)
      → read_all buffer reads ≡ prepended buffer (delivered reads)
  unfolding read_all
  read_all-delivered buffer [] = sym (prepended-nil buffer)
  read_all-delivered buffer (bytes_read [] ∷ reads) = sym (prepended-nil buffer)
  read_all-delivered buffer (bytes_read (b ∷ bs) ∷ reads) =
      read_all-delivered (buffer ++ b ∷ bs) reads
      ∙ prepended-prepended buffer (b ∷ bs) (delivered reads)
  read_all-delivered buffer (io_error ∷ reads) = refl

  chunk_buffer-eq :
      (c : Chunker) (bytes : List ℕ)
      → HasSizes c
      → chunk_buffer blake3 c bytes ≡ chunk_bytes blake3 c bytes
  unfolding chunk_buffer chunk_bytes
  chunk_buffer-eq c [] sizes = refl
  chunk_buffer-eq c (b ∷ bs) sizes =
      stream_chunks_from-eq (suc (length (b ∷ bs))) c (b ∷ bs) 0 sizes

  abbrev pub on_chunked :
      (List ℕ → Outcome (List Chunk)) → StreamResult (List ℕ) → StreamResult (Outcome (List Chunk))
  on_chunked f (chunked bytes) = chunked (f bytes)
  on_chunked f failed = failed

  chunk_stream_lem :
      (c : Chunker) (r : StreamResult (List ℕ))
      → HasSizes c
      → (elim (prepended [] r) [
        | chunked buffer ↦ chunked (chunk_buffer blake3 c buffer)
        | failed ↦ failed
      ])
        ≡ on_chunked (chunk_bytes blake3 c) r
  chunk_stream_lem c (chunked bytes) sizes = ap chunked (chunk_buffer-eq c bytes sizes)
  chunk_stream_lem c failed sizes = refl

  -- However the reader cuts the bytes up, `chunk_stream` gives what `chunk_bytes` gives on all of
  -- them, and it fails exactly when a read fails before the end of the stream.
  pub chunk_stream-eq-chunk_bytes :
      (c : Chunker) (reads : List Read)
      → HasSizes c
      → chunk_stream blake3 c reads ≡ on_chunked (chunk_bytes blake3 c) (delivered reads)
  unfolding chunk_stream
  chunk_stream-eq-chunk_bytes c reads sizes =
      rw (read_all-delivered [] reads, chunk_stream) (chunk_stream_lem c (delivered reads) sizes)
