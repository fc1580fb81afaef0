-- ===== src/Chunker/Cover.antt =====
-- The chunks cover the input: in order, without gaps or overlaps, and within the size limits.
use mathlib.Core.Path.{subst}
use landropic.Prelude.{
  ℕ, zero, suc, ◌+◌, ◌-◌, ◌≤◌, ◌<◌, min, ◌≡◌, refl, sym, ap, ◌∙◌, ◌&&◌, ◌⊎◌, All, List, [], ◌∷◌,
  ◌++◌, arith, ltb, length, take, drop, Bool-cases, inl, inr, length-take, length-drop,
  take-append-drop, drop-drop, length-append, drop-all,
}
use landropic.Prelude.Outcome.{ok, Returns}
use landropic.Chunker.Config.{Chunker}
use landropic.Chunker.Boundary.{find_chunk_boundary_total}
use landropic.Chunker.Split.{Chunk, slice, chunk_end, chunks_from, chunk_bytes}

-- What `Chunker::new` guarantees of the sizes.
pub record HasSizes (c : Chunker) : Type 0 where
  pub min_pos : 0 < c.config.min_size
  pub min_lt_max : c.config.min_size < c.config.max_size

-- The end of a chunk moves on, stays in the buffer, and keeps the limits, the lower one unless the
-- buffer ends first.
pub record IsCut (c : Chunker) (bytes : List ℕ) (start to : ℕ) : Type 0 where
  pub moves : start < to
  pub inside : to ≤ length bytes
  pub not_long : to ≤ start + c.config.max_size
  pub not_short : min (start + c.config.min_size) (length bytes) ≤ to

pub chunk_end_total :
    (c : Chunker) (bytes : List ℕ) (start : ℕ)
    → HasSizes c
    → start < length bytes
    → Returns (IsCut c bytes start) (chunk_end c bytes start)
unfolding chunk_end
chunk_end_total c bytes start sizes h =
    elim (Bool-cases (ltb first (length bytes) && ltb c.config.min_size remaining)) [
      | inl searched ↦
          let (to, e, (low, high)) =
            find_chunk_boundary_total c bytes first limit (ground arith) (ground arith) in
          (to, ground arith, omega arith)
      | inr whole ↦ (first, ground arith, ground arith)
    ]
  where
    remaining : ℕ
    remaining = length bytes - start

    first : ℕ
    first = start + min c.config.min_size remaining

    limit : ℕ
    limit = min (start + c.config.max_size) (length bytes)

-- The bytes of the chunks, in order.
abbrev pub contents : List Chunk → List ℕ
contents [] = []
contents (k ∷ ks) = k.bytes ++ contents ks

-- Each chunk begins where the one before it ends.
abbrev pub Contiguous : ℕ → List Chunk → Type 0
Contiguous offset [] = Unit
Contiguous offset (k ∷ ks) = (k.offset ≡ offset) × Contiguous (offset + length k.bytes) ks

-- Every chunk has from the minimum to the maximum of bytes; the last may be shorter, but not empty.
abbrev pub Sized : Chunker → List Chunk → Type 0
Sized c [] = Unit
Sized c (k ∷ []) = (0 < length k.bytes) × (length k.bytes ≤ c.config.max_size)
Sized c (k ∷ j ∷ ks) =
    (c.config.min_size ≤ length k.bytes) × (length k.bytes ≤ c.config.max_size) × Sized c (j ∷ ks)

pub slice_total :
    (bytes : List ℕ) (from to : ℕ)
    → from ≤ to
    → to ≤ length bytes
    → slice bytes from to ≡ ok (take (to - from) (drop from bytes))
unfolding slice
slice_total bytes from to h k = ground arith

-- Taking a slice off the front of what is left leaves what is left behind it.
slice-append-drop :
    (bytes : List ℕ) (from to : ℕ)
    → from ≤ to
    → take (to - from) (drop from bytes) ++ drop to bytes ≡ drop from bytes
slice-append-drop bytes from to h =
    ap (◌++◌ (take (to - from) (drop from bytes)))
      (sym (drop-drop from (to - from) to bytes (omega arith)))
    ∙ take-append-drop (to - from) (drop from bytes)

Sized-cons :
    (c : Chunker) (bytes : List ℕ) (start to : ℕ) (k : Chunk) (ks : List Chunk)
    → HasSizes c
    → IsCut c bytes start to
    → length k.bytes ≡ to - start
    → length (contents ks) ≡ length bytes - to
    → Sized c ks
    → Sized c (k ∷ ks)
Sized-cons c bytes start to k [] sizes cut e f s = (omega arith, omega arith)
Sized-cons c bytes start to k (j ∷ []) sizes cut e f s =
    let room : length bytes - to ≡ length j.bytes + 0 = sym f ∙ length-append j.bytes [] in
    (omega arith, omega arith, s)
Sized-cons c bytes start to k (j ∷ i ∷ ks) sizes cut e f s =
    let room : length bytes - to ≡ length j.bytes + length (contents (i ∷ ks)) =
      sym f ∙ length-append j.bytes (contents (i ∷ ks)) in
    (omega arith, omega arith, s)

le_cases : (a b : ℕ) → a ≤ b → (a ≡ b) ⊎ (a < b)
le_cases a b h = grind arith

module _ (blake3 : List ℕ → List ℕ) where
  abbrev pub Hashed : Chunk → Type 0
  Hashed k = k.hash ≡ blake3 k.bytes

  pub record IsChunking (c : Chunker) (bytes : List ℕ) (offset : ℕ) (ks : List Chunk) : Type 0 where
    pub whole : contents ks ≡ drop offset bytes
    pub contiguous : Contiguous offset ks
    pub sized : Sized c ks
    pub hashed : All Hashed ks

  chunks_from_done :
      (fuel : ℕ) (c : Chunker) (bytes : List ℕ) (offset : ℕ)
      → offset ≡ length bytes
      → Returns (IsChunking c bytes offset) (chunks_from blake3 (suc fuel) c bytes offset)
  unfolding chunks_from
  chunks_from_done fuel c bytes offset h = (
    [],
    ground arith,
    record {
      whole = sym (drop-all offset bytes (omega arith));
      contiguous = tt;
      sized = tt;
      hashed = tt;
    },
  )

  -- The chunk between two positions.
  abbrev between : List ℕ → ℕ → ℕ → Chunk
  between bytes from to =
      let chunk_data : List ℕ = take (to - from) (drop from bytes) in
      record { bytes = chunk_data; hash = blake3 chunk_data; offset = from }

  IsChunking-cons :
      (c : Chunker) (bytes : List ℕ) (start to : ℕ) (ks : List Chunk)
      → HasSizes c
      → IsCut c bytes start to
      → IsChunking c bytes to ks
      → IsChunking c bytes start (between bytes start to ∷ ks)
  IsChunking-cons c bytes start to ks sizes cut rest = record {
    whole =
        ap (◌++◌ (take (to - start) (drop start bytes))) rest.whole
        ∙ slice-append-drop bytes start to (omega arith);
    contiguous = (refl, subst (λ o. Contiguous o ks) (omega (arith, size)) rest.contiguous);
    sized =
        Sized-cons c bytes start to (between bytes start to) ks sizes cut size
          (ap length rest.whole ∙ length-drop to bytes) rest.sized;
    hashed = (refl, rest.hashed);
  }
    where
      size : length (take (to - start) (drop start bytes)) ≡ to - start
      size = omega (arith, length-take (to - start) (drop start bytes), length-drop start bytes)

  -- One round of the loop.
  chunks_from_more :
      (fuel : ℕ) (c : Chunker) (bytes : List ℕ) (offset : ℕ) {to : ℕ} {ks : List Chunk}
      → offset < to
      → to ≤ length bytes
      → chunk_end c bytes offset ≡ ok to
      → chunks_from blake3 fuel c bytes to ≡ ok ks
      → chunks_from blake3 (suc fuel) c bytes offset ≡ ok (between bytes offset to ∷ ks)
  unfolding chunks_from
  chunks_from_more fuel c bytes offset {to} h k cut rest =
      ground (arith, slice_total bytes offset to)

  chunks_from_total :
      (fuel : ℕ) (c : Chunker) (bytes : List ℕ) (offset : ℕ)
      → HasSizes c
      → offset ≤ length bytes
      → length bytes - offset < fuel
      → Returns (IsChunking c bytes offset) (chunks_from blake3 fuel c bytes offset)
  chunks_from_total zero c bytes offset sizes h enough = elim enough [ ]
  chunks_from_total (suc fuel) c bytes offset sizes h enough =
      elim (le_cases offset (length bytes) h) [
        | inl end ↦ chunks_from_done fuel c bytes offset end
        | inr more ↦
            let (to, cut_e, cut) = chunk_end_total c bytes offset sizes more in
            let (ks, rest_e, rest) =
              chunks_from_total fuel c bytes to sizes cut.inside (omega arith) in
            (
              _,
              chunks_from_more fuel c bytes offset cut.moves cut.inside cut_e rest_e,
              IsChunking-cons c bytes offset to ks sizes cut rest,
            )
      ]

  -- From the sizes that `Chunker::new` checks, `chunk_bytes` returns on every input: it neither
  -- reads out of bounds nor runs on. Its chunks, put together, are the input; each begins where the
  -- one before it ends; none is empty or above the maximum, and none but the last below the
  -- minimum; each carries the hash of its own bytes.
  pub chunk_bytes-IsChunking :
      (c : Chunker) (bytes : List ℕ)
      → HasSizes c
      → Returns (IsChunking c bytes 0) (chunk_bytes blake3 c bytes)
  unfolding chunk_bytes
  chunk_bytes-IsChunking c bytes sizes =
      chunks_from_total (suc (length bytes)) c bytes 0 sizes (omega arith) (omega arith)
