-- ===== src/Chunker/Locality.antt =====
-- Cut points depend on nothing before the chunk that they end: behind a common cut, equal bytes
-- give equal chunks. This is what makes chunks shared between versions of a file.
use mathlib.Core.Path.{subst}
use landropic.Prelude.{
  ℕ, zero, suc, ◌+◌, ◌-◌, ◌≤◌, ◌≡◌, refl, ap, ◌∙◌, List, [], ◌∷◌, ◌++◌, map, arith, ltb, length,
  drop, length-append, length-take, length-drop, Bool-cases, inl, inr,
}
use landropic.Prelude.Outcome.{Outcome, ok, ◌>>=◌, Outcome-cases, Returns}
use landropic.Chunker.Config.{Chunker}
use landropic.Chunker.Split.{Chunk, slice, chunk_end, chunks_from, chunk_bytes}
use landropic.Chunker.Cover.{HasSizes, contents, chunk_bytes-IsChunking}
use landropic.Chunker.Shift.{chunk_end-append, slice-append, length_sum}

length-slice :
    (bytes : List ℕ) (from to : ℕ) (piece : List ℕ)
    → slice bytes from to ≡ ok piece
    → from + length piece ≡ to
unfolding slice
length-slice bytes from to piece e =
    ground (arith, length-take (to - from) (drop from bytes), length-drop from bytes)

module _ (blake3 : List ℕ → List ℕ) where
  -- A chunk moved on by `o`, with its bytes and hash as they are.
  abbrev pub move_chunk : ℕ → Chunk → Chunk
  move_chunk o k = record k { offset = o + k.offset }

  abbrev moved_chunks : ℕ → Outcome (List Chunk) → Outcome (List Chunk)
  moved_chunks o r = r >>= λ ks. ok (map (move_chunk o) ks)

  module _ (p rest : List ℕ) where
    chunks_from-append :
        (fuel : ℕ) (c : Chunker) (start start' : ℕ)
        → length p + start ≡ start'
        → chunks_from blake3 fuel c (p ++ rest) start'
          ≡ moved_chunks (length p) (chunks_from blake3 fuel c rest start)
    unfolding chunks_from
    chunks_from-append zero c start start' e = refl
    chunks_from-append (suc fuel) c start start' e = elim (Bool-cases (ltb start (length rest))) [
      | inl more ↦
          let cut = chunk_end-append p rest c start start' e (ground arith) in
          elim (Outcome-cases (chunk_end c rest start)) [
            | inl bad ↦ ground (arith, cut, length_sum p rest)
            | inr (inl bad) ↦ ground (arith, cut, length_sum p rest)
            | inr (inr (to, good)) ↦
                let piece = slice-append p rest start start' to (length p + to) e refl in
                let ih = chunks_from-append fuel c to (length p + to) refl in
                elim (Outcome-cases (slice rest start to)) [
                  | inl bad ↦ ground (arith, cut, length_sum p rest, piece)
                  | inr (inl bad) ↦ ground (arith, cut, length_sum p rest, piece)
                  | inr (inr (bs, ok_bs)) ↦ ground (arith, cut, length_sum p rest, piece, ih)
                ]
          ]
      | inr end ↦ ground (arith, length_sum p rest)
    ]

  -- What one round of a successful run did.
  record IsRound (fuel : ℕ) (c : Chunker) (bytes : List ℕ) (offset : ℕ) (k : Chunk)
      (ks : List Chunk) (to : ℕ) : Type 0 where
    cut : chunk_end c bytes offset ≡ ok to
    piece : slice bytes offset to ≡ ok k.bytes
    later : chunks_from blake3 fuel c bytes to ≡ ok ks
    fields : k ≡ record { bytes = k.bytes; hash = blake3 k.bytes; offset = offset }

  chunks_from_cons :
      (fuel : ℕ) (c : Chunker) (bytes : List ℕ) (offset : ℕ) (k : Chunk) (ks : List Chunk)
      → chunks_from blake3 (suc fuel) c bytes offset ≡ ok (k ∷ ks)
      → (to : ℕ) × IsRound fuel c bytes offset k ks to
  unfolding chunks_from
  chunks_from_cons fuel c bytes offset k ks e = elim (Outcome-cases (chunk_end c bytes offset)) [
    | inl bad ↦ absurd (ground arith)
    | inr (inl bad) ↦ absurd (ground arith)
    | inr (inr (to, good)) ↦ (
      to,
      record { cut = good; piece = ground arith; later = ground arith; fields = ground arith },
    )
  ]

  chunks_from_nil :
      (fuel : ℕ) (c : Chunker) (bytes : List ℕ) (offset : ℕ)
      → chunks_from blake3 (suc fuel) c bytes offset ≡ ok []
      → length bytes ≤ offset
  unfolding chunks_from
  chunks_from_nil fuel c bytes offset e = ground arith

  -- A successful run does not depend on its fuel.
  same_run :
      (f g : ℕ) (c : Chunker) (bytes : List ℕ) (offset : ℕ) (ks ls : List Chunk)
      → chunks_from blake3 f c bytes offset ≡ ok ks
      → chunks_from blake3 g c bytes offset ≡ ok ls
      → ks ≡ ls
  unfolding chunks_from
  same_run zero g c bytes offset ks ls e e' = cc
  same_run (suc f) zero c bytes offset ks ls e e' = cc
  same_run (suc f) (suc g) c bytes offset [] [] e e' = refl
  same_run (suc f) (suc g) c bytes offset [] (l ∷ ls) e e' = absurd (ground arith)
  same_run (suc f) (suc g) c bytes offset (k ∷ ks) [] e e' = absurd (ground arith)
  same_run (suc f) (suc g) c bytes offset (k ∷ ks) (l ∷ ls) e e' =
      let (to, r) = chunks_from_cons f c bytes offset k ks e in
      let (to', r') = chunks_from_cons g c bytes offset l ls e' in
      let same_to : to' ≡ to = ground (arith, r.cut, r'.cut) in
      let tails =
        same_run f g c bytes to ks ls r.later
          (subst (λ t. chunks_from blake3 g c bytes t ≡ ok ls) same_to r'.later) in
      ground (arith, tails, same_to, r.piece, r'.piece, r.fields, r'.fields)

  -- The chunks behind some first chunks are a run from where those end.
  chunks_from-append_run :
      (fuel : ℕ) (c : Chunker) (bytes : List ℕ) (offset : ℕ) (ks js : List Chunk)
      → chunks_from blake3 fuel c bytes offset ≡ ok (ks ++ js)
      → (f : ℕ) × (chunks_from blake3 f c bytes (offset + length (contents ks)) ≡ ok js)
  chunks_from-append_run fuel c bytes offset [] js e =
      (fuel, subst (λ t. chunks_from blake3 fuel c bytes t ≡ ok js) (omega arith) e)
  chunks_from-append_run zero c bytes offset (k ∷ ks) js e = absurd (unfold chunks_from in cc)
  chunks_from-append_run (suc fuel) c bytes offset (k ∷ ks) js e =
      let (to, r) = chunks_from_cons fuel c bytes offset k (ks ++ js) e in
      let (f, run) = chunks_from-append_run fuel c bytes to ks js r.later in
      (
        f,
        subst (λ t. chunks_from blake3 f c bytes t ≡ ok js)
            (omega (
              arith,
              length-append k.bytes (contents ks),
              length-slice bytes offset to k.bytes r.piece,
            ))
            run,
      )

  -- When a cut falls between `p` and `rest`, the chunks behind it are those of `rest` alone, moved
  -- on by the length of `p`: whatever `p` is, the bytes and hashes from the cut on are the same.
  pub chunk_bytes-resync :
      (c : Chunker) (p rest : List ℕ) (ks js : List Chunk)
      → HasSizes c
      → chunk_bytes blake3 c (p ++ rest) ≡ ok (ks ++ js)
      → contents ks ≡ p
      → Returns (λ ls. js ≡ map (move_chunk (length p)) ls) (chunk_bytes blake3 c rest)
  unfolding chunk_bytes
  chunk_bytes-resync c p rest ks js sizes e front =
      let (f, run) = chunks_from-append_run (suc (length (p ++ rest))) c (p ++ rest) 0 ks js e in
      let (ls, total, _) = chunk_bytes-IsChunking blake3 c rest sizes in
      let again =
        chunks_from-append p rest (suc (length rest)) c 0 (0 + length (contents ks))
          (omega (arith, ap length front)) in
      (
        ls,
        total,
        same_run f (suc (length rest)) c (p ++ rest) (0 + length (contents ks)) js
            (map (move_chunk (length p)) ls) run (again ∙ ap (moved_chunks (length p)) total),
      )
