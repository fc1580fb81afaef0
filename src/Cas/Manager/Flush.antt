-- ===== src/Cas/Manager/Flush.antt =====
-- What can be read before and after the pending chunks are flushed.
use landropic.Prelude.{
  ℕ, ◌+◌, ◌<◌, List, [], ◌∷◌, ◌++◌, Option, none, some, false, Str, str_eq_refl, length,
  length-append, leb, arith, ◌≡◌, refl, Option-cases, inl, inr, ◌⊎◌, sym, ◌∙◌, Bool-cases,
}
use mathlib.Core.Path.{subst}
use landropic.Prelude.Dict.{Dict, lookup, insert}
use landropic.Cas.Packfile.{Result, ok, err, CasError, PackfileReader, PackfileWriter, finalize}
use landropic.Cas.Manager.{
  PackfileManager, find_pending, should_flush_packfile, flush_packfile, add_pending, read_packed,
  finalize_if_due, finalize_current_pack, should_finalize_current_pack, read_from,
  get_or_create_current_writer, add_chunks, after_adding, flush_chunks,
}

find_pending-snoc :
    (hash : Str) (bytes : List ℕ) (chunks : List (Str × List ℕ))
    → find_pending hash chunks ≡ none
    → find_pending hash (chunks ++ (hash, bytes) ∷ []) ≡ some bytes
unfolding find_pending
find_pending-snoc hash bytes [] e = ground (arith, str_eq_refl hash)
find_pending-snoc hash bytes ((h, b) ∷ chunks) e =
    ground (arith, e, find_pending-snoc hash bytes chunks)

-- No reader of the walk has the hash.
unfoldable pub Unknown : Str → List (Str × PackfileReader) → Type 0
Unknown hash [] = Unit
Unknown hash ((name, reader) ∷ readers) = (lookup hash reader.entries ≡ none) × Unknown hash readers

module _ (blake3 : List ℕ → Str) (read_back : List ℕ → Option (List ℕ)) (pack_name : ℕ → Str)
    (visit : Dict PackfileReader → List (Str × PackfileReader)) where
  -- A chunk that is added while its hash is not pending, and that is not flushed at once, is read back.
  pub add_pending-read_packed :
      (now : ℕ) (hash : Str) (bytes : List ℕ) (m : PackfileManager)
      → find_pending hash m.pending_chunks ≡ none
      → length m.pending_chunks + 1 < m.config.min_chunks_per_pack
      → read_packed blake3 read_back pack_name visit hash
          (add_pending blake3 read_back pack_name visit now hash bytes m).1
        ≡ ok (some bytes)
  unfolding read_packed add_pending should_flush_packfile
  add_pending-read_packed now hash bytes m fresh few =
      let waits : leb m.config.min_chunks_per_pack (length (m.pending_chunks ++ (hash, bytes) ∷ []))
          ≡ false =
        ground (arith, few, length-append m.pending_chunks ((hash, bytes) ∷ [])) in
      rw (waits, add_pending)
        (rw (find_pending-snoc hash bytes m.pending_chunks fresh, read_packed) refl)

  -- Nothing is pending, and the readers are those of `m`.
  abbrev Emptied : PackfileManager → PackfileManager → Type 0
  Emptied m m' = (m'.pending_chunks ≡ []) × (m'.pack_readers ≡ m.pack_readers)

  Result-cases :
      {A : Type 0} (r : Result A) → ((a : A) × (r ≡ ok a)) ⊎ ((e : CasError) × (r ≡ err e))
  Result-cases (ok a) = inl (a, refl)
  Result-cases (err e) = inr (e, refl)

  finalize_current_pack-closed :
      (m : PackfileManager)
      → (finalize_current_pack blake3 read_back pack_name visit m).1.current_writer ≡ none
  unfolding finalize_current_pack
  finalize_current_pack-closed m = elim (Option-cases m.current_writer) [
    | inl e ↦ ground (arith, e)
    | inr (writer, e) ↦ elim (Result-cases (finalize blake3 read_back writer.1)) [
      | inl (packed, f) ↦ rw (e, f, finalize_current_pack) refl
      | inr (error, f) ↦ rw (e, f, finalize_current_pack) refl
    ]
  ]

  finalize_if_due-Emptied :
      (m : PackfileManager) (writer : Str × PackfileWriter)
      → m.pending_chunks ≡ []
      → (finalize_if_due blake3 read_back pack_name visit m).1.current_writer ≡ some writer
      → Emptied m (finalize_if_due blake3 read_back pack_name visit m).1
  unfolding finalize_if_due
  finalize_if_due-Emptied m writer empty still =
      elim (Bool-cases (should_finalize_current_pack m)) [
        | inl due ↦
            let same : (finalize_if_due blake3 read_back pack_name visit m).1.current_writer
                ≡ none =
              rw (due, finalize_if_due) (finalize_current_pack-closed m) in
            let absurdity : none ≡ some writer = sym same ∙ still in absurd cc
        | inr early ↦ rw (early, finalize_if_due) (empty, refl)
      ]

  read_from-Unknown :
      (disk : Dict (List ℕ)) (hash : Str) (readers : List (Str × PackfileReader))
      → Unknown hash readers
      → read_from blake3 read_back pack_name visit disk hash readers ≡ ok none
  unfolding read_from Unknown
  read_from-Unknown disk hash [] h = refl
  read_from-Unknown disk hash ((name, reader) ∷ readers) h =
      rw (h.0, read_from) (read_from-Unknown disk hash readers h.1)

  after_adding-Emptied :
      (failed : Option CasError) (m : PackfileManager) (writer : Str × PackfileWriter)
      → m.pending_chunks ≡ []
      → (after_adding blake3 read_back pack_name visit failed m).1.current_writer ≡ some writer
      → Emptied m (after_adding blake3 read_back pack_name visit failed m).1
  unfolding after_adding
  after_adding-Emptied (some e) m writer empty still = (empty, refl)
  after_adding-Emptied none m writer empty still = finalize_if_due-Emptied m writer empty still

  readers_kept :
      (now : ℕ) (m : PackfileManager)
      → (get_or_create_current_writer blake3 read_back pack_name visit now m).1.pack_readers
        ≡ m.pack_readers
  unfolding get_or_create_current_writer
  readers_kept now m = ground arith

  pending_kept :
      (now : ℕ) (m : PackfileManager)
      → (get_or_create_current_writer blake3 read_back pack_name visit now m).1.pending_chunks
        ≡ m.pending_chunks
  unfolding get_or_create_current_writer
  pending_kept now m = ground arith

  flush_chunks-Emptied :
      (now : ℕ) (chunks : List (Str × List ℕ)) (m : PackfileManager) (writer : Str × PackfileWriter)
      → m.pending_chunks ≡ []
      → (flush_chunks blake3 read_back pack_name visit now chunks m).1.current_writer ≡ some writer
      → Emptied m (flush_chunks blake3 read_back pack_name visit now chunks m).1
  unfolding flush_chunks
  flush_chunks-Emptied now chunks m writer empty still =
      let (current, m1) = get_or_create_current_writer blake3 read_back pack_name visit now m in
      let (failed, filled) = add_chunks chunks current.1 in
      let m2 : PackfileManager = record m1 {
        current_writer = some (current.0, filled);
        disk = insert current.0 filled.file m1.disk;
      } in
      let (pending, readers) =
        after_adding-Emptied failed m2 writer (pending_kept now m ∙ empty) still in
      (pending, readers ∙ readers_kept now m)

  flush_packfile-Emptied :
      (now : ℕ) (m : PackfileManager) (chunk : Str × List ℕ) (chunks : List (Str × List ℕ))
      (writer : Str × PackfileWriter)
      → m.pending_chunks ≡ chunk ∷ chunks
      → (flush_packfile blake3 read_back pack_name visit now m).1.current_writer ≡ some writer
      → Emptied m (flush_packfile blake3 read_back pack_name visit now m).1
  unfolding flush_packfile
  flush_packfile-Emptied now m chunk chunks writer e still =
      let same : flush_packfile blake3 read_back pack_name visit now m
          ≡ flush_chunks blake3 read_back pack_name visit now (chunk ∷ chunks)
              (record m { pending_chunks = [] }) =
        rw (e, flush_packfile) refl in
      let open_still =
        subst (λ (r : Option CasError × PackfileManager). r.1.current_writer ≡ some writer) same
          still in
      subst (λ (r : Option CasError × PackfileManager). Emptied m r.1) (sym same)
        (flush_chunks-Emptied now (chunk ∷ chunks) (record m { pending_chunks = [] }) writer refl
          open_still)

  -- A flush of pending chunks that leaves the packfile open, to be filled further: no chunk can be read after it,
  -- but those that the finalized packfiles have.
  pub flush_packfile-read_packed :
      (now : ℕ) (hash : Str) (m : PackfileManager) (chunk : Str × List ℕ)
      (chunks : List (Str × List ℕ)) (writer : Str × PackfileWriter)
      → m.pending_chunks ≡ chunk ∷ chunks
      → (flush_packfile blake3 read_back pack_name visit now m).1.current_writer ≡ some writer
      → Unknown hash (visit m.pack_readers)
      → read_packed blake3 read_back pack_name visit hash
          (flush_packfile blake3 read_back pack_name visit now m).1
        ≡ ok none
  unfolding read_packed find_pending
  flush_packfile-read_packed now hash m chunk chunks writer e still unknown =
      let (empty, readers) = flush_packfile-Emptied now m chunk chunks writer e still in
      rw (empty, readers, read_packed) (read_from-Unknown _ hash (visit m.pack_readers) unknown)
