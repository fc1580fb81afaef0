-- ===== src/Cas/Manager.antt =====
-- landro-cas/src/packfile.rs: PackfileManager. `disk` holds the packfiles by their names; writing to
-- it succeeds. `pack_name` prints the name of a packfile that is made at an instant in seconds, and
-- `visit` is the order in which the readers are walked. An operation gives its result and the state.
pub mod Flush
use landropic.Prelude.{
  ℕ, ◌+◌, ◌-◌, ◌*◌, List, [], ◌∷◌, ◌++◌, Option, none, some, Bool, true, false, ◌||◌, Str, str_eq,
  length, leb, if◌then◌else◌,
}
use landropic.Prelude.Dict.{Dict, lookup, insert}
use landropic.Cas.Packfile.{
  Result, ok, err, CasError, io, PackfileWriter, PackfileReader, new, add_chunk, finalize,
  read_chunk,
}

pub record PackfileConfig : Type 0 where
  pub max_packfile_size : ℕ
  pub pack_threshold : ℕ
  pub min_chunks_per_pack : ℕ

pub record PackfileManager : Type 0 where
  pub config : PackfileConfig
  pub disk : Dict (List ℕ)
  pub current_writer : Option (Str × PackfileWriter)
  pub pack_readers : Dict PackfileReader
  pub pending_chunks : List (Str × List ℕ)

unfoldable pub should_pack : ℕ → PackfileManager → Bool
should_pack size m = leb size m.config.pack_threshold

unfoldable pub should_flush_packfile : PackfileManager → Bool
should_flush_packfile m = leb m.config.min_chunks_per_pack (length m.pending_chunks)

unfoldable pub should_finalize_current_pack : PackfileManager → Bool
should_finalize_current_pack m = elim m.current_writer [
  | none ↦ false
  | some writer ↦
      leb m.config.max_packfile_size (writer.1.data_offset - 26)
      || leb (m.config.min_chunks_per_pack * 10) (length writer.1.entries)
]

-- The first pending chunk with the hash.
unfoldable pub find_pending : Str → List (Str × List ℕ) → Option (List ℕ)
find_pending hash [] = none
find_pending hash ((chunk_hash, chunk_data) ∷ chunks) =
    if str_eq chunk_hash hash then some chunk_data else find_pending hash chunks

-- The loop that adds the pending chunks to a writer, and the error that stops it.
unfoldable pub add_chunks : List (Str × List ℕ) → PackfileWriter → Option CasError × PackfileWriter
unfolding add_chunk
add_chunks [] writer = (none, writer)
add_chunks ((hash, bytes) ∷ chunks) writer = elim (add_chunk hash bytes writer) [
  | ok writer' ↦ add_chunks chunks writer'
  | err e ↦ (some e, writer)
]

module _ (blake3 : List ℕ → Str) (read_back : List ℕ → Option (List ℕ)) (pack_name : ℕ → Str)
    (visit : Dict PackfileReader → List (Str × PackfileReader)) where
  -- The writer and the manager: a new packfile replaces one of the same name.
  unfoldable pub get_or_create_current_writer :
      ℕ → PackfileManager → (Str × PackfileWriter) × PackfileManager
  get_or_create_current_writer now m = elim m.current_writer [
    | some writer ↦ (writer, m)
    | none ↦
        let writer : Str × PackfileWriter = (pack_name now, new) in
        (
          writer,
          record m { current_writer = some writer; disk = insert (pack_name now) new.file m.disk },
        )
  ]

  -- The writer is taken first, so an error loses it.
  unfoldable pub finalize_current_pack : PackfileManager → Option CasError × PackfileManager
  unfolding finalize
  finalize_current_pack m = elim m.current_writer [
    | none ↦ (none, m)
    | some writer ↦ elim (finalize blake3 read_back writer.1) [
      | err e ↦ (some e, record m { current_writer = none })
      | ok packed ↦ (
        none,
        record m {
          current_writer = none;
          disk = insert writer.0 packed.0 m.disk;
          pack_readers = insert writer.0 packed.1 m.pack_readers;
        },
      )
    ]
  ]

  -- if self.should_finalize_current_pack().await
  unfoldable pub finalize_if_due : PackfileManager → Option CasError × PackfileManager
  unfolding should_finalize_current_pack finalize_current_pack
  finalize_if_due m =
      let finalized = finalize_current_pack m in
      if should_finalize_current_pack m then finalized else (none, m)

  unfoldable pub after_adding :
      Option CasError → PackfileManager → Option CasError × PackfileManager
  unfolding finalize_if_due
  after_adding (some e) m = (some e, m)
  after_adding none m = finalize_if_due m

  -- The drained chunks are added to the current packfile.
  unfoldable pub flush_chunks :
      ℕ → List (Str × List ℕ) → PackfileManager → Option CasError × PackfileManager
  unfolding get_or_create_current_writer add_chunks after_adding
  flush_chunks now chunks m =
      let (writer, m1) = get_or_create_current_writer now m in
      let (failed, writer') = add_chunks chunks writer.1 in
      after_adding failed (record m1 {
        current_writer = some (writer.0, writer');
        disk = insert writer.0 writer'.file m1.disk;
      })

  unfoldable pub flush_packfile : ℕ → PackfileManager → Option CasError × PackfileManager
  unfolding flush_chunks
  flush_packfile now m = elim m.pending_chunks [
    | [] ↦ (none, m)
    | chunk ∷ chunks ↦ flush_chunks now (chunk ∷ chunks) (record m { pending_chunks = [] })
  ]

  unfoldable pub add_pending :
      ℕ → Str → List ℕ → PackfileManager → Option CasError × PackfileManager
  unfolding should_flush_packfile flush_packfile
  add_pending now hash bytes m =
      let m1 : PackfileManager = record m {
        pending_chunks = m.pending_chunks ++ (hash, bytes) ∷ [];
      } in
      let flushed = flush_packfile now m1 in
      if should_flush_packfile m1 then flushed else (none, m1)

  unfoldable pub store_packed :
      ℕ → Str → List ℕ → PackfileManager → Option CasError × PackfileManager
  unfolding get_or_create_current_writer finalize_if_due add_chunk
  store_packed now hash bytes m =
      let (writer, m1) = get_or_create_current_writer now m in
      elim (add_chunk hash bytes writer.1) [
        | err e ↦ (some e, m1)
        | ok writer' ↦ finalize_if_due (record m1 {
          current_writer = some (writer.0, writer');
          disk = insert writer.0 writer'.file m1.disk;
        })
      ]

  -- The packfile of the first reader, in the order of the walk, that has the hash.
  unfoldable pub read_from :
      Dict (List ℕ) → Str → List (Str × PackfileReader) → Result (Option (List ℕ))
  unfolding read_chunk
  read_from disk hash [] = ok none
  read_from disk hash ((name, reader) ∷ readers) = elim (lookup hash reader.entries) [
    | none ↦ read_from disk hash readers
    | some entry ↦ elim (lookup name disk) [
      | none ↦ err io
      | some file ↦ elim (read_chunk blake3 file hash reader) [
        | err e ↦ err e
        | ok bytes ↦ ok (some bytes)
      ]
    ]
  ]

  unfoldable pub read_packed : Str → PackfileManager → Result (Option (List ℕ))
  unfolding find_pending read_from
  read_packed hash m = elim (find_pending hash m.pending_chunks) [
    | some bytes ↦ ok (some bytes)
    | none ↦ read_from m.disk hash (visit m.pack_readers)
  ]

  -- PackfileManager::finalize: the pending chunks and the current packfile.
  unfoldable pub finalize_all : ℕ → PackfileManager → Option CasError × PackfileManager
  unfolding flush_packfile finalize_current_pack
  finalize_all now m =
      let (failed, m1) = flush_packfile now m in
      elim failed [ some e ↦ (some e, m1) | none ↦ finalize_current_pack m1 ]
