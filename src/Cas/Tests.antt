-- ===== src/Cas/Tests.antt =====
-- Runs of packfiles, with a toy hash of 32 bytes.
use landropic.Prelude.{ℕ, List, [], ◌∷◌, ◌++◌, Option, none, some, Str, replicate, ◌≡◌, refl}
use landropic.Cas.Packfile.{ok, err, io, PackfileWriter, PackfileReader, new, finalize}
use landropic.Prelude.Dict.{Dict}
use landropic.Cas.Manager.{PackfileConfig, PackfileManager, flush_packfile, read_packed}
use landropic.Cas.Manager.Flush.{flush_packfile-read_packed, Unknown}

abbrev toy_hash : List ℕ → Str
toy_hash [] = replicate 32 0
toy_hash (b ∷ bytes) = b ∷ replicate 31 1

abbrev chunks : List (List ℕ)
chunks = (1 ∷ 2 ∷ 3 ∷ []) ∷ (9 ∷ []) ∷ []

-- On a handle that cannot be read, as File::create gives it, nothing is ever finalized.
unreadable_handle : finalize toy_hash (λ written. none) new ≡ err io
unfolding finalize
unreadable_handle = refl

abbrev toy_config : PackfileConfig
toy_config = record { max_packfile_size = 1000; pack_threshold = 64; min_chunks_per_pack = 3 }

abbrev manager : PackfileManager
manager = record {
  config = toy_config;
  disk = [];
  current_writer = none;
  pack_readers = [];
  pending_chunks = (toy_hash (7 ∷ []), 7 ∷ []) ∷ [];
}

packed_once : PackfileWriter
unfolding new
packed_once = record {
  file = new.file ++ 7 ∷ [];
  entries = record { hash = toy_hash (7 ∷ []); offset = 26; size = 1 } ∷ [];
  data_offset = 27;
}

abbrev toy_name : ℕ → Str
toy_name now = now ∷ []

abbrev visit : Dict PackfileReader → List (Str × PackfileReader)
visit readers = readers

abbrev reads : List ℕ → Option (List ℕ)
reads bytes = some bytes

flush_packfile-read_packed_example :
    read_packed toy_hash reads toy_name visit
      (toy_hash (7 ∷ []))
      (flush_packfile toy_hash reads toy_name visit 5 manager).1
    ≡ ok none
unfolding flush_packfile new packed_once Unknown
flush_packfile-read_packed_example =
    flush_packfile-read_packed toy_hash reads toy_name visit 5 (toy_hash (7 ∷ [])) manager
      (toy_hash (7 ∷ []), 7 ∷ []) [] (5 ∷ [], packed_once) refl refl tt
