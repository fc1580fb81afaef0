-- ===== src/Cas/Store/RoundTrip.antt =====
-- What is written can be read, and what is read has the hash that was asked for.
use landropic.Prelude.{
  ℕ, ◌<◌, List, Option, none, some, true, Str, length, str_eq, str_eq_iff, ◌==◌, ◌≡◌, refl, inl,
  inr, arith, Option-cases, Bool-cases,
}
use landropic.Prelude.Dict.{lookup}
use landropic.Cas.Packfile.{Result, ok, err}
use landropic.Cas.Store.{LruCache, ChunkCache, ContentStore}
use landropic.Cas.Store.Cache.{cache_chunk}
use landropic.Cas.Store.Disk.{read_individual, write_atomic}
use landropic.Cas.Store.Operations.{
  Environment, reference, validate_content_hash, validate_object_size, write, write_new,
  count_dedup_hit, add_to_dedup, count_miss, read, read_hit, read_file, read_missed, count_read,
  write_individual, write_with_packing,
}
use landropic.Cas.Store.Sound.{Sound, cache_chunk-Genuine, touch_chunk-Genuine}
use landropic.Cas.Store.Writes.{Unique, nothing_packed, write-Stores}
use landropic.Cas.Store.Reads.{HasRoom, Gives, read-Gives}

module _ {C : Type 0} (env : Environment) (lru : LruCache C) where
  write-cache : (bytes : List ℕ) (s : ContentStore C) → (write env bytes s).1.cache ≡ s.cache
  unfolding write write_new write_individual write_with_packing count_dedup_hit add_to_dedup
      write_atomic
  write-cache bytes s = ground arith

  write-config : (bytes : List ℕ) (s : ContentStore C) → (write env bytes s).1.config ≡ s.config
  unfolding write write_new write_individual write_with_packing count_dedup_hit add_to_dedup
      write_atomic
  write-config bytes s = ground arith

  -- Bytes that are not empty, of at most 100 MiB and with a hash that nothing else has, are written to a sound store with
  -- room in its cache: the write refers to them, and reading their hash then gives them and leaves the store sound.
  pub write-read :
      (now excess : ℕ) (bytes : List ℕ) (s : ContentStore C)
      → 0 < length bytes
      → validate_object_size (length bytes) ≡ true
      → validate_content_hash (env.blake3 bytes) ≡ true
      → Unique env lru bytes
      → Sound lru env.blake3 s
      → HasRoom env lru bytes s excess
      → ((write env bytes s).0 ≡ ok (reference (env.blake3 bytes) bytes))
        × Gives env lru bytes (read env lru now (env.blake3 bytes) (write env bytes s).1)
  write-read now excess bytes s some_bytes small valid unique sound room =
      let (refers, (sound', stored)) = write-Stores env lru bytes s some_bytes small unique sound in
      (
        refers,
        read-Gives env lru now excess bytes (write env bytes s).1 valid unique sound' stored
            (rw (write-cache bytes s, write-config bytes s) room),
      )

  -- Bytes have the hash that was asked for, and the store is sound, whether there are bytes or an error.
  abbrev pub IsChecked : Str → Option (Result (List ℕ) × ContentStore C) → Type 0
  IsChecked hash none = Unit
  IsChecked hash (some (ok bytes, s')) = (env.blake3 bytes ≡ hash) × Sound lru env.blake3 s'
  IsChecked hash (some (err e, s')) = Sound lru env.blake3 s'

  cached-IsChecked :
      (now : ℕ) (hash : Str) (bytes : List ℕ) (s : ContentStore C) (cached : Option (ChunkCache C))
      → cache_chunk lru s.config.cache_config.max_size_bytes now hash bytes s.cache ≡ cached
      → env.blake3 bytes ≡ hash
      → Sound lru env.blake3 s
      → IsChecked hash (elim cached [
        | none ↦ none
        | some cache ↦ some (ok bytes, count_read (length bytes) (record s { cache = cache }))
      ])
  unfolding count_read
  cached-IsChecked now hash bytes s none e same sound = tt
  cached-IsChecked now hash bytes s (some cache) e same (plain, (intact, (genuine, backed))) = (
    same,
    (
      plain,
      (
        intact,
        (
          cache_chunk-Genuine lru env.blake3 s.config.cache_config.max_size_bytes now hash bytes
              s.cache cache same genuine e,
          backed,
        ),
      ),
    ),
  )

  read_file-IsChecked :
      (now : ℕ) (hash : Str) (s : ContentStore C)
      → Sound lru env.blake3 s
      → IsChecked hash (read_file env lru now hash s)
  unfolding read_file read_individual
  read_file-IsChecked now hash s sound = elim (Option-cases (lookup hash s.files.objects)) [
    | inl absent ↦ rw (absent, read_file, read_individual) sound
    | inr (bytes, there) ↦ elim (Bool-cases (length bytes == 0)) [
      | inl empty ↦ rw (there, empty, read_file, read_individual) sound
      | inr filled ↦ elim (Bool-cases (str_eq (env.blake3 bytes) hash)) [
        | inr differs ↦ rw (there, filled, differs, read_file, read_individual) sound
        | inl same ↦
            rw (there, filled, same, read_file, read_individual)
              (cached-IsChecked now hash bytes s _ refl
                ((str_eq_iff (env.blake3 bytes) hash).0 same) sound)
      ]
    ]
  ]

  -- A read of a sound store leaves it sound, and bytes that it gives have the hash that was asked for.
  pub read-IsChecked :
      (now : ℕ) (hash : Str) (s : ContentStore C)
      → Sound lru env.blake3 s
      → IsChecked hash (read env lru now hash s)
  unfolding read read_missed count_miss read_hit count_read
  read-IsChecked now hash s sound = elim (Bool-cases (validate_content_hash hash)) [
    | inr invalid ↦ rw (invalid, read) sound
    | inl valid ↦ elim (Option-cases (lru.peek hash s.cache.chunks)) [
      | inr (chunk, hit) ↦
          let (plain, (intact, (genuine, backed))) = sound in
          let (same, genuine') =
            touch_chunk-Genuine lru env.blake3 now hash chunk s.cache hit genuine in
          rw (valid, hit, read) (same, (plain, (intact, (genuine', backed))))
      | inl miss ↦
          let missed = read_file-IsChecked now hash (count_miss env lru s) sound in
          rw
            (
              valid,
              miss,
              nothing_packed env lru hash (count_miss env lru s) sound.0,
              read,
              read_missed,
            )
            missed
    ]
  ]
