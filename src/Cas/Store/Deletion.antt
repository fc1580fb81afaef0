-- ===== src/Cas/Store/Deletion.antt =====
-- What a deletion leaves behind.
use landropic.Prelude.{
  ℕ, List, none, some, true, false, Str, length, str_eq_iff, ◌≡◌, refl, ap, ◌∙◌, arith,
  Option-cases, inl, inr,
}
use landropic.Prelude.Dict.{lookup, lookup-remove}
use landropic.Cas.Packfile.{ok, err, object_not_found}
use landropic.Cas.Store.{LruCache, ContentStore, ContentStoreConfig, ChunkCache, ObjectRef}
use landropic.Cas.Store.Disk.{delete, file_exists, read_individual}
use landropic.Cas.Store.Operations.{
  Environment, validate_content_hash, validate_object_size, write, count_dedup_hit, count_miss,
  read, read_file, read_missed,
}
use landropic.Cas.Store.Writes.{nothing_packed}

module _ {C : Type 0} (env : Environment) (lru : LruCache C) where
  delete-absent :
      (hash : Str) (s : ContentStore C) → lookup hash (delete hash s).files.objects ≡ none
  unfolding delete file_exists
  delete-absent hash s = elim (Option-cases (lookup hash s.files.objects)) [
    | inl absent ↦ rw (absent, delete, file_exists) absent
    | inr (bytes, there) ↦
        rw (there, delete, file_exists)
          (ground (arith, str_eq_iff hash hash, lookup-remove hash hash s.files.objects))
  ]

  delete-rest :
      (hash : Str) (s : ContentStore C)
      → ((delete hash s).dedup_index ≡ s.dedup_index)
        × (((delete hash s).cache ≡ s.cache) × ((delete hash s).config ≡ s.config))
  unfolding delete
  delete-rest hash s = ground arith

  read-absent :
      (now : ℕ) (hash : Str) (s : ContentStore C)
      → s.config.enable_packfiles ≡ false
      → validate_content_hash hash ≡ true
      → lru.peek hash s.cache.chunks ≡ none
      → lookup hash s.files.objects ≡ none
      → (s' : ContentStore C) × (read env lru now hash s ≡ some (err (object_not_found hash), s'))
  unfolding read read_missed read_file read_individual count_miss
  read-absent now hash s plain valid miss absent = (
    count_miss env lru s,
    rw
        (
          valid,
          miss,
          nothing_packed env lru hash (count_miss env lru s) plain,
          absent,
          read,
          read_missed,
          read_file,
          read_individual,
        )
        refl,
  )

  -- Without packfiles: an object that is in the deduplication index and not in the cache is deleted, and its bytes are
  -- written again. The write answers with the reference of the index, and the object is not found by a read after it.
  pub delete-write-read :
      (now : ℕ) (bytes : List ℕ) (r : ObjectRef) (s : ContentStore C)
      → s.config.enable_packfiles ≡ false
      → validate_object_size (length bytes) ≡ true
      → validate_content_hash (env.blake3 bytes) ≡ true
      → lookup (env.blake3 bytes) s.dedup_index ≡ some r
      → lru.peek (env.blake3 bytes) s.cache.chunks ≡ none
      → ((write env bytes (delete (env.blake3 bytes) s)).0 ≡ ok r)
        × ((s' : ContentStore C) × (read env lru now
                (env.blake3 bytes)
                (write env bytes (delete (env.blake3 bytes) s)).1
              ≡ some (err (object_not_found (env.blake3 bytes)), s')))
  unfolding write count_dedup_hit
  delete-write-read now bytes r s plain small valid known miss =
      let hash = env.blake3 bytes in
      let gone = delete hash s in
      let (index, (cache, config)) = delete-rest hash s in
      let known' : lookup hash gone.dedup_index ≡ some r = ap (lookup hash) index ∙ known in
      let miss' : lru.peek hash gone.cache.chunks ≡ none =
        ap (λ (c : ChunkCache C). lru.peek hash c.chunks) cache ∙ miss in
      let plain' : gone.config.enable_packfiles ≡ false =
        ap (λ (c : ContentStoreConfig). c.enable_packfiles) config ∙ plain in
      let s2 = count_dedup_hit gone in
      let answered : write env bytes gone ≡ (ok r, s2) = rw (small, known', write) refl in
      rw answered (refl, read-absent now hash s2 plain' valid miss' (delete-absent hash s))
