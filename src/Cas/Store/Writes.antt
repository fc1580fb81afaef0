-- ===== src/Cas/Store/Writes.antt =====
-- What a write leaves of a sound store.
use landropic.Prelude.{
  ℕ, ◌<◌, List, none, some, true, false, Str, length, ◌≡◌, refl, ◌∙◌, ap, inl, inr, Option-cases,
}
use landropic.Prelude.Dict.{lookup, All-insert, All-lookup, lookup-insert_self}
use landropic.Cas.Packfile.{Result, ok}
use landropic.Cas.Store.{LruCache, ContentStore, ObjectRef}
use landropic.Cas.Store.Disk.{write_atomic, file_exists}
use landropic.Cas.Store.Lasting.{write_steps-objects}
use landropic.Cas.Store.Operations.{
  Environment, reference, exists, find_packed, validate_object_size, write, write_new,
  count_dedup_hit, add_to_dedup, write_individual,
}
use landropic.Cas.Store.Sound.{IsIntact, IsBacked, Sound, insert-IsBacked}

module _ {C : Type 0} (env : Environment) (lru : LruCache C) where
  pub nothing_packed :
      (hash : Str) (s : ContentStore C)
      → s.config.enable_packfiles ≡ false
      → find_packed env hash s ≡ none
  unfolding find_packed
  nothing_packed hash s e = rw (e, find_packed) refl

  -- The object with the hash of the bytes has these bytes.
  abbrev pub Unique : List ℕ → Type 0
  Unique bytes = (other : List ℕ) → env.blake3 other ≡ env.blake3 bytes → other ≡ bytes

  -- The bytes are stored, and the result refers to them.
  abbrev pub Stores : List ℕ → Result ObjectRef × ContentStore C → Type 0
  Stores bytes r =
      (r.0 ≡ ok (reference (env.blake3 bytes) bytes))
      × (Sound lru env.blake3 r.1 × (lookup (env.blake3 bytes) r.1.files.objects ≡ some bytes))

  -- What stands under the hash of the bytes is the bytes.
  pub stored_bytes :
      (bytes found : List ℕ) (s : ContentStore C)
      → Unique bytes
      → Sound lru env.blake3 s
      → lookup (env.blake3 bytes) s.files.objects ≡ some found
      → found ≡ bytes
  stored_bytes bytes found s unique sound there =
      unique found
        (All-lookup (IsIntact env.blake3) (env.blake3 bytes) found s.files.objects sound.1.0
          there).0

  dedup_hit-Stores :
      (bytes : List ℕ) (s : ContentStore C) (r : ObjectRef)
      → Unique bytes
      → Sound lru env.blake3 s
      → lookup (env.blake3 bytes) s.dedup_index ≡ some r
      → Stores bytes (ok r, count_dedup_hit s)
  unfolding count_dedup_hit
  dedup_hit-Stores bytes s r unique sound there =
      let hash = env.blake3 bytes in
      let (found, (stored, described)) =
        All-lookup (IsBacked s.files.objects) hash r s.dedup_index sound.1.1.1 there in
      let same = stored_bytes bytes found s unique sound stored in
      (ap ok (described ∙ ap (reference hash) same), (sound, stored ∙ ap some same))

  exists-Stores :
      (bytes found : List ℕ) (s : ContentStore C)
      → Unique bytes
      → Sound lru env.blake3 s
      → lookup (env.blake3 bytes) s.files.objects ≡ some found
      → Stores bytes (
        ok (reference (env.blake3 bytes) bytes),
        add_to_dedup (env.blake3 bytes) (reference (env.blake3 bytes) bytes) s,
      )
  unfolding add_to_dedup
  exists-Stores bytes found s unique sound stored =
      let hash = env.blake3 bytes in
      let here = stored ∙ ap some (stored_bytes bytes found s unique sound stored) in
      let (plain, (intact, (genuine, backed))) = sound in
      (
        refl,
        (
          (
            plain,
            (
              intact,
              (
                genuine,
                All-insert (IsBacked s.files.objects) hash (reference hash bytes) s.dedup_index
                    (bytes, (here, refl)) backed,
              ),
            ),
          ),
          here,
        ),
      )

  write_individual-Stores :
      (bytes : List ℕ) (s : ContentStore C)
      → 0 < length bytes
      → Sound lru env.blake3 s
      → lookup (env.blake3 bytes) s.files.objects ≡ none
      → Stores bytes (write_individual bytes (env.blake3 bytes) s)
  unfolding write_individual write_atomic
  write_individual-Stores bytes s some_bytes (plain, (intact, (genuine, backed))) fresh =
      let hash = env.blake3 bytes in
      let stored = write_steps-objects s.config.fsync_policy hash bytes s.files in
      (
        refl,
        (
          (
            plain,
            (
              rw stored (
                  All-insert (IsIntact env.blake3) hash bytes s.files.objects (refl, some_bytes)
                    intact),
              (
                genuine,
                rw stored (insert-IsBacked hash bytes s.files.objects s.dedup_index fresh backed),
              ),
            ),
          ),
          rw stored (lookup-insert_self hash bytes s.files.objects),
        ),
      )

  pub write-Stores :
      (bytes : List ℕ) (s : ContentStore C)
      → 0 < length bytes
      → validate_object_size (length bytes) ≡ true
      → Unique bytes
      → Sound lru env.blake3 s
      → Stores bytes (write env bytes s)
  unfolding write
  write-Stores bytes s some_bytes small unique sound =
      let hash = env.blake3 bytes in
      elim (Option-cases (lookup hash s.dedup_index)) [
        | inr (r, there) ↦ rw (small, there, write) (dedup_hit-Stores bytes s r unique sound there)
        | inl unknown ↦ elim (Option-cases (lookup hash s.files.objects)) [
          | inr (found, stored) ↦
              let there : exists env hash s ≡ true = rw (stored, exists, file_exists) refl in
              rw (small, unknown, there, write) (exists-Stores bytes found s unique sound stored)
          | inl fresh ↦
              let absent : exists env hash s ≡ false =
                rw (fresh, nothing_packed hash s sound.0, exists, file_exists) refl in
              let individual : write_new env bytes hash s ≡ write_individual bytes hash s =
                rw (sound.0, write_new) refl in
              rw (small, unknown, absent, individual, write)
                (write_individual-Stores bytes s some_bytes sound fresh)
        ]
      ]
