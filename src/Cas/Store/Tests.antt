-- ===== src/Cas/Store/Tests.antt =====
-- Runs of the store.
use landropic.Prelude.{
  ℕ, ◌+◌, ◌≤◌, List, [], ◌∷◌, Option, none, some, Str, str_eq, str_eq_iff, take, replicate, get_or,
  ◌≡◌, ◌⊎◌, ◌<◌, refl, sym, ◌∙◌, ap, arith, Bool-cases, inl, inr,
}
use landropic.Prelude.Dict.{lookup, insert, remove}
use landropic.Cas.Packfile.{Result, ok, err, object_not_found}
use landropic.Cas.Store.{batch, async, Files, ChunkCache, ContentStore, ObjectRef}
use landropic.Cas.Store.Disk.{
  delete, should_fsync_file, should_fsync_directory, recover_all, run_steps, run_step, write_steps,
  rename_temp,
}
use landropic.Cas.Store.Lasting.{crash}
use landropic.Cas.Store.Cache.{make_room, turns, evict_one}
use landropic.Cas.Store.Eviction.{held, Accounts, make_room-Settles}
use landropic.Cas.Store.Operations.{
  reference, write, read, validate_object_size, validate_content_hash,
}
use landropic.Cas.Store.Writes.{Unique}
use landropic.Cas.Store.Reads.{Gives}
use landropic.Cas.Store.Sound.{Sound}
use landropic.Cas.Store.RoundTrip.{write-read, read-IsChecked, IsChecked}
use landropic.Cas.Store.Partial.{start_resumable_write, complete_resumable_write}
use landropic.Cas.Store.Partial.Whole.{
  complete_resumable_write-continue_all, continue_all, joined, IsStored,
}
use landropic.Cas.Store.Batch.{write_batch, push_all, push_pending, should_flush}
use landropic.Cas.Store.Batch.Queue.{Queues, write_batch-Queues}
use landropic.Cas.Store.Deletion.{delete-write-read}
use landropic.Cas.Store.Toy.{
  ListCache, pop_last, list_cache, bytes, toy_hash, toy_environment, files, cache, store,
}

bytes-Unique : Unique toy_environment list_cache bytes
unfolding toy_hash str_eq
bytes-Unique other e = elim (Bool-cases (str_eq other bytes)) [
  | inl same ↦ (str_eq_iff other bytes).0 same
  | inr differs ↦
      let other_hash : toy_hash other ≡ replicate 64 98 = rw (differs, toy_hash) refl in
      let heads : 98 ≡ 97 = ap (λ (s : Str). get_or s 0 0) (sym other_hash ∙ e) in
      absurd (omega (arith, heads))
]

store-Sound : Sound list_cache toy_hash store
unfolding toy_hash str_eq
store-Sound = (refl, (((refl, omega arith), tt), ((refl, tt), tt)))

write-read_example :
    ((write toy_environment bytes store).0 ≡ ok (reference (toy_hash bytes) bytes))
    × Gives toy_environment list_cache bytes
        (read toy_environment list_cache 5 (toy_hash bytes) (write toy_environment bytes store).1)
unfolding toy_hash str_eq held validate_object_size validate_content_hash
write-read_example =
    write-read toy_environment list_cache 5 0 bytes store (omega arith) refl refl bytes-Unique
      store-Sound (refl, (omega arith, omega arith))

read-IsChecked_example :
    IsChecked toy_environment list_cache
      (replicate 64 98)
      (read toy_environment list_cache 5 (replicate 64 98) store)
read-IsChecked_example =
    read-IsChecked toy_environment list_cache 5 (replicate 64 98) store store-Sound

abbrev after_crash : Files
after_crash =
    (recover_all toy_hash (toy_hash bytes ∷ []) (
      crash (batch 10) (toy_hash bytes) bytes 4 4 2 files,
      record { recovered = 0; cleaned = 0 },
    )).0

-- Where the file is not synced, a crash behind the rename leaves a part of the object under its name.
unsynced_crash :
    lookup (toy_hash bytes) (crash async (toy_hash bytes) bytes 3 3 1 files).objects
    ≡ some (take 1 bytes)
unfolding toy_hash str_eq lookup insert remove run_steps run_step write_steps rename_temp
    should_fsync_file should_fsync_directory
unsynced_crash = refl

make_room-Settles_example :
    ((0 + 9 ≤ 10)
      × ((roomy : ChunkCache ListCache) × ((make_room list_cache (turns list_cache cache) 10 9 cache
              ≡ some roomy)
            × ((roomy.total_size + 9 ≤ 10) × Accounts list_cache 0 roomy))))
    ⊎ ((10 < 0 + 9) × ((fuel : ℕ) → make_room list_cache fuel 10 9 cache ≡ none))
unfolding held
make_room-Settles_example = make_room-Settles list_cache 0 10 9 cache (omega arith) refl

-- A chunk of 11 bytes in a cache of 10
make_room_stuck : make_room list_cache 20 10 11 cache ≡ none
unfolding make_room evict_one pop_last
make_room_stuck = refl

abbrev batch_of_two : List (List ℕ × Option Str)
batch_of_two = (bytes, none) ∷ (4 ∷ [], none) ∷ []

write_batch-Queues_example :
    (r : Result (List ObjectRef) × ContentStore ListCache) × ((write_batch toy_environment
          list_cache 5 batch_of_two store
        ≡ some r)
      × Queues toy_environment list_cache batch_of_two [] r)
unfolding push_all push_pending should_flush validate_object_size lookup
write_batch-Queues_example =
    write_batch-Queues toy_environment list_cache 5 batch_of_two store
      ((refl, refl), ((refl, refl), tt)) tt refl

abbrev known_store : ContentStore ListCache
known_store = record store {
  dedup_index = (replicate 64 97, record { hash = replicate 64 97; size = 3 }) ∷ [];
  files = record files { objects = (replicate 64 97, bytes) ∷ [] };
}

delete-write-read_example :
    ((write toy_environment bytes (delete (toy_hash bytes) known_store)).0
      ≡ ok (record { hash = replicate 64 97; size = 3 }))
    × ((s' : ContentStore ListCache) × (read toy_environment list_cache 5
            (toy_hash bytes)
            (write toy_environment bytes (delete (toy_hash bytes) known_store)).1
          ≡ some (err (object_not_found (toy_hash bytes)), s')))
unfolding toy_hash str_eq lookup validate_object_size validate_content_hash
delete-write-read_example =
    delete-write-read toy_environment list_cache 5 bytes
      (record { hash = replicate 64 97; size = 3 }) known_store refl refl refl refl refl

complete_resumable_write-continue_all_example :
    let opened = start_resumable_write 100 (7 ∷ []) (some (toy_hash bytes)) (some 3) store in
    let (failed, (p, s')) = continue_all ((100, 1 ∷ []) ∷ (200, 2 ∷ 3 ∷ []) ∷ []) opened in
    (failed ≡ none) × IsStored toy_hash (7 ∷ []) bytes (complete_resumable_write toy_hash 300 p s')
unfolding toy_hash str_eq lookup joined
complete_resumable_write-continue_all_example =
    complete_resumable_write-continue_all toy_hash 100 300 100 (7 ∷ []) (1 ∷ [])
      ((200, 2 ∷ 3 ∷ []) ∷ []) store (refl, (refl, tt)) refl (omega arith) refl
