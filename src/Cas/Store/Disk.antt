-- ===== src/Cas/Store/Disk.antt =====
-- landro-cas/src/storage.rs: the files of the store, written, read, deleted and recovered. Calls of
-- the file system succeed, but those on files that are not there; blake3 is a parameter.
use landropic.Prelude.{
  ℕ, ◌+◌, ◌%◌, ◌^◌, List, [], ◌∷◌, none, some, Bool, true, false, Str, str_eq, length, leb, ◌==◌,
  if◌then◌else◌,
}
use landropic.Prelude.Dict.{Dict, lookup, insert, remove}
use landropic.Cas.Packfile.{Result, ok, err, object_not_found, corrupt_object, hash_mismatch}
use landropic.Cas.Store.{FsyncPolicy, always, batch, async, never, Files, ContentStore}

unfoldable pub should_fsync_file : FsyncPolicy → Bool
should_fsync_file always = true
should_fsync_file (batch n) = true
should_fsync_file async = false
should_fsync_file never = false

unfoldable pub should_fsync_directory : FsyncPolicy → Bool
should_fsync_directory always = true
should_fsync_directory (batch n) = false
should_fsync_directory async = false
should_fsync_directory never = false

-- Path::exists
unfoldable pub file_exists : Str → Dict (List ℕ) → Bool
file_exists name files = elim (lookup name files) [ none ↦ false | some bytes ↦ true ]

-- fs::rename of a temporary file with the given bytes to its object
unfoldable pub rename_temp : Str → List ℕ → Files → Files
rename_temp hash bytes f = record f {
  objects = insert hash bytes f.objects;
  temps = remove hash f.temps;
}

-- The counter of FsyncPolicy::Batch, an AtomicU32.
unfoldable pub count_sync : FsyncPolicy → ℕ → ℕ
count_sync always pending = pending
count_sync (batch batch_size) pending =
    let pending' = (pending + 1) % 2 ^ 32 in if leb batch_size pending' then 0 else pending'
count_sync async pending = pending
count_sync never pending = pending

-- The calls of write_atomic on the temporary file, the object and their directory
pub data FsStep : Type 0 where
  create : FsStep
  write_data : List ℕ → FsStep
  sync_all : FsStep
  rename : FsStep
  sync_directory : FsStep

unfoldable pub write_steps : FsyncPolicy → List ℕ → List FsStep
unfolding should_fsync_file should_fsync_directory
write_steps policy bytes =
    let directory = if should_fsync_directory policy then sync_directory ∷ [] else [] in
    let moved = rename ∷ directory in
    create ∷ write_data bytes ∷ (if should_fsync_file policy then sync_all ∷ moved else moved)

-- What a step does to the files, for whoever reads them afterwards; a sync changes only what a crash leaves.
unfoldable pub run_step : Str → FsStep → Files → Files
unfolding rename_temp
run_step hash create f = record f { temps = insert hash [] f.temps }
run_step hash (write_data bytes) f = record f { temps = insert hash bytes f.temps }
run_step hash sync_all f = f
run_step hash rename f = elim (lookup hash f.temps) [
  | none ↦ f
  | some bytes ↦ rename_temp hash bytes f
]
run_step hash sync_directory f = f

unfoldable pub run_steps : Str → List FsStep → Files → Files
unfolding run_step
run_steps hash [] f = f
run_steps hash (step ∷ steps) f = run_steps hash steps (run_step hash step f)

unfoldable pub write_atomic : {C : Type 0} → Str → List ℕ → ContentStore C → ContentStore C
unfolding write_steps run_steps count_sync
write_atomic hash bytes s = record s {
  files = run_steps hash (write_steps s.config.fsync_policy bytes) s.files;
  pending_syncs = count_sync s.config.fsync_policy s.pending_syncs;
}

unfoldable pub delete : {C : Type 0} → Str → ContentStore C → ContentStore C
unfolding file_exists
delete hash s =
    if file_exists hash s.files.objects
    then record s { files = record s.files { objects = remove hash s.files.objects } }
    else s

-- RecoveryStats: the errors it lists come from calls of the file system.
pub record RecoveryStats : Type 0 where
  pub recovered : ℕ
  pub cleaned : ℕ

unfoldable pub remove_temp : Str → Files → Files
remove_temp name f = record f { temps = remove name f.temps }

unfoldable pub count_cleaned : RecoveryStats → RecoveryStats
count_cleaned stats = record stats { cleaned = stats.cleaned + 1 }

unfoldable pub count_recovered : RecoveryStats → RecoveryStats
count_recovered stats = record stats { recovered = stats.recovered + 1 }

module _ (blake3 : List ℕ → Str) where
  -- The metadata of a file that nobody else writes has the length of what is read.
  unfoldable pub read_individual : Str → Files → Result (List ℕ)
  read_individual hash f = elim (lookup hash f.objects) [
    | none ↦ err (object_not_found hash)
    | some bytes ↦
        if length bytes == 0
        then err corrupt_object
        else if str_eq (blake3 bytes) hash
        then ok bytes
        else err (hash_mismatch hash (blake3 bytes))
  ]

  -- A temporary file whose object exists, that cannot be read, or that is read.
  unfoldable pub recover_temp_file : Str → Files × RecoveryStats → Files × RecoveryStats
  unfolding file_exists rename_temp remove_temp count_cleaned count_recovered
  recover_temp_file name (f, stats) = elim (lookup name f.temps) [
    | none ↦ (f, if file_exists name f.objects then stats else count_cleaned stats)
    | some bytes ↦
        if file_exists name f.objects
        then (remove_temp name f, count_cleaned stats)
        else if str_eq (blake3 bytes) name
        then (rename_temp name bytes f, count_recovered stats)
        else (remove_temp name f, count_cleaned stats)
  ]

  -- The temporary files, by the names of their objects, in the order in which the walk meets them.
  unfoldable pub recover_all : List Str → Files × RecoveryStats → Files × RecoveryStats
  unfolding recover_temp_file
  recover_all [] state = state
  recover_all (name ∷ names) state = recover_all names (recover_temp_file name state)

  unfoldable pub recover : {C : Type 0} → List Str → ContentStore C → RecoveryStats × ContentStore C
  unfolding recover_all
  recover names s =
      let (f, stats) = recover_all names (s.files, record { recovered = 0; cleaned = 0 }) in
      (stats, record s { files = f })
