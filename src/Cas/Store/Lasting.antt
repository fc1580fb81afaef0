-- ===== src/Cas/Store/Lasting.antt =====
-- What a crash in the middle of write_atomic leaves of its steps.
use landropic.Prelude.{
  ℕ, zero, suc, List, [], ◌∷◌, some, Bool, true, false, if◌then◌else◌, Str, take, ◌≡◌, inl, inr,
  ◌⊎◌, refl,
}
use landropic.Prelude.Dict.{lookup, insert, lookup-insert_self}
use landropic.Cas.Store.{FsyncPolicy, always, batch, async, never, Files}
use landropic.Cas.Store.Disk.{
  FsStep, create, write_data, sync_all, rename, sync_directory, write_steps, run_step, run_steps,
  should_fsync_file, should_fsync_directory, rename_temp,
}

abbrev pub syncs_file : List FsStep → Bool
syncs_file [] = false
syncs_file (sync_all ∷ steps) = true
syncs_file (create ∷ steps) = syncs_file steps
syncs_file (write_data bytes ∷ steps) = syncs_file steps
syncs_file (rename ∷ steps) = syncs_file steps
syncs_file (sync_directory ∷ steps) = syncs_file steps

abbrev pub syncs_directory : List FsStep → Bool
syncs_directory [] = false
syncs_directory (sync_directory ∷ steps) = true
syncs_directory (create ∷ steps) = syncs_directory steps
syncs_directory (write_data bytes ∷ steps) = syncs_directory steps
syncs_directory (sync_all ∷ steps) = syncs_directory steps
syncs_directory (rename ∷ steps) = syncs_directory steps

abbrev cut_data : ℕ → List FsStep → List FsStep
cut_data cut [] = []
cut_data cut (write_data bytes ∷ steps) = write_data (take cut bytes) ∷ cut_data cut steps
cut_data cut (step ∷ steps) = step ∷ cut_data cut steps

-- A crash after some steps: a file that was not synced has `cut` of its bytes, and a directory that was not synced has
-- the first `kept` of the steps.
abbrev pub lasting : ℕ → ℕ → List FsStep → List FsStep
lasting kept cut done =
    let written = if syncs_file done then done else cut_data cut done in
    if syncs_directory done then written else take kept written

-- The files after a crash behind `count` steps of write_atomic
abbrev pub crash : FsyncPolicy → Str → List ℕ → ℕ → ℕ → ℕ → Files → Files
crash policy hash bytes count kept cut f =
    run_steps hash (lasting kept cut (take count (write_steps policy bytes))) f

rename-objects :
    (hash : Str) (bytes : List ℕ) (f : Files)
    → lookup hash f.temps ≡ some bytes
    → (run_step hash rename f).objects ≡ insert hash bytes f.objects
unfolding run_step rename_temp
rename-objects hash bytes f written = rw (written, run_step) refl

-- An undisturbed write stores the object.
pub write_steps-objects :
    (policy : FsyncPolicy) (hash : Str) (bytes : List ℕ) (f : Files)
    → (run_steps hash (write_steps policy bytes) f).objects ≡ insert hash bytes f.objects
unfolding write_steps run_steps run_step should_fsync_file should_fsync_directory
write_steps-objects always hash bytes f =
    rename-objects hash bytes _ (lookup-insert_self hash bytes _)
write_steps-objects (batch n) hash bytes f =
    rename-objects hash bytes _ (lookup-insert_self hash bytes _)
write_steps-objects async hash bytes f =
    rename-objects hash bytes _ (lookup-insert_self hash bytes _)
write_steps-objects never hash bytes f =
    rename-objects hash bytes _ (lookup-insert_self hash bytes _)

-- A predicate of all first parts of a list
abbrev pub Prefixes {ℓ} : {A : Type ℓ} → (List A → Type 0) → List A → Type 0
Prefixes P [] = P []
Prefixes P (x ∷ xs) = P [] × Prefixes (λ ys. P (x ∷ ys)) xs

pub take-Prefixes {ℓ} :
    {A : Type ℓ} (P : List A → Type 0) (n : ℕ) (xs : List A) → Prefixes P xs → P (take n xs)
take-Prefixes P zero [] h = h
take-Prefixes P zero (x ∷ xs) h = h.0
take-Prefixes P (suc n) [] h = h
take-Prefixes P (suc n) (x ∷ xs) h = take-Prefixes (λ ys. P (x ∷ ys)) n xs h.1

-- The objects are as they were, or the whole object was added.
abbrev pub IsWhole : Str → List ℕ → Files → List FsStep → Type 0
IsWhole hash bytes f steps =
    ((run_steps hash steps f).objects ≡ f.objects)
    ⊎ ((run_steps hash steps f).objects ≡ insert hash bytes f.objects)

synced-Prefixes :
    (hash : Str) (bytes : List ℕ) (f : Files)
    → Prefixes (IsWhole hash bytes f) (create ∷ write_data bytes ∷ sync_all ∷ rename ∷ [])
unfolding run_steps run_step
synced-Prefixes hash bytes f = (
  inl refl,
  (
    inl refl,
    (inl refl, (inl refl, inr (rename-objects hash bytes _ (lookup-insert_self hash bytes _)))),
  ),
)

-- Before the sync of the file
lasting-unsynced :
    (kept cut : ℕ) (hash : Str) (bytes : List ℕ) (f : Files)
    → IsWhole hash bytes f (take kept [])
      × (IsWhole hash bytes f (take kept (create ∷ []))
          × IsWhole hash bytes f (take kept (create ∷ write_data (take cut bytes) ∷ [])))
unfolding run_steps run_step
lasting-unsynced kept cut hash bytes f = (
  take-Prefixes (IsWhole hash bytes f) kept [] (inl refl),
  (
    take-Prefixes (IsWhole hash bytes f) kept (create ∷ []) (inl refl, inl refl),
    take-Prefixes (IsWhole hash bytes f) kept (create ∷ write_data (take cut bytes) ∷ [])
        (inl refl, (inl refl, inl refl)),
  ),
)

-- Behind the sync of the file
lasting-synced :
    (kept cut : ℕ) (hash : Str) (bytes : List ℕ) (f : Files)
    → Prefixes
        (λ more.
          IsWhole hash bytes f (lasting kept cut (create ∷ write_data bytes ∷ sync_all ∷ more)))
        (rename ∷ [])
unfolding run_steps
lasting-synced kept cut hash bytes f = (
  take-Prefixes (IsWhole hash bytes f) kept (create ∷ write_data bytes ∷ sync_all ∷ [])
      (inl refl, (inl refl, (inl refl, inl refl))),
  take-Prefixes (IsWhole hash bytes f) kept (create ∷ write_data bytes ∷ sync_all ∷ rename ∷ [])
      (synced-Prefixes hash bytes f),
)

pub lasting-IsWhole :
    (policy : FsyncPolicy) (hash : Str) (bytes : List ℕ) (kept cut : ℕ) (f : Files)
    → should_fsync_file policy ≡ true
    → Prefixes (λ done. IsWhole hash bytes f (lasting kept cut done)) (write_steps policy bytes)
unfolding should_fsync_file should_fsync_directory write_steps run_steps run_step
lasting-IsWhole always hash bytes kept cut f e =
    let (nothing, (created, written)) = lasting-unsynced kept cut hash bytes f in
    let (synced, renamed) = lasting-synced kept cut hash bytes f in
    (
      nothing,
      (
        created,
        (
          written,
          (synced, (renamed, inr (rename-objects hash bytes _ (lookup-insert_self hash bytes _)))),
        ),
      ),
    )
lasting-IsWhole (batch n) hash bytes kept cut f e =
    let (nothing, (created, written)) = lasting-unsynced kept cut hash bytes f in
    (nothing, (created, (written, lasting-synced kept cut hash bytes f)))
lasting-IsWhole async hash bytes kept cut f e = absurd cc
lasting-IsWhole never hash bytes kept cut f e = absurd cc
