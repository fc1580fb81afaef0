-- ===== src/Sync/Recovery.antt =====
-- landro-sync/src/recovery.rs: RecoveryManager. The recovery log is the list of its lines, as serde_json
-- reads them: an operation, white space, or something else. Writing it succeeds; the database is a
-- parameter that takes a pending transfer or refuses it. Instants are in seconds.
pub mod Log
pub mod Crash
pub mod Startup
mod Tests
use landropic.Prelude.{
  ℕ, ◌+◌, ◌-◌, ◌/◌, ◌%◌, ◌^◌, List, [], ◌∷◌, ◌++◌, Option, none, some, Bool, true, false, Str,
  codes, str_eq, leb, ltb, if◌then◌else◌, ◌≡◌,
}
use landropic.Prelude.Dict.{Dict, lookup, insert, remove}

pub data OperationType : Type 0 where
  transfer : (peer_id file_path chunk_hash : Str) (total_size bytes_transferred : ℕ) → OperationType
  manifest_sync : (peer_id folder_id local_manifest_hash remote_manifest_hash : Str) → OperationType
  index_update : (folder_path : Str) (files_processed total_files : ℕ) → OperationType

pub data OperationStatus : Type 0 where
  in_progress : OperationStatus
  completed : OperationStatus
  failed : OperationStatus
  interrupted : OperationStatus
  recovering : OperationStatus

pub record Operation : Type 0 where
  pub id : Str
  pub operation_type : OperationType
  pub started_at : ℕ
  pub last_checkpoint : ℕ
  pub status : OperationStatus
  pub retry_count : ℕ
  pub error_message : Option Str

pub data LogLine : Type 0 where
  entry : Operation → LogLine
  blank : LogLine
  unreadable : Str → LogLine

-- What add_pending_transfer is given of a transfer that is taken up again
pub record PendingTransfer : Type 0 where
  pub peer_id : Str
  pub file_path : Str
  pub chunk_hash : Str

-- The log is `none` where the file does not exist.
pub record RecoveryManager : Type 0 where
  pub log : Option (List LogLine)
  pub active_operations : Dict Operation
  pub pending_transfers : List PendingTransfer

-- RecoveryStats, without the time it took.
pub record RecoveryStats : Type 0 where
  pub operations_recovered : ℕ
  pub operations_completed : ℕ
  pub operations_failed : ℕ
  pub operations_abandoned : ℕ

unfoldable pub new : Option (List LogLine) → RecoveryManager
new log = record { log = log; active_operations = []; pending_transfers = [] }

-- The first line of the same operation is replaced, or a line is added.
unfoldable pub update_or_append : Operation → List LogLine → List LogLine
update_or_append op [] = entry op ∷ []
update_or_append op (blank ∷ lines) = blank ∷ update_or_append op lines
update_or_append op (unreadable text ∷ lines) = unreadable text ∷ update_or_append op lines
update_or_append op (entry existing ∷ lines) =
    let rest = update_or_append op lines in
    if str_eq existing.id op.id then entry op ∷ lines else entry existing ∷ rest

unfoldable pub lines_of : Option (List LogLine) → List LogLine
lines_of none = []
lines_of (some lines) = lines

unfoldable pub save_operation : Operation → RecoveryManager → RecoveryManager
unfolding update_or_append lines_of
save_operation op m = record m { log = some (update_or_append op (lines_of m.log)) }

-- matches!(operation.status, InProgress | Interrupted)
unfoldable pub is_incomplete : OperationStatus → Bool
is_incomplete in_progress = true
is_incomplete interrupted = true
is_incomplete completed = false
is_incomplete failed = false
is_incomplete recovering = false

unfoldable pub incomplete_operations : List LogLine → List Operation
unfolding is_incomplete
incomplete_operations [] = []
incomplete_operations (blank ∷ lines) = incomplete_operations lines
incomplete_operations (unreadable text ∷ lines) = incomplete_operations lines
incomplete_operations (entry op ∷ lines) =
    let rest = incomplete_operations lines in if is_incomplete op.status then op ∷ rest else rest

unfoldable pub load_recovery_log : RecoveryManager → List Operation
unfolding incomplete_operations lines_of
load_recovery_log m = incomplete_operations (lines_of m.log)

unfoldable pub kept_lines : Str → List LogLine → List LogLine
kept_lines id [] = []
kept_lines id (blank ∷ lines) = kept_lines id lines
kept_lines id (unreadable text ∷ lines) = unreadable text ∷ kept_lines id lines
kept_lines id (entry op ∷ lines) =
    let rest = kept_lines id lines in if str_eq op.id id then rest else entry op ∷ rest

-- lines.join("\n") + "\n", which is an empty line where there are no lines.
unfoldable pub joined_lines : List LogLine → List LogLine
joined_lines [] = blank ∷ []
joined_lines (line ∷ lines) = line ∷ lines

unfoldable pub remove_operation : Str → RecoveryManager → RecoveryManager
unfolding kept_lines joined_lines
remove_operation id m = elim m.log [
  | none ↦ m
  | some lines ↦ record m { log = some (joined_lines (kept_lines id lines)) }
]

unfoldable pub start_operation : Operation → RecoveryManager → RecoveryManager
unfolding save_operation
start_operation op m =
    save_operation op (record m { active_operations = insert op.id op m.active_operations })

-- The update is any change of the operation, which stays under the identity that was asked for.
unfoldable pub checkpoint_operation :
    ℕ → Str → (Operation → Operation) → RecoveryManager → RecoveryManager
unfolding save_operation
checkpoint_operation now id update m = elim (lookup id m.active_operations) [
  | none ↦ m
  | some op ↦
      let op' : Operation = record (update op) { last_checkpoint = now } in
      save_operation op' (record m { active_operations = insert id op' m.active_operations })
]

unfoldable pub complete_operation : ℕ → Str → RecoveryManager → RecoveryManager
unfolding save_operation remove_operation
complete_operation now id m = elim (lookup id m.active_operations) [
  | none ↦ m
  | some op ↦ remove_operation id (
      save_operation (record op { status = completed; last_checkpoint = now })
        (record m { active_operations = remove id m.active_operations }))
]

-- An operation that failed once more; retry_count is a u32.
unfoldable pub failed_once : ℕ → Str → Operation → Operation
failed_once now error op = record op {
  status = failed;
  error_message = some error;
  retry_count = (op.retry_count + 1) % 2 ^ 32;
  last_checkpoint = now;
}

unfoldable pub fail_operation : ℕ → Str → Str → RecoveryManager → RecoveryManager
unfolding failed_once save_operation
fail_operation now id error m = elim (lookup id m.active_operations) [
  | none ↦ m
  | some op ↦
      let op' = failed_once now error op in
      save_operation op' (record m {
        active_operations =
            if leb 3 op'.retry_count
            then remove id m.active_operations
            else insert id op' m.active_operations;
      })
]
