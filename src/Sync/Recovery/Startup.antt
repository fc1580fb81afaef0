-- ===== src/Sync/Recovery/Startup.antt =====
-- landro-sync/src/recovery.rs: recover_on_startup. `accepts` is whether the database takes a pending
-- transfer that is added; an error text is a parameter, too.
pub mod Counted
use landropic.Prelude.{
  ℕ, ◌+◌, ◌-◌, ◌/◌, ◌%◌, ◌^◌, ◌≤◌, List, [], ◌∷◌, ◌++◌, some, Bool, true, false, Str, str_eq, leb,
  ltb, length, if◌then◌else◌, ◌≡◌, refl, arith, Bool-cases, inl, inr,
}
use landropic.Sync.Recovery.{
  Operation, OperationType, transfer, manifest_sync, index_update, completed, failed, in_progress,
  recovering, RecoveryManager, RecoveryStats, PendingTransfer, save_operation, load_recovery_log,
}

-- Ok(true), Ok(false) and the error of recover_operation
pub data Recovery : Type 0 where
  complete : Recovery
  incomplete : Recovery
  fails : Recovery

unfoldable pub recovery_of : Bool → Recovery
recovery_of true = complete
recovery_of false = incomplete

unfoldable pub empty_stats : RecoveryStats
empty_stats = record {
  operations_recovered = 0;
  operations_completed = 0;
  operations_failed = 0;
  operations_abandoned = 0;
}

unfoldable pub count_recovered : RecoveryStats → RecoveryStats
count_recovered stats = record stats { operations_recovered = stats.operations_recovered + 1 }

unfoldable pub count_abandoned : RecoveryStats → RecoveryStats
count_abandoned stats = record stats { operations_abandoned = stats.operations_abandoned + 1 }

-- The operation and the statistics after an attempt; retry_count is a u32.
unfoldable pub settle : Str → Recovery → Operation → RecoveryStats → Operation × RecoveryStats
settle error complete op stats = (
  record op { status = completed },
  record stats { operations_completed = stats.operations_completed + 1 },
)
settle error incomplete op stats = (record op { status = in_progress }, stats)
settle error fails op stats =
    let retries = (op.retry_count + 1) % 2 ^ 32 in
    let retried : Operation = record op { retry_count = retries; error_message = some error } in
    if leb 3 retries
    then (
      record retried { status = failed },
      record stats { operations_failed = stats.operations_failed + 1 },
    )
    else (record retried { status = in_progress }, stats)

-- age.num_hours() > 24
unfoldable pub is_too_old : ℕ → Operation → Bool
is_too_old now op = ltb 24 ((now - op.started_at) / 3600)

-- The instants of the turns, in order, and the operations
unfoldable pub at_turns : (ℕ → ℕ) → ℕ → List Operation → List (ℕ × Operation)
at_turns clock turn [] = []
at_turns clock turn (op ∷ ops) = (clock turn, op) ∷ at_turns clock (turn + 1) ops

module _ (accepts : PendingTransfer → Bool) (error : Str) where
  unfoldable pub recover_transfer_operation :
      PendingTransfer → ℕ → ℕ → RecoveryManager → Recovery × RecoveryManager
  recover_transfer_operation t total_size bytes_transferred m =
      if leb total_size bytes_transferred
      then (complete, m)
      else if accepts t
      then (incomplete, record m { pending_transfers = m.pending_transfers ++ t ∷ [] })
      else (fails, m)

  unfoldable pub recover_operation : OperationType → RecoveryManager → Recovery × RecoveryManager
  unfolding recover_transfer_operation recovery_of
  recover_operation (transfer peer_id file_path chunk_hash total_size bytes_transferred) m =
      recover_transfer_operation
        (record { peer_id = peer_id; file_path = file_path; chunk_hash = chunk_hash }) total_size
        bytes_transferred m
  recover_operation (manifest_sync peer_id folder_id local_manifest_hash remote_manifest_hash) m =
      (recovery_of (str_eq local_manifest_hash remote_manifest_hash), m)
  recover_operation (index_update folder_path files_processed total_files) m =
      (recovery_of (leb total_files files_processed), m)

  -- An operation of the log that is not too old
  unfoldable pub attempt :
      Operation → RecoveryStats × RecoveryManager → RecoveryStats × RecoveryManager
  unfolding save_operation recover_operation settle
  attempt op (stats, m) =
      let marked : Operation = record op { status = recovering } in
      let (recovery, m') = recover_operation op.operation_type (save_operation marked m) in
      let (settled, stats') = settle error recovery marked stats in
      (stats', save_operation settled m')

  unfoldable pub process :
      ℕ → Operation → RecoveryStats × RecoveryManager → RecoveryStats × RecoveryManager
  unfolding is_too_old count_recovered count_abandoned attempt
  process now op (stats, m) =
      let attempted = attempt op (count_recovered stats, m) in
      if is_too_old now op then (count_abandoned (count_recovered stats), m) else attempted

  -- The operations with the instants at which their ages are taken
  unfoldable pub process_all :
      List (ℕ × Operation) → RecoveryStats × RecoveryManager → RecoveryStats × RecoveryManager
  unfolding process
  process_all [] state = state
  process_all ((now, op) ∷ ops) state = process_all ops (process now op state)

  unfoldable pub recover_on_startup : (ℕ → ℕ) → RecoveryManager → RecoveryStats × RecoveryManager
  unfolding empty_stats load_recovery_log at_turns process_all
  recover_on_startup clock m = process_all (at_turns clock 0 (load_recovery_log m)) (empty_stats, m)
