-- ===== src/Sync/Recovery/Tests.antt =====
-- Runs of the recovery manager.
use landropic.Prelude.{List, [], ◌∷◌, none, some, true, str_eq, ◌≡◌, refl}
use landropic.Prelude.Dict.{lookup, insert, remove}
use landropic.Sync.Recovery.{
  Operation, complete_operation, checkpoint_operation, start_operation, transfer, in_progress,
  recovering, blank, entry, new, is_incomplete, load_recovery_log, save_operation,
}
use landropic.Sync.Recovery.Log.{find_operation}
use landropic.Sync.Recovery.Crash.{
  Command, starts, checkpoints, completes, run, run-load_recovery_log,
}
use landropic.Sync.Recovery.Startup.{recover_on_startup, empty_stats, at_turns}
use landropic.Sync.Recovery.Startup.Counted.{IsCount, recover_on_startup-IsCount}

abbrev first : Operation
first = record {
  id = 1 ∷ [];
  operation_type = transfer (7 ∷ []) (8 ∷ []) (9 ∷ []) 100 0;
  started_at = 10;
  last_checkpoint = 10;
  status = in_progress;
  retry_count = 0;
  error_message = none;
}

abbrev second : Operation
second = record first { id = 2 ∷ [] }

abbrev halfway : Operation → Operation
halfway op = record op { operation_type = transfer (7 ∷ []) (8 ∷ []) (9 ∷ []) 100 50 }

abbrev commands : List Command
commands =
    starts first ∷ starts second ∷ checkpoints 20 (2 ∷ []) halfway ∷ completes 30 (1 ∷ []) ∷ []

abbrev half_done : Operation
half_done = record second {
  operation_type = transfer (7 ∷ []) (8 ∷ []) (9 ∷ []) 100 50;
  last_checkpoint = 20;
}

run-load_recovery_log_example :
    find_operation (2 ∷ []) (load_recovery_log (run commands (new (some (blank ∷ [])))))
    ≡ some half_done
unfolding run is_incomplete lookup new complete_operation checkpoint_operation start_operation
    insert str_eq remove
run-load_recovery_log_example =
    run-load_recovery_log commands (some (blank ∷ [])) (2 ∷ []) half_done
      (tt, (tt, ((λ op. refl), (tt, tt)))) refl refl

-- An operation is marked as recovering before the attempt; where that is cut off, the next start does not load it.
interrupted_recovery :
    load_recovery_log
      (save_operation (record first { status = recovering }) (new (some (entry first ∷ []))))
    ≡ []
unfolding load_recovery_log save_operation new str_eq
interrupted_recovery = refl

recover_on_startup-IsCount_example :
    IsCount
      (λ t. true)
      (4 ∷ [])
      (at_turns
        (λ turn. 90000)
        0
        (load_recovery_log (new (some (entry first ∷ entry second ∷ [])))))
      empty_stats
      (recover_on_startup
        (λ t. true)
        (4 ∷ [])
        (λ turn. 90000)
        (new (some (entry first ∷ entry second ∷ [])))).0
recover_on_startup-IsCount_example =
    recover_on_startup-IsCount (λ t. true) (4 ∷ []) (λ turn. 90000)
      (new (some (entry first ∷ entry second ∷ [])))

-- An update that gives an operation the identity of another one takes its line.
mistaken_identity :
    find_operation (1 ∷ []) (
      load_recovery_log (
        run
          (starts first
            ∷ starts second
            ∷ checkpoints 20 (2 ∷ []) (λ op. record op { id = 1 ∷ []; retry_count = 2 })
            ∷ [])
          (new none)))
    ≡ some (record first { retry_count = 2; last_checkpoint = 20 })
unfolding run load_recovery_log new checkpoint_operation start_operation insert lookup str_eq
    find_operation
mistaken_identity = refl
