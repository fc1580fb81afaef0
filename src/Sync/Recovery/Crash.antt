-- ===== src/Sync/Recovery/Crash.antt =====
-- What a crash leaves of the active operations.
use landropic.Prelude.{
  All, ℕ, List, [], ◌∷◌, Option, none, some, true, Str, str_eq, str_eq_iff, leb, ◌≡◌, refl, sym,
  ◌∙◌, ap, arith, Bool-cases, Option-cases, by_test, inl, inr,
}
use mathlib.Core.Path.{subst}
use landropic.Prelude.Dict.{Dict, lookup, insert, remove, lookup-insert, lookup-remove}
use landropic.Sync.Recovery.{
  Operation, completed, LogLine, RecoveryManager, new, lines_of, is_incomplete, save_operation,
  load_recovery_log, remove_operation, start_operation, checkpoint_operation, complete_operation,
  fail_operation, failed_once,
}
use landropic.Sync.Recovery.Log.{
  find_operation, logged, logged-update_or_append, logged-removed,
  find_operation-incomplete_operations,
}

pub data Command : Type 0 where
  starts : Operation → Command
  checkpoints : (now : ℕ) → (id : Str) → (Operation → Operation) → Command
  completes : (now : ℕ) → (id : Str) → Command
  fails : (now : ℕ) → (id error : Str) → Command

unfoldable pub step : Command → RecoveryManager → RecoveryManager
step (starts op) m = start_operation op m
step (checkpoints now id update) m = checkpoint_operation now id update m
step (completes now id) m = complete_operation now id m
step (fails now id error) m = fail_operation now id error m

unfoldable pub run : List Command → RecoveryManager → RecoveryManager
unfolding step
run [] m = m
run (command ∷ commands) m = run commands (step command m)

-- An active operation stands under its identity, and the log has it as it is.
abbrev IsLogged : Str → Option Operation → Option Operation → Type 0
IsLogged id none line = Unit
IsLogged id (some op) line = (op.id ≡ id) × (line ≡ some op)

abbrev Tracked : RecoveryManager → Type 0
Tracked m = (id : Str) → IsLogged id (lookup id m.active_operations) (logged id (lines_of m.log))

-- An operation that is saved and active
save_active-Tracked :
    (op : Operation) (m : RecoveryManager)
    → Tracked m
    → Tracked
        (save_operation op (record m { active_operations = insert op.id op m.active_operations }))
unfolding save_operation lines_of
save_active-Tracked op m h id = elim (Bool-cases (str_eq op.id id)) [
  | inl same ↦
      rw
        (
          lookup-insert op.id id op m.active_operations,
          logged-update_or_append id op (lines_of m.log),
          same,
        )
        ((str_eq_iff op.id id).0 same, refl)
  | inr other ↦
      rw
        (
          lookup-insert op.id id op m.active_operations,
          logged-update_or_append id op (lines_of m.log),
          other,
        )
        (h id)
]

-- An operation that is saved and no longer active
save_inactive-Tracked :
    (op : Operation) (m : RecoveryManager)
    → Tracked m
    → Tracked
        (save_operation op (record m { active_operations = remove op.id m.active_operations }))
unfolding save_operation lines_of
save_inactive-Tracked op m h id = elim (Bool-cases (str_eq op.id id)) [
  | inl same ↦ rw (lookup-remove op.id id m.active_operations, same) tt
  | inr other ↦
      rw
        (
          lookup-remove op.id id m.active_operations,
          logged-update_or_append id op (lines_of m.log),
          other,
        )
        (h id)
]

-- The line of an operation that is not active is taken out.
remove_operation-Tracked :
    (gone : Str) (m : RecoveryManager)
    → lookup gone m.active_operations ≡ none
    → Tracked m
    → Tracked (remove_operation gone m)
unfolding remove_operation lines_of
remove_operation-Tracked gone m inactive h id = elim (Option-cases m.log) [
  | inl e ↦ rw (e, remove_operation) (h id)
  | inr (lines, e) ↦
      let here : IsLogged id (lookup id m.active_operations) (logged id lines) =
        subst
          (λ (log : Option (List LogLine)).
            IsLogged id (lookup id m.active_operations) (logged id (lines_of log)))
          e (h id) in
      elim (Bool-cases (str_eq gone id)) [
        | inl same ↦
            let absent : lookup id m.active_operations ≡ none =
              ap (λ (k : Str). lookup k m.active_operations) (sym ((str_eq_iff gone id).0 same))
              ∙ inactive in
            rw (e, remove_operation) (rw absent tt)
        | inr other ↦ rw (e, remove_operation) (rw (logged-removed id gone lines, other) here)
      ]
]

-- The active operation that was found stands under its identity.
found_id :
    (id : Str) (op : Operation) (m : RecoveryManager)
    → Tracked m
    → lookup id m.active_operations ≡ some op
    → op.id ≡ id
found_id id op m h there =
    let here : IsLogged id (some op) (logged id (lines_of m.log)) =
      subst (λ (o : Option Operation). IsLogged id o (logged id (lines_of m.log))) there (h id) in
    here.0

checkpoint_operation-Tracked :
    (now : ℕ) (id : Str) (update : Operation → Operation) (m : RecoveryManager)
    → ((op : Operation) → (update op).id ≡ op.id)
    → Tracked m
    → Tracked (checkpoint_operation now id update m)
unfolding checkpoint_operation
checkpoint_operation-Tracked now id update m keeps h =
    elim (Option-cases (lookup id m.active_operations)) [
      | inl absent ↦ rw (absent, checkpoint_operation) h
      | inr (op, there) ↦
          let op' : Operation = record (update op) { last_checkpoint = now } in
          let same : op'.id ≡ id = keeps op ∙ found_id id op m h there in
          let saved = save_active-Tracked op' m h in
          rw (there, checkpoint_operation)
            (subst
              (λ (k : Str). Tracked (
                save_operation op'
                  (record m { active_operations = insert k op' m.active_operations })))
              same saved)
    ]

complete_operation-Tracked :
    (now : ℕ) (id : Str) (m : RecoveryManager) → Tracked m → Tracked (complete_operation now id m)
unfolding complete_operation save_operation
complete_operation-Tracked now id m h = elim (Option-cases (lookup id m.active_operations)) [
  | inl absent ↦ rw (absent, complete_operation) h
  | inr (op, there) ↦
      let op' : Operation = record op { status = completed; last_checkpoint = now } in
      let m' : RecoveryManager =
        save_operation op' (record m { active_operations = remove id m.active_operations }) in
      let saved : Tracked m' =
        subst
          (λ (k : Str).
            Tracked
              (save_operation op' (record m { active_operations = remove k m.active_operations })))
          (found_id id op m h there) (save_inactive-Tracked op' m h) in
      let inactive : lookup id (remove id m.active_operations) ≡ none =
        ground (arith, str_eq_iff id id, lookup-remove id id m.active_operations) in
      rw (there, complete_operation) (remove_operation-Tracked id m' inactive saved)
]

fail_operation-Tracked :
    (now : ℕ) (id error : Str) (m : RecoveryManager)
    → Tracked m
    → Tracked (fail_operation now id error m)
unfolding fail_operation failed_once
fail_operation-Tracked now id error m h = elim (Option-cases (lookup id m.active_operations)) [
  | inl absent ↦ rw (absent, fail_operation) h
  | inr (op, there) ↦
      let op' = failed_once now error op in
      let same = found_id id op m h there in
      rw (there, fail_operation)
        (by_test
          (λ (d : Dict Operation).
            Tracked (save_operation op' (record m { active_operations = d })))
          (leb 3 op'.retry_count)
          (λ many.
            subst
              (λ (k : Str). Tracked (
                save_operation op' (record m { active_operations = remove k m.active_operations })))
              same (save_inactive-Tracked op' m h))
          (λ few.
            subst
              (λ (k : Str). Tracked (
                save_operation op'
                  (record m { active_operations = insert k op' m.active_operations })))
              same (save_active-Tracked op' m h)))
]

-- The update of a checkpoint leaves the identity of the operation.
abbrev pub KeepsId : Command → Type 0
KeepsId (starts op) = Unit
KeepsId (checkpoints now id update) = (op : Operation) → (update op).id ≡ op.id
KeepsId (completes now id) = Unit
KeepsId (fails now id error) = Unit

step-Tracked :
    (command : Command) (m : RecoveryManager)
    → KeepsId command
    → Tracked m
    → Tracked (step command m)
unfolding step start_operation
step-Tracked (starts op) m keeps h = save_active-Tracked op m h
step-Tracked (checkpoints now id update) m keeps h =
    checkpoint_operation-Tracked now id update m keeps h
step-Tracked (completes now id) m keeps h = complete_operation-Tracked now id m h
step-Tracked (fails now id error) m keeps h = fail_operation-Tracked now id error m h

run-Tracked :
    (commands : List Command) (m : RecoveryManager)
    → All KeepsId commands
    → Tracked m
    → Tracked (run commands m)
unfolding run
run-Tracked [] m keeps h = h
run-Tracked (command ∷ commands) m keeps h =
    run-Tracked commands (step command m) keeps.1 (step-Tracked command m keeps.0 h)

new-Tracked : (log : Option (List LogLine)) → Tracked (new log)
unfolding new lookup
new-Tracked log id = tt

-- A manager starts on any log and carries out any commands whose checkpoints leave the identity of the operation: an operation that is
-- then active, in progress or interrupted, is loaded from the log under its identity, with its progress, when the manager starts again.
pub run-load_recovery_log :
    (commands : List Command) (log : Option (List LogLine)) (id : Str) (op : Operation)
    → All KeepsId commands
    → lookup id (run commands (new log)).active_operations ≡ some op
    → is_incomplete op.status ≡ true
    → find_operation id (load_recovery_log (run commands (new log))) ≡ some op
unfolding load_recovery_log
run-load_recovery_log commands log id op keeps there incomplete =
    let m = run commands (new log) in
    let here : IsLogged id (some op) (logged id (lines_of m.log)) =
      subst (λ (o : Option Operation). IsLogged id o (logged id (lines_of m.log))) there
        (run-Tracked commands (new log) keeps (new-Tracked log) id) in
    find_operation-incomplete_operations id op (lines_of m.log) here.1 incomplete
