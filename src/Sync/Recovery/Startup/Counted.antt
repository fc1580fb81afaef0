-- ===== src/Sync/Recovery/Startup/Counted.antt =====
-- How many operations a start recovers, completes, fails and abandons.
use landropic.Prelude.{
  ℕ, ◌+◌, ◌-◌, ◌*◌, ◌%◌, ◌^◌, List, [], ◌∷◌, Bool, true, false, not, ◌&&◌, Str, str_eq, leb, length,
  if◌then◌else◌, ◌≡◌, ◌∙◌, arith, Bool-cases, inl, inr,
}
use landropic.Sync.Recovery.{
  Operation, OperationType, transfer, manifest_sync, index_update, recovering, RecoveryManager,
  RecoveryStats, PendingTransfer, save_operation, load_recovery_log,
}
use landropic.Sync.Recovery.Startup.{
  Recovery, complete, incomplete, fails, recovery_of, empty_stats, count_recovered, count_abandoned,
  settle, is_too_old, recover_transfer_operation, recover_operation, attempt, process, process_all,
  at_turns, recover_on_startup,
}

-- An operation that was started 25 hours before its turn, or earlier
abbrev pub is_old : ℕ × Operation → Bool
is_old (now, op) = leb (25 * 3600) (now - op.started_at)

-- Nothing is left to do: the bytes are there, the manifests agree, or the files are processed.
abbrev pub nothing_left : OperationType → Bool
nothing_left (transfer peer_id file_path chunk_hash total got) = leb total got
nothing_left (manifest_sync peer_id folder_id local_hash remote_hash) =
    str_eq local_hash remote_hash
nothing_left (index_update folder_path processed total) = leb total processed

abbrev pub count {ℓ} : {A : Type ℓ} → (A → Bool) → List A → ℕ
count test [] = 0
count test (x ∷ xs) = (if test x then 1 else 0) + count test xs

module _ (accepts : PendingTransfer → Bool) (error : Str) where
  -- A transfer that the database refuses
  abbrev pub is_refused : OperationType → Bool
  is_refused (transfer peer_id file_path chunk_hash total got) =
      not (accepts (record { peer_id = peer_id; file_path = file_path; chunk_hash = chunk_hash }))
  is_refused _ = false

  abbrev pub is_done : ℕ × Operation → Bool
  is_done (now, op) = not (is_old (now, op)) && nothing_left op.operation_type

  -- A transfer that is refused after two retries or more, in 32 bits
  abbrev pub is_given_up : ℕ × Operation → Bool
  is_given_up (now, op) =
      not (is_old (now, op))
      && not (nothing_left op.operation_type)
      && is_refused op.operation_type
      && leb 3 ((op.retry_count + 1) % 2 ^ 32)

  -- The statistics count the operations, each under what became of it.
  pub record IsCount (ops : List (ℕ × Operation)) (before after : RecoveryStats) : Type 0 where
    pub recovered : after.operations_recovered ≡ before.operations_recovered + length ops
    pub done : after.operations_completed ≡ before.operations_completed + count is_done ops
    pub given_up : after.operations_failed ≡ before.operations_failed + count is_given_up ops
    pub abandoned : after.operations_abandoned ≡ before.operations_abandoned + count is_old ops

  abbrev expected : OperationType → Recovery
  expected kind =
      if nothing_left kind then complete else if is_refused kind then fails else incomplete

  recover_operation-expected :
      (kind : OperationType) (m : RecoveryManager)
      → (recover_operation accepts error kind m).0 ≡ expected kind
  unfolding recover_operation recover_transfer_operation recovery_of
  recover_operation-expected (transfer peer_id file_path chunk_hash total got) m = ground arith
  recover_operation-expected (manifest_sync peer_id folder_id local_hash remote_hash) m =
      ground arith
  recover_operation-expected (index_update folder_path processed total) m = ground arith

  is_too_old-is_old : (now : ℕ) (op : Operation) → is_too_old now op ≡ is_old (now, op)
  unfolding is_too_old
  is_too_old-is_old now op = ground arith

  settle-IsCount :
      (now : ℕ) (op : Operation) (stats : RecoveryStats)
      → is_old (now, op) ≡ false
      → IsCount
          ((now, op) ∷ [])
          stats
          (settle error
            (expected op.operation_type)
            (record op { status = recovering })
            (count_recovered stats)).1
  unfolding settle count_recovered
  settle-IsCount now op stats young = elim (Bool-cases (nothing_left op.operation_type)) [
    | inl done ↦ record {
      recovered = ground (arith, young, done);
      done = ground (arith, young, done);
      given_up = ground (arith, young, done);
      abandoned = ground (arith, young, done);
    }
    | inr rest ↦ elim (Bool-cases (is_refused op.operation_type)) [
      | inl refused ↦ record {
        recovered = ground (arith, young, rest, refused);
        done = ground (arith, young, rest, refused);
        given_up = ground (arith, young, rest, refused);
        abandoned = ground (arith, young, rest, refused);
      }
      | inr taken ↦ record {
        recovered = ground (arith, young, rest, taken);
        done = ground (arith, young, rest, taken);
        given_up = ground (arith, young, rest, taken);
        abandoned = ground (arith, young, rest, taken);
      }
    ]
  ]

  process-IsCount :
      (now : ℕ) (op : Operation) (stats : RecoveryStats) (m : RecoveryManager)
      → IsCount ((now, op) ∷ []) stats (process accepts error now op (stats, m)).0
  unfolding process attempt count_abandoned count_recovered
  process-IsCount now op stats m = elim (Bool-cases (is_old (now, op))) [
    | inl old ↦
        let skipped : is_too_old now op ≡ true = is_too_old-is_old now op ∙ old in
        rw (skipped, process)
          (record {
            recovered = ground (arith, old);
            done = ground (arith, old);
            given_up = ground (arith, old);
            abandoned = ground (arith, old);
          })
    | inr young ↦
        let tried : is_too_old now op ≡ false = is_too_old-is_old now op ∙ young in
        let marked : Operation = record op { status = recovering } in
        let outcome = recover_operation-expected op.operation_type (save_operation marked m) in
        rw (tried, outcome, process) (settle-IsCount now op stats young)
  ]

  IsCount-∷ :
      (op : ℕ × Operation) (ops : List (ℕ × Operation)) (first then_ last : RecoveryStats)
      → IsCount (op ∷ []) first then_
      → IsCount ops then_ last
      → IsCount (op ∷ ops) first last
  IsCount-∷ op ops first then_ last h t =
      let all : IsCount (op ∷ ops) first last = record {
        recovered = omega (arith, h.recovered, t.recovered);
        done = omega (arith, h.done, t.done);
        given_up = omega (arith, h.given_up, t.given_up);
        abandoned = omega (arith, h.abandoned, t.abandoned);
      } in
      all

  process_all-IsCount :
      (ops : List (ℕ × Operation)) (stats : RecoveryStats) (m : RecoveryManager)
      → IsCount ops stats (process_all accepts error ops (stats, m)).0
  unfolding process_all
  process_all-IsCount [] stats m = record {
    recovered = omega arith;
    done = omega arith;
    given_up = omega arith;
    abandoned = omega arith;
  }
  process_all-IsCount ((now, op) ∷ ops) stats m =
      let (stats', m') = process accepts error now op (stats, m) in
      IsCount-∷ (now, op) ops stats stats' _ (process-IsCount now op stats m)
        (process_all-IsCount ops stats' m')

  -- A start takes each operation that is loaded at its turn. It counts all of them as recovered; those that were started 25 hours
  -- before their turn, or earlier, as abandoned; of the others those with nothing left to do as completed, and the transfers that
  -- are refused for the third time, or later, as failed; and nothing else.
  pub recover_on_startup-IsCount :
      (clock : ℕ → ℕ) (m : RecoveryManager)
      → IsCount
          (at_turns clock 0 (load_recovery_log m))
          empty_stats
          (recover_on_startup accepts error clock m).0
  unfolding recover_on_startup
  recover_on_startup-IsCount clock m =
      process_all-IsCount (at_turns clock 0 (load_recovery_log m)) empty_stats m
