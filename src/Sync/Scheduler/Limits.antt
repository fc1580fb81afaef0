-- ===== src/Sync/Scheduler/Limits.antt =====
-- How many transfers the scheduler lets run, and when it refuses one.
use landropic.Prelude.{
  ℕ, ◌+◌, ◌≤◌, List, [], ◌∷◌, none, some, length, leb, ◌≡◌, refl, arith, Option-cases, Bool-cases,
  inl, inr, ◌⊎◌,
}
use mathlib.Core.Path.{sym, ◌∙◌}
use landropic.Sync.Scheduler.{
  PriorityQueue, TransferScheduler, Operation, schedules, asks, completes, new, schedule, hand_out,
  next_transfer, complete_transfer, pending_count, Traced, step, run,
}

module _ {Q : Type 0} (queues : PriorityQueue Q) (limit : ℕ) where
  -- At most `limit` transfers are active, and those handed out are active or were completed.
  record IsLimited (t : Traced queues) : Type 0 where
    limited : t.scheduler.max_concurrent ≡ limit
    active : t.scheduler.active_transfers ≤ limit
    balanced : length t.handed_out ≤ t.scheduler.active_transfers + t.completions

  step-IsLimited :
      (operation : Operation) (t : Traced queues)
      → IsLimited t
      → IsLimited (step queues operation t)
  unfolding step schedule next_transfer hand_out complete_transfer
  step-IsLimited (schedules request priority) t v = record {
    limited = v.limited;
    active = v.active;
    balanced = v.balanced;
  }
  step-IsLimited completes t v = record {
    limited = ground (arith, v.limited);
    active = ground (arith, v.active);
    balanced = ground (arith, v.balanced);
  }
  step-IsLimited asks t v =
      elim (Bool-cases (leb t.scheduler.max_concurrent t.scheduler.active_transfers)) [
        | inl full ↦
            rw (full, next_transfer)
              (record { limited = v.limited; active = v.active; balanced = v.balanced })
        | inr free ↦ elim (Option-cases (queues.pop t.scheduler.queue)) [
          | inl e ↦
              rw (free, e, next_transfer)
                (record { limited = v.limited; active = v.active; balanced = v.balanced })
          | inr (((request, priority), queue), e) ↦
              rw (free, e, next_transfer)
                (record {
                  limited = v.limited;
                  active = ground (arith, free, v.limited, v.active);
                  balanced = ground (arith, v.balanced);
                })
        ]
      ]

  run-IsLimited :
      (operations : List Operation) (t : Traced queues)
      → IsLimited t
      → IsLimited (run queues operations t)
  unfolding run
  run-IsLimited [] t v = v
  run-IsLimited (operation ∷ operations) t v =
      run-IsLimited operations (step queues operation t) (step-IsLimited operation t v)

  abbrev pub fresh : Traced queues
  fresh = record { scheduler = new queues limit; handed_out = []; completions = 0 }

  -- Over any operations on a new scheduler, at most `max_concurrent` transfers are active, and no more are handed
  -- out than that many beyond the completions.
  pub run-bounded :
      (operations : List Operation)
      → let t = run queues operations fresh in
        (t.scheduler.active_transfers ≤ limit) × (length t.handed_out ≤ limit + t.completions)
  unfolding new
  run-bounded operations =
      let v =
        run-IsLimited operations fresh
          (record { limited = refl; active = omega arith; balanced = omega arith }) in
      (v.active, omega (arith, v.active, v.balanced))

-- A scheduler that refuses a transfer is at its limit, or has nothing pending.
pub next_transfer-none :
    {Q : Type 0} (queues : PriorityQueue Q) (s : TransferScheduler Q)
    → (next_transfer queues s).0 ≡ none
    → (s.max_concurrent ≤ s.active_transfers) ⊎ (pending_count queues s ≡ 0)
unfolding next_transfer hand_out pending_count
next_transfer-none queues s e = elim (Bool-cases (leb s.max_concurrent s.active_transfers)) [
  | inl full ↦ inl (ground (arith, full))
  | inr free ↦ elim (Option-cases (queues.pop s.queue)) [
    | inl empty ↦ inr (queues.pop_none s.queue empty)
    | inr (((request, priority), queue), f) ↦
        let handed : (next_transfer queues s).0 ≡ some request = rw (free, f, next_transfer) refl in
        let absurdity : none ≡ some request = sym e ∙ handed in absurd cc
  ]
]
