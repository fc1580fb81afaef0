-- ===== src/Sync/Scheduler/Tests.antt =====
-- Runs of the scheduler, with a stack in place of the queue.
use landropic.Prelude.{
  ◌⊎◌, ◌+◌, ◌≤◌, List, [], ◌∷◌, Option, none, some, codes, length, ◌≡◌, refl, arith,
}
use mathlib.Core.Option
use mathlib.Core.Path.{ap}
use landropic.Sync.Scheduler.{
  TransferRequest, TransferPriority, normal, high, PriorityQueue, TransferScheduler, Operation,
  schedules, asks, completes, run, next_transfer, hand_out, pending_count,
}
use landropic.Sync.Scheduler.Limits.{fresh, run-bounded, next_transfer-none}

abbrev Stack : Type 0
Stack = List (TransferRequest × TransferPriority)

abbrev pop : Stack → Option ((TransferRequest × TransferPriority) × Stack)
pop [] = none
pop (x ∷ xs) = some (x, xs)

pop_none : (q : Stack) → pop q ≡ none → length q ≡ 0
pop_none [] e = refl
pop_none (x ∷ xs) e = absurd cc

pop_some :
    (q : Stack) (x : TransferRequest × TransferPriority) (q' : Stack)
    → pop q ≡ some (x, q')
    → length q ≡ length q' + 1
pop_some [] x q' e = absurd cc
pop_some (y ∷ q) x q' e =
    let rest : q ≡ q' =
      ap (λ (p : (TransferRequest × TransferPriority) × Stack). p.1) (Option.some_inj.0 e) in
    let counted : length q ≡ length q' = ap (λ (xs : Stack). length xs) rest in
    omega (arith, counted)

abbrev stacks : PriorityQueue Stack
stacks = record {
  empty = [];
  push = λ request priority q. (request, priority) ∷ q;
  pop = pop;
  len = length;
  empty_len = refl;
  pop_none = pop_none;
  pop_some = pop_some;
}

abbrev request : TransferRequest
request = record { peer_id = codes "p"; chunk_hash = codes "aa"; file_path = codes "f"; size = 10 }

abbrev operations : List Operation
operations = schedules request normal ∷ schedules request high ∷ asks ∷ asks ∷ completes ∷ asks ∷ []

run-bounded_example :
    let t = run stacks operations (fresh stacks 1) in
    (t.scheduler.active_transfers ≤ 1) × (length t.handed_out ≤ 1 + t.completions)
run-bounded_example = run-bounded stacks 1 operations

abbrev busy : TransferScheduler Stack
busy = record { queue = (request, normal) ∷ []; max_concurrent = 1; active_transfers = 1 }

next_transfer-none_example :
    (busy.max_concurrent ≤ busy.active_transfers) ⊎ (pending_count stacks busy ≡ 0)
next_transfer-none_example = next_transfer-none stacks busy (unfold next_transfer hand_out in refl)
