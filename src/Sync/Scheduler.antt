-- ===== src/Sync/Scheduler.antt =====
-- landro-sync/src/scheduler.rs: TransferScheduler. The queue of the crate priority_queue is an interface:
-- its operations and the laws of its length that the scheduler relies on.
pub mod Limits
mod Tests
use landropic.Prelude.{
  ℕ, suc, ◌+◌, ◌-◌, ◌≤◌, ◌<◌, List, [], ◌∷◌, Option, none, some, Str, leb, ltb, if◌then◌else◌, ◌≡◌,
  refl, arith, Option-cases, Bool-cases, inl, inr, ◌⊎◌,
}

pub data TransferPriority : Type 0 where
  low : TransferPriority
  normal : TransferPriority
  high : TransferPriority
  critical : TransferPriority

pub record TransferRequest : Type 0 where
  pub peer_id : Str
  pub chunk_hash : Str
  pub file_path : Str
  pub size : ℕ

-- PriorityQueue<TransferRequest, TransferPriority>
pub record PriorityQueue (Q : Type 0) : Type 0 where
  pub empty : Q
  pub push : TransferRequest → TransferPriority → Q → Q
  pub pop : Q → Option ((TransferRequest × TransferPriority) × Q)
  pub len : Q → ℕ
  pub empty_len : len empty ≡ 0
  pub pop_none : (q : Q) → pop q ≡ none → len q ≡ 0
  pub pop_some :
      (q : Q) (x : TransferRequest × TransferPriority) (q' : Q)
      → pop q ≡ some (x, q')
      → len q ≡ len q' + 1

pub record TransferScheduler (Q : Type 0) : Type 0 where
  pub queue : Q
  pub max_concurrent : ℕ
  pub active_transfers : ℕ

pub data Operation : Type 0 where
  schedules : TransferRequest → TransferPriority → Operation
  asks : Operation
  completes : Operation

module _ {Q : Type 0} (queues : PriorityQueue Q) where
  unfoldable pub new : ℕ → TransferScheduler Q
  new max_concurrent = record {
    queue = queues.empty;
    max_concurrent = max_concurrent;
    active_transfers = 0;
  }

  unfoldable pub schedule :
      TransferRequest → TransferPriority → TransferScheduler Q → TransferScheduler Q
  schedule request priority s = record s { queue = queues.push request priority s.queue }

  -- The request that was popped, and the scheduler that counts it.
  unfoldable pub hand_out :
      Option ((TransferRequest × TransferPriority) × Q)
      → TransferScheduler Q
      → Option TransferRequest × TransferScheduler Q
  hand_out none s = (none, s)
  hand_out (some ((request, priority), queue)) s =
      (some request, record s { queue = queue; active_transfers = s.active_transfers + 1 })

  unfoldable pub next_transfer : TransferScheduler Q → Option TransferRequest × TransferScheduler Q
  unfolding hand_out
  next_transfer s =
      if leb s.max_concurrent s.active_transfers then (none, s) else hand_out (queues.pop s.queue) s

  unfoldable pub complete_transfer : TransferScheduler Q → TransferScheduler Q
  complete_transfer s =
      if ltb 0 s.active_transfers then record s { active_transfers = s.active_transfers - 1 } else s

  unfoldable pub pending_count : TransferScheduler Q → ℕ
  pending_count s = queues.len s.queue

  -- The operations in turn, with the requests handed out and the completions so far.
  pub record Traced : Type 0 where
    pub scheduler : TransferScheduler Q
    pub handed_out : List TransferRequest
    pub completions : ℕ

  note : Option TransferRequest → List TransferRequest → List TransferRequest
  note none requests = requests
  note (some request) requests = request ∷ requests

  unfoldable pub step : Operation → Traced → Traced
  unfolding schedule next_transfer complete_transfer note
  step (schedules request priority) t = record t {
    scheduler = schedule request priority t.scheduler;
  }
  step asks t =
      let (request, s) = next_transfer t.scheduler in
      record t { scheduler = s; handed_out = note request t.handed_out }
  step completes t = record t {
    scheduler = complete_transfer t.scheduler;
    completions = t.completions + 1;
  }

  unfoldable pub run : List Operation → Traced → Traced
  unfolding step
  run [] t = t
  run (operation ∷ operations) t = run operations (step operation t)
