-- ===== src/Resume.antt =====
-- landro-daemon/src/resume_manager.rs: the checkpoints of ResumeManager. Instants are numbers of
-- seconds; `saved` is the checkpoint file, whose writes succeed. Whether a folder exists is an argument,
-- and `decimal` prints a number.
pub mod Resuming
pub mod Updates
pub mod Sessions
mod Tests
use landropic.Prelude.{
  ℕ, ◌+◌, ◌-◌, ◌*◌, ◌/◌, ◌%◌, ◌^◌, max, List, [], ◌∷◌, ◌++◌, Option, none, some, Bool, true, false,
  not, ◌&&◌, ◌||◌, Str, codes, contains, str_eq, length, ltb, ◌==◌, if◌then◌else◌,
}
use landropic.Prelude.Outcome.{Outcome, ok, panicked, ◌>>=◌}
use landropic.Prelude.Dict.{Dict, lookup, insert}
use landropic.Bloom.Handler.{
  DiffStage, initializing, exchanging_summaries, comparing_manifests, requesting_details,
  transferring_chunks, completed,
}

pub record ResumeBandwidthStats : Type 0 where
  pub bytes_saved_by_resume : ℕ
  pub chunks_skipped : ℕ
  pub resume_overhead_bytes : ℕ
  pub time_saved_seconds : ℕ

pub record ResumeCheckpoint : Type 0 where
  pub session_id : Str
  pub peer_id : Str
  pub folder_path : Str
  pub created_at : ℕ
  pub last_updated : ℕ
  pub stage : DiffStage
  pub progress_percent : ℕ
  pub manifests_exchanged : Bool
  pub bloom_summaries_complete : Bool
  pub differences_identified : Bool
  pub suspected_files : List Str
  pub confirmed_differences : List Str
  pub total_chunks_needed : ℕ
  pub chunks_transferred : List Str
  pub chunks_failed : List Str
  pub bytes_transferred : ℕ
  pub bytes_total : ℕ
  pub connection_stable : Bool
  pub retry_count : ℕ
  pub last_error : Option Str
  pub bandwidth_stats : ResumeBandwidthStats

pub data CheckpointUpdate : Type 0 where
  stage_update : DiffStage → CheckpointUpdate
  progress : (percent : ℕ) → CheckpointUpdate
  chunk_transferred : (chunk_hash : Str) → CheckpointUpdate
  chunk_failed : (chunk_hash : Str) → CheckpointUpdate
  bytes_transferred : (bytes : ℕ) → CheckpointUpdate
  error : (message : Str) → CheckpointUpdate
  complete : CheckpointUpdate

pub record ResumeManager : Type 0 where
  pub checkpoints : Dict ResumeCheckpoint
  pub saved : Option (Dict ResumeCheckpoint)
  pub active_sessions : List Str

pub record ResumeResult : Type 0 where
  pub success : Bool
  pub reason : Str
  pub bytes_saved : ℕ
  pub chunks_skipped : ℕ
  pub time_saved : ℕ

-- ResumeManager::new, with the checkpoints of the file, if it is there and can be read.
unfoldable pub new : Option (Dict ResumeCheckpoint) → ResumeManager
new none = record { checkpoints = []; saved = none; active_sessions = [] }
new (some checkpoints) = record {
  checkpoints = checkpoints;
  saved = some checkpoints;
  active_sessions = [];
}

-- Every tenth checkpoint writes the file.
unfoldable pub save_checkpoint : ResumeCheckpoint → ResumeManager → ResumeManager
save_checkpoint checkpoint m =
    let checkpoints = insert checkpoint.session_id checkpoint m.checkpoints in
    record m {
      checkpoints = checkpoints;
      saved = if length checkpoints % 10 == 0 then some checkpoints else m.saved;
    }

unfoldable pub initial_checkpoint : ℕ → Str → Str → Str → ResumeCheckpoint
initial_checkpoint now session_id peer_id folder_path = record {
  session_id = session_id;
  peer_id = peer_id;
  folder_path = folder_path;
  created_at = now;
  last_updated = now;
  stage = initializing;
  progress_percent = 0;
  manifests_exchanged = false;
  bloom_summaries_complete = false;
  differences_identified = false;
  suspected_files = [];
  confirmed_differences = [];
  total_chunks_needed = 0;
  chunks_transferred = [];
  chunks_failed = [];
  bytes_transferred = 0;
  bytes_total = 0;
  connection_stable = true;
  retry_count = 0;
  last_error = none;
  bandwidth_stats = record {
    bytes_saved_by_resume = 0;
    chunks_skipped = 0;
    resume_overhead_bytes = 0;
    time_saved_seconds = 0;
  };
}

unfoldable pub start_resumable_session : ℕ → Str → Str → Str → ResumeManager → ResumeManager
unfolding save_checkpoint initial_checkpoint
start_resumable_session now session_id peer_id folder_path m =
    let stored = save_checkpoint (initial_checkpoint now session_id peer_id folder_path) m in
    record stored {
      active_sessions =
          if contains m.active_sessions session_id
          then m.active_sessions
          else session_id ∷ m.active_sessions;
    }

-- `none` is the error of a clock that went back.
unfoldable pub can_resume_session : ℕ → Str → ResumeManager → Option Bool
can_resume_session now session_id m = elim (lookup session_id m.checkpoints) [
  | none ↦ some false
  | some checkpoint ↦
      if ltb now checkpoint.last_updated
      then none
      else some (
          ltb (now - checkpoint.last_updated) (24 * 60 * 60) && ltb checkpoint.progress_percent 100)
]

-- retain(|h| h != chunk_hash)
unfoldable pub without : Str → List Str → List Str
without chunk_hash [] = []
without chunk_hash (h ∷ hs) =
    let rest = without chunk_hash hs in if str_eq h chunk_hash then rest else h ∷ rest

unfoldable pub apply_stage : DiffStage → ResumeCheckpoint → ResumeCheckpoint
apply_stage exchanging_summaries c = record c {
  stage = exchanging_summaries;
  manifests_exchanged = true;
}
apply_stage comparing_manifests c = record c {
  stage = comparing_manifests;
  bloom_summaries_complete = true;
}
apply_stage requesting_details c = record c {
  stage = requesting_details;
  differences_identified = true;
}
apply_stage initializing c = record c { stage = initializing }
apply_stage transferring_chunks c = record c { stage = transferring_chunks }
apply_stage completed c = record c { stage = completed }

unfoldable pub apply_update : CheckpointUpdate → ResumeCheckpoint → ResumeCheckpoint
unfolding without apply_stage
apply_update (stage_update stage) c = apply_stage stage c
apply_update (progress percent) c = record c { progress_percent = percent }
apply_update (chunk_transferred chunk_hash) c =
    if contains c.chunks_transferred chunk_hash then c else record c {
      chunks_transferred = c.chunks_transferred ++ chunk_hash ∷ [];
      chunks_failed = without chunk_hash c.chunks_failed;
    }
apply_update (chunk_failed chunk_hash) c = record c {
  chunks_failed =
      if contains c.chunks_failed chunk_hash
      then c.chunks_failed
      else c.chunks_failed ++ chunk_hash ∷ [];
  connection_stable = false;
}
apply_update (bytes_transferred bytes) c = record c { bytes_transferred = bytes }
apply_update (error message) c = record c { last_error = some message; connection_stable = false }
apply_update complete c = record c { progress_percent = 100; stage = completed }

unfoldable pub update_checkpoint : ℕ → Str → CheckpointUpdate → ResumeManager → ResumeManager
unfolding apply_update
update_checkpoint now session_id update m = elim (lookup session_id m.checkpoints) [
  | none ↦ m
  | some c ↦ record m {
    checkpoints =
        insert session_id (apply_update update (record c { last_updated = now })) m.checkpoints;
  }
]
