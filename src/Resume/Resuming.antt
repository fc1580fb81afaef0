-- ===== src/Resume/Resuming.antt =====
-- landro-daemon/src/resume_manager.rs: a session that is resumed, and the clean-up of old checkpoints.
use landropic.Prelude.{
  ℕ, ◌+◌, ◌-◌, ◌*◌, ◌/◌, ◌%◌, ◌^◌, max, List, [], ◌∷◌, ◌++◌, Option, none, some, Bool, true, false,
  not, ◌||◌, Str, codes, length, ltb, ◌==◌, if◌then◌else◌,
}
use landropic.Prelude.Outcome.{Outcome, ok, panicked, ◌>>=◌}
use landropic.Prelude.Dict.{Dict, lookup}
use landropic.Bloom.Handler.{
  DiffStage, initializing, exchanging_summaries, comparing_manifests, requesting_details,
  transferring_chunks, completed,
}
use landropic.Resume.{ResumeCheckpoint, ResumeManager, ResumeResult, save_checkpoint}

unfoldable pub count_empty : List Str → ℕ
count_empty [] = 0
count_empty ([] ∷ hashes) = count_empty hashes + 1
count_empty ((b ∷ bs) ∷ hashes) = count_empty hashes

-- The reason why the checkpoint is not valid, if it is not.
unfoldable pub validate_checkpoint : (ℕ → Str) → Bool → ResumeCheckpoint → Option Str
unfolding count_empty
validate_checkpoint decimal folder_exists c =
    let missing_chunks = count_empty c.chunks_transferred in
    if not folder_exists
    then some (codes "Folder no longer exists")
    else if ltb (length c.chunks_transferred / 2) missing_chunks
    then some (codes "Too many missing chunks: " ++ decimal missing_chunks)
    else none

-- A division by zero panics.
unfoldable pub average_chunk_size : ResumeCheckpoint → Outcome ℕ
average_chunk_size c =
    if ltb 0 c.total_chunks_needed
    then (if length c.chunks_transferred == 0
        then panicked
        else ok (c.bytes_transferred / length c.chunks_transferred))
    else ok (64 * 1024)

-- In seconds.
unfoldable pub estimate_time_saved : ResumeCheckpoint → Outcome ℕ
unfolding average_chunk_size
estimate_time_saved c = do
  avg_chunk_size ← average_chunk_size c
  ok (max (length c.chunks_transferred * avg_chunk_size % 2 ^ 64 / (10 * 1024 * 1024)) 1)

unfoldable pub resumed : ℕ → ℕ → ResumeCheckpoint → ResumeCheckpoint
resumed now time_saved c = record c {
  last_updated = now;
  retry_count = (c.retry_count + 1) % 2 ^ 32;
  bandwidth_stats = record c.bandwidth_stats {
    bytes_saved_by_resume =
        (c.bandwidth_stats.bytes_saved_by_resume + c.bytes_transferred) % 2 ^ 64;
    chunks_skipped = (c.bandwidth_stats.chunks_skipped + length c.chunks_transferred) % 2 ^ 64;
    time_saved_seconds = (c.bandwidth_stats.time_saved_seconds + time_saved) % 2 ^ 64;
  };
}

-- What follows the count of the remaining chunks
unfoldable pub prepare_resume :
    (ℕ → Str)
    → ℕ
    → Bool
    → ResumeCheckpoint
    → ResumeManager
    → Outcome (Option ResumeResult × ResumeManager)
unfolding validate_checkpoint estimate_time_saved resumed save_checkpoint
prepare_resume decimal now folder_exists c m = elim (validate_checkpoint decimal folder_exists c) [
  | some reason ↦ ok (
    some (record {
      success = false;
      reason = codes "Invalid checkpoint: " ++ reason;
      bytes_saved = 0;
      chunks_skipped = 0;
      time_saved = 0;
    }),
    m,
  )
  | none ↦ do
    time_saved ← estimate_time_saved c
    ok (
      some (record {
        success = true;
        reason = codes "Resume successful";
        bytes_saved = c.bytes_transferred;
        chunks_skipped = length c.chunks_transferred;
        time_saved = time_saved;
      }),
      save_checkpoint (resumed now time_saved c) m,
    )
]

-- The result, `none` where the checkpoint is not found, and the manager. The remaining chunks are
-- only logged, but to count them below 0 panics, as Cargo.toml has overflow checks in the dev profile.
unfoldable pub resume_session :
    (ℕ → Str) → ℕ → Bool → Str → ResumeManager → Outcome (Option ResumeResult × ResumeManager)
unfolding prepare_resume
resume_session decimal now folder_exists session_id m = elim (lookup session_id m.checkpoints) [
  | none ↦ ok (none, m)
  | some c ↦
      let prepared = prepare_resume decimal now folder_exists c m in
      if ltb c.total_chunks_needed (length c.chunks_transferred) then panicked else prepared
]

-- checkpoint.stage == DiffStage::Completed
unfoldable pub is_completed : DiffStage → Bool
is_completed initializing = false
is_completed exchanging_summaries = false
is_completed comparing_manifests = false
is_completed requesting_details = false
is_completed transferring_chunks = false
is_completed completed = true

-- retain(|_, checkpoint| ...)
unfoldable pub retain_recent : ℕ → Dict ResumeCheckpoint → Dict ResumeCheckpoint
unfolding is_completed
retain_recent cutoff [] = []
retain_recent cutoff ((k, c) ∷ checkpoints) =
    let rest = retain_recent cutoff checkpoints in
    if ltb cutoff c.last_updated || not (is_completed c.stage) then (k, c) ∷ rest else rest

-- The number of checkpoints that were removed, and the manager.
unfoldable pub cleanup_old_checkpoints : ℕ → ResumeManager → ℕ × ResumeManager
unfolding retain_recent
cleanup_old_checkpoints now m =
    let kept = retain_recent (now - 7 * 24 * 60 * 60) m.checkpoints in
    let removed : ℕ = length m.checkpoints - length kept in
    (removed, record m { checkpoints = kept; saved = if ltb 0 removed then some kept else m.saved })
