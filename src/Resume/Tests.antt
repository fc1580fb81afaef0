-- ===== src/Resume/Tests.antt =====
-- Runs of the checkpoints.
use landropic.Prelude.{
  [], ◌∷◌, none, some, true, false, Str, codes, contains, str_eq, ◌≡◌, refl, arith,
}
use landropic.Prelude.Outcome.{panicked}
use landropic.Prelude.Dict.{lookup, insert}
use landropic.Bloom.Handler.{transferring_chunks}
use landropic.Resume.{
  ResumeCheckpoint, ResumeManager, chunk_transferred, chunk_failed, apply_update, update_checkpoint,
  start_resumable_session, initial_checkpoint, save_checkpoint, can_resume_session,
}
use landropic.Resume.Resuming.{estimate_time_saved, resume_session}
use landropic.Resume.Updates.{IsTidy, apply_all, apply_all-IsTidy}
use landropic.Resume.Sessions.{update_all-resume_session, update_all}

abbrev half : ResumeCheckpoint
half = record {
  session_id = codes "s";
  peer_id = codes "p";
  folder_path = codes "/f";
  created_at = 10;
  last_updated = 20;
  stage = transferring_chunks;
  progress_percent = 50;
  manifests_exchanged = true;
  bloom_summaries_complete = true;
  differences_identified = true;
  suspected_files = [];
  confirmed_differences = [];
  total_chunks_needed = 2;
  chunks_transferred = codes "aa" ∷ [];
  chunks_failed = codes "bb" ∷ [];
  bytes_transferred = 1000;
  bytes_total = 2000;
  connection_stable = false;
  retry_count = 0;
  last_error = none;
  bandwidth_stats = record {
    bytes_saved_by_resume = 0;
    chunks_skipped = 0;
    resume_overhead_bytes = 0;
    time_saved_seconds = 0;
  };
}

apply_all-IsTidy_example :
    IsTidy (apply_all (chunk_transferred (codes "bb") ∷ chunk_failed (codes "cc") ∷ []) half)
    × ((hash : Str)
        → contains half.chunks_transferred hash ≡ true
        → contains
            (apply_all
              (chunk_transferred (codes "bb") ∷ chunk_failed (codes "cc") ∷ [])
              half).chunks_transferred
            hash
          ≡ true)
unfolding contains
apply_all-IsTidy_example =
    apply_all-IsTidy (chunk_transferred (codes "bb") ∷ chunk_failed (codes "cc") ∷ []) half
      (record { transferred = (refl, tt); failed = (refl, tt) })

abbrev empty_manager : ResumeManager
empty_manager = record { checkpoints = []; saved = none; active_sessions = [] }

abbrev one_chunk : ResumeCheckpoint
one_chunk = record (initial_checkpoint 10 (codes "s") (codes "p") (codes "/f")) {
  last_updated = 20;
  chunks_transferred = codes "aa" ∷ [];
}

update_all-resume_session_example :
    let m =
      update_all
        (codes "s")
        ((20, chunk_transferred (codes "aa")) ∷ [])
        (start_resumable_session 10 (codes "s") (codes "p") (codes "/f") empty_manager) in
    (can_resume_session 30 (codes "s") m ≡ some true)
    × (resume_session (λ n. codes "0") 30 true (codes "s") m ≡ panicked)
unfolding lookup str_eq update_all update_checkpoint start_resumable_session initial_checkpoint
    insert save_checkpoint apply_update contains
update_all-resume_session_example =
    update_all-resume_session (λ n. codes "0") 10 30 true (codes "s") (codes "p") (codes "/f")
      ((20, chunk_transferred (codes "aa")) ∷ []) empty_manager one_chunk refl (omega arith)
      (omega arith) (omega arith) (omega arith)

-- A session that needs chunks and has transferred none cannot be resumed: the estimate divides by zero.
none_transferred : estimate_time_saved (record half { chunks_transferred = [] }) ≡ panicked
unfolding estimate_time_saved
none_transferred = refl

-- A chunk that fails after it was transferred is listed as both.
failed_after :
    (apply_update (chunk_failed (codes "aa")) half).chunks_failed ≡ codes "bb" ∷ codes "aa" ∷ []
unfolding apply_update contains str_eq
failed_after = refl
