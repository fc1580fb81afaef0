-- ===== src/Resume/Sessions.antt =====
-- A session that is resumed after its updates.
use landropic.Prelude.{
  ℕ, ◌+◌, ◌-◌, ◌*◌, ◌≤◌, ◌<◌, List, [], ◌∷◌, some, Bool, true, false, Str, length, ltb, ◌≡◌, refl,
  ◌∙◌, arith,
}
use mathlib.Core.Path.{subst, sym}
use mathlib.Core.Option
use landropic.Bloom.Handler.{
  DiffStage, initializing, exchanging_summaries, comparing_manifests, requesting_details,
  transferring_chunks, completed,
}
use landropic.Prelude.Outcome.{panicked}
use landropic.Prelude.Dict.{lookup, insert, lookup-insert_self}
use landropic.Resume.{
  ResumeCheckpoint, ResumeManager, CheckpointUpdate, stage_update, progress, chunk_transferred,
  chunk_failed, bytes_transferred, error, complete, apply_stage, apply_update, update_checkpoint,
  initial_checkpoint, save_checkpoint, start_resumable_session, can_resume_session,
}
use landropic.Resume.Resuming.{resume_session}

-- The updates of a session in turn, each with its instant
unfoldable pub update_all : Str → List (ℕ × CheckpointUpdate) → ResumeManager → ResumeManager
update_all session_id [] m = m
update_all session_id ((now, update) ∷ updates) m =
    update_all session_id updates (update_checkpoint now session_id update m)

apply_stage-needed :
    (stage : DiffStage) (c : ResumeCheckpoint)
    → (apply_stage stage c).total_chunks_needed ≡ c.total_chunks_needed
unfolding apply_stage
apply_stage-needed initializing c = refl
apply_stage-needed exchanging_summaries c = refl
apply_stage-needed comparing_manifests c = refl
apply_stage-needed requesting_details c = refl
apply_stage-needed transferring_chunks c = refl
apply_stage-needed completed c = refl

apply_update-needed :
    (update : CheckpointUpdate) (c : ResumeCheckpoint)
    → (apply_update update c).total_chunks_needed ≡ c.total_chunks_needed
unfolding apply_update
apply_update-needed (stage_update stage) c = apply_stage-needed stage c
apply_update-needed (progress percent) c = refl
apply_update-needed (chunk_transferred chunk_hash) c = ground arith
apply_update-needed (chunk_failed chunk_hash) c = refl
apply_update-needed (bytes_transferred bytes) c = refl
apply_update-needed (error message) c = refl
apply_update-needed complete c = refl

-- The checkpoint of the session does not say that any chunk is needed.
abbrev NeedsNone : Str → ResumeManager → Type 0
NeedsNone session_id m =
    (c : ResumeCheckpoint) × ((lookup session_id m.checkpoints ≡ some c)
      × (c.total_chunks_needed ≡ 0))

update_all-NeedsNone :
    (session_id : Str) (updates : List (ℕ × CheckpointUpdate)) (m : ResumeManager)
    → NeedsNone session_id m
    → NeedsNone session_id (update_all session_id updates m)
unfolding update_all update_checkpoint
update_all-NeedsNone session_id [] m h = h
update_all-NeedsNone session_id ((now, update) ∷ updates) m (c, (there, none_needed)) =
    let c' : ResumeCheckpoint = apply_update update (record c { last_updated = now }) in
    let m' : ResumeManager = record m { checkpoints = insert session_id c' m.checkpoints } in
    let updated : update_checkpoint now session_id update m ≡ m' =
      rw (there, update_checkpoint) refl in
    update_all-NeedsNone session_id updates (update_checkpoint now session_id update m) (
      subst (NeedsNone session_id) (sym updated) (
        c',
        (
          lookup-insert_self session_id c' m.checkpoints,
          apply_update-needed update (record c { last_updated = now }) ∙ none_needed,
        ),
      ))

start-NeedsNone :
    (now : ℕ) (session_id peer_id folder_path : Str) (m : ResumeManager)
    → NeedsNone session_id (start_resumable_session now session_id peer_id folder_path m)
unfolding start_resumable_session save_checkpoint initial_checkpoint
start-NeedsNone now session_id peer_id folder_path m = (
  initial_checkpoint now session_id peer_id folder_path,
  (lookup-insert_self session_id _ m.checkpoints, refl),
)

module _ (decimal : ℕ → Str) where
  -- With overflow checks: a session is started and then updated in any way, and its checkpoint lists a transferred chunk. While
  -- the checkpoint is below 100 percent and less than a day old, can_resume_session says that the session can be resumed,
  -- and resume_session panics.
  pub update_all-resume_session :
      (started now : ℕ) (folder_exists : Bool) (session_id peer_id folder_path : Str)
      (updates : List (ℕ × CheckpointUpdate)) (m : ResumeManager) (c : ResumeCheckpoint)
      → lookup session_id
          (update_all session_id updates
            (start_resumable_session started session_id peer_id folder_path m)).checkpoints
        ≡ some c
      → 0 < length c.chunks_transferred
      → c.progress_percent < 100
      → c.last_updated ≤ now
      → now < c.last_updated + 24 * 60 * 60
      → let m' =
          update_all session_id updates
            (start_resumable_session started session_id peer_id folder_path m) in
        (can_resume_session now session_id m' ≡ some true)
        × (resume_session decimal now folder_exists session_id m' ≡ panicked)
  unfolding can_resume_session resume_session
  update_all-resume_session started now folder_exists session_id peer_id folder_path updates m c
        found some_chunk unfinished after soon =
      let m0 = start_resumable_session started session_id peer_id folder_path m in
      let (d, (there, none_needed)) =
        update_all-NeedsNone session_id updates m0
          (start-NeedsNone started session_id peer_id folder_path m) in
      let same : d ≡ c = Option.some_inj.0 (sym there ∙ found) in
      let needed : c.total_chunks_needed ≡ 0 =
        subst (λ (x : ResumeCheckpoint). x.total_chunks_needed ≡ 0) same none_needed in
      let below : ltb c.total_chunks_needed (length c.chunks_transferred) ≡ true =
        ground (arith, needed, some_chunk) in
      let ordered : ltb now c.last_updated ≡ false = ground (arith, after) in
      let recent : ltb (now - c.last_updated) (24 * 60 * 60) ≡ true = ground (arith, soon) in
      let incomplete : ltb c.progress_percent 100 ≡ true = ground (arith, unfinished) in
      (
        rw (found, can_resume_session) (rw (ordered, recent, incomplete) refl),
        rw (found, resume_session) (rw below refl),
      )
